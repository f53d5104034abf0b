-- ===== src/Relay/Pair.antt =====
-- handlePairListen and handlePair of relay_handler.go.
use remotecmd_cli.Prelude.{ℕ, String, Bool, not, ◌&&◌, ◌||◌, none, some, ◌==◌, if◌then◌else◌}
use remotecmd_cli.Dict
use remotecmd_cli.Protocol.{Header, Message, blank, flat, error_message}
use remotecmd_cli.Relay.State.{Relay, World, PairListener, send}

-- handlePairListen: a later listener for the code replaces an earlier one.
unfoldable pub handle_pair_listen : World → ℕ → Header → Relay → Relay
handle_pair_listen w rc h s =
    if h.code == "" then send w rc (error_message "pair_listen requires code") s else record s {
      pair_listeners =
          Dict.put s.pair_listeners h.code
            (record { conn = rc; require_activation_key = h.require_activation_key });
    }

abbrev pub key_rejected : String
key_rejected = "pair rejected: activation key required but not provided or invalid"

-- The "pair_done" message for the listener.
unfoldable pub pair_done : Header → Message
pair_done h =
    flat
      (record blank { kind = "pair_done"; code = h.code; token = h.token; hostname = h.hostname })

unfoldable pub pair_confirmed : Header → Message
pair_confirmed h = flat (record blank { kind = "pair_confirmed"; code = h.code })

-- What handlePair asks of the key that a daemon brings.
unfoldable pub key_accepted : World → PairListener → Header → Bool
key_accepted w l h =
    not l.require_activation_key
    || (not (h.activation_key == "") && w.is_valid_key h.activation_key)

-- The listener was taken out of the map; a rejected daemon puts it back.
abbrev pub pair_with : World → ℕ → Header → PairListener → Relay → Relay
pair_with w rc h l s =
    if key_accepted w l h
    then send w rc (pair_confirmed h) (send w l.conn (pair_done h) s)
    else (let told = send w rc (error_message key_rejected) s in
        record told { pair_listeners = Dict.put told.pair_listeners h.code l })

-- handlePair
unfoldable pub handle_pair : World → ℕ → Header → Relay → Relay
unfolding key_accepted
handle_pair w rc h s =
    if h.code == "" || h.token == ""
    then send w rc (error_message "pair requires code and token") s
    else elim (Dict.get s.pair_listeners h.code) [
      | none ↦ s
      | some l ↦
          pair_with w rc h l (record s { pair_listeners = Dict.remove s.pair_listeners h.code })
    ]
