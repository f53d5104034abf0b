-- ===== src/Client/Replies.antt =====
-- Which of the arriving messages a one-shot client takes for its answer (client.go).
use remotecmd_cli.Prelude.{
  ◌≡◌, refl, ap, ◌∙◌, String, Bool, true, false, ◌&&◌, none, List, [], ◌∷◌, arith, ◌==◌, eq_iff,
  if◌then◌else◌,
}
use remotecmd_cli.Protocol.{Message, header}
use remotecmd_cli.Config.{Config}
use remotecmd_cli.Client.{Inbox, arrives, Link, done, exchange, first_reply, send_to_relay, with_id}

-- Messages that arrive in front of others.
abbrev pub arriving : List Message → Inbox → Inbox
arriving [] rest = rest
arriving (m ∷ ms) rest = arrives m (arriving ms rest)

-- No message of the list bears the identifier.
abbrev pub none_bears : String → List Message → Bool
none_bears id [] = true
none_bears id (m ∷ ms) = (if (header m).id == id then false else true) && none_bears id ms

pub first_reply-arriving :
    (id : String) (ms : List Message) (rest : Inbox)
    → none_bears id ms ≡ true
    → first_reply id (arriving ms rest) ≡ first_reply id rest
unfolding first_reply
first_reply-arriving id [] rest h = refl
first_reply-arriving id (m ∷ ms) rest h =
    ground (arith, h, first_reply-arriving id ms rest (ground (arith, h)))

-- The connection is made and the request written.
unfoldable pub IsOpen : Config → Link → Type 0
IsOpen cfg link =
    ((cfg.relay.url == "") ≡ false) × (link.dial_error ≡ none) × (link.write_error ≡ none)

pub send_to_relay-open :
    (cfg : Config) (link : Link) (m : Message)
    → IsOpen cfg link
    → (send_to_relay cfg link m).returned
      ≡ first_reply (header (with_id link.new_id m)).id (link.answers (with_id link.new_id m))
unfolding send_to_relay exchange IsOpen
send_to_relay-open cfg link m (url, dialled, written) = ground (arith, url, dialled, written)

-- sendToRelay, on a connection that is made and takes the request, returns the first message that bears
-- the request's identifier, whatever arrives before it under others and whatever comes after it.
pub send_to_relay-first :
    (cfg : Config) (link : Link) (m answer : Message) (before : List Message) (after : Inbox)
    → IsOpen cfg link
    → link.answers (with_id link.new_id m) ≡ arriving before (arrives answer after)
    → none_bears (header (with_id link.new_id m)).id before ≡ true
    → (header answer).id ≡ (header (with_id link.new_id m)).id
    → (send_to_relay cfg link m).returned ≡ done answer
unfolding first_reply
send_to_relay-first cfg link m answer before after ready arrived others own =
    let id = (header (with_id link.new_id m)).id in
    send_to_relay-open cfg link m ready
    ∙ ap (first_reply id) arrived
    ∙ first_reply-arriving id before (arrives answer after) others
    ∙ ground (arith, own, eq_iff (header answer).id id)
