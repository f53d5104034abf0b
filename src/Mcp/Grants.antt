-- ===== src/Mcp/Grants.antt =====
-- What the tools of the MCP server write to the relay (mcp_tools.go).
use remotecmd_cli.Prelude.{
  ◌≡◌, refl, ap, map, ◌⊎◌, String, true, not, ◌||◌, some, List, [], ◌∷◌, arith, ◌==◌, Option-cases,
  if_cases, inl, inr,
}
use remotecmd_cli.Prelude.Int.{ℤ, pos}
use remotecmd_cli.Dict
use remotecmd_cli.Protocol.{Message, header}
use remotecmd_cli.Relay.Client.{Packet, json}
use remotecmd_cli.Config.{Config, TargetConfig}
use remotecmd_cli.Client.{Link, Try, done, failed, relay_target, with_id, send_to_relay, exchange}
use remotecmd_cli.Mcp.Json.{Codec, ExecParams, CpParams, Decoded, decoded, malformed}
use remotecmd_cli.Mcp.Tools.{
  Host, ToolRun, with_config, tool_request, tool_exec_with, tool_exec_on, cp_on, health_with,
  health_on, cp_on, cp_with, mcp_list_targets, mcp_exec, mcp_cp, mcp_health, execute_mcp_tool,
  default_timeout,
}

-- The message is a command for a target of the host's configuration, with the target's token.
unfoldable pub IsGranted : Host → Message → Type 0
IsGranted host m =
    (cfg : Config) × (alias : String) × (tgt : TargetConfig) × (host.config ≡ done cfg)
    × (Dict.get cfg.targets alias ≡ some tgt)
    × ((header m).kind ≡ "execute")
    × ((header m).target ≡ relay_target alias tgt)
    × ((header m).token ≡ tgt.token)

-- The frames are those of the transfer of a file that is there to a target of the host's configuration.
unfoldable pub IsTransfer : Host → List Packet → Type 0
IsTransfer host sent =
    (cfg : Config) × (alias : String) × (tgt : TargetConfig) × (source : String)
    × (destination : String) × (host.config ≡ done cfg)
    × (Dict.get cfg.targets alias ≡ some tgt)
    × (host.file_exists source ≡ true)
    × (sent ≡ (host.transfer alias source destination).frames)

-- One message that is granted was sent, or the frames of one such transfer.
unfoldable pub IsOneRequest : Host → List Packet → Type 0
IsOneRequest host sent =
    ((m : Message) × (sent ≡ json m ∷ []) × IsGranted host m) ⊎ IsTransfer host sent

-- Nothing was sent, or what one request may send.
unfoldable pub AreGranted : Host → List Packet → Type 0
AreGranted host sent = (sent ≡ []) ⊎ IsOneRequest host sent

abbrev IsHarmless : Host → ToolRun → Type 0
IsHarmless host run = AreGranted host run.sent

send_to_relay-sent :
    (cfg : Config) (link : Link) (m : Message)
    → ((send_to_relay cfg link m).sent ≡ [])
      ⊎ ((send_to_relay cfg link m).sent ≡ with_id link.new_id m ∷ [])
unfolding send_to_relay exchange
send_to_relay-sent cfg link m = elim (Option-cases link.dial_error) [
  | inl dialled ↦ elim (Option-cases link.write_error) [
    | inl written ↦ ground (arith, dialled, written)
    | inr (e, bad) ↦ ground (arith, dialled, bad)
  ]
  | inr (e, bad) ↦ ground (arith, bad)
]

-- What a tool sends for a configured target.
tool_request-AreGranted :
    (host : Host) (cfg : Config) (alias : String) (tgt : TargetConfig) (cmd : String) (timeout : ℤ)
    → host.config ≡ done cfg
    → Dict.get cfg.targets alias ≡ some tgt
    → AreGranted host
        (map json (send_to_relay cfg host.link (tool_request alias tgt cmd timeout)).sent)
unfolding AreGranted IsOneRequest IsGranted
tool_request-AreGranted host cfg alias tgt cmd timeout loaded known =
    let m = tool_request alias tgt cmd timeout in
    elim (send_to_relay-sent cfg host.link m) [
      | inl quiet ↦ inl (ap (map json) quiet)
      | inr sent ↦ inr (
          inl (
            with_id host.link.new_id m,
            ap (map json) sent,
            (cfg, alias, tgt, loaded, known, refl, refl, refl),
          ))
    ]

Decoded-cases :
    {A : Type 0} (d : Decoded A) → ((a : A) × (d ≡ decoded a)) ⊎ ((e : String) × (d ≡ malformed e))
Decoded-cases (decoded a) = inl (a, refl)
Decoded-cases (malformed e) = inr (e, refl)

nothing-AreGranted : (host : Host) → AreGranted host []
unfolding AreGranted
nothing-AreGranted host = inl refl

module _ (codec : Codec) (host : Host) where
  with_config-AreGranted :
      (t : Try Config) (rest : Config → ToolRun)
      → ((cfg : Config) → t ≡ done cfg → AreGranted host (rest cfg).sent)
      → AreGranted host (with_config host t rest).sent
  with_config-AreGranted (failed e) rest h = nothing-AreGranted host
  with_config-AreGranted (done cfg) rest h = h cfg refl

  with_config-quiet :
      (t : Try Config) (rest : Config → ToolRun)
      → ((cfg : Config) → (rest cfg).sent ≡ [])
      → (with_config host t rest).sent ≡ []
  with_config-quiet (failed e) rest h = refl
  with_config-quiet (done cfg) rest h = h cfg

  tool_exec_on-AreGranted :
      (p : ExecParams) (cfg : Config)
      → host.config ≡ done cfg
      → AreGranted host (tool_exec_on codec host p cfg).sent
  tool_exec_on-AreGranted p cfg loaded = elim (Option-cases (Dict.get cfg.targets p.target)) [
    | inl missing ↦ rw (missing, tool_exec_on) (nothing-AreGranted host)
    | inr (tgt, known) ↦
        rw (known, tool_exec_on)
          (tool_request-AreGranted host cfg p.target tgt p.command (default_timeout p.timeout)
            loaded known)
  ]

  health_on-AreGranted :
      (target : String) (cfg : Config)
      → host.config ≡ done cfg
      → AreGranted host (health_on codec host target cfg).sent
  health_on-AreGranted target cfg loaded = elim (Option-cases (Dict.get cfg.targets target)) [
    | inl missing ↦ rw (missing, health_on) (nothing-AreGranted host)
    | inr (tgt, known) ↦
        rw (known, health_on)
          (tool_request-AreGranted host cfg target tgt "echo ok" (pos 5) loaded known)
  ]

  cp_on-AreGranted :
      (p : CpParams) (cfg : Config)
      → host.config ≡ done cfg
      → host.file_exists p.source ≡ true
      → AreGranted host (cp_on codec host p cfg).sent
  unfolding AreGranted IsOneRequest IsTransfer
  cp_on-AreGranted p cfg loaded there = elim (Option-cases (Dict.get cfg.targets p.target)) [
    | inl missing ↦ rw (missing, cp_on) (inl refl)
    | inr (tgt, known) ↦
        rw (known, cp_on)
          (inr (inr (cfg, p.target, tgt, p.source, p.destination, loaded, known, there, refl)))
  ]

  cp_with-AreGranted : (p : CpParams) → AreGranted host (cp_with codec host p).sent
  cp_with-AreGranted p =
      if_cases (IsHarmless host) (p.target == "" || p.source == "" || p.destination == "") _ _
        (λ e. nothing-AreGranted host)
        (λ e.
          if_cases (IsHarmless host) (not (host.file_exists p.source)) _ _
            (λ e. nothing-AreGranted host)
            (λ there.
              with_config-AreGranted host.config _
                (λ cfg loaded. cp_on-AreGranted p cfg loaded (ground (arith, there)))))

  mcp_cp-AreGranted : (args : String) → AreGranted host (mcp_cp codec host args).sent
  unfolding mcp_cp
  mcp_cp-AreGranted args = elim (Decoded-cases (codec.decode_cp args)) [
    | inl (p, ok) ↦ rw (ok, mcp_cp) (cp_with-AreGranted p)
    | inr (e, bad) ↦ rw (bad, mcp_cp) (nothing-AreGranted host)
  ]

  tool_exec_with-AreGranted : (p : ExecParams) → AreGranted host (tool_exec_with codec host p).sent
  tool_exec_with-AreGranted p =
      if_cases (IsHarmless host) (p.target == "" || p.command == "") _ _
        (λ e. nothing-AreGranted host)
        (λ e. with_config-AreGranted host.config _ (tool_exec_on-AreGranted p))

  health_with-AreGranted : (target : String) → AreGranted host (health_with codec host target).sent
  health_with-AreGranted target =
      if_cases (IsHarmless host) (target == "") _ _ (λ e. nothing-AreGranted host)
        (λ e. with_config-AreGranted host.config _ (health_on-AreGranted target))

  mcp_exec-AreGranted : (args : String) → AreGranted host (mcp_exec codec host args).sent
  unfolding mcp_exec
  mcp_exec-AreGranted args = elim (Decoded-cases (codec.decode_exec args)) [
    | inl (p, ok) ↦ rw (ok, mcp_exec) (tool_exec_with-AreGranted p)
    | inr (e, bad) ↦ rw (bad, mcp_exec) (nothing-AreGranted host)
  ]

  mcp_health-AreGranted : (args : String) → AreGranted host (mcp_health codec host args).sent
  unfolding mcp_health
  mcp_health-AreGranted args = elim (Decoded-cases (codec.decode_health args)) [
    | inl (p, ok) ↦ rw (ok, mcp_health) (health_with-AreGranted p)
    | inr (e, bad) ↦ rw (bad, mcp_health) (nothing-AreGranted host)
  ]

  pub execute_mcp_tool-AreGranted :
      (name args : String) → AreGranted host (execute_mcp_tool codec host name args).sent
  unfolding execute_mcp_tool mcp_list_targets AreGranted
  execute_mcp_tool-AreGranted name args =
      if_cases (IsHarmless host) (name == "rcmd_list_targets") _ _
        (λ e. inl (with_config-quiet host.config _ (λ cfg. refl)))
        (λ e.
          if_cases (IsHarmless host) (name == "rcmd_exec") _ _ (λ e. mcp_exec-AreGranted args)
            (λ e.
              if_cases (IsHarmless host) (name == "rcmd_cp") _ _ (λ e. mcp_cp-AreGranted args)
                (λ e.
                  if_cases (IsHarmless host) (name == "rcmd_health") _ _
                    (λ e. mcp_health-AreGranted args) (λ e. inl refl))))
