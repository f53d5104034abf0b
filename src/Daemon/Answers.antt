-- ===== src/Daemon/Answers.antt =====
-- The answers of the daemon to a command (executeCommand of daemon.go).
use remotecmd_cli.Prelude.{String, ◌≡◌, Option, none, List, [], ◌∷◌, ◌++◌, All, ◌⊎◌}
use remotecmd_cli.Protocol.{Header, Message, header}
use remotecmd_cli.Daemon.Commands.{System, running, timeout_of}

-- A message that ends the request `id`, and a message in between.
abbrev pub IsAnswer : String → Message → Type 0
IsAnswer id m =
    ((header m).id ≡ id) × (((header m).kind ≡ "result") ⊎ ((header m).kind ≡ "stream_end"))

abbrev pub IsOutput : String → Message → Type 0
IsOutput id m = ((header m).id ≡ id) × ((header m).kind ≡ "stream_chunk")

-- Output messages, and then one answer.
pub Answered : String → List Message → Type 0
Answered id ms =
    (before : List Message) × (last : Message) × (ms ≡ before ++ last ∷ [])
    × All (IsOutput id) before
    × IsAnswer id last

-- The command's run is one that never ends: cmd.Run does not return, or the pipes are never closed.
unfoldable pub Hangs : System → Header → Type 0
Hangs sys h =
    (stdin : Option String) × ((sys.process h.cmd stdin (timeout_of h) ≡ none)
      ⊎ ((lines : List (String × String)) × (sys.launch h.cmd stdin (timeout_of h)
            ≡ running lines none)))

-- The command is answered, or its run never ends and what is sent is output alone.
unfoldable pub Concludes : System → Header → List Message → Type 0
Concludes sys h ms = Answered h.id ms ⊎ (Hangs sys h × All (IsOutput h.id) ms)
