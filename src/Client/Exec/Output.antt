-- ===== src/Client/Exec/Output.antt =====
-- What a user sees of a command on one target (handleExecWithStdin in client.go).
use remotecmd_cli.Prelude.{
  ◌≡◌, refl, ap, ◌∙◌, String, Bool, true, false, not, ◌&&◌, ◌||◌, Option, none, some, List, [], ◌∷◌,
  ◌++◌, ℕ, arith, ◌==◌, apart, append_assoc, if◌then◌else◌, Bool-cases, inl, inr,
}
use remotecmd_cli.Dict
use remotecmd_cli.Protocol.{Message, header}
use remotecmd_cli.Config.{Config, TargetConfig}
use remotecmd_cli.Health.{Cache, note_daemon_version}
use remotecmd_cli.Client.{Inbox, arrives, Link, done}
use remotecmd_cli.Client.Replies.{arriving, IsOpen}
use remotecmd_cli.Client.Exec.{
  Shown, Watched, react, watch, is_own, streaming, show_chunk, progress_complete, Command, Executed,
  exec_request, is_refused, printed_answer, finish, started, stdin_warning, and_then,
  handle_exec_with_stdin,
}

abbrev pub is_ending : String → Bool
is_ending kind = kind == "stream_end" || kind == "result"

-- No message of the list ends the request: those of its own are chunks, or of kinds that mean nothing.
abbrev pub none_ends : String → List Message → Bool
none_ends id [] = true
none_ends id (m ∷ ms) =
    (not (is_own id (header m)) || not (is_ending (header m).kind || (header m).kind == "error"))
    && none_ends id ms

abbrev pub is_chunk : String → Message → Bool
is_chunk id m = is_own id (header m) && (header m).kind == "stream_chunk"

-- The output of the request's own chunks, in their order.
unfoldable pub chunks_shown : Bool → String → List Message → List Shown
chunks_shown stream id [] = []
chunks_shown stream id (m ∷ ms) =
    let rest = chunks_shown stream id ms in
    if is_chunk id m then show_chunk stream (header m) ∷ rest else rest

abbrev shown_first : List Shown → Watched → Watched
shown_first ss w = record w { shown = ss ++ w.shown }

react-chunk :
    (stream : Bool) (id : String) (m : Message) (w : Watched)
    → is_chunk id m ≡ true
    → react stream id m w ≡ and_then (show_chunk stream (header m)) w
unfolding react
react-chunk stream id m w chunk =
    let kind : ((header m).kind == "stream_chunk") ≡ true = ground (arith, chunk) in
    let own : is_own id (header m) ≡ true = ground (arith, chunk) in
    rw (own, kind, apart (header m).kind "stream_chunk" "error" refl kind) refl

react-other :
    (stream : Bool) (id : String) (m : Message) (w : Watched)
    → (not (is_own id (header m)) || not (is_ending (header m).kind || (header m).kind == "error"))
      ≡ true
    → is_chunk id m ≡ false
    → react stream id m w ≡ w
unfolding react
react-other stream id m w passes other = elim (Bool-cases (is_own id (header m))) [
  | inl own ↦
      let end : ((header m).kind == "error") ≡ false = ground (arith, own, passes) in
      let kind : ((header m).kind == "stream_chunk") ≡ false = ground (arith, own, other) in
      let mute : is_ending (header m).kind ≡ false = ground (arith, own, passes) in
      rw (own, end, kind, mute) refl
  | inr foreign ↦ rw (foreign) refl
]

watch-arriving :
    (stream : Bool) (target id : String) (ms : List Message) (rest : Inbox)
    → none_ends id ms ≡ true
    → watch stream target id (arriving ms rest)
      ≡ shown_first (chunks_shown stream id ms) (watch stream target id rest)
unfolding watch chunks_shown
watch-arriving stream target id [] rest h = refl
watch-arriving stream target id (m ∷ ms) rest h =
    ap (react stream id m) (watch-arriving stream target id ms rest (ground (arith, h)))
    ∙ elim (Bool-cases (is_chunk id m)) [
      | inl chunk ↦ react-chunk stream id m _ chunk ∙ rw (chunk) refl
      | inr other ↦ react-other stream id m _ (ground (arith, h)) other ∙ rw (other) refl
    ]

not_both :
    (kind other : String)
    → ("stream_end" == other) ≡ false
    → ("result" == other) ≡ false
    → is_ending kind ≡ true
    → (kind == other) ≡ false
not_both kind other e r ends = elim (Bool-cases (kind == "stream_end")) [
  | inl end ↦ apart kind "stream_end" other e end
  | inr not_end ↦ apart kind "result" other r (ground (arith, ends, not_end))
]

-- What is shown of the answer itself.
abbrev pub answer_shown : Bool → Message → List Shown
answer_shown stream m =
    streaming stream (progress_complete (header m).ok (header m).exit_code (header m).duration_ms)
    ++ printed_answer stream m

own_of : (id : String) (m : Message) → ((header m).id == id) ≡ true → is_own id (header m) ≡ true
own_of id m own = ground (arith, own)

watch-answer :
    (stream : Bool) (target id : String) (m : Message) (rest : Inbox)
    → ((header m).id == id) ≡ true
    → is_ending (header m).kind ≡ true
    → watch stream target id (arrives m rest) ≡ record {
      shown =
          streaming stream
            (progress_complete (header m).ok (header m).exit_code (header m).duration_ms);
      outcome = done m;
    }
unfolding watch react
watch-answer stream target id m rest own ends =
    let error : ((header m).kind == "error") ≡ false =
      not_both (header m).kind "error" refl refl ends in
    let chunk : ((header m).kind == "stream_chunk") ≡ false =
      not_both (header m).kind "stream_chunk" refl refl ends in
    rw (own_of id m own, error, chunk, ends) refl

-- The answer to a command: messages that do not end it, and then one of its own that does, which is no
-- refusal for a missing secret.
unfoldable pub IsAnswered :
    (List ℕ → String) → Config → Link → Command → List Message → Message → Type 0
IsAnswered encode cfg link c before m =
    (tgt : TargetConfig) × (after : Inbox) × IsOpen cfg link
    × (Dict.get cfg.targets c.target ≡ some tgt)
    × (link.answers (exec_request encode link.new_id c tgt) ≡ arriving before (arrives m after))
    × (none_ends link.new_id before ≡ true)
    × (((header m).id == link.new_id) ≡ true)
    × (is_ending (header m).kind ≡ true)
    × (is_refused (header m) ≡ false)

-- The reader's part of a command that is answered.
watched_answer :
    (encode : List ℕ → String) (link : Link) (c : Command) (tgt : TargetConfig)
    (before : List Message) (m : Message) (after : Inbox)
    → link.answers (exec_request encode link.new_id c tgt) ≡ arriving before (arrives m after)
    → none_ends link.new_id before ≡ true
    → ((header m).id == link.new_id) ≡ true
    → is_ending (header m).kind ≡ true
    → watch c.stream c.target link.new_id (link.answers (exec_request encode link.new_id c tgt))
      ≡ record {
        shown =
            chunks_shown c.stream link.new_id before
            ++ streaming c.stream
                (progress_complete (header m).ok (header m).exit_code (header m).duration_ms);
        outcome = done m;
      }
watched_answer encode link c tgt before m after arrived quiet own ends =
    ap (watch c.stream c.target link.new_id) arrived
    ∙ watch-arriving c.stream c.target link.new_id before (arrives m after) quiet
    ∙ ap (shown_first (chunks_shown c.stream link.new_id before))
        (watch-answer c.stream c.target link.new_id m after own ends)

finish_answer :
    (c : Command) (x : Executed) (w : Watched) (ss : List Shown) (m : Message)
    → is_refused (header m) ≡ false
    → w ≡ record { shown = ss; outcome = done m }
    → finish c x w ≡ record x {
      shown = ss ++ printed_answer c.stream m;
      file = note_daemon_version c.target (header m).daemon_version x.file;
    }
finish_answer c x w ss m kept e = ap (finish c x) e ∙ rw (kept) refl

-- The user is shown the data of the command's own chunks, in their order and no others, then, where the
-- output is streamed, the completion, and then the answer itself, unless it is a "stream_end" and the
-- output is streamed; the version that the answer reports is noted for the target; there is no error.
unfoldable pub IsSeen : Option Cache → String → Command → List Message → Message → Executed → Type 0
IsSeen file id c before m x =
    (x.error ≡ none)
    × (x.shown ≡ chunks_shown c.stream id before ++ answer_shown c.stream m)
    × (x.file ≡ note_daemon_version c.target (header m).daemon_version file)

-- A command whose request was written.
abbrev begun : (List ℕ → String) → Link → Option Cache → Command → TargetConfig → Executed
begun encode link file c tgt = record (started (stdin_warning file c) file none) {
  sent = exec_request encode link.new_id c tgt ∷ [];
}

-- What a command leaves that is answered.
module _ (encode : List ℕ → String) (cfg : Config) (link : Link) (file : Option Cache) (c : Command)
    (before : List Message) (m : Message) where
  answered_lem :
      (tgt : TargetConfig) (after : Inbox)
      → IsOpen cfg link
      → Dict.get cfg.targets c.target ≡ some tgt
      → handle_exec_with_stdin encode (done cfg) link file c
        ≡ finish c (begun encode link file c tgt) (
            watch c.stream c.target link.new_id
              (link.answers (exec_request encode link.new_id c tgt)))
  unfolding handle_exec_with_stdin IsOpen
  answered_lem tgt after (url, dialled, written) known =
      ground (arith, url, dialled, written, known)

  -- A command whose connection is made, whose request is written, and that gets an answer which is no
  -- refusal for a missing secret, ends without an error. Its user is shown the data of its own chunks, in
  -- their order and no others, then, where the output is streamed, the completion, and then the answer
  -- itself, unless it is a "stream_end" and the output is streamed; and the version that the answer
  -- reports is noted for the target.
  pub handle_exec_with_stdin-IsSeen :
      IsAnswered encode cfg link c before m
      → IsSeen file link.new_id c before m (handle_exec_with_stdin encode (done cfg) link file c)
  unfolding IsAnswered IsSeen
  handle_exec_with_stdin-IsSeen (tgt, after, ready, known, arrived, quiet, own, ends, kept) =
      let chunks = chunks_shown c.stream link.new_id before in
      let complete =
        streaming c.stream
          (progress_complete (header m).ok (header m).exit_code (header m).duration_ms) in
      let whole =
        answered_lem tgt after ready known
        ∙ finish_answer c (begun encode link file c tgt)
            (watch c.stream c.target link.new_id
              (link.answers (exec_request encode link.new_id c tgt)))
            (chunks ++ complete) m kept
            (watched_answer encode link c tgt before m after arrived quiet own ends) in
      (
        ap (λ x. x.error) whole,
        ap (λ x. x.shown) whole ∙ append_assoc chunks complete (printed_answer c.stream m),
        ap (λ x. x.file) whole,
      )
