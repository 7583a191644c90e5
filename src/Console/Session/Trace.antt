-- ===== src/Console/Session/Trace.antt =====
-- What a whole run of a session does.
use network_programming.Base.{
  ℕ, suc, ◌+◌, true, false, List, [], ◌∷◌, ◌++◌, Option, none, some, Text, take, take-suc,
  get_elem?, if◌then◌else◌, ◌≡◌, refl, arith, append-nil, inl, inr, ap, Bool-cases, map, split,
  trim_cr, ◌∙◌,
}
use network_programming.Console.Prompt.{read_content}
use network_programming.Console.Query.{RemoteSessionConfig}
use network_programming.Console.Session.{
  Session, Operation, no_operation, resolving, connecting, reading, writing, Action, output, send,
  close, done, Completion, resolved, connected, read, wrote, Step, new_session, finish, fail, start,
  started, load_commands, send_command, read_text, send_next_command, complete_at, complete, run,
}

abbrev pub sends : List Action → List Text
sends [] = []
sends (send command ∷ acts) = command ∷ sends acts
sends (_ ∷ acts) = sends acts

abbrev pub count_done : List Action → ℕ
count_done [] = 0
count_done (done ∷ acts) = suc (count_done acts)
count_done (_ ∷ acts) = count_done acts

sends-append : (acts bs : List Action) → sends (acts ++ bs) ≡ sends acts ++ sends bs
sends-append [] bs = refl
sends-append (send command ∷ acts) bs = ap (◌∷◌ command) (sends-append acts bs)
sends-append (output _ ∷ acts) bs = sends-append acts bs
sends-append (close ∷ acts) bs = sends-append acts bs
sends-append (done ∷ acts) bs = sends-append acts bs

count_done-append :
    (acts bs : List Action) → count_done (acts ++ bs) ≡ count_done acts + count_done bs
count_done-append [] bs = omega arith
count_done-append (done ∷ acts) bs = omega (arith, count_done-append acts bs)
count_done-append (send _ ∷ acts) bs = count_done-append acts bs
count_done-append (output _ ∷ acts) bs = count_done-append acts bs
count_done-append (close ∷ acts) bs = count_done-append acts bs

-- The state and the actions so far belong together: the commands sent are the first `next_command`
-- ones, and `done` was called once if the session has finished, and else never; a finished session
-- has no operation left.
pub record Inv (step : Step) : Type 0 where
  pub in_order : sends step.1 ≡ take step.0.next_command step.0.commands
  pub done_once : count_done step.1 ≡ (if step.0.finished then 1 else 0)
  pub at_rest : step.0.finished ≡ true → step.0.operation ≡ no_operation

abbrev finished_count : Session → ℕ
finished_count s = if s.finished then 1 else 0

-- What one step has to add for the invariant to go on.
record Adds (s : Session) (step : Step) : Type 0 where
  sent : take step.0.next_command step.0.commands ≡ take s.next_command s.commands ++ sends step.1
  ended : finished_count step.0 ≡ finished_count s + count_done step.1
  at_rest : step.0.finished ≡ true → step.0.operation ≡ no_operation

Inv-append :
    (s : Session) (actions : List Action) (step : Step)
    → Inv (s, actions)
    → Adds s step
    → Inv (step.0, actions ++ step.1)
Inv-append s actions step v a = record {
  in_order = ground (arith, sends-append actions step.1, v.in_order, a.sent);
  done_once = ground (arith, count_done-append actions step.1, v.done_once, a.ended);
  at_rest = a.at_rest;
}

finish-Adds : (s : Session) → s.finished ≡ false → Adds s (finish s)
unfolding finish
finish-Adds s live = ground (arith, append-nil (take s.next_command s.commands))

fail-Adds : (s : Session) (message : Text) → s.finished ≡ false → Adds s (fail s message)
unfolding fail
fail-Adds s message live = ground (arith, append-nil (take s.next_command s.commands))

send_command-Adds :
    (s : Session) (o : Option Text)
    → s.finished ≡ false
    → get_elem? s.commands s.next_command ≡ o
    → Adds s (send_command s o)
unfolding send_command
send_command-Adds s none live e = finish-Adds s live
send_command-Adds s (some command) live e = ground (arith, take-suc s.commands s.next_command e)

send_next_command-Adds : (s : Session) → s.finished ≡ false → Adds s (send_next_command s)
unfolding send_next_command
send_next_command-Adds s live = send_command-Adds s _ live refl

read_text-Adds : (s : Session) (content : Text) → s.finished ≡ false → Adds s (read_text s content)
unfolding read_text
read_text-Adds s content live =
    let (flag, has_prompt) = read_content s.last_char_was_percent content in
    ground (
      arith,
      append-nil (take s.next_command s.commands),
      send_next_command-Adds (record s { last_char_was_percent = flag }) live,
    )

complete_at-Adds :
    (op : Operation) (s : Session) (c : Completion)
    → s.operation ≡ op
    → s.finished ≡ false
    → Adds s (complete_at op s c)
unfolding complete_at
complete_at-Adds resolving s (resolved (some message)) e live = fail-Adds s message live
complete_at-Adds connecting s (connected (some message)) e live = fail-Adds s message live
complete_at-Adds reading s (read none) e live = finish-Adds s live
complete_at-Adds reading s (read (some content)) e live = read_text-Adds s content live
complete_at-Adds writing s (wrote false) e live = finish-Adds s live
complete_at-Adds _ s _ e live = ground (arith, append-nil (take s.next_command s.commands))

idle-Adds : (s : Session) (c : Completion) → s.operation ≡ no_operation → complete s c ≡ (s, [])
unfolding complete
idle-Adds s c e = rw (e, complete_at) refl

complete-Adds :
    (s : Session) (actions : List Action) (c : Completion)
    → Inv (s, actions)
    → Adds s (complete s c)
complete-Adds s actions c v = elim (Bool-cases s.finished) [
  | inl ended ↦
      rw (idle-Adds s c (v.at_rest ended))
        (ground (arith, v.at_rest ended, append-nil (take s.next_command s.commands)))
  | inr live ↦ unfold complete in complete_at-Adds s.operation s c refl live
]

run-Inv :
    (s : Session) (actions : List Action) (cs : List Completion)
    → Inv (s, actions)
    → Inv (run (s, actions) cs)
unfolding run
run-Inv s actions [] v = v
run-Inv s actions (c ∷ cs) v =
    run-Inv (complete s c).0 (actions ++ (complete s c).1) cs
      (Inv-append s actions (complete s c) v (complete-Adds s actions c v))

-- The commands of a file: its lines, each with one line feed behind it and without the carriage return
-- before it. A file that cannot be opened has none.
abbrev pub file_commands : Option Text → List Text
file_commands none = []
file_commands (some file) = map (λ line. trim_cr line ++ b'\n' ∷ []) (split b'\n' file)

started-Inv :
    (config : RemoteSessionConfig) (session_id : ℕ) (o : Option (List Text))
    → Inv (started (new_session config session_id) o)
unfolding started new_session
started-Inv config session_id none = unfold fail finish in ground arith
started-Inv config session_id (some commands) = ground arith

start-Inv :
    (config : RemoteSessionConfig) (session_id : ℕ) (file : Option Text)
    → Inv (start (new_session config session_id) file)
unfolding start
start-Inv config session_id file = started-Inv config session_id (load_commands file)

finish-commands : (s : Session) → (finish s).0.commands ≡ s.commands
unfolding finish
finish-commands s = ground arith

send_command-commands : (s : Session) (o : Option Text) → (send_command s o).0.commands ≡ s.commands
unfolding send_command
send_command-commands s none = finish-commands s
send_command-commands s (some command) = refl

read_text-commands : (s : Session) (content : Text) → (read_text s content).0.commands ≡ s.commands
unfolding read_text send_next_command
read_text-commands s content =
    let (flag, has_prompt) = read_content s.last_char_was_percent content in
    let t : Session = record s { last_char_was_percent = flag } in
    ground (arith, send_command-commands t (get_elem? s.commands s.next_command))

complete_at-commands :
    (op : Operation) (s : Session) (c : Completion) → (complete_at op s c).0.commands ≡ s.commands
unfolding complete_at fail
complete_at-commands resolving s (resolved (some message)) = finish-commands s
complete_at-commands connecting s (connected (some message)) = finish-commands s
complete_at-commands reading s (read none) = finish-commands s
complete_at-commands reading s (read (some content)) = read_text-commands s content
complete_at-commands writing s (wrote false) = finish-commands s
complete_at-commands _ s _ = ground arith

run-commands :
    (s : Session) (actions : List Action) (cs : List Completion)
    → (run (s, actions) cs).0.commands ≡ s.commands
unfolding run complete
run-commands s actions [] = refl
run-commands s actions (c ∷ cs) =
    run-commands (complete s c).0 (actions ++ (complete s c).1) cs
    ∙ complete_at-commands s.operation s c

start-commands :
    (config : RemoteSessionConfig) (session_id : ℕ) (file : Option Text)
    → (start (new_session config session_id) file).0.commands ≡ file_commands file
unfolding start started fail finish new_session load_commands
start-commands config session_id none = refl
start-commands config session_id (some file) = refl

-- What a run has done belongs to a file: the texts given to the socket are the first `next_command`
-- commands of the file.
pub record InvOf (file : Option Text) (step : Step) : Type 0 where
  pub in_order : sends step.1 ≡ take step.0.next_command (file_commands file)
  pub done_once : count_done step.1 ≡ (if step.0.finished then 1 else 0)
  pub at_rest : step.0.finished ≡ true → step.0.operation ≡ no_operation

-- Whatever the file and the network do, after any number of completions the session has handed to the
-- socket the commands of its file in order, without a gap or a repetition; it has called `done`
-- exactly once if it has finished and never before; and once finished it has no operation left.
pub run-start-Inv :
    (config : RemoteSessionConfig) (session_id : ℕ) (file : Option Text) (cs : List Completion)
    → InvOf file (run (start (new_session config session_id) file) cs)
run-start-Inv config session_id file cs =
    let first = start (new_session config session_id) file in
    let inv = run-Inv first.0 first.1 cs (start-Inv config session_id file) in
    let commands = run-commands first.0 first.1 cs ∙ start-commands config session_id file in
    record {
      in_order = inv.in_order ∙ ap (take (run first cs).0.next_command) commands;
      done_once = inv.done_once;
      at_rest = inv.at_rest;
    }
