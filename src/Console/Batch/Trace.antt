-- ===== src/Console/Batch/Trace.antt =====
-- What a session of project 4 sends over a whole run.
use network_programming.Base.{
  ℕ, true, false, List, [], ◌∷◌, ◌++◌, Option, none, some, Text, inl, inr, refl, sym, Bool-cases,
  subst,
}
use network_programming.Console.Batch.{
  Batch, Operation, ended, resolving, connecting, requesting, replying, reading, writing, Action,
  Completion, completed, received, new_batch, load_commands_inline, start, complete_at, complete,
  run,
}
use network_programming.Console.Query.{RemoteSessionConfig, SocksConfig}
use network_programming.Socks.Reply.{accepts_reply}
use network_programming.Console.Batch.Callbacks.{
  sends, sends-append, Verdict, after, verdict, after-none, Runs, Sent, Fresh, Waits, InvAt, Inv,
  InvAt-Sent, Greets-later, Goes, goes_to-Goes, after_connect-Goes, read_content-Goes, Asked-Runs,
  ends-Goes,
}
use network_programming.Console.Batch.Constant.{IsOf, complete-IsOf}

Runs-later :
    (s : Batch) (v : Verdict) (c : Completion) (sent : List Text)
    → Runs s v sent
    → Runs s (after v c) sent
Runs-later s v c sent (greeting, g, h) = (greeting, Greets-later s v c greeting g, h)

reply-Goes :
    (s : Batch) (v : Verdict) (reply : Text) (sent : List Text)
    → Waits s v sent
    → Goes (after v (received (some reply))) sent (complete_at replying (received (some reply)) s)
unfolding complete_at
reply-Goes s v reply sent (asked, zero_sent, unread) = elim (Bool-cases (accepts_reply reply)) [
  | inl accepted ↦ rw (accepted) (
      goes_to-Goes reading s (after v (received (some reply))) sent (
        Asked-Runs s (after v (received (some reply))) sent (rw (unread, accepted) refl)
          (asked, zero_sent)))
  | inr rejected ↦
      rw (rejected) (ends-Goes replying s v (received (some reply)) sent (asked, zero_sent, unread))
]

later_Fresh :
    (s : Batch) (v : Verdict) (sent : List Text)
    → Fresh s v sent
    → Fresh s (after v (completed true)) sent
later_Fresh s v sent (nothing, zero_sent, unread) = (nothing, zero_sent, after-none v true unread)

later_Waits :
    (s : Batch) (v : Verdict) (sent : List Text)
    → Waits s v sent
    → Waits s (after v (completed true)) sent
later_Waits s v sent (asked, zero_sent, unread) = (asked, zero_sent, after-none v true unread)

complete_at-Goes :
    (operation : Operation) (c : Completion) (s : Batch) (v : Verdict) (sent : List Text)
    → InvAt operation s v sent
    → Goes (after v c) sent (complete_at operation c s)
unfolding complete_at
complete_at-Goes resolving (completed true) s v sent h =
    goes_to-Goes connecting s (after v (completed true)) sent (later_Fresh s v sent h)
complete_at-Goes connecting (completed true) s v sent h =
    after_connect-Goes s.proxy s (after v (completed true)) sent refl (later_Fresh s v sent h)
complete_at-Goes requesting (completed true) s v sent h =
    goes_to-Goes replying s (after v (completed true)) sent (later_Waits s v sent h)
complete_at-Goes replying (received (some reply)) s v sent h = reply-Goes s v reply sent h
complete_at-Goes reading (received (some content)) s v sent h =
    read_content-Goes content s (after v (received (some content))) sent
      (Runs-later s v (received (some content)) sent h)
complete_at-Goes writing (completed true) s v sent h =
    goes_to-Goes reading s (after v (completed true)) sent (Runs-later s v (completed true) sent h)
complete_at-Goes resolving (completed false) s v sent h =
    ends-Goes resolving s v (completed false) sent h
complete_at-Goes resolving (received o) s v sent h = ends-Goes resolving s v (received o) sent h
complete_at-Goes connecting (completed false) s v sent h =
    ends-Goes connecting s v (completed false) sent h
complete_at-Goes connecting (received o) s v sent h = ends-Goes connecting s v (received o) sent h
complete_at-Goes requesting (completed false) s v sent h =
    ends-Goes requesting s v (completed false) sent h
complete_at-Goes requesting (received o) s v sent h = ends-Goes requesting s v (received o) sent h
complete_at-Goes writing (completed false) s v sent h =
    ends-Goes writing s v (completed false) sent h
complete_at-Goes writing (received o) s v sent h = ends-Goes writing s v (received o) sent h
complete_at-Goes replying (completed b) s v sent h = ends-Goes replying s v (completed b) sent h
complete_at-Goes replying (received none) s v sent h = ends-Goes replying s v (received none) sent h
complete_at-Goes reading (completed b) s v sent h = ends-Goes reading s v (completed b) sent h
complete_at-Goes reading (received none) s v sent h = ends-Goes reading s v (received none) sent h
complete_at-Goes ended c s v sent h = ends-Goes ended s v c sent h

run-Sent :
    (cs : List Completion) (s : Batch) (acts : List Action) (v : Verdict)
    → Inv s v (sends acts)
    → let (t, all_acts) = run (s, acts) cs in Sent t (verdict v cs) (sends all_acts)
unfolding run complete
run-Sent [] s acts v h = InvAt-Sent s.operation s v (sends acts) h
run-Sent (c ∷ cs) s acts v h =
    let step = complete s c in
    run-Sent cs step.0 (acts ++ step.1) (after v c) (
      subst (λ sent. Inv step.0 (after v c) sent) (sym (sends-append acts step.1))
        (complete_at-Goes s.operation c s v (sends acts) h))

start-Inv :
    (config : RemoteSessionConfig) (proxy : Option SocksConfig) (session_id : ℕ)
    (file : Option Text)
    → let (s, acts) = start (new_batch config proxy session_id file) in Inv s none (sends acts)
unfolding start new_batch
start-Inv config none session_id file = (refl, refl, refl)
start-Inv config (some proxy) session_id file = (refl, refl, refl)

start-IsOf :
    (config : RemoteSessionConfig) (proxy : Option SocksConfig) (session_id : ℕ)
    (file : Option Text)
    → IsOf config proxy
        (load_commands_inline file)
        (start (new_batch config proxy session_id file)).0
unfolding start new_batch
start-IsOf config none session_id file = (refl, refl, refl)
start-IsOf config (some proxy) session_id file = (refl, refl, refl)

run-IsOf :
    {config : RemoteSessionConfig} {proxy : Option SocksConfig} {commands : List Text}
    (cs : List Completion) (s : Batch) (acts : List Action)
    → IsOf config proxy commands s
    → IsOf config proxy commands (run (s, acts) cs).0
unfolding run
run-IsOf [] s acts h = h
run-IsOf (c ∷ cs) s acts h =
    run-IsOf cs (complete s c).0 (acts ++ (complete s c).1) (complete-IsOf c s h)

-- Whatever the file and the network do, after any completions a session still has its configuration,
-- its proxy and the commands of its file, and has sent nothing; or, through
-- a proxy, its request alone; or the first `next_command` of these commands in order, with nothing
-- before them if it is direct, and through a proxy with the request before them, and that only if the
-- first read was a reply that the client accepts.
pub run-start-Sent :
    (config : RemoteSessionConfig) (proxy : Option SocksConfig) (session_id : ℕ)
    (file : Option Text) (cs : List Completion)
    → let (t, acts) = run (start (new_batch config proxy session_id file)) cs in
      IsOf config proxy (load_commands_inline file) t × Sent t (verdict none cs) (sends acts)
run-start-Sent config proxy session_id file cs =
    let (s, acts) = start (new_batch config proxy session_id file) in
    (
      run-IsOf cs s acts (start-IsOf config proxy session_id file),
      run-Sent cs s acts none (start-Inv config proxy session_id file),
    )
