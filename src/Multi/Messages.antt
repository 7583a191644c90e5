-- ===== src/Multi/Messages.antt =====
-- np_multi_proc.cpp: messages to a user and to everyone.
pub mod Kept
use network_programming.Base.{
  ℕ, Bool, List, [], ◌∷◌, Option, none, some, Text, ltb, ◌==◌, if◌then◌else◌,
}
use network_programming.Multi.Process.{Process, ◌>>=◌, ◌>>◌, skip, locked, event, wrote, signalled}
use network_programming.Multi.Shared.{Shared, enqueue, online_from}
use network_programming.Rwg.Clients.{max_users}

-- kill(targetPid, SIGUSR1), if there is a target
abbrev pub signal : Option ℕ → Process (Unit {0})
signal none = skip
signal (some pid) = if ltb 0 pid then event (signalled pid) else skip

unfoldable pub send_message_to_user : ℕ → ℕ → Text → Process (Unit {0})
unfolding enqueue
send_message_to_user me target message =
    if target == me
    then event (wrote message)
    else do target_pid ← locked (enqueue target message); signal target_pid

unfoldable pub send_to_all : ℕ → List ℕ → Text → Process (Unit {0})
unfolding send_message_to_user
send_to_all me [] message = skip
send_to_all me (id ∷ ids) message = do
  send_message_to_user me id message
  send_to_all me ids message

unfoldable pub broadcast_message : ℕ → Text → Process (Unit {0})
unfolding send_to_all online_from
broadcast_message me message = do
  target_ids ← locked (λ s. (online_from 1 max_users s, s))
  send_to_all me target_ids message
