-- ===== src/Multi/Messages/Kept.antt =====
-- np_multi_proc.cpp: the shared memory across sendMessageToUser and broadcastMessage.
use network_programming.Base.{ℕ, List, [], ◌∷◌, Option, none, some, Text, ltb, ◌==◌}
use network_programming.Multi.Messages.{
  signal, send_message_to_user, send_to_all, broadcast_message,
}
use network_programming.Multi.Process.{World, wrote, signalled}
use network_programming.Multi.Process.Kept.{
  IsKept, Keeps, bind, then_do, either, skip-Keeps, event-Keeps, section-Keeps, reading-Keeps,
}
use network_programming.Multi.Shared.{Shared, enqueue, online_from}
use network_programming.Rwg.Clients.{max_users}

module _ {world : World} {Good : Shared → Type 0} (good : IsKept world Good) where
  signal-Keeps : (target : Option ℕ) → Keeps world Good Good (signal target)
  signal-Keeps none = skip-Keeps
  signal-Keeps (some pid) = either (ltb 0 pid) (event-Keeps (signalled pid)) skip-Keeps

  pub send_message_to_user-Keeps :
      (me target : ℕ) (message : Text)
      → Keeps world Good Good (send_message_to_user me target message)
  unfolding send_message_to_user
  send_message_to_user-Keeps me target message =
      either (target == me) (event-Keeps (wrote message)) (
        bind (section-Keeps (enqueue target message) good good.sound (good.posting target message))
          signal-Keeps)

  send_to_all-Keeps :
      (me : ℕ) (ids : List ℕ) (message : Text) → Keeps world Good Good (send_to_all me ids message)
  unfolding send_to_all
  send_to_all-Keeps me [] message = skip-Keeps
  send_to_all-Keeps me (id ∷ ids) message =
      then_do (send_message_to_user-Keeps me id message) (send_to_all-Keeps me ids message)

  pub broadcast_message-Keeps :
      (me : ℕ) (message : Text) → Keeps world Good Good (broadcast_message me message)
  unfolding broadcast_message
  broadcast_message-Keeps me message =
      bind (reading-Keeps (online_from 1 max_users) good) (λ ids. send_to_all-Keeps me ids message)
