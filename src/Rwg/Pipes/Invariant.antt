-- ===== src/Rwg/Pipes/Invariant.antt =====
-- Taking and opening pipes keeps the server's invariant.
use network_programming.Base.{
  ℕ, Bool, true, List, [], ◌∷◌, ◌++◌, Option, none, some, Text, ◌≡◌, arith, refl, all, all-append,
}
use network_programming.Rwg.Clients.{Client, find_client_by_id}
use network_programming.Rwg.Server.{UserPipe, Server, close_fd}
use network_programming.Rwg.Server.Invariant.{
  IsServer, SameUsers, SameUsers-IsServer, send_to-SameUsers, broadcast-SameUsers, SameUsers-trans,
  add_events-SameUsers, present, ends_present,
}
use network_programming.Rwg.Pipes.{
  UserPipeRequest, UserPipeResolution, Descriptors, find_pipe, erase_pipe, take_pipe, input_of,
  open_pipe, output_of, resolve_input, resolve_output, resolve_user_pipes,
}

erase_pipe-all :
    (test : UserPipe → Bool) (ps : List UserPipe) (sender receiver : ℕ)
    → all test ps ≡ true
    → all test (erase_pipe ps sender receiver) ≡ true
unfolding erase_pipe
erase_pipe-all test [] sender receiver h = refl
erase_pipe-all test (p ∷ ps) sender receiver h =
    ground (arith, erase_pipe-all test ps sender receiver)

-- A server that kept its table, and so whoever is in it.
abbrev Kept : Server → Server → Type 0
Kept s t = IsServer t × (t.clients ≡ s.clients)

told-Kept : (s t : Server) → SameUsers s t → IsServer s → Kept s t
told-Kept s t same w = (SameUsers-IsServer s t same w, same.clients)

erased-IsServer :
    {t : Server} (sender receiver : ℕ)
    → IsServer t
    → IsServer (record t { user_pipes = erase_pipe t.user_pipes sender receiver })
erased-IsServer {t} sender receiver w = record {
  is_table = w.is_table;
  ends_online = erase_pipe-all (ends_present t.clients) t.user_pipes sender receiver w.ends_online;
}

module _ (d : Descriptors) (client : Client) (line : Text) where
  take_pipe-Kept :
      (from : ℕ) (sender : Client) (found : Option UserPipe) (s : Server) (r : UserPipeResolution)
      → IsServer s
      → Kept s (take_pipe d client line from sender found (s, r)).0
  unfolding take_pipe
  take_pipe-Kept from sender none s r w = told-Kept s _ (send_to-SameUsers client _ s) w
  take_pipe-Kept from sender (some p) s r w =
      let same =
        SameUsers-trans (add_events-SameUsers (close_fd p.fds.write_fd) s)
          (broadcast-SameUsers _ _) in
      (erased-IsServer from client.id (SameUsers-IsServer s _ same w), same.clients)

  input_of-Kept :
      (from : ℕ) (found : Option Client) (s : Server) (r : UserPipeResolution)
      → IsServer s
      → Kept s (input_of d client line from found (s, r)).0
  unfolding input_of
  input_of-Kept from none s r w = told-Kept s _ (send_to-SameUsers client _ s) w
  input_of-Kept from (some sender) s r w =
      take_pipe-Kept from sender (find_pipe s.user_pipes from client.id) s r w

  resolve_input-Kept :
      (from : Option ℕ) (s : Server) (r : UserPipeResolution)
      → IsServer s
      → Kept s (resolve_input d client line from (s, r)).0
  unfolding resolve_input
  resolve_input-Kept none s r w = (w, refl)
  resolve_input-Kept (some from) s r w = input_of-Kept from (find_client_by_id s.clients from) s r w

  open_pipe-IsServer :
      (to : ℕ) (receiver : Client) (found : Option UserPipe) (s : Server) (r : UserPipeResolution)
      → present s.clients client.id ≡ true
      → present s.clients to ≡ true
      → IsServer s
      → IsServer (open_pipe d client line to receiver found (s, r)).0
  unfolding open_pipe
  open_pipe-IsServer to receiver (some p) s r here there w =
      SameUsers-IsServer s _ (send_to-SameUsers client _ s) w
  open_pipe-IsServer to receiver none s r here there w =
      SameUsers-IsServer (piped s) _ (broadcast-SameUsers _ (piped s)) (record {
        is_table = w.is_table;
        ends_online = ground (
          arith,
          all-append (ends_present s.clients) s.user_pipes (new_pipe ∷ []),
          here,
          there,
          w.ends_online,
        );
      })
    where
      new_pipe : UserPipe
      new_pipe = record {
        sender = client.id;
        receiver = to;
        fds = record { read_fd = some d.pipe_read; write_fd = some d.pipe_write };
      }

      piped : Server → Server
      piped t = record t { user_pipes = t.user_pipes ++ new_pipe ∷ [] }

  resolve_output-IsServer :
      (to : Option ℕ) (s : Server) (r : UserPipeResolution)
      → present s.clients client.id ≡ true
      → IsServer s
      → IsServer (resolve_output d client line to (s, r)).0
  unfolding resolve_output output_of
  resolve_output-IsServer none s r here w = w
  resolve_output-IsServer (some to) s r here w = go (find_client_by_id s.clients to) refl
    where
      go :
          (found : Option Client)
          → find_client_by_id s.clients to ≡ found
          → IsServer (output_of d client line to found (s, r)).0
      go none e = SameUsers-IsServer s _ (send_to-SameUsers client _ s) w
      go (some receiver) e =
          open_pipe-IsServer to receiver (find_pipe s.user_pipes client.id to) s r here
            (ground (arith, e)) w

  pub resolve_user_pipes-IsServer :
      (request : UserPipeRequest) (s : Server)
      → present s.clients client.id ≡ true
      → IsServer s
      → IsServer (resolve_user_pipes d client line request s).0
  unfolding resolve_user_pipes
  resolve_user_pipes-IsServer request s here w =
      let taken = resolve_input-Kept request.input_from s _ w in
      resolve_output-IsServer request.output_to _ _ (rw (taken.1) here) taken.0
