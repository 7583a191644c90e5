-- ===== src/Rwg/Pipes.antt =====
-- np_single_proc.cpp: `resolveUserPipes`, which takes the pipe that a line reads from another user
-- and opens the one that it writes to another user.
pub mod Invariant
pub mod Delivery
use network_programming.Base.{
  ℕ, Bool, true, false, not, ◌||◌, ◌&&◌, List, [], ◌∷◌, ◌++◌, Option, none, some, Text, codes, ◌==◌,
  to_string, if◌then◌else◌,
}
use network_programming.Rwg.Clients.{Client, find_client_by_id}
use network_programming.ShellCore.Os.{PipeFd}
use network_programming.Rwg.Server.{UserPipe, Server, add_events, close_fd, send_to, broadcast}

-- `none` is -1; the numbers are read from digits.
pub record UserPipeRequest : Type 0 where
  pub input_from : Option ℕ
  pub output_to : Option ℕ

pub record UserPipeResolution : Type 0 where
  pub input_fd : Option ℕ
  pub output_fd : Option ℕ
  pub dev_null_in_fd : Option ℕ
  pub dev_null_out_fd : Option ℕ

-- The descriptors that the system gives: /dev/null for reading and for writing, and a pipe.
pub record Descriptors : Type 0 where
  pub null_in : Option ℕ
  pub null_out : Option ℕ
  pub pipe_read : ℕ
  pub pipe_write : ℕ

abbrev pub unresolved : UserPipeResolution
unresolved = record {
  input_fd = none;
  output_fd = none;
  dev_null_in_fd = none;
  dev_null_out_fd = none;
}

-- userPipes.find
unfoldable pub find_pipe : List UserPipe → ℕ → ℕ → Option UserPipe
find_pipe [] sender receiver = none
find_pipe (p ∷ ps) sender receiver =
    let later = find_pipe ps sender receiver in
    if p.sender == sender && p.receiver == receiver then some p else later

unfoldable pub erase_pipe : List UserPipe → ℕ → ℕ → List UserPipe
erase_pipe [] sender receiver = []
erase_pipe (p ∷ ps) sender receiver =
    let rest = erase_pipe ps sender receiver in
    if p.sender == sender && p.receiver == receiver then rest else p ∷ rest

abbrev no_user : ℕ → Text
no_user id = codes "*** Error: user #" ++ (to_string id ++ codes " does not exist yet. ***\n")

abbrev pub pipe_name : ℕ → ℕ → Text
pipe_name sender receiver =
    codes "*** Error: the pipe #" ++ (to_string sender ++ (codes "->#" ++ to_string receiver))

abbrev pub received_message : Client → Client → Text → Text
received_message client sender line =
    codes "*** "
    ++ (client.name
        ++ (codes " (#"
            ++ (to_string client.id
                ++ (codes ") just received from "
                    ++ (sender.name
                        ++ (codes " (#"
                            ++ (to_string sender.id
                                ++ (codes ") by '" ++ (line ++ codes "' ***\n")))))))))

abbrev pub piped_message : Client → Client → Text → Text
piped_message client receiver line =
    codes "*** "
    ++ (client.name
        ++ (codes " (#"
            ++ (to_string client.id
                ++ (codes ") just piped '"
                    ++ (line
                        ++ (codes "' to "
                            ++ (receiver.name
                                ++ (codes " (#"
                                    ++ (to_string receiver.id ++ codes ") ***\n")))))))))

abbrev null_input : Descriptors → UserPipeResolution → UserPipeResolution
null_input d r = record r { input_fd = d.null_in; dev_null_in_fd = d.null_in }

abbrev null_output : Descriptors → UserPipeResolution → UserPipeResolution
null_output d r = record r { output_fd = d.null_out; dev_null_out_fd = d.null_out }

abbrev pub Resolved : Type 0
Resolved = Server × UserPipeResolution

module _ (d : Descriptors) (client : Client) (line : Text) where
  take_pipe : ℕ → Client → Option UserPipe → Resolved → Resolved
  take_pipe from sender none (s, r) = (
    send_to client (pipe_name from client.id ++ codes " does not exist yet. ***\n") s,
    null_input d r,
  )
  take_pipe from sender (some p) (s, r) =
      let told =
        broadcast (received_message client sender line) (add_events (close_fd p.fds.write_fd) s) in
      (
        record told { user_pipes = erase_pipe told.user_pipes from client.id },
        record r { input_fd = p.fds.read_fd },
      )

  input_of : ℕ → Option Client → Resolved → Resolved
  unfolding take_pipe
  input_of from none (s, r) = (send_to client (no_user from) s, null_input d r)
  input_of from (some sender) (s, r) =
      take_pipe from sender (find_pipe s.user_pipes from client.id) (s, r)

  -- The descriptors are those of a pipe that the system gave; where it refuses one, createPipeOrDie
  -- ends the server, and there is no state to speak of.
  open_pipe : ℕ → Client → Option UserPipe → Resolved → Resolved
  open_pipe to receiver (some p) (s, r) =
      (send_to client (pipe_name client.id to ++ codes " already exists. ***\n") s, null_output d r)
  open_pipe to receiver none (s, r) =
      let fds : PipeFd = record { read_fd = some d.pipe_read; write_fd = some d.pipe_write } in
      let pipe : UserPipe = record { sender = client.id; receiver = to; fds = fds } in
      (
        broadcast (piped_message client receiver line)
            (record s { user_pipes = s.user_pipes ++ pipe ∷ [] }),
        record r { output_fd = some d.pipe_write },
      )

  output_of : ℕ → Option Client → Resolved → Resolved
  unfolding open_pipe
  output_of to none (s, r) = (send_to client (no_user to) s, null_output d r)
  output_of to (some receiver) (s, r) =
      open_pipe to receiver (find_pipe s.user_pipes client.id to) (s, r)

  resolve_input : Option ℕ → Resolved → Resolved
  unfolding input_of
  resolve_input none (s, r) = (s, r)
  resolve_input (some from) (s, r) = input_of from (find_client_by_id s.clients from) (s, r)

  resolve_output : Option ℕ → Resolved → Resolved
  unfolding output_of
  resolve_output none (s, r) = (s, r)
  resolve_output (some to) (s, r) = output_of to (find_client_by_id s.clients to) (s, r)

  unfoldable pub resolve_user_pipes : UserPipeRequest → Server → Resolved
  unfolding resolve_input resolve_output
  resolve_user_pipes request s =
      resolve_output request.output_to (resolve_input request.input_from (s, unresolved))
