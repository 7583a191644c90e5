-- ===== src/Rwg/Pipes/Delivery.antt =====
-- A pipe that one user opens is the one that the other user reads.
use network_programming.Base.{ℕ, List, [], ◌∷◌, ◌++◌, none, some, Text, ◌≡◌, arith, refl, ap, ◌∙◌}
use network_programming.Rwg.Clients.{Client, find_client_by_id}
use network_programming.Rwg.Server.{UserPipe, Server}
use network_programming.Rwg.Server.Invariant.{broadcast-SameUsers}
use network_programming.Rwg.Pipes.{
  UserPipeRequest, UserPipeResolution, Descriptors, Resolved, find_pipe, erase_pipe, take_pipe,
  input_of, open_pipe, output_of, unresolved, resolve_input, resolve_output, resolve_user_pipes,
}

abbrev pub pipe_to : ℕ → UserPipeRequest
pipe_to id = record { input_from = none; output_to = some id }

abbrev pub read_from : ℕ → UserPipeRequest
read_from id = record { input_from = some id; output_to = none }

find_pipe-append :
    (ps : List UserPipe) (p : UserPipe)
    → find_pipe ps p.sender p.receiver ≡ none
    → find_pipe (ps ++ p ∷ []) p.sender p.receiver ≡ some p
unfolding find_pipe
find_pipe-append [] p h = ground arith
find_pipe-append (q ∷ ps) p h = ground (arith, find_pipe-append ps p)

find_pipe-erase_pipe :
    (ps : List UserPipe) (sender receiver : ℕ)
    → find_pipe (erase_pipe ps sender receiver) sender receiver ≡ none
unfolding find_pipe erase_pipe
find_pipe-erase_pipe [] sender receiver = refl
find_pipe-erase_pipe (p ∷ ps) sender receiver =
    ground (arith, find_pipe-erase_pipe ps sender receiver)

-- The pipe that `d` gives between two users.
abbrev pub pipe_of : Descriptors → Client → Client → UserPipe
pipe_of d giver taker = record {
  sender = giver.id;
  receiver = taker.id;
  fds = record { read_fd = some d.pipe_read; write_fd = some d.pipe_write };
}

-- The server after a user opened a pipe: the same table, and the pipe can be found.
abbrev Given : Descriptors → Client → Client → Server → Resolved → Type 0
Given d giver taker s t =
    (t.0.clients ≡ s.clients)
    × (find_pipe t.0.user_pipes giver.id taker.id ≡ some (pipe_of d giver taker))
    × (t.1.output_fd ≡ some d.pipe_write)

open_pipe-Given :
    (d : Descriptors) (giver taker receiver : Client) (line : Text) (s : Server)
    (r : UserPipeResolution)
    → find_pipe s.user_pipes giver.id taker.id ≡ none
    → Given d giver taker s (open_pipe d giver line taker.id receiver none (s, r))
unfolding open_pipe
open_pipe-Given d giver taker receiver line s r absent =
    let same =
      broadcast-SameUsers _
        (record s { user_pipes = s.user_pipes ++ pipe_of d giver taker ∷ [] }) in
    (
      same.clients,
      ap (λ ps. find_pipe ps giver.id taker.id) same.user_pipes
          ∙ find_pipe-append s.user_pipes (pipe_of d giver taker) absent,
      refl,
    )

gives :
    (d : Descriptors) (giver taker : Client) (line : Text) (s : Server)
    → find_client_by_id s.clients taker.id ≡ some taker
    → find_pipe s.user_pipes giver.id taker.id ≡ none
    → Given d giver taker s (resolve_user_pipes d giver line (pipe_to taker.id) s)
unfolding resolve_user_pipes resolve_input resolve_output output_of
gives d giver taker line s there absent =
    rw (there, absent) (open_pipe-Given d giver taker taker line s unresolved absent)

-- What reading takes: the pipe's read end, and the pipe is gone.
abbrev Taken : UserPipe → ℕ → ℕ → Resolved → Type 0
Taken p from to t = (t.1.input_fd ≡ p.fds.read_fd) × (find_pipe t.0.user_pipes from to ≡ none)

take_pipe-Taken :
    (e : Descriptors) (sender taker : Client) (line : Text) (from : ℕ) (s : Server)
    (r : UserPipeResolution) (p : UserPipe)
    → Taken p from taker.id (take_pipe e taker line from sender (some p) (s, r))
unfolding take_pipe
take_pipe-Taken e sender taker line from s r p = (refl, find_pipe-erase_pipe _ from taker.id)

takes :
    (e : Descriptors) (sender taker : Client) (line : Text) (from : ℕ) (s : Server) (p : UserPipe)
    → find_client_by_id s.clients from ≡ some sender
    → find_pipe s.user_pipes from taker.id ≡ some p
    → Taken p from taker.id (resolve_user_pipes e taker line (read_from from) s)
unfolding resolve_user_pipes resolve_input resolve_output input_of
takes e sender taker line from s p there found =
    rw (there, found) (take_pipe-Taken e sender taker line from s unresolved p)

-- Where two users are in the table and no pipe leads from the first to the second, a line of the
-- first that writes to the second opens a pipe and gets its write end, a later line of the second that
-- reads from the first gets the read end of that pipe, and the pipe is then gone.
pub resolve_user_pipes-delivery :
    (d e : Descriptors) (giver taker : Client) (line later : Text) (s : Server)
    → find_client_by_id s.clients giver.id ≡ some giver
    → find_client_by_id s.clients taker.id ≡ some taker
    → find_pipe s.user_pipes giver.id taker.id ≡ none
    → let given = resolve_user_pipes d giver line (pipe_to taker.id) s in
      let taken = resolve_user_pipes e taker later (read_from giver.id) given.0 in
      (given.1.output_fd ≡ some d.pipe_write)
      × (taken.1.input_fd ≡ some d.pipe_read)
      × (find_pipe taken.0.user_pipes giver.id taker.id ≡ none)
resolve_user_pipes-delivery d e giver taker line later s here there absent =
    let (same, found, output) = gives d giver taker line s there absent in
    let taken =
      takes e giver taker later giver.id (resolve_user_pipes d giver line (pipe_to taker.id) s).0
        (pipe_of d giver taker) (ap (λ cs. find_client_by_id cs giver.id) same ∙ here) found in
    (output, taken.0, taken.1)
