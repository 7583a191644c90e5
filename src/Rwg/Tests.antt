-- ===== src/Rwg/Tests.antt =====
-- Runs of the server, and each theorem at an input that meets its hypotheses.
use network_programming.Base.{
  Text, false, true, Bool, ◌++◌, not, text_eq, List, [], ◌∷◌, Option, none, some, codes, ◌≡◌, ◌↔◌,
  refl, words, stoi, map, to_string,
}
use network_programming.Rwg.Builtins.Laws.{IsBadTell, handle_rwg_builtin-IsBadTell}
use network_programming.Rwg.Builtins.{handle_rwg_builtin, skip_segment, rename, tell, name_taken}
use network_programming.Rwg.Clients.Table.{IsFirstFree, smallest_unused_id-IsFirstFree}
use network_programming.Rwg.Clients.{Client, find, find_client_by_id, smallest_unused_id, put}
use network_programming.Rwg.Input.Chunks.{handle_inputs-concat}
use network_programming.Rwg.Input.{
  Input, take_lines, execute_lines, handle_client_input, handle_inputs,
}
use network_programming.Rwg.Pipes.Delivery.{resolve_user_pipes-delivery, pipe_to, read_from}
use network_programming.Rwg.Pipes.{Descriptors, resolve_user_pipes, find_pipe}
use network_programming.Rwg.Run.Invariant.{run-IsServer}
use network_programming.Rwg.Run.{Call, arrives, types, pipes, call, run}
use network_programming.Rwg.Server.Invariant.{IsServer}
use network_programming.Rwg.Server.{
  Server, Peer, empty_server, new_client, accept_client, enter, send_to, broadcast_to, broadcast,
}

abbrev first_peer : Peer
first_peer = record { fd = 4; ip = codes "10.0.0.1"; port = 5000 }

abbrev second_peer : Peer
second_peer = record { fd = 5; ip = codes "10.0.0.2"; port = 5001 }

abbrev descriptors : Descriptors
descriptors = record { null_in = some 8; null_out = some 9; pipe_read = 6; pipe_write = 7 }

abbrev calls : List Call
calls =
    arrives (some first_peer)
    ∷ arrives (some second_peer)
    ∷ types 1 (codes "name amy")
    ∷ pipes 1 descriptors (pipe_to 2) (codes "ls >2")
    ∷ types 2 (codes "tell 1 hello")
    ∷ []

abbrev server_or_empty : Option Server → Server
server_or_empty none = empty_server
server_or_empty (some s) = s

abbrev after : Server
after = server_or_empty (run calls empty_server)

ids_after : map (λ (c : Client). c.id) after.clients ≡ 1 ∷ 2 ∷ []
unfolding run call accept_client smallest_unused_id find_client_by_id find put enter send_to
    broadcast broadcast_to handle_rwg_builtin rename tell skip_segment name_taken resolve_user_pipes
    find_pipe stoi to_string
ids_after = refl

run-IsServer_example : IsServer after
unfolding run call accept_client smallest_unused_id find_client_by_id find put enter send_to
    broadcast broadcast_to handle_rwg_builtin rename tell skip_segment name_taken resolve_user_pipes
    find_pipe stoi to_string
run-IsServer_example = run-IsServer calls after refl

abbrev amy : Client
amy = new_client 1 first_peer

abbrev bob : Client
bob = new_client 2 second_peer

abbrev two_users : Server
two_users = record { clients = amy ∷ bob ∷ []; user_pipes = []; trace = [] }

resolve_user_pipes-delivery_example :
    let given = resolve_user_pipes descriptors amy (codes "ls >2") (pipe_to 2) two_users in
    let taken = resolve_user_pipes descriptors bob (codes "cat <1") (read_from 1) given.0 in
    (given.1.output_fd ≡ some 7)
    × (taken.1.input_fd ≡ some 6)
    × (find_pipe taken.0.user_pipes 1 2 ≡ none)
unfolding find_client_by_id find find_pipe
resolve_user_pipes-delivery_example =
    resolve_user_pipes-delivery descriptors descriptors amy bob (codes "ls >2") (codes "cat <1")
      two_users refl refl refl

smallest_unused_id-IsFirstFree_example :
    IsFirstFree two_users.clients 1 31 (smallest_unused_id two_users.clients)
smallest_unused_id-IsFirstFree_example = smallest_unused_id-IsFirstFree two_users.clients

handle_rwg_builtin-IsBadTell_example :
    (handle_rwg_builtin amy (codes "tell bob hello") two_users ≡ none)
    ↔ IsBadTell (words (codes "tell bob hello"))
handle_rwg_builtin-IsBadTell_example =
    handle_rwg_builtin-IsBadTell amy (codes "tell bob hello") two_users

tell_without_number : handle_rwg_builtin amy (codes "tell bob hello") two_users ≡ none
unfolding handle_rwg_builtin tell stoi
tell_without_number = refl

-- Lines are noted down until one says exit.
abbrev note_line : Text → List Text → List Text × Bool
note_line line lines = (lines ++ line ∷ [], not (text_eq line (codes "exit")))

abbrev silent : Input (List Text)
silent = record { input_buffer = codes "l"; state = []; connected = true }

handle_inputs-concat_example :
    handle_inputs note_line (codes "s\nwh" ∷ codes "o\nnum" ∷ []) silent
    ≡ handle_client_input note_line (codes "s\nwho\nnum") silent
handle_inputs-concat_example =
    handle_inputs-concat note_line (codes "s\nwh") (codes "o\nnum" ∷ []) silent refl

lines_read :
    handle_client_input note_line (codes "s\nexit\nnum") silent
    ≡ record { input_buffer = []; state = codes "ls" ∷ codes "exit" ∷ []; connected = false }
unfolding handle_client_input take_lines execute_lines
lines_read = refl
