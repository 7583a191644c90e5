-- ===== src/Multi/Users.antt =====
-- np_multi_proc.cpp: the sections of `assignUser` and `cleanupUser`.
use network_programming.Base.{
  ℕ, zero, suc, ◌+◌, true, false, ◌&&◌, List, [], ◌∷◌, ◌++◌, Option, none, some, Text, codes,
  to_string, if◌then◌else◌,
}
use network_programming.Multi.Shared.{
  Shared, SharedUser, copy_string, name_size, ip_size, set_user, set_pipe, is_valid_id,
}
use network_programming.Rwg.Clients.{max_users, default_name}
use network_programming.Rwg.Server.{Peer}

-- The loop of `assignUser` from `id` on, with `n` ids left.
unfoldable pub first_offline : ℕ → ℕ → Shared → Option ℕ
first_offline id zero s = none
first_offline id (suc n) s =
    let later = first_offline (id + 1) n s in if (s.users id).online then later else some id

abbrev pub assigned : ℕ → ℕ → Peer → SharedUser
assigned id pid peer = record {
  online = true;
  id = id;
  fd = peer.fd;
  pid = pid;
  port = peer.port;
  name = copy_string name_size default_name;
  ip = copy_string ip_size peer.ip;
  messages = [];
}

abbrev pub assign_at : Option ℕ → ℕ → Peer → Shared → Option ℕ × Shared
assign_at none pid peer s = (none, s)
assign_at (some id) pid peer s = (some id, set_user id (assigned id pid peer) s)

-- `none` is -1: all ids are taken.
unfoldable pub assign_user : ℕ → Peer → Shared → Option ℕ × Shared
assign_user pid peer s = assign_at (first_offline 1 max_users s) pid peer s

unfoldable pub fifo_path : ℕ → ℕ → Text
fifo_path sender receiver =
    codes "user_pipe/" ++ to_string sender ++ codes "_" ++ to_string receiver

-- One flag of the loop: the path to unlink if it was set, and the flag cleared.
unfoldable pub drop_pipe : ℕ → ℕ → Shared → List Text × Shared
drop_pipe sender receiver s =
    if s.user_pipe_exists sender receiver
    then (fifo_path sender receiver ∷ [], set_pipe sender receiver false s)
    else ([], s)

-- The loop over the peers from `peer` on, with `n` left.
unfoldable pub drop_pipes : ℕ → ℕ → ℕ → Shared → List Text × Shared
unfolding drop_pipe
drop_pipes id peer zero s = ([], s)
drop_pipes id peer (suc n) s =
    let (out_paths, t) = drop_pipe id peer s in
    let (in_paths, u) = drop_pipe peer id t in
    let (paths, v) = drop_pipes id (peer + 1) n u in (out_paths ++ in_paths ++ paths, v)

-- The user's name, and the paths to unlink.
unfoldable pub clear_user : ℕ → Shared → (Text × List Text) × Shared
clear_user id s =
    let user = s.users id in
    let offline = set_user id (record user { online = false; messages = [] }) s in
    let (paths, t) = drop_pipes id 1 max_users offline in
    if is_valid_id id && user.online then ((user.name, paths), t) else (([], []), s)
