-- ===== src/Multi/Line/Tests.antt =====
-- A session of np_multi_proc.cpp and what it writes.
use network_programming.Base.{[], ◌∷◌, codes, trim_cr, to_string, true, ◌≡◌, refl}
use network_programming.Multi.Builtins.{handle_rwg_builtin}
use network_programming.Multi.Line.{serve_client, unlink_all}
use network_programming.Multi.Messages.{broadcast_message}
use network_programming.Multi.Process.{
  World, Run, wrote, run_of, ◌>>=◌, ◌>>◌, locked, event, skip, return, close, with_os,
}
use network_programming.Multi.Shared.{
  init_shared_memory, set_user, set_pipe, name_taken_from, copy_string,
}
use network_programming.Multi.Users.{assign_user, first_offline, clear_user, drop_pipes, drop_pipe}
use network_programming.Rwg.Input.{take_lines}
use network_programming.Rwg.Server.{Peer, welcome}
use network_programming.ShellCore.Fresh.{fresh_system}
use network_programming.ShellCore.Os.{close_fd}
use network_programming.ShellCore.State.{
  new_shell, close_shell_state, discard_incoming_pipe, pipe_at,
}

abbrev amy : Peer
amy = record { fd = 4; ip = codes "10.0.0.1"; port = 5000 }

abbrev alone : World
alone = record { others = λ k s. s; system = fresh_system; mkfifo = λ k path. true }

abbrev at_start : Run
at_start = record {
  shared = init_shared_memory;
  sections = 0;
  left = [];
  shell = new_shell;
  os = record { fds = 4 ∷ 2 ∷ 1 ∷ 0 ∷ []; calls = 0; faults = 0; spawned = [] };
  trace = [];
}

abbrev session : Run
session =
    run_of
      (serve_client 100 amy (codes "name amy\nyell hi\nex" ∷ codes "it\r\n" ∷ []) alone at_start)

session_writes :
    session.trace
    ≡ wrote welcome
      ∷ wrote (codes "*** User '(no name)' entered from 10.0.0.1:5000. ***\n")
      ∷ wrote (codes "% ")
      ∷ wrote (codes "*** User from 10.0.0.1:5000 is named 'amy'. ***\n")
      ∷ wrote (codes "% ")
      ∷ wrote (codes "*** amy yelled ***: hi\n")
      ∷ wrote (codes "% ")
      ∷ []
unfolding serve_client ◌>>=◌ ◌>>◌ locked event skip return close with_os assign_user first_offline
    clear_user drop_pipes drop_pipe set_user set_pipe broadcast_message take_lines trim_cr to_string
    handle_rwg_builtin name_taken_from copy_string unlink_all close_fd close_shell_state
    discard_incoming_pipe pipe_at
session_writes = refl
