-- ===== src/ShellCore/Fresh.antt =====
-- A system that gives descriptors above all that are open: POSIX's promise can be kept.
use network_programming.Base.{
  ℕ, ◌+◌, ◌≤◌, List, [], ◌∷◌, some, ltb, if◌then◌else◌, ◌≡◌, arith, refl,
}
use network_programming.ShellCore.Os.Balance.{IsPosix}
use network_programming.ShellCore.Os.{System, occurs}

abbrev pub above : List ℕ → ℕ
above [] = 0
above (fd ∷ fds) = let rest = above fds in if ltb fd rest then rest else fd + 1

occurs-above : (x : ℕ) (fds : List ℕ) → above fds ≤ x → occurs x fds ≡ 0
occurs-above x [] h = refl
occurs-above x (fd ∷ fds) h = ground (arith, occurs-above x fds)

abbrev pub fresh_system : System
fresh_system = record {
  pipe = λ k fds. some (above fds, above fds + 1);
  open_file = λ k fds name. some (above fds);
}

pub fresh_system-IsPosix : IsPosix fresh_system
fresh_system-IsPosix = record {
  pipe_fresh = λ k fds r w e.
      (ground (arith, occurs-above r fds), ground (arith, occurs-above w fds), ground arith);
  open_fresh = λ k fds name fd e. ground (arith, occurs-above fd fds);
}
