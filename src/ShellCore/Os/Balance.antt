-- ===== src/ShellCore/Os/Balance.antt =====
-- Descriptors that are accounted for: each is open as often as the account says, which is at most
-- once, and none was closed that was not open.
use network_programming.Base.{
  ℕ, ◌+◌, ◌≤◌, ◌<◌, false, List, [], ◌∷◌, Option, none, some, Text, ◌==◌, if◌then◌else◌, ◌≡◌, arith,
  refl,
}
use network_programming.ShellCore.Os.{
  Os, System, PipeFd, Spawn, occurs, remove, close_fd, close_pipe, create_pipe_or_die,
  open_for_writing, spawn, given, opened,
}

abbrev pub one : ℕ → Option ℕ → ℕ
one x none = 0
one x (some fd) = if fd == x then 1 else 0

abbrev pub ends : ℕ → PipeFd → ℕ
ends x p = one x p.read_fd + one x p.write_fd

pub record Balanced (account : ℕ → ℕ) (os : Os) : Type 0 where
  pub fds : (x : ℕ) → occurs x os.fds ≡ account x
  pub single : (x : ℕ) → account x ≤ 1
  pub faults : os.faults ≡ 0

-- What POSIX says of `pipe` and `open`: the descriptors that they give were not open.
pub record IsPosix (system : System) : Type 0 where
  pub pipe_fresh :
      (k : ℕ) (fds : List ℕ) (r w : ℕ)
      → system.pipe k fds ≡ some (r, w)
      → (occurs r fds ≡ 0) × (occurs w fds ≡ 0) × ((r == w) ≡ false)
  pub open_fresh :
      (k : ℕ) (fds : List ℕ) (name : Text) (fd : ℕ)
      → system.open_file k fds name ≡ some fd
      → occurs fd fds ≡ 0

occurs-remove :
    (fd x : ℕ) (fds : List ℕ)
    → 0 < occurs fd fds
    → occurs x (remove fd fds) + one x (some fd) ≡ occurs x fds
unfolding remove
occurs-remove fd x [] h = absurd (omega arith)
occurs-remove fd x (y ∷ ys) h = ground (arith, occurs-remove fd x ys)

pub Balanced-account :
    {f : ℕ → ℕ} (g : ℕ → ℕ) {os : Os} → ((x : ℕ) → f x ≡ g x) → Balanced f os → Balanced g os
Balanced-account g same b = record {
  fds = λ x. omega (arith, b.fds x, same x);
  single = λ x. omega (arith, b.single x, same x);
  faults = b.faults;
}

pub close_fd-Balanced :
    {f : ℕ → ℕ} (g : ℕ → ℕ) (fd : Option ℕ) {os : Os}
    → ((x : ℕ) → f x ≡ one x fd + g x)
    → Balanced f os
    → Balanced g (close_fd fd os)
unfolding close_fd
close_fd-Balanced g none same b = Balanced-account g (λ x. omega (arith, same x)) b
close_fd-Balanced g (some fd) {os} same b = record {
  fds = λ x. ground (arith, occurs-remove fd x os.fds, same x, same fd, b.fds x, b.fds fd);
  single = λ x. omega (arith, b.single x, same x);
  faults = ground (arith, b.faults, same fd, b.fds fd);
}

pub close_pipe-Balanced :
    {f : ℕ → ℕ} (g : ℕ → ℕ) (p : PipeFd) {os : Os}
    → ((x : ℕ) → f x ≡ ends x p + g x)
    → Balanced f os
    → Balanced g (close_pipe p os)
unfolding close_pipe
close_pipe-Balanced g p same b =
    close_fd-Balanced g p.write_fd (λ x. refl)
      (close_fd-Balanced (λ x. one x p.write_fd + g x) p.read_fd (λ x. omega (arith, same x)) b)

pub spawn-Balanced : {f : ℕ → ℕ} (s : Spawn) {os : Os} → Balanced f os → Balanced f (spawn s os).1
unfolding spawn
spawn-Balanced s b = record { fds = b.fds; single = b.single; faults = b.faults }

-- The system refuses some call of `pipe`.
abbrev pub RefusesPipe : System → Type 0
RefusesPipe system = (k : ℕ) × (fds : List ℕ) × (system.pipe k fds ≡ none)

-- What `create_pipe_or_die` gives: both ends are accounted for, or the process exits, since the
-- system refused the pipe.
abbrev pub Made : System → (ℕ → ℕ) → Option (PipeFd × Os) → Type 0
Made system f none = RefusesPipe system
Made system f (some (p, os)) = Balanced (λ x. ends x p + f x) os

module _ {system : System} (posix : IsPosix system) where
  pub create_pipe_or_die-Made :
      {f : ℕ → ℕ} (os : Os) → Balanced f os → Made system f (create_pipe_or_die system os)
  unfolding create_pipe_or_die
  create_pipe_or_die-Made {f} os b = go (system.pipe os.calls os.fds) refl
    where
      go :
          (answer : Option (ℕ × ℕ))
          → system.pipe os.calls os.fds ≡ answer
          → Made system f (given system answer os)
      go none a = (os.calls, os.fds, a)
      go (some (r, w)) a =
          let fresh = posix.pipe_fresh os.calls os.fds r w a in
          record {
            fds = λ x. omega (arith, b.fds x);
            single = λ x.
                ground (arith, b.single x, b.fds x, b.fds r, b.fds w, fresh.0, fresh.1, fresh.2);
            faults = b.faults;
          }

  pub open_for_writing-Balanced :
      {f : ℕ → ℕ} (name : Text) (os : Os)
      → Balanced f os
      → let (fd, os') = open_for_writing system name os in Balanced (λ x. one x fd + f x) os'
  unfolding open_for_writing
  open_for_writing-Balanced {f} name os b = go (system.open_file os.calls os.fds name) refl
    where
      go :
          (answer : Option ℕ)
          → system.open_file os.calls os.fds name ≡ answer
          → Balanced (λ x. one x (opened system answer os).0 + f x) (opened system answer os).1
      go none a = record {
        fds = λ x. omega (arith, b.fds x);
        single = λ x. omega (arith, b.single x);
        faults = b.faults;
      }
      go (some fd) a =
          let fresh = posix.open_fresh os.calls os.fds name fd a in
          record {
            fds = λ x. omega (arith, b.fds x);
            single = λ x. ground (arith, b.single x, b.fds x, b.fds fd, fresh);
            faults = b.faults;
          }

-- A new pipe starts no process.
abbrev pub SameSpawned : Os → Option (PipeFd × Os) → Type 0
SameSpawned os none = Unit
SameSpawned os (some (p, os')) = os'.spawned ≡ os.spawned

pub create_pipe_or_die-SameSpawned :
    (system : System) (os : Os) → SameSpawned os (create_pipe_or_die system os)
unfolding create_pipe_or_die
create_pipe_or_die-SameSpawned system os = go (system.pipe os.calls os.fds)
  where
    go : (answer : Option (ℕ × ℕ)) → SameSpawned os (given system answer os)
    go none = tt
    go (some (r, w)) = refl

module _ (system : System) where
  -- Both ends were given by one call of pipe.
  abbrev pub IsMade : PipeFd → Type 0
  IsMade p =
      (calls : ℕ) × (fds : List ℕ) × (read : ℕ) × (write : ℕ) × (system.pipe calls fds
        ≡ some (read, write))
      × (p ≡ record { read_fd = some read; write_fd = some write })

  abbrev pub MadeIn : Option (PipeFd × Os) → Type 0
  MadeIn none = Unit
  MadeIn (some (p, os)) = IsMade p

  pub create_pipe_or_die-MadeIn : (os : Os) → MadeIn (create_pipe_or_die system os)
  unfolding create_pipe_or_die
  create_pipe_or_die-MadeIn os = go (system.pipe os.calls os.fds) refl
    where
      go :
          (answer : Option (ℕ × ℕ))
          → system.pipe os.calls os.fds ≡ answer
          → MadeIn (given system answer os)
      go none e = tt
      go (some (r, w)) e = (os.calls, os.fds, r, w, e, refl)
