-- ===== src/ShellCore/Child/Streams.antt =====
-- The three `dup2` calls that give a process its standard descriptors.
use network_programming.Base.{
  ℕ, ◌≤◌, ◌<◌, false, Option, none, some, ◌==◌, suc, Bool-cases, inl, inr, ◌≡◌, arith, refl, ◌∙◌,
  ap,
}
use network_programming.ShellCore.Execute.{IoPlan}
use network_programming.ShellCore.Child.{Table, put_file, dup_input, dup_unless, duplicate}

abbrev pub AtLeast : ℕ → Option ℕ → Type 0
AtLeast n none = Unit
AtLeast n (some fd) = n ≤ fd

abbrev pub Open : Table → Option ℕ → Type 0
Open t none = Unit
Open t (some fd) = (file : ℕ) × (t fd ≡ some file)

-- The open file behind a descriptor, or behind the standard one where there is none.
abbrev pub source : Option ℕ → ℕ → Table → Option ℕ
source none target t = t target
source (some fd) target t = t fd

abbrev Agree : ℕ → Table → Table → Type 0
Agree n t t' = (x : ℕ) → n ≤ x → t' x ≡ t x

Open-same :
    {n : ℕ} {t t' : Table} (o : Option ℕ) → Agree n t t' → AtLeast n o → Open t o → Open t' o
Open-same none same a h = h
Open-same (some fd) same a (file, h) = (file, same fd a ∙ h)

source-same :
    {n : ℕ} {t t' : Table} (o : Option ℕ) (target : ℕ)
    → Agree n t t'
    → n ≤ target
    → AtLeast n o
    → source o target t' ≡ source o target t
source-same none target same e a = same target e
source-same (some fd) target same e a = same fd a

put_file-target :
    (o : Option ℕ) (target file : ℕ) (t : Table) → o ≡ some file → put_file o target t target ≡ o
put_file-target none target file t h = cc
put_file-target (some f) target file t h = ground arith

put_file-other :
    (o : Option ℕ) (target : ℕ) (t : Table) (x : ℕ)
    → (x == target) ≡ false
    → put_file o target t x ≡ t x
put_file-other none target t x h = refl
put_file-other (some f) target t x h = rw (h) refl

dup_input-target : (o : Option ℕ) (t : Table) → Open t o → dup_input o t 0 ≡ source o 0 t
dup_input-target none t h = refl
dup_input-target (some fd) t (file, h) = put_file-target (t fd) 0 file t h

dup_input-Agree : (o : Option ℕ) (t : Table) → Agree 1 t (dup_input o t)
dup_input-Agree none t x h = refl
dup_input-Agree (some fd) t x h = put_file-other (t fd) 0 t x (ground arith)

dup_unless-target :
    (o : Option ℕ) (target : ℕ) (t : Table)
    → Open t o
    → dup_unless o target t target ≡ source o target t
dup_unless-target none target t h = refl
dup_unless-target (some fd) target t (file, h) = elim (Bool-cases (fd == target)) [
  | inl same ↦ rw (same) (ap t (ground arith))
  | inr other ↦ rw (other) (put_file-target (t fd) target file t h)
]

dup_unless-other :
    (o : Option ℕ) (target : ℕ) (t : Table) (x : ℕ)
    → (x == target) ≡ false
    → dup_unless o target t x ≡ t x
dup_unless-other none target t x h = refl
dup_unless-other (some fd) target t x h = elim (Bool-cases (fd == target)) [
  | inl same ↦ rw (same) refl
  | inr other ↦ rw (other) (put_file-other (t fd) target t x h)
]

dup_unless-Agree :
    (o : Option ℕ) (target : ℕ) (t : Table) → Agree (suc target) t (dup_unless o target t)
dup_unless-Agree o target t x h = dup_unless-other o target t x (ground arith)

-- The descriptors of a plan are open, and none of them is a standard one that is given away before
-- it is used.
pub record Ready (plan : IoPlan) (in_fd : Option ℕ) (t : Table) : Type 0 where
  pub output_free : AtLeast 1 plan.out_fd
  pub error_free : AtLeast 2 plan.err_fd
  pub input_open : Open t in_fd
  pub output_open : Open t plan.out_fd
  pub error_open : Open t plan.err_fd

-- A table with these three streams, and with the old descriptors above them.
pub record Streams (plan : IoPlan) (in_fd : Option ℕ) (t t' : Table) : Type 0 where
  pub input : t' 0 ≡ source in_fd 0 t
  pub output : t' 1 ≡ source plan.out_fd 1 t
  pub error : t' 2 ≡ source plan.err_fd 2 t
  pub others : (x : ℕ) → 2 < x → t' x ≡ t x

pub duplicate-Streams :
    (plan : IoPlan) (in_fd : Option ℕ) (t : Table)
    → Ready plan in_fd t
    → Streams plan in_fd t (duplicate plan in_fd t)
duplicate-Streams plan in_fd t ready =
    let first = dup_input in_fd t in
    let second = dup_unless plan.out_fd 1 first in
    let first_same = dup_input-Agree in_fd t in
    let second_same : Agree 2 t second =
      λ x h. dup_unless-Agree plan.out_fd 1 first x h ∙ first_same x (omega arith) in
    record {
      input =
          dup_unless-other plan.err_fd 2 second 0 refl
          ∙ dup_unless-other plan.out_fd 1 first 0 refl
          ∙ dup_input-target in_fd t ready.input_open;
      output =
          dup_unless-other plan.err_fd 2 second 1 refl
          ∙ dup_unless-target plan.out_fd 1 first
              (Open-same plan.out_fd first_same ready.output_free ready.output_open)
          ∙ source-same plan.out_fd 1 first_same (omega arith) ready.output_free;
      error =
          dup_unless-target plan.err_fd 2 second
            (Open-same plan.err_fd second_same ready.error_free ready.error_open)
          ∙ source-same plan.err_fd 2 second_same (omega arith) ready.error_free;
      others = λ x h. dup_unless-Agree plan.err_fd 2 second x h ∙ second_same x (omega arith);
    }
