-- ===== src/Base/Options.antt =====
-- Chains of steps that may fail.
use mathlib.Core.Option.{Option, none, some}

-- The rest of a chain, where the step before gave a value.
infixl 5 ◌>>=◌
abbrev pub ◌>>=◌ : {Step Result : Type 0} → Option Step → (Step → Option Result) → Option Result
some value >>= next = next value
none >>= next = none
