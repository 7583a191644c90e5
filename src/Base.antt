-- ===== src/Base.antt =====
-- Names that every part of the library shares: the library's, passed on, and those of the children.
mod Tests
mod Lists
mod Options
mod Strings
mod Number
pub use Tests.*
pub use Lists.*
pub use Options.*
pub use Strings.*
pub use Number.*
unfoldable pub use Strings.{trim_cr}
unfoldable pub use Number.{to_string, stoi}
pub use Prim.Native.Nat.{ℕ, zero, suc, ◌+◌, ◌-◌, ◌*◌, ◌/◌, ◌%◌, ◌^◌, ◌≤◌, ◌<◌}
pub use mathlib.Core.Path.{◌≡◌, refl, sym, ap, subst, fun_ext, ◌∙◌}
pub use mathlib.Core.Logic.{◌≢◌, ◌↔◌, ◌⊎◌, inl, inr}
pub use mathlib.Core.Bool.{Bool, true, false, not, ◌&&◌, ◌||◌}
pub use mathlib.Core.Option.{Option, none, some}
pub use mathlib.Core.List.{List, [], ◌∷◌, ◌++◌, map, append-nil, append_assoc}
pub use native.Mathlib.Omega.{arith}
