-- ===== src/Prelude.antt =====
-- The names that the modules share: the libraries', passed on, and those of the children.
mod Tests
mod Strings
mod Int
pub use Tests.*
pub use Strings.{Text, length, take, drop}
pub use Strings.{text_eq_iff, text_eq_refl, length-append, take-append, drop-append, text_eq-cons}
unfoldable pub use Strings.{bytes, text_eq, has_prefix}
pub use Int.{ℤ, pos, negsuc, neg, ltb_ℤ, eqb_ℤ, sub_ℕ}
unfoldable pub use Int.{to_int32}
pub use Prim.Native.Nat.{ℕ, zero, suc, ◌+◌, ◌-◌, ◌*◌, ◌/◌, ◌%◌, ◌^◌, ◌≤◌, ◌<◌}
pub use mathlib.Core.Path.{◌≡◌, refl, sym, ap, ◌∙◌, fun_ext}
pub use mathlib.Core.Logic.{◌≢◌, ◌↔◌, ◌⊎◌, inl, inr}
pub use mathlib.Core.Bool.{Bool, true, false, not, ◌&&◌, ◌||◌}
pub use mathlib.Core.Option.{Option, none, some, get_or}
pub use mathlib.Core.List.{List, [], ◌∷◌, ◌++◌, map}
pub use native.Mathlib.Omega.{arith}
