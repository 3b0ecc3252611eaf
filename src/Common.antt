-- ===== src/Common.antt =====
-- The names that the components share: those of the libraries, passed on, and those of the
-- children: tests, lists, texts as lists of code points, dictionaries, JSON values.
mod Tests
mod Lists
mod Strings
mod Dicts
mod Values
mod Decimals
pub use Tests.*
pub use Lists.*
pub use Strings.*
unfoldable pub use Strings.{
  ◌==◌, lower, upper, strip, starts_with, ends_with, contains, split_on, is_alnum,
}
pub use Dicts.*
unfoldable pub use Dicts.{lookup, insert, remove, merge, keys, values}
pub use Values.*
pub use Decimals.*
unfoldable pub use Decimals.{decimal, all_digits, int_of}
pub use Prim.Native.Nat.{ℕ, zero, suc, ◌+◌, ◌-◌, ◌*◌, ◌≤◌, ◌<◌}
pub use mathlib.Core.Path.{◌≡◌, refl, sym, ap, ◌∙◌, subst}
pub use mathlib.Core.Logic.{◌≢◌, ◌↔◌, ◌⊎◌, inl, inr}
pub use mathlib.Core.Bool.{Bool, true, false, not, ◌&&◌, ◌||◌}
pub use mathlib.Core.Option.{Option, none, some}
pub use mathlib.Core.List.{List, [], ◌∷◌, ◌++◌, map, reverse}
pub use native.Mathlib.Omega.{arith}
