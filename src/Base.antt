-- ===== src/Base.antt =====
-- The names that the other modules share: the libraries', passed on, and those of three children.
mod Tests
mod Lists
mod Order
pub use Tests.*
unfoldable pub use Lists.{last?, drop_last, any, all, retain, find, remove_first, remove_last}
pub use Lists.{
  any-none, remove_last_split, length, length-append, is_empty, All, All-append, All-retain,
  any-append, retain-append, last?-snoc, drop_last-snoc, remove_last-snoc, retain-snoc_kept,
  retain-snoc_dropped, All-imp, All-remove_last, All-map, All-retain_passed, any-map, any-retain,
  All-both, All-any,
}
unfoldable pub use Order.{cmp_list}
pub use Order.{Ord, ◌==◌, ==_iff, ==_refl, then_with, nat_ord, ord_by, list_ord, pair_ord}
pub use Prim.Native.Nat.{ℕ, zero, suc, ◌+◌, ◌-◌, ◌*◌, ◌/◌, ◌%◌, ◌^◌, ◌≤◌, ◌<◌, max, Ordering}
pub use mathlib.Core.Path.{◌≡◌, refl, sym, ap, ◌∙◌, fun_ext, subst}
pub use mathlib.Core.Logic.{◌≢◌, ◌↔◌, ◌⊎◌, inl, inr}
pub use mathlib.Core.Bool.{Bool, true, false, ◌&&◌, ◌||◌, not}
pub use mathlib.Core.Option.{Option, none, some}
pub use mathlib.Core.List.{List, [], ◌∷◌, ◌++◌, map}
pub use native.Mathlib.Omega.{arith}
