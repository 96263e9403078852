-- ===== src/Base.antt =====
-- The names that the other modules share: the libraries', passed on, and those of the children.
mod Tests
mod Lists
mod Effects
mod Texts
mod Triples
pub use Tests.*
pub use Lists.*
pub use Effects.{
  Exception, value_error, task_not_found, lease_conflict, stale_lease, invalid_transition,
  store_error, event_conflict, event_not_found, integrity_error, os_error, invalid_event,
  unknown_repository, event_race, event_error, workspace_error, controller_error, profile_error,
  provider_error, assertion_error, key_error, out_of_fuel, Result, ok, err, Exec, continue, ◌>>◌,
}
unfoldable pub use Effects.{
  pure, raise, lift, gets, finish, modify, require, refuse, ◌>>=◌, attempt,
}
pub use Texts.{codes, concat}
pub use Triples.*
unfoldable pub use Texts.{decimal, is_space, is_blank, is_stripped, is_hex}
pub use Prim.Native.Nat.{ℕ, zero, suc, ◌+◌, ◌-◌, ◌*◌, ◌/◌, ◌%◌, ◌^◌, ◌≤◌, ◌<◌}
pub use Prim.Native.String.{String}
pub use mathlib.Core.Path.{◌≡◌, refl, sym, ap, ◌∙◌, subst, fun_ext}
pub use mathlib.Core.Logic.{◌≢◌, ◌↔◌, ◌⊎◌, inl, inr}
pub use mathlib.Core.Bool.{Bool, true, false, not, ◌&&◌, ◌||◌, decide}
pub use mathlib.Core.Option.{Option, none, some}
pub use mathlib.Core.List.{List, [], ◌∷◌, ◌++◌, map, append-nil, append_assoc}
pub use native.Mathlib.Omega.{arith}
pub use text.Mathlib.Text.{◌==◌, starts_with}
pub use text.Mathlib.TextEquality.{eq_iff}
pub use text.Mathlib.TextPositions.{eq_refl}
