-- ===== src/Prelude.antt =====
-- Shared names: the libraries', passed on, and the helpers of the children (tests on numbers and
-- texts, lists, table operations, text helpers, JSON values).
mod Tests
mod Lists
mod Tables
mod Evolution
mod Keys
mod Keyed
mod Text
mod JsonValues
mod Values
pub use Tests.*
pub use Lists.*
unfoldable pub use Tables.*
unfoldable pub use Text.{
  strip, join_with, show_nat, starts_with, ends_with, has_char, rstrip_char, strip_char,
}
pub use Text.{is_space, is_empty, take_text, same_char}
pub use Keyed.*
pub use Keys.*
pub use Evolution.*
pub use JsonValues.*
pub use Values.{is_true, is_given, or_else, is_text}
unfoldable pub use Values.{is_nonblank, shown, text_or}
pub use Prim.Native.Nat.{ℕ, zero, suc, ◌+◌, ◌-◌, ◌*◌, ◌≤◌, ◌<◌, max, min}
pub use Prim.Native.String.{String}
pub use Prim.Native.String.{◌++◌ as append_str}
pub use mathlib.Core.Path.{◌≡◌, refl, sym, ap, ◌∙◌}
pub use mathlib.Core.Logic.{◌≢◌, ◌↔◌, ◌⊎◌, inl, inr}
pub use mathlib.Core.Bool.{Bool, true, false, not, ◌&&◌, ◌||◌}
pub use mathlib.Core.Option.{Option, none, some, get_or}
pub use mathlib.Core.List.{List, [], ◌∷◌, ◌++◌, map}
pub use native.Mathlib.Omega.{arith}
pub use text.Mathlib.TextEquality.{eq_iff}
pub use text.Mathlib.TextPositions.{eq_refl}
