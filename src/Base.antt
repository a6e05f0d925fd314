-- ===== src/Base.antt =====
-- The names and lemmas that the components share.
mod Tests
mod Lists
mod Word
pub mod Steps
mod Results
pub mod Bits
pub mod Merge
pub mod Fields
pub mod Commute
pub use Tests.*
pub use Lists.*
pub use Results.*
unfoldable pub use Word.{merge}
pub use Word.{word_size, u8, u32, u64, add64, sub64, shl64, shr, not64}
pub use Prim.Native.Nat.{ℕ, zero, suc, ◌+◌, ◌-◌, ◌*◌, ◌/◌, ◌%◌, ◌^◌, ◌≤◌, ◌<◌, min, max}
pub use Prim.Native.Nat.{bit_and, bit_or, bit_xor}
pub use mathlib.Core.Path.{◌≡◌, refl, sym, ap, ◌∙◌}
pub use mathlib.Core.Logic.{◌≢◌, ◌↔◌, ◌⊎◌, inl, inr}
pub use mathlib.Core.Bool.{Bool, true, false, not, ◌&&◌, ◌||◌}
pub use mathlib.Core.Option.{Option, none, some}
pub use mathlib.Core.List.{List, [], ◌∷◌, ◌++◌, map}
pub use native.Mathlib.Omega.{arith}
