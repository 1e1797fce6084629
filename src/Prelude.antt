-- ===== src/Prelude.antt =====
-- Names that every other module takes: the libraries', passed on, and those of the children.
mod Tests
mod Lists
mod Runs
mod Splice
mod Xor
mod Bytes
pub use Tests.*
unfoldable pub use Lists.*
pub use Runs.*
pub use Splice.*
pub use Xor.*
unfoldable pub use Bytes.*
pub use Prim.Native.Nat.{
  ℕ, zero, suc, ◌+◌, ◌-◌, ◌*◌, ◌/◌, ◌%◌, ◌^◌, ◌≤◌, ◌<◌, min, bit_and, bit_or, bit_xor,
}
pub use mathlib.Core.Path.{◌≡◌, refl, sym, ap, ap₂, subst, ◌∙◌, ◌≡⟨◌⟩◌, ◌∎}
pub use mathlib.Core.Logic.{◌≢◌, ◌↔◌, ◌⊎◌, inl, inr}
pub use mathlib.Core.Bool.{Bool, true, false, not, ◌&&◌, ◌||◌}
pub use mathlib.Core.Option.{Option, none, some}
pub use mathlib.Core.List.{List, [], ◌∷◌, ◌++◌, map, append-nil, append_assoc, reverse-reverse}
unfoldable pub use mathlib.Core.List.{reverse, flatten, foldl}
pub use native.Mathlib.Omega.{arith}
