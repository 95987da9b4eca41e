-- ===== src/Base/Floats.antt =====
-- The operations of `double` that the sources use. The type and its arithmetic are parameters: their
-- values are those of the C++ implementation.
use Prim.Native.Nat.{ℕ}
use mathlib.Core.Bool.{Bool}

pub record Floats {ℓ} (D : Type ℓ) : Type ℓ where
  -- The conversion of an unsigned integer, also of a literal such as 100.0.
  pub of_nat : ℕ → D
  pub minus : D → D → D
  pub times : D → D → D
  pub over : D → D → D
  -- `a <= b` and `a < b`.
  pub at_most : D → D → Bool
  pub below : D → D → Bool
  pub is_finite : D → Bool
  -- The conversion to `std::uint64_t` of a value in its range.
  pub to_u64 : D → ℕ
