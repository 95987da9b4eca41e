-- ===== src/Utf8/Masks.antt =====
-- The tests by `/` and `%` are the masks of the source, on every byte.
use Prim.Native.Nat.{bit_and}
use edge_scpoe.Base.{
  ℕ, zero, if◌then◌else◌, suc, ◌/◌, ◌%◌, ◌<◌, ◌≡◌, refl, Bool, true, false, ◌&&◌, arith, ◌==◌,
}

abbrev same : Bool → Bool → Bool
same true b = b
same false true = false
same false false = true

-- The test holds of every byte below a bound, tried one by one.
tried : (ℕ → Bool) → ℕ → Bool
tried test zero = true
tried test (suc b) = let lower = tried test b in if test b then lower else false

tried-covers : (test : ℕ → Bool) (bound b : ℕ) → tried test bound ≡ true → b < bound → test b ≡ true
unfolding tried
tried-covers test zero b all_pass below = absurd (omega arith)
tried-covers test (suc last) b all_pass below = let lower = tried-covers test last b in ground arith

-- The masks of a lead byte, of a continuation byte, and of the payloads.
abbrev masks : ℕ → Bool
masks b =
    same (bit_and b 0xE0 == 0xC0) (b / 32 == 6)
    && same (bit_and b 0xF0 == 0xE0) (b / 16 == 14)
    && same (bit_and b 0xF8 == 0xF0) (b / 8 == 30)
    && same (bit_and b 0xC0 == 0x80) (b / 64 == 2)
    && bit_and b 0x1F == b % 32
    && bit_and b 0x0F == b % 16
    && bit_and b 0x07 == b % 8
    && bit_and b 0x3F == b % 64

pub masks_agree : (b : ℕ) → b < 256 → masks b ≡ true
unfolding tried
masks_agree b byte = tried-covers masks 256 b by_table byte
  where
    by_table : tried masks 256 ≡ true
    by_table = refl
