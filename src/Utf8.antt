-- ===== src/Utf8.antt =====
-- `LogCollector::SanitizeUtf8` of agent/src/LogCollector.cpp. A byte is a number below 256, and the
-- masks of the source are written by `/` and `%`: `Utf8.Masks` shows that they agree on every byte.
pub mod Masks
pub mod Encoding
pub mod Accepted
pub mod Sanitized
mod Tests
use edge_scpoe.Base.{
  ℕ, zero, suc, ◌+◌, ◌*◌, ◌/◌, ◌%◌, Bool, not, ◌&&◌, [], ◌∷◌, ◌++◌, Option, none, some, leb, ◌==◌,
  if◌then◌else◌, length, take, drop,
}
use edge_scpoe.Text.{Bytes}

-- `kReplacement`: U+FFFD.
abbrev pub replacement : Bytes
replacement = 0xEF ∷ 0xBF ∷ 0xBD ∷ []

-- What a lead byte announces.
pub record Lead : Type 0 where
  pub continuations : ℕ
  pub code_point : ℕ
  pub minimum : ℕ

-- The chain of tests on `first`; `none` is the last `else`.
pub lead : ℕ → Option Lead
lead first =
    if first / 32 == 6
    then some (record { continuations = 1; code_point = first % 32; minimum = 0x80 })
    else if first / 16 == 14
    then some (record { continuations = 2; code_point = first % 16; minimum = 0x800 })
    else if first / 8 == 30
    then some (record { continuations = 3; code_point = first % 8; minimum = 0x10000 })
    else none

-- The loop over the continuation bytes. It fails where the input ends too early, or at a byte that
-- is no continuation.
pub continue : ℕ → ℕ → Bytes → Option ℕ
continue zero code_point s = some code_point
continue (suc n) code_point [] = none
continue (suc n) code_point (c ∷ cs) =
    let rest = continue n (code_point * 64 + c % 64) cs in if c / 64 == 2 then rest else none

pub in_range : ℕ → ℕ → Bool
in_range minimum code_point =
    leb minimum code_point
    && leb code_point 0x10FFFF
    && not (leb 0xD800 code_point && leb code_point 0xDFFF)

checked : ℕ → ℕ → Option ℕ → ℕ
unfolding in_range
checked n minimum none = 0
checked n minimum (some code_point) = if in_range minimum code_point then suc n else 0

sequence : Option Lead → Bytes → ℕ
unfolding continue checked
sequence none s = 0
sequence (some l) s = checked l.continuations l.minimum (continue l.continuations l.code_point s)

-- How many bytes at the front one round copies; 0 stands for a replacement.
pub accepted : ℕ → Bytes → ℕ
unfolding lead sequence
accepted first rest = if leb 128 first then sequence (lead first) rest else 1

-- The `while` loop, a round for each unit of fuel: a round consumes a byte at least.
pub sanitize : ℕ → Bytes → Bytes
unfolding accepted
sanitize zero s = []
sanitize (suc fuel) [] = []
sanitize (suc fuel) (c ∷ cs) =
    let n = accepted c cs in
    let replaced = replacement ++ sanitize fuel cs in
    let copied = take n (c ∷ cs) ++ sanitize fuel (drop n (c ∷ cs)) in
    if n == 0 then replaced else copied

unfoldable pub sanitize_utf8 : Bytes → Bytes
unfolding sanitize
sanitize_utf8 input = sanitize (length input) input
