-- ===== src/Text/Numbers.antt =====
-- How the C++ library reads numbers and words: `std::stoul`, `std::stoll`, `std::from_chars`, and
-- `>>` from an `std::istringstream`. A failed call, by an exception or a stream that has failed,
-- is `none`.
use mathlib.Core.List.{foldl}
use edge_scpoe.Base.{
  ℕ, ◌+◌, ◌-◌, ◌*◌, ◌%◌, ◌^◌, Bool, true, false, [], ◌∷◌, Option, none, some, leb, ltb, ◌==◌,
  if◌then◌else◌, length, null,
}
use edge_scpoe.Base.Int.{ℤ, pos, negsuc}
use edge_scpoe.Text.{Bytes, is_space, is_digit, drop_spaces}

infixl 5 ◌>>=◌
abbrev pub ◌>>=◌ {ℓ κ} : {A : Type ℓ} {B : Type κ} → Option A → (A → Option B) → Option B
none >>= f = none
some a >>= f = f a

-- std::numeric_limits<std::uint64_t>::max() and the bounds of std::int64_t.
abbrev pub max_u64 : ℕ
max_u64 = 2 ^ 64 - 1

abbrev pub max_u32 : ℕ
max_u32 = 2 ^ 32 - 1

abbrev pub max_i32 : ℕ
max_i32 = 2 ^ 31 - 1

unfoldable pub take_digits : Bytes → Bytes
unfolding is_digit
take_digits [] = []
take_digits (c ∷ cs) = if is_digit c then c ∷ take_digits cs else []

unfoldable pub drop_digits : Bytes → Bytes
unfolding is_digit
drop_digits [] = []
drop_digits (c ∷ cs) = if is_digit c then drop_digits cs else c ∷ cs

-- The number that decimal digits spell.
abbrev pub magnitude : Bytes → ℕ
magnitude = foldl (λ n c. n * 10 + (c - b'0')) 0

unfoldable pub sign : Bytes → Bool × Bytes
sign [] = (false, [])
sign (c ∷ cs) = if c == b'-' then (true, cs) else if c == b'+' then (false, cs) else (false, c ∷ cs)

-- White space, a sign, digits: whether the sign is a minus, the digits' number, and the rest.
unfoldable pub scan_integer : Bytes → Option (Bool × ℕ × Bytes)
unfolding drop_spaces sign take_digits drop_digits
scan_integer s =
    let signed = sign (drop_spaces s) in
    if null (take_digits signed.1)
    then none
    else some (signed.0, magnitude (take_digits signed.1), drop_digits signed.1)

-- The value that `strtoull` gives for a magnitude that fits: a minus sign negates modulo 2 ^ 64.
unfoldable pub as_u64 : Bool → ℕ → Option ℕ
as_u64 negative n =
    if ltb max_u64 n then none else some (if negative then (2 ^ 64 - n) % 2 ^ 64 else n)

unfoldable pub as_i64 : Bool → ℕ → Option ℤ
as_i64 false n = if leb (2 ^ 63) n then none else some (pos n)
as_i64 true n = if ltb (2 ^ 63) n then none else some (if n == 0 then pos 0 else negsuc (n - 1))

-- `std::stoul(text, &consumed)`: the value and the count of characters that were used.
unfoldable pub stoul : Bytes → Option (ℕ × ℕ)
unfolding scan_integer as_u64
stoul s = do
  (negative, n, rest) ← scan_integer s
  v ← as_u64 negative n
  some (v, length s - length rest)

-- `std::stoll(text, &consumed)`.
unfoldable pub stoll : Bytes → Option (ℤ × ℕ)
unfolding scan_integer as_i64
stoll s = do
  (negative, n, rest) ← scan_integer s
  v ← as_i64 negative n
  some (v, length s - length rest)

-- `stream >> value` for the integer types: the value and what is left in the stream.
unfoldable pub read_u64 : Bytes → Option (ℕ × Bytes)
unfolding scan_integer as_u64
read_u64 s = do (negative, n, rest) ← scan_integer s; v ← as_u64 negative n; some (v, rest)

unfoldable pub read_i64 : Bytes → Option (ℤ × Bytes)
unfolding scan_integer as_i64
read_i64 s = do (negative, n, rest) ← scan_integer s; v ← as_i64 negative n; some (v, rest)

take_word : Bytes → Bytes
unfolding is_space
take_word [] = []
take_word (c ∷ cs) = if is_space c then [] else c ∷ take_word cs

drop_word : Bytes → Bytes
unfolding is_space
drop_word [] = []
drop_word (c ∷ cs) = if is_space c then c ∷ cs else drop_word cs

-- `stream >> word` for a string, and `stream >> c` for a character.
unfoldable pub read_word : Bytes → Option (Bytes × Bytes)
unfolding take_word drop_word drop_spaces
read_word s =
    let word = drop_spaces s in if null word then none else some (take_word word, drop_word word)

first : Bytes → Option (ℕ × Bytes)
first [] = none
first (c ∷ cs) = some (c, cs)

unfoldable pub read_char : Bytes → Option (ℕ × Bytes)
unfolding first drop_spaces
read_char s = first (drop_spaces s)
