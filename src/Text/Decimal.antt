-- ===== src/Text/Decimal.antt =====
-- Decimal numbers as `std::to_string` writes them.
use mathlib.Core.List.{foldl}
use edge_scpoe.Base.{
  ℕ, zero, suc, ◌+◌, ◌-◌, ◌*◌, ◌/◌, ◌%◌, ◌<◌, ◌≡◌, refl, true, false, [], ◌∷◌, ◌++◌, ltb,
  if◌then◌else◌, All, arith, if_intro, ap,
}
use edge_scpoe.Base.Int.{ℤ, pos, negsuc}
use edge_scpoe.Text.{Bytes, is_digit}
use edge_scpoe.Text.Numbers.{take_digits, magnitude}

abbrev digit : ℕ → ℕ
digit n = b'0' + n % 10

-- The digits of a number in front of a text, one for each unit of fuel at most.
unfoldable pub digits : ℕ → ℕ → Bytes → Bytes
digits zero n acc = acc
digits (suc fuel) n acc =
    let more = digits fuel (n / 10) (digit n ∷ acc) in if ltb n 10 then digit n ∷ acc else more

unfoldable pub to_string : ℕ → Bytes
unfolding digits
to_string n = digits (suc n) n []

-- A signed number.
unfoldable pub int_to_string : ℤ → Bytes
unfolding to_string
int_to_string (pos n) = to_string n
int_to_string (negsuc n) = b'-' ∷ to_string (suc n)

abbrev shift_in : ℕ → ℕ → ℕ
shift_in n c = n * 10 + (c - b'0')

abbrev pub Digits : Bytes → Type 0
Digits = All (λ c. is_digit c ≡ true)

foldl-digits :
    (fuel n : ℕ) (acc : Bytes)
    → n < fuel
    → foldl shift_in 0 (digits fuel n acc) ≡ foldl shift_in n acc
unfolding digits
foldl-digits zero n acc h = absurd (omega arith)
foldl-digits (suc fuel) n acc h =
    if_intro (λ s. foldl shift_in 0 s ≡ foldl shift_in n acc) (ltb n 10) _ _
      (λ small.
        let e : 0 * 10 + (digit n - b'0') ≡ n = ground arith in ap (λ v. foldl shift_in v acc) e)
      λ large.
        let e : n / 10 * 10 + (digit n - b'0') ≡ n = ground arith in
        rw (foldl-digits fuel (n / 10) (digit n ∷ acc) (ground arith))
          (ap (λ v. foldl shift_in v acc) e)

-- The digits that are written spell the number.
pub magnitude-to_string : (n : ℕ) → magnitude (to_string n) ≡ n
unfolding to_string
magnitude-to_string n = foldl-digits (suc n) n [] (omega arith)

digits-Digits : (fuel n : ℕ) (acc : Bytes) → Digits acc → Digits (digits fuel n acc)
unfolding digits is_digit
digits-Digits zero n acc h = h
digits-Digits (suc fuel) n acc h =
    let one : is_digit (digit n) ≡ true = ground arith in
    if_intro Digits (ltb n 10) _ _ (λ small. (one, h))
      λ large. digits-Digits fuel (n / 10) (digit n ∷ acc) (one, h)

pub to_string-Digits : (n : ℕ) → Digits (to_string n)
unfolding to_string
to_string-Digits n = digits-Digits (suc n) n [] tt

-- Digits are read up to the first byte that is none.
pub take_digits-append :
    (s : Bytes) (c : ℕ) (t : Bytes) → Digits s → is_digit c ≡ false → take_digits (s ++ c ∷ t) ≡ s
unfolding take_digits
take_digits-append [] c t h n = rw n refl
take_digits-append (d ∷ s) c t h n = rw (h.0, take_digits-append s c t h.1 n) refl

pub take_digits-all : (s : Bytes) → Digits s → take_digits s ≡ s
unfolding take_digits
take_digits-all [] h = refl
take_digits-all (c ∷ s) h = rw (h.0, take_digits-all s h.1) refl
