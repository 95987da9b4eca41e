-- ===== src/CommandLine/Pid.antt =====
-- What `ParsePid` accepts.
use edge_scpoe.Base.{ℕ, ◌-◌, ◌≤◌, ◌≡◌, refl, true, false, [], ◌∷◌, some, arith, null, length}
use edge_scpoe.Base.Int.{pos}
use edge_scpoe.Text.{Bytes, is_digit, is_space, drop_spaces}
use edge_scpoe.Text.Numbers.{drop_digits, sign, scan_integer, stoll, as_i64, magnitude, max_i32}
use edge_scpoe.Text.Decimal.{
  Digits, to_string, magnitude-to_string, to_string-Digits, take_digits-all,
}
use edge_scpoe.CommandLine.{parse_pid, positive_pid}
use edge_scpoe.ProcessList.Stat.{within}

drop_digits-all : (s : Bytes) → Digits s → drop_digits s ≡ []
unfolding drop_digits
drop_digits-all [] h = refl
drop_digits-all (c ∷ s) h = rw (h.0) (drop_digits-all s h.1)

unspaced : (c : ℕ) (s : Bytes) → is_digit c ≡ true → drop_spaces (c ∷ s) ≡ c ∷ s
unfolding drop_spaces is_space is_digit
unspaced c s h = ground arith

unsigned : (c : ℕ) (s : Bytes) → is_digit c ≡ true → sign (c ∷ s) ≡ (false, c ∷ s)
unfolding sign is_digit
unsigned c s h = ground arith

-- Digits are scanned whole, without a sign.
scan_integer-Digits :
    (s : Bytes) → Digits s → null s ≡ false → scan_integer s ≡ some (false, magnitude s, [])
unfolding scan_integer
scan_integer-Digits [] h n = cc
scan_integer-Digits (c ∷ s) h n =
    rw (unspaced c s h.0, unsigned c s h.0, take_digits-all (c ∷ s) h, drop_digits-all (c ∷ s) h)
      refl

not_empty : (s : Bytes) (n : ℕ) → magnitude s ≡ n → 1 ≤ n → null s ≡ false
not_empty [] n e h = absurd (omega arith)
not_empty (c ∷ s) n e h = refl

fits : (n : ℕ) → n ≤ max_i32 → as_i64 false n ≡ some (pos n)
unfolding as_i64
fits n h = ground arith

in_reach : (n size : ℕ) → 1 ≤ n → n ≤ max_i32 → positive_pid size (some (pos n, size - 0)) ≡ some n
unfolding positive_pid within
in_reach n size low high = ground arith

-- `ParsePid` reads back every number from 1 to 2 ^ 31 - 1 that is printed in decimal.
pub parse_pid-to_string : (n : ℕ) → 1 ≤ n → n ≤ max_i32 → parse_pid (to_string n) ≡ some n
unfolding parse_pid stoll
parse_pid-to_string n low high =
    let scanned =
      scan_integer-Digits (to_string n) (to_string-Digits n)
        (not_empty (to_string n) n (magnitude-to_string n) low) in
    rw (scanned, magnitude-to_string n, fits n high) (in_reach n (length (to_string n)) low high)
