-- ===== src/Network/Endpoint.antt =====
-- Endpoints as the kernel prints them are read back.
use edge_scpoe.Base.{
  ℕ, zero, suc, ◌+◌, ◌-◌, ◌*◌, ◌/◌, ◌%◌, ◌<◌, ◌≡◌, refl, ap, Bool, true, false, [], ◌∷◌, ◌++◌,
  Option, some, leb, ltb, ◌==◌, if◌then◌else◌, length, drop, All, arith, take-length,
}
use edge_scpoe.Text.{Bytes, find_char, is_digit}
use edge_scpoe.Text.Numbers.{max_u64}
use edge_scpoe.Network.{
  digit_value, only_if, digits_value, parse_unsigned, parse_byte, parse_words, expected_size,
  word_count, sized_words, parse_endpoint,
}

-- A digit of `%X`.
abbrev pub hex_digit : ℕ → ℕ
hex_digit n = if ltb n 10 then b'0' + n else b'A' + n - 10

abbrev pub hex_byte : ℕ → Bytes
hex_byte b = hex_digit (b / 16) ∷ hex_digit (b % 16) ∷ []

digit_value-hex_digit : (n : ℕ) → n < 16 → digit_value (hex_digit n) ≡ some n
unfolding digit_value is_digit
digit_value-hex_digit n h = ground arith

digits_value-hex_digit :
    (value n : ℕ) (cs : Bytes)
    → n < 16
    → digits_value 16 value (hex_digit n ∷ cs) ≡ digits_value 16 (value * 16 + n) cs
unfolding digits_value only_if
digits_value-hex_digit value n cs h =
    let small : ltb n 16 ≡ true = ground arith in rw (digit_value-hex_digit n h, small) refl

-- A number that is read fits.
fits_u64 : (v n : ℕ) → v ≡ n → n < 65536 → only_if (leb v max_u64) v ≡ some n
unfolding only_if
fits_u64 v n e h = let fits : leb v max_u64 ≡ true = ground arith in rw fits (ap some e)

parse_unsigned-hex_byte : (b : ℕ) → b < 256 → parse_unsigned (hex_byte b) 16 ≡ some b
unfolding parse_unsigned digits_value
parse_unsigned-hex_byte b h =
    rw
      (
        digits_value-hex_digit 0 (b / 16) (hex_digit (b % 16) ∷ []) (omega arith),
        digits_value-hex_digit (0 * 16 + b / 16) (b % 16) [] (omega arith),
      )
      (fits_u64 _ b (omega arith) (omega arith))

abbrev pub hex_port : ℕ → Bytes
hex_port p =
    hex_digit (p / 4096)
    ∷ hex_digit (p / 256 % 16)
    ∷ hex_digit (p / 16 % 16)
    ∷ hex_digit (p % 16)
    ∷ []

parse_unsigned-hex_port : (p : ℕ) → p < 65536 → parse_unsigned (hex_port p) 16 ≡ some p
unfolding parse_unsigned digits_value
parse_unsigned-hex_port p h =
    let a = p / 4096 in
    let b = p / 256 % 16 in
    let c = p / 16 % 16 in
    let d = p % 16 in
    rw
      (
        digits_value-hex_digit 0 a (hex_digit b ∷ hex_digit c ∷ hex_digit d ∷ []) (omega arith),
        digits_value-hex_digit (0 * 16 + a) b (hex_digit c ∷ hex_digit d ∷ []) (omega arith),
        digits_value-hex_digit ((0 * 16 + a) * 16 + b) c (hex_digit d ∷ []) (omega arith),
        digits_value-hex_digit (((0 * 16 + a) * 16 + b) * 16 + c) d [] (omega arith),
      )
      (fits_u64 _ p (omega arith) h)

-- Words in reverse, as `%08X` prints a word of a little-endian machine.
pub hex_words : Bytes → Bytes
hex_words (b0 ∷ b1 ∷ b2 ∷ b3 ∷ rest) =
    hex_byte b3 ++ hex_byte b2 ++ hex_byte b1 ++ hex_byte b0 ++ hex_words rest
hex_words _ = []

-- Words of four bytes.
abbrev pub IsWords : ℕ → Bytes → Type 0
IsWords zero [] = Unit
IsWords (suc n) (b0 ∷ b1 ∷ b2 ∷ b3 ∷ rest) =
    (b0 < 256) × (b1 < 256) × (b2 < 256) × (b3 < 256) × IsWords n rest
IsWords _ _ = ⊥

parse_words-hex_words : (n : ℕ) (bs : Bytes) → IsWords n bs → parse_words n (hex_words bs) ≡ some bs
unfolding parse_words parse_byte hex_words
parse_words-hex_words zero [] w = refl
parse_words-hex_words (suc n) (b0 ∷ b1 ∷ b2 ∷ b3 ∷ rest) (h0, h1, h2, h3, w) =
    rw
      (
        parse_unsigned-hex_byte b0 h0,
        parse_unsigned-hex_byte b1 h1,
        parse_unsigned-hex_byte b2 h2,
        parse_unsigned-hex_byte b3 h3,
        parse_words-hex_words n rest w,
      )
      refl
parse_words-hex_words zero (b ∷ bs) w = absurd w
parse_words-hex_words (suc n) [] w = absurd w
parse_words-hex_words (suc n) (a ∷ []) w = absurd w
parse_words-hex_words (suc n) (a ∷ b ∷ []) w = absurd w
parse_words-hex_words (suc n) (a ∷ b ∷ c ∷ []) w = absurd w

-- No digit is a colon.
abbrev NoColon : Bytes → Type 0
NoColon = All (λ c. (c == b':') ≡ false)

hex_digit-NoColon : (n : ℕ) → n < 16 → (hex_digit n == b':') ≡ false
hex_digit-NoColon n h = ground arith

hex_byte-NoColon : (b : ℕ) (cs : Bytes) → b < 256 → NoColon cs → NoColon (hex_byte b ++ cs)
hex_byte-NoColon b cs h rest =
    (hex_digit-NoColon (b / 16) (omega arith), (hex_digit-NoColon (b % 16) (omega arith), rest))

hex_words-NoColon : (n : ℕ) (bs : Bytes) → IsWords n bs → NoColon (hex_words bs)
unfolding hex_words
hex_words-NoColon zero [] w = tt
hex_words-NoColon (suc n) (b0 ∷ b1 ∷ b2 ∷ b3 ∷ rest) (h0, h1, h2, h3, w) =
    let tail0 = hex_byte b0 ++ hex_words rest in
    let tail1 = hex_byte b1 ++ tail0 in
    let tail2 = hex_byte b2 ++ tail1 in
    hex_byte-NoColon b3 tail2 h3 (
      hex_byte-NoColon b2 tail1 h2 (
        hex_byte-NoColon b1 tail0 h1
          (hex_byte-NoColon b0 (hex_words rest) h0 (hex_words-NoColon n rest w))))
hex_words-NoColon zero (b ∷ bs) w = absurd w
hex_words-NoColon (suc n) [] w = absurd w
hex_words-NoColon (suc n) (a ∷ []) w = absurd w
hex_words-NoColon (suc n) (a ∷ b ∷ []) w = absurd w
hex_words-NoColon (suc n) (a ∷ b ∷ c ∷ []) w = absurd w

length-hex_words : (n : ℕ) (bs : Bytes) → IsWords n bs → length (hex_words bs) ≡ 8 * n
unfolding hex_words
length-hex_words zero [] w = omega arith
length-hex_words (suc n) (b0 ∷ b1 ∷ b2 ∷ b3 ∷ rest) (h0, h1, h2, h3, w) =
    omega (arith, length-hex_words n rest w)
length-hex_words zero (b ∷ bs) w = absurd w
length-hex_words (suc n) [] w = absurd w
length-hex_words (suc n) (a ∷ []) w = absurd w
length-hex_words (suc n) (a ∷ b ∷ []) w = absurd w
length-hex_words (suc n) (a ∷ b ∷ c ∷ []) w = absurd w

find_char-append : (s t : Bytes) → NoColon s → find_char b':' (s ++ b':' ∷ t) ≡ some (length s)
unfolding find_char
find_char-append [] t h = refl
find_char-append (c ∷ cs) t h = rw (h.0, find_char-append cs t h.1) refl

drop-colon : (s t : Bytes) → drop (suc (length s)) (s ++ b':' ∷ t) ≡ t
drop-colon [] t = refl
drop-colon (c ∷ cs) t = drop-colon cs t

-- An IPv4 address of one word or an IPv6 address of four, printed in the kernel's form with its
-- port, is read back: `inet_ntop` gets the bytes in their order, and its text and the port are
-- the result.
pub parse_endpoint-hex_words :
    (inet_ntop : Bool → Bytes → Option Bytes) (ipv6 : Bool) (bs : Bytes) (port : ℕ)
    (address : Bytes)
    → IsWords (word_count ipv6) bs
    → port < 65536
    → inet_ntop ipv6 bs ≡ some address
    → parse_endpoint inet_ntop (hex_words bs ++ b':' ∷ hex_port port) ipv6 ≡ some (address, port)
unfolding parse_endpoint sized_words only_if
parse_endpoint-hex_words inet_ntop ipv6 bs port address w small written =
    let s = hex_words bs in
    let in_range : leb port 65535 ≡ true = ground arith in
    let sized : (length s == expected_size ipv6) ≡ true =
      sizes ipv6 (length s) (length-hex_words (word_count ipv6) bs w) in
    rw
      (
        find_char-append s (hex_port port) (hex_words-NoColon (word_count ipv6) bs w),
        drop-colon s (hex_port port),
        parse_unsigned-hex_port port small,
        in_range,
        take-length s (b':' ∷ hex_port port),
        sized,
        parse_words-hex_words (word_count ipv6) bs w,
        written,
      )
      refl
  where
    sizes : (v6 : Bool) (l : ℕ) → l ≡ 8 * word_count v6 → (l == expected_size v6) ≡ true
    sizes true l e = ground arith
    sizes false l e = ground arith
