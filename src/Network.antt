-- ===== src/Network.antt =====
-- agent/src/NetworkCollector.cpp: the parsers of addresses in /proc/net/tcp and /proc/net/tcp6 are
-- here, the lists of connections and interfaces in Tcp and Interfaces. `inet_ntop`, what
-- `getifaddrs` lists and the contents of the files are parameters.
pub mod Endpoint
pub mod Tcp
pub mod Owners
pub mod Interfaces
pub mod ByName
pub mod Gathered
mod Tests
use edge_scpoe.Base.{
  ℕ, zero, suc, ◌+◌, ◌-◌, ◌*◌, Bool, true, false, ◌&&◌, List, [], ◌∷◌, ◌++◌, Option, none, some,
  leb, ltb, ◌==◌, if◌then◌else◌, length, null, take, drop,
}
use edge_scpoe.Text.{Bytes, codes, is_digit, equal, find_char}
use edge_scpoe.Text.Numbers.{◌>>=◌, max_u64}

-- A digit as `std::from_chars` reads it, of any base up to 36.
unfoldable pub digit_value : ℕ → Option ℕ
unfolding is_digit
digit_value c =
    if is_digit c
    then some (c - b'0')
    else if leb b'a' c && leb c b'z'
    then some (c - b'a' + 10)
    else if leb b'A' c && leb c b'Z'
    then some (c - b'A' + 10)
    else none

-- A value that passes a test.
unfoldable pub only_if : Bool → ℕ → Option ℕ
only_if true v = some v
only_if false v = none

unfoldable pub digits_value : ℕ → ℕ → Bytes → Option ℕ
unfolding digit_value only_if
digits_value base value [] = some value
digits_value base value (c ∷ cs) = do
  v ← digit_value c
  d ← only_if (ltb v base) v
  digits_value base (value * base + d) cs

-- `ParseUnsigned`: the whole text is a number of the base that fits in 64 bits.
unfoldable pub parse_unsigned : Bytes → ℕ → Option ℕ
unfolding digits_value
parse_unsigned text base =
    if null text then none else do v ← digits_value base 0 text; only_if (leb v max_u64) v

-- One byte of a word: two digits at a place.
unfoldable pub parse_byte : Bytes → ℕ → Option ℕ
unfolding parse_unsigned
parse_byte address_hex source = parse_unsigned (take 2 (drop source address_hex)) 16

-- The two loops: each word of 8 digits has its bytes in reverse.
unfoldable pub parse_words : ℕ → Bytes → Option Bytes
unfolding parse_byte
parse_words zero address_hex = some []
parse_words (suc n) address_hex = do
  b0 ← parse_byte address_hex 6
  b1 ← parse_byte address_hex 4
  b2 ← parse_byte address_hex 2
  b3 ← parse_byte address_hex 0
  rest ← parse_words n (drop 8 address_hex)
  some (b0 ∷ b1 ∷ b2 ∷ b3 ∷ rest)

abbrev pub expected_size : Bool → ℕ
expected_size true = 32
expected_size false = 8

abbrev pub word_count : Bool → ℕ
word_count true = 4
word_count false = 1

unfoldable pub sized_words : Bool → Bytes → Option Bytes
unfolding parse_words
sized_words ipv6 address_hex =
    if length address_hex == expected_size ipv6
    then parse_words (word_count ipv6) address_hex
    else none

-- `ParseEndpoint`: the address as `inet_ntop` writes its bytes, and the port.
unfoldable pub parse_endpoint : (Bool → Bytes → Option Bytes) → Bytes → Bool → Option (Bytes × ℕ)
unfolding sized_words
parse_endpoint inet_ntop text ipv6 = do
  separator ← find_char b':' text
  parsed ← parse_unsigned (drop (suc separator) text) 16
  port ← only_if (leb parsed 65535) parsed
  bytes ← sized_words ipv6 (take separator text)
  address ← inet_ntop ipv6 bytes
  some (address, port)

unfoldable pub tcp_state_name : Bytes → Bytes
tcp_state_name state = look names
  where
    names : List (Bytes × Bytes)
    names =
        (codes "01", codes "ESTABLISHED")
        ∷ (codes "02", codes "SYN_SENT")
        ∷ (codes "03", codes "SYN_RECV")
        ∷ (codes "04", codes "FIN_WAIT1")
        ∷ (codes "05", codes "FIN_WAIT2")
        ∷ (codes "06", codes "TIME_WAIT")
        ∷ (codes "07", codes "CLOSE")
        ∷ (codes "08", codes "CLOSE_WAIT")
        ∷ (codes "09", codes "LAST_ACK")
        ∷ (codes "0A", codes "LISTEN")
        ∷ (codes "0B", codes "CLOSING")
        ∷ (codes "0C", codes "NEW_SYN_RECV")
        ∷ []

    look : List (Bytes × Bytes) → Bytes
    look [] = codes "UNKNOWN(" ++ state ++ codes ")"
    look ((key, name) ∷ rest) = if equal key state then name else look rest
