-- ===== src/Text.antt =====
-- What the agent's sources use of the C++ library's text: `std::string` (a list of bytes),
-- `std::isspace` and `std::isalnum` in the "C" locale, and `std::getline`.
-- A position is a number and `std::string::npos` is `none`.
pub mod Numbers
pub mod Laws
pub mod Search
pub mod Pieces
pub mod Decimal
use Prim.Native.Char.{code}
use Prim.Native.String.{String}
use mathlib.Core.List.{reverse}
use mathlib.Core.Option
use edge_scpoe.Base.{
  ℕ, suc, ◌+◌, Bool, true, false, not, ◌&&◌, ◌||◌, List, [], ◌∷◌, ◌++◌, Option, none, some, leb,
  ◌==◌, if◌then◌else◌, length, null,
}

abbrev pub Bytes : Type 0
Bytes = List ℕ

-- The code points of a literal: its bytes, if it is ASCII.
abbrev pub codes : String → Bytes
codes String.[] = []
codes (String.◌∷◌ c s) = code c ∷ codes s

unfoldable pub is_space : ℕ → Bool
is_space c = leb 9 c && leb c 13 || c == 32

unfoldable pub is_digit : ℕ → Bool
is_digit c = leb b'0' c && leb c b'9'

unfoldable pub is_alnum : ℕ → Bool
unfolding is_digit
is_alnum c = is_digit c || leb b'A' c && leb c b'Z' || leb b'a' c && leb c b'z'

-- `==` of two strings.
unfoldable pub equal : Bytes → Bytes → Bool
equal [] [] = true
equal (x ∷ xs) (y ∷ ys) = x == y && equal xs ys
equal _ _ = false

-- `line.rfind(prefix, 0) == 0`, and `line.compare(0, prefix.size(), prefix) == 0`.
unfoldable pub starts_with : Bytes → Bytes → Bool
starts_with [] s = true
starts_with (p ∷ ps) [] = false
starts_with (p ∷ ps) (c ∷ cs) = p == c && starts_with ps cs

-- `s.find(c)` for one character.
unfoldable pub find_char : ℕ → Bytes → Option ℕ
find_char x [] = none
find_char x (c ∷ cs) = if c == x then some 0 else Option.map suc (find_char x cs)

-- `s.find(pattern)` for a string.
unfoldable pub find : Bytes → Bytes → Option ℕ
unfolding starts_with
find p [] = if starts_with p [] then some 0 else none
find p (c ∷ cs) = if starts_with p (c ∷ cs) then some 0 else Option.map suc (find p cs)

-- `s.find(pattern) != std::string::npos`.
unfoldable pub contains : Bytes → Bytes → Bool
unfolding find
contains p s = elim (find p s) [ none ↦ false | some _ ↦ true ]

later : Bool → Option ℕ → Option ℕ
later here (some i) = some (suc i)
later true none = some 0
later false none = none

-- `s.rfind(c)`: the last occurrence.
unfoldable pub rfind_char : ℕ → Bytes → Option ℕ
unfolding later
rfind_char x [] = none
rfind_char x (c ∷ cs) = later (c == x) (rfind_char x cs)

-- `std::find_if` to the first character that is no space, and `erase` up to it.
unfoldable pub drop_spaces : Bytes → Bytes
unfolding is_space
drop_spaces [] = []
drop_spaces (c ∷ cs) = if is_space c then drop_spaces cs else c ∷ cs

-- `Trim` of AgentConfig.cpp: from the front, then by reverse iterators from the back.
unfoldable pub trim : Bytes → Bytes
unfolding drop_spaces
trim s = reverse (drop_spaces (reverse (drop_spaces s)))

unfoldable pub onto_first : ℕ → List Bytes → List Bytes
onto_first c [] = (c ∷ []) ∷ []
onto_first c (l ∷ ls) = (c ∷ l) ∷ ls

-- `while (std::getline(stream, line, separator))`: the pieces between separators. A text that
-- ends with a separator has no empty piece behind it.
unfoldable pub pieces : ℕ → Bytes → List Bytes
unfolding onto_first
pieces separator [] = []
pieces separator (c ∷ cs) =
    let rest = pieces separator cs in if c == separator then [] ∷ rest else onto_first c rest

abbrev pub lines : Bytes → List Bytes
lines = pieces b'\n'

-- `while (!s.empty() && s.back() == c) s.pop_back()`, and the same `if` once.
unfoldable pub pop_back_while : ℕ → Bytes → Bytes
pop_back_while x [] = []
pop_back_while x (c ∷ cs) =
    let rest = pop_back_while x cs in if null rest && c == x then [] else c ∷ rest

unfoldable pub pop_back_if : ℕ → Bytes → Bytes
pop_back_if x [] = []
pop_back_if x (c ∷ []) = if c == x then [] else c ∷ []
pop_back_if x (c ∷ d ∷ cs) = c ∷ pop_back_if x (d ∷ cs)

-- `std::count(s.begin(), s.end(), x)`.
abbrev pub count : ℕ → Bytes → ℕ
count x [] = 0
count x (c ∷ cs) = (if c == x then 1 else 0) + count x cs
