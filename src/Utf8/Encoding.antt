-- ===== src/Utf8/Encoding.antt =====
-- What UTF-8 is: the encoding of Unicode scalar values, from its definition.
use edge_scpoe.Base.{
  ℕ, ◌+◌, ◌/◌, ◌%◌, ◌≤◌, ◌<◌, ◌≡◌, ◌⊎◌, List, [], ◌∷◌, ◌++◌, ltb, if◌then◌else◌, All,
}
use edge_scpoe.Text.{Bytes}

-- A code point that is no surrogate.
pub record IsScalar (c : ℕ) : Type 0 where
  pub in_unicode : c ≤ 0x10FFFF
  pub no_surrogate : (c < 0xD800) ⊎ (0xDFFF < c)

unfoldable pub encode : ℕ → Bytes
encode c =
    if ltb c 0x80
    then c ∷ []
    else if ltb c 0x800
    then (0xC0 + c / 64) ∷ (0x80 + c % 64) ∷ []
    else if ltb c 0x10000
    then (0xE0 + c / 4096) ∷ (0x80 + c / 64 % 64) ∷ (0x80 + c % 64) ∷ []
    else (0xF0 + c / 262144) ∷ (0x80 + c / 4096 % 64) ∷ (0x80 + c / 64 % 64) ∷ (0x80 + c % 64) ∷ []

abbrev pub encode_all : List ℕ → Bytes
encode_all [] = []
encode_all (c ∷ cs) = encode c ++ encode_all cs

-- A text is UTF-8 if it is the encoding of some scalar values.
pub record IsUtf8 (s : Bytes) : Type 0 where
  pub scalars : List ℕ
  pub all_scalar : All IsScalar scalars
  pub encodes : s ≡ encode_all scalars

abbrev pub IsByte : ℕ → Type 0
IsByte b = b < 256
