-- ===== src/Logs/Encoded.antt =====
-- agent/src/LogCollector.cpp: the encoding of the lines that `ReadLog` answers with.
use edge_scpoe.Base.{
  ℕ, zero, suc, ◌-◌, List, [], ◌∷◌, map, All, All-drop, if_intro, ◌==◌, take, take_last, length,
}
use edge_scpoe.Text.{Bytes, lines, onto_first, pieces, pop_back_if}
use edge_scpoe.Utf8.Encoding.{IsUtf8, IsByte}
use edge_scpoe.Utf8.Sanitized.{sanitize_utf8-IsUtf8}
use edge_scpoe.Logs.{stripped, keeps, too_long, cleaned, max_line_length}
use edge_scpoe.Logs.Select.{kept}

abbrev AreBytes : Bytes → Type 0
AreBytes = All IsByte

take-AreBytes : (n : ℕ) (s : Bytes) → AreBytes s → AreBytes (take n s)
take-AreBytes zero s h = tt
take-AreBytes (suc n) [] h = tt
take-AreBytes (suc n) (c ∷ s) h = (h.0, take-AreBytes n s h.1)

pop_back_if-AreBytes : (x : ℕ) (s : Bytes) → AreBytes s → AreBytes (pop_back_if x s)
unfolding pop_back_if
pop_back_if-AreBytes x [] h = tt
pop_back_if-AreBytes x (c ∷ []) h = if_intro AreBytes (c == x) _ _ (λ t. tt) λ t. h
pop_back_if-AreBytes x (c ∷ d ∷ s) h = (h.0, pop_back_if-AreBytes x (d ∷ s) h.1)

onto_first-AreBytes :
    (c : ℕ) (ls : List Bytes) → IsByte c → All AreBytes ls → All AreBytes (onto_first c ls)
unfolding onto_first
onto_first-AreBytes c [] h k = ((h, tt), tt)
onto_first-AreBytes c (l ∷ ls) h k = ((h, k.0), k.1)

pieces-AreBytes : (separator : ℕ) (s : Bytes) → AreBytes s → All AreBytes (pieces separator s)
unfolding pieces
pieces-AreBytes separator [] h = tt
pieces-AreBytes separator (c ∷ s) h =
    let rest = pieces-AreBytes separator s h.1 in
    if_intro (All AreBytes) (c == separator) _ _ (λ t. (tt, rest))
      λ t. onto_first-AreBytes c _ h.0 rest

kept-AreBytes :
    (keyword : Bytes) (ls : List Bytes) → All AreBytes ls → All AreBytes (kept keyword ls)
unfolding kept stripped
kept-AreBytes keyword [] h = tt
kept-AreBytes keyword (l ∷ ls) h =
    let rest = kept-AreBytes keyword ls h.1 in
    if_intro (All AreBytes) (keeps keyword (stripped l)) _ _
      (λ t. (pop_back_if-AreBytes b'\r' l h.0, rest)) λ t. rest

cleaned-IsUtf8 : (line : Bytes) → AreBytes line → IsUtf8 (cleaned line)
unfolding cleaned
cleaned-IsUtf8 line h =
    sanitize_utf8-IsUtf8 _
      (if_intro AreBytes (too_long line) _ _ (λ t. take-AreBytes max_line_length line h) λ t. h)

map-cleaned-IsUtf8 : (ls : List Bytes) → All AreBytes ls → All IsUtf8 (map cleaned ls)
map-cleaned-IsUtf8 [] h = tt
map-cleaned-IsUtf8 (l ∷ ls) h = (cleaned-IsUtf8 l h.0, map-cleaned-IsUtf8 ls h.1)

pub last_lines-IsUtf8 :
    (n : ℕ) (keyword text : Bytes)
    → All IsByte text
    → All IsUtf8 (take_last n (map cleaned (kept keyword (lines text))))
last_lines-IsUtf8 n keyword text h =
    let all = map cleaned (kept keyword (lines text)) in
    All-drop IsUtf8 (length all - n) all
      (map-cleaned-IsUtf8 _ (kept-AreBytes keyword (lines text) (pieces-AreBytes b'\n' text h)))
