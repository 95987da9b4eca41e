-- ===== src/Text/Laws.antt =====
-- Laws of the text functions: comparison, trimming, and the pieces between separators.
use edge_scpoe.Base.{◌≡◌, ◌↔◌, refl, true, false, [], ◌∷◌, arith, Bool-cases, inl, inr}
use edge_scpoe.Text.{Bytes, is_space, equal, drop_spaces}

pub equal_iff : (s t : Bytes) → (equal s t ≡ true) ↔ (s ≡ t)
unfolding equal
equal_iff [] [] = ground arith
equal_iff [] (d ∷ t) = ground arith
equal_iff (c ∷ s) [] = ground arith
equal_iff (c ∷ s) (d ∷ t) = let rest = equal_iff s t in ground arith

pub equal_refl : (a : Bytes) → equal a a ≡ true
equal_refl a = (equal_iff a a).1 refl

-- No white space at the front.
abbrev pub StartsTight : Bytes → Type 0
StartsTight [] = Unit {0}
StartsTight (c ∷ cs) = is_space c ≡ false

pub drop_spaces-StartsTight : (s : Bytes) → StartsTight (drop_spaces s)
unfolding drop_spaces
drop_spaces-StartsTight [] = tt
drop_spaces-StartsTight (c ∷ cs) = elim (Bool-cases (is_space c)) [
  | inl h ↦ rw h (drop_spaces-StartsTight cs)
  | inr h ↦ rw h h
]

pub drop_spaces-tight : (s : Bytes) → StartsTight s → drop_spaces s ≡ s
unfolding drop_spaces
drop_spaces-tight [] h = refl
drop_spaces-tight (c ∷ cs) h = rw h
