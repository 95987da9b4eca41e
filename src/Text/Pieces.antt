-- ===== src/Text/Pieces.antt =====
-- Laws of `pieces`, the loop over `std::getline`.
use edge_scpoe.Base.{
  ℕ, ◌+◌, ◌≤◌, ◌≡◌, refl, ap, List, [], ◌∷◌, ◌++◌, arith, ◌==◌, if_intro, length, Bool-cases, inl,
  inr,
}
use edge_scpoe.Text.{Bytes, count, onto_first, pieces}

pub count-append : (x : ℕ) (s t : Bytes) → count x (s ++ t) ≡ count x s + count x t
count-append x [] t = omega arith
count-append x (c ∷ s) t = omega (arith, count-append x s t)

onto_first-append :
    (c : ℕ) (pre : List Bytes) (l : Bytes) (ls : List Bytes)
    → (pre' : List Bytes) × (l' : Bytes) × (onto_first c (pre ++ l ∷ ls) ≡ pre' ++ l' ∷ ls)
unfolding onto_first
onto_first-append c [] l ls = ([], c ∷ l, refl)
onto_first-append c (p ∷ ps) l ls = ((c ∷ p) ∷ ps, l, refl)

module _ (separator : ℕ) where
  -- Behind its first piece, a text has the same pieces whatever stands in front of it.
  pub pieces-append :
      (s t : Bytes) (l : Bytes) (ls : List Bytes)
      → pieces separator t ≡ l ∷ ls
      → (pre : List Bytes) × (l' : Bytes) × (pieces separator (s ++ t) ≡ pre ++ l' ∷ ls)
  unfolding pieces
  pieces-append [] t l ls e = ([], l, e)
  pieces-append (c ∷ s) t l ls e =
      let (pre, l', rest) = pieces-append s t l ls e in
      if_intro (λ (r : List Bytes). (pre' : List Bytes) × (m : Bytes) × (r ≡ pre' ++ m ∷ ls))
        (c == separator) _ _ (λ _. ([] ∷ pre, l', ap (◌∷◌ []) rest))
        (λ _. rw rest (onto_first-append c pre l' ls))

  length-onto_first : (c : ℕ) (ls : List Bytes) → length ls ≤ length (onto_first c ls)
  unfolding onto_first
  length-onto_first c [] = omega arith
  length-onto_first c (l ∷ ls) = omega arith

  -- Every separator ends a piece.
  pub count-le-length : (s : Bytes) → count separator s ≤ length (pieces separator s)
  unfolding pieces
  count-le-length [] = omega arith
  count-le-length (c ∷ s) = elim (Bool-cases (c == separator)) [
    | inl e ↦ rw (e, pieces) (omega (arith, count-le-length s))
    | inr e ↦
        rw (e, pieces) (omega (arith, count-le-length s, length-onto_first c (pieces separator s)))
  ]
