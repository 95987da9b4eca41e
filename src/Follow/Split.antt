-- ===== src/Follow/Split.antt =====
-- The inner loop of `StreamLog` cuts a text at its line breaks.
use edge_scpoe.Base.{
  ℕ, zero, suc, ◌≤◌, ◌<◌, ◌≡◌, refl, ap, Bool, true, false, List, [], ◌∷◌, ◌++◌, none, some, length,
  take, drop, if◌then◌else◌, ◌==◌, arith, Bool-cases, Option-cases, inl, inr, if_intro, length-drop,
}
use edge_scpoe.Text.{Bytes, find_char}
use edge_scpoe.Utf8.{sanitize_utf8}
use edge_scpoe.Follow.{Tail, Lines, shown, skipped, write_line, next_line, drain}

onto_line : ℕ → List Bytes × Bytes → List Bytes × Bytes
onto_line c ([], rest) = ([], c ∷ rest)
onto_line c (l ∷ ls, rest) = ((c ∷ l) ∷ ls, rest)

-- The lines that a line break ends, and what is behind the last break.
unfoldable pub split_lines : Bytes → List Bytes × Bytes
unfolding onto_line
split_lines [] = ([], [])
split_lines (c ∷ cs) =
    let r = split_lines cs in if c == b'\n' then ([] ∷ r.0, r.1) else onto_line c r

-- What is written for some lines: those with the keyword, cut and sanitised.
unfoldable pub wanted : Bytes → List Bytes → List Bytes
wanted keyword [] = []
wanted keyword (l ∷ ls) =
    let rest = wanted keyword ls in
    if skipped keyword l then rest else sanitize_utf8 (shown l) ∷ rest

split-none : (s : Bytes) → find_char b'\n' s ≡ none → split_lines s ≡ ([], s)
unfolding split_lines find_char onto_line
split-none [] h = refl
split-none (c ∷ cs) h = elim (Bool-cases (c == b'\n')) [
  | inl e ↦ absurd (ground arith)
  | inr e ↦ elim (Option-cases (find_char b'\n' cs)) [
    | inl e' ↦ rw (e, split-none cs e') refl
    | inr (j, e') ↦ absurd (ground arith)
  ]
]

split-some :
    (s : Bytes) (i : ℕ)
    → find_char b'\n' s ≡ some i
    → (split_lines s
        ≡ (take i s ∷ (split_lines (drop (suc i) s)).0, (split_lines (drop (suc i) s)).1))
      × (i < length s)
unfolding split_lines find_char onto_line
split-some [] i h = absurd (ground arith)
split-some (c ∷ cs) i h = elim (Bool-cases (c == b'\n')) [
  | inl e ↦ let z : 0 ≡ i = ground arith in rw (← z, e) (refl, omega arith)
  | inr e ↦ elim (Option-cases (find_char b'\n' cs)) [
    | inl e' ↦ absurd (ground arith)
    | inr (j, e') ↦
        let z : suc j ≡ i = ground arith in
        let (cut, inside) = split-some cs j e' in rw (← z, e, cut) (refl, omega (arith, inside))
  ]
]

-- A loop that ends in this way has written `sent`, keeps `partial` and stands at `offset`.
pub record Ends (r : Lines) (sent : List Bytes) (partial : Bytes) (offset inode : ℕ) : Type 0 where
  pub after : Tail
  pub wrote : r.0 ≡ sent
  pub goes_on : r.1 ≡ some after
  pub keeps : after.partial_line ≡ partial
  pub stands : after.offset ≡ offset
  pub same_file : after.inode ≡ inode

module _ (keyword : Bytes) (writes : ℕ → Bool) (all_written : (n : ℕ) → writes n ≡ true) where
  -- What the text of a state gives.
  abbrev Drained : Tail → Lines → Type 0
  Drained t r =
      Ends r (wanted keyword (split_lines t.partial_line).0) (split_lines t.partial_line).1 t.offset
        t.inode

  no_break : (s : Bytes) → length s ≤ 0 → find_char b'\n' s ≡ none
  unfolding find_char
  no_break [] h = refl
  no_break (c ∷ cs) h = absurd (omega arith)

  stopped-Drained : (t : Tail) → find_char b'\n' t.partial_line ≡ none → Drained t ([], some t)
  unfolding wanted
  stopped-Drained t e = rw (split-none t.partial_line e) (record {
    after = t;
    wrote = refl;
    goes_on = refl;
    keeps = refl;
    stands = refl;
    same_file = refl;
  })

  line-Ends :
      (line : Bytes) (t : Tail) (skip next : Lines) (ls : List Bytes) (partial : Bytes)
      → Ends skip (wanted keyword ls) partial t.offset t.inode
      → Ends next (wanted keyword ls) partial t.offset t.inode
      → Ends
          (if skipped keyword line then skip else write_line keyword writes line t.written next)
          (wanted keyword (line ∷ ls))
          partial
          t.offset
          t.inode
  unfolding wanted write_line
  line-Ends line t skip next ls partial s n = elim (Bool-cases (skipped keyword line)) [
    | inl e ↦ rw e s
    | inr e ↦
        rw (e, all_written t.written)
          (record {
            after = n.after;
            wrote = ap (◌∷◌ (sanitize_utf8 (shown line))) n.wrote;
            goes_on = n.goes_on;
            keeps = n.keeps;
            stands = n.stands;
            same_file = n.same_file;
          })
  ]

  -- With fuel for each byte of the text, the inner loop writes the lines that are wanted, in order,
  -- and keeps what is behind the last line break.
  pub drain-Ends :
      (fuel : ℕ) (t : Tail) → length t.partial_line ≤ fuel → Drained t (drain keyword writes fuel t)
  unfolding drain
  drain-Ends zero t h = stopped-Drained t (no_break t.partial_line h)
  drain-Ends (suc fuel) t h = elim (Option-cases (find_char b'\n' t.partial_line)) [
    | inl e ↦ rw e (stopped-Drained t e)
    | inr (i, e) ↦
        let (cut, inside) = split-some t.partial_line i e in
        let rest = drop (suc i) t.partial_line in
        let fewer : length rest ≤ fuel = omega (arith, length-drop (suc i) t.partial_line) in
        let skip = drain-Ends fuel (record t { partial_line = rest }) fewer in
        let next =
          drain-Ends fuel (record t { partial_line = rest; written = suc t.written }) fewer in
        rw (e, next_line, cut) (line-Ends (take i t.partial_line) t _ _ _ _ skip next)
  ]

-- A text that goes on: the part behind the last line break joins what comes.
pub split-append :
    (s t : Bytes)
    → split_lines (s ++ t) ≡ (
      (split_lines s).0 ++ (split_lines ((split_lines s).1 ++ t)).0,
      (split_lines ((split_lines s).1 ++ t)).1,
    )
unfolding split_lines onto_line
split-append [] t = refl
split-append (c ∷ cs) t = elim (Bool-cases (c == b'\n')) [
  | inl e ↦ rw (e, split-append cs t) refl
  | inr e ↦ rw (e, split-append cs t) (onto e (split_lines cs))
]
  where
    onto :
        c == b'\n' ≡ false
        → (r : List Bytes × Bytes)
        → onto_line c (r.0 ++ (split_lines (r.1 ++ t)).0, (split_lines (r.1 ++ t)).1) ≡ (
          (onto_line c r).0 ++ (split_lines ((onto_line c r).1 ++ t)).0,
          (split_lines ((onto_line c r).1 ++ t)).1,
        )
    onto e ([], rest) = rw e refl
    onto e (l ∷ ls, rest) = refl

pub wanted-append :
    (keyword : Bytes) (ks ls : List Bytes)
    → wanted keyword (ks ++ ls) ≡ wanted keyword ks ++ wanted keyword ls
unfolding wanted
wanted-append keyword [] ls = refl
wanted-append keyword (k ∷ ks) ls = elim (Bool-cases (skipped keyword k)) [
  | inl e ↦ rw e (wanted-append keyword ks ls)
  | inr e ↦ rw e (ap (◌∷◌ (sanitize_utf8 (shown k))) (wanted-append keyword ks ls))
]

pub length-split_lines : (s : Bytes) → length (split_lines s).1 ≤ length s
unfolding split_lines onto_line
length-split_lines [] = omega arith
length-split_lines (c ∷ cs) =
    if_intro (λ (r : List Bytes × Bytes). length r.1 ≤ length (c ∷ cs)) (c == b'\n') _ _
      (λ _. omega (arith, length-split_lines cs))
      λ _. grown (split_lines cs) (length-split_lines cs)
  where
    grown :
        (r : List Bytes × Bytes)
        → length r.1 ≤ length cs
        → length (onto_line c r).1 ≤ length (c ∷ cs)
    grown ([], rest) h = omega arith
    grown (l ∷ ls, rest) h = omega arith
