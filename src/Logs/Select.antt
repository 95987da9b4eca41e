-- ===== src/Logs/Select.antt =====
-- The second loop of `ReadLog`: it keeps the last lines that match, cleaned.
use edge_scpoe.Base.{
  ℕ, suc, ◌+◌, ◌-◌, ◌≤◌, ◌≡◌, refl, sym, ap, ◌∙◌, Bool, true, false, List, [], ◌∷◌, ◌++◌, map,
  append_assoc, append-nil, arith, ltb, if◌then◌else◌, ◌||◌, length, length-append, length-drop,
  Bool-cases, min, inl, inr, take_last, length-take_last, if_intro, any, ltb→lt, ltb→le,
  take_last-append, take_last-all,
}
use edge_scpoe.Text.{Bytes}
use edge_scpoe.Logs.{LogReadResult, stripped, keeps, too_long, cleaned, push_line, select, add_line}

-- The lines that match, without their '\r'.
unfoldable pub kept : Bytes → List Bytes → List Bytes
kept keyword [] = []
kept keyword (text ∷ rest) =
    if keeps keyword (stripped text) then stripped text ∷ kept keyword rest else kept keyword rest

lines-add_line :
    (max_lines : ℕ) (r : LogReadResult) (line : Bytes)
    → length r.lines ≤ max_lines
    → (add_line max_lines r line).lines ≡ take_last max_lines (r.lines ++ cleaned line ∷ [])
unfolding add_line push_line
lines-add_line max_lines r line h =
    let all = r.lines ++ cleaned line ∷ [] in
    let size : length all ≡ length r.lines + 1 = length-append r.lines (cleaned line ∷ []) in
    if_intro (λ (xs : List Bytes). xs ≡ take_last max_lines all) (ltb max_lines (length all)) _ _
      (λ more.
        let e : length all - max_lines ≡ 1 = omega (arith, ltb→lt max_lines (length all) more) in
        rw e)
      (λ less. sym (take_last-all max_lines all (ltb→le max_lines (length all) less)))

module _ (max_lines : ℕ) (keyword : Bytes) where
  select_match :
      (t : Bytes) (ts : List Bytes) (r : LogReadResult)
      → keeps keyword (stripped t) ≡ true
      → select max_lines keyword (t ∷ ts) r
        ≡ select max_lines keyword ts (add_line max_lines r (stripped t))
  unfolding select
  select_match t ts r e =
      ap (λ b. select max_lines keyword ts (if b then add_line max_lines r (stripped t) else r)) e

  select_skip :
      (t : Bytes) (ts : List Bytes) (r : LogReadResult)
      → keeps keyword (stripped t) ≡ false
      → select max_lines keyword (t ∷ ts) r ≡ select max_lines keyword ts r
  unfolding select
  select_skip t ts r e =
      ap (λ b. select max_lines keyword ts (if b then add_line max_lines r (stripped t) else r)) e

  kept_match :
      (t : Bytes) (ts : List Bytes)
      → keeps keyword (stripped t) ≡ true
      → kept keyword (t ∷ ts) ≡ stripped t ∷ kept keyword ts
  unfolding kept
  kept_match t ts e = rw e

  kept_skip :
      (t : Bytes) (ts : List Bytes)
      → keeps keyword (stripped t) ≡ false
      → kept keyword (t ∷ ts) ≡ kept keyword ts
  unfolding kept
  kept_skip t ts e = rw e

  -- The lines are the last `max_lines` of the earlier ones and the lines that match, cleaned.
  pub lines-select :
      (text : List Bytes) (r : LogReadResult)
      → length r.lines ≤ max_lines
      → (select max_lines keyword text r).lines
        ≡ take_last max_lines (r.lines ++ map cleaned (kept keyword text))
  lines-select [] r h =
      unfold select kept in rw append-nil (sym (take_last-all max_lines r.lines h))
  lines-select (t ∷ ts) r h = elim (Bool-cases (keeps keyword (stripped t))) [
    | inl e ↦
        let next = add_line max_lines r (stripped t) in
        let grown = lines-add_line max_lines r (stripped t) h in
        let short : length next.lines ≤ max_lines =
          rw grown (length-take_last max_lines (r.lines ++ cleaned (stripped t) ∷ [])) in
        rw (select_match t ts r e, kept_match t ts e)
          (lines-select ts next short
            ∙ ap (λ l. take_last max_lines (l ++ map cleaned (kept keyword ts))) grown
            ∙ take_last-append max_lines (r.lines ++ cleaned (stripped t) ∷ []) _
            ∙ ap (take_last max_lines) (append_assoc r.lines (cleaned (stripped t) ∷ []) _))
    | inr e ↦ rw (select_skip t ts r e, kept_skip t ts e) (lines-select ts r h)
  ]

  truncated-add_line :
      (r : LogReadResult) (line : Bytes)
      → length r.lines ≤ max_lines
      → (add_line max_lines r line).truncated
        ≡ (r.truncated || too_long line || ltb max_lines (length r.lines + 1))
  unfolding add_line
  truncated-add_line r line h = rw (length-append r.lines (cleaned line ∷ []))

  length-add_line :
      (r : LogReadResult) (line : Bytes)
      → length r.lines ≤ max_lines
      → length (add_line max_lines r line).lines ≡ min max_lines (length r.lines + 1)
  length-add_line r line h =
      let all = r.lines ++ cleaned line ∷ [] in
      rw (lines-add_line max_lines r line h) (
        omega (
          arith,
          length-drop (length all - max_lines) all,
          length-append r.lines (cleaned line ∷ []),
        ))

  -- The flags of the two halves of a list of lines.
  join_flags :
      (a b c : Bool) (n m k : ℕ)
      → k ≡ min max_lines (n + 1)
      → ((a || b || ltb max_lines (n + 1)) || c || ltb max_lines (k + m))
        ≡ (a || (b || c) || ltb max_lines (n + suc m))
  join_flags true b c n m k e = refl
  join_flags false true c n m k e = refl
  join_flags false false true n m k e = ground arith
  join_flags false false false n m k e = ground arith

  -- The flag is set exactly if it was, or a line that matches was cut, or there were too many.
  pub truncated-select :
      (text : List Bytes) (r : LogReadResult)
      → length r.lines ≤ max_lines
      → (select max_lines keyword text r).truncated ≡ (
          r.truncated
          || any too_long (kept keyword text)
          || ltb max_lines (length r.lines + length (kept keyword text)))
  truncated-select [] r h = unfold select kept in ground arith
  truncated-select (t ∷ ts) r h = elim (Bool-cases (keeps keyword (stripped t))) [
    | inl e ↦
        let next = add_line max_lines r (stripped t) in
        let size = length-add_line r (stripped t) h in
        rw (select_match t ts r e, kept_match t ts e)
          (truncated-select ts next (omega (arith, size))
            ∙ ap
                (λ b.
                  b
                  || any too_long (kept keyword ts)
                  || ltb max_lines (length next.lines + length (kept keyword ts)))
                (truncated-add_line r (stripped t) h)
            ∙ join_flags r.truncated (too_long (stripped t)) _ (length r.lines) _ _ size)
    | inr e ↦ rw (select_skip t ts r e, kept_skip t ts e) (truncated-select ts r h)
  ]
