-- ===== src/Logs/Scan.antt =====
-- The first loop of `ReadLog`, on a file that does not change while it is read: it reads a suffix
-- of the file, with no error, and stops for one of its three reasons.
use edge_scpoe.Base.{
  ℕ, zero, suc, ◌+◌, ◌-◌, ◌*◌, min, ◌≤◌, ◌<◌, ◌≡◌, refl, sym, ap, ◌∙◌, Bool, true, false, not, ◌&&◌,
  [], ◌∷◌, ◌++◌, Option, none, some, arith, ltb, ◌==◌, if_intro, length, take, drop, length-take,
  length-drop, take-drop-append, Bool-cases, inl, inr, ◌⊎◌, &&_true, ltb→lt, ltb→le,
}
use edge_scpoe.Base.System.{OpenFile}
use edge_scpoe.Text.{Bytes, count}
use edge_scpoe.Text.Pieces.{count-append}
use edge_scpoe.Logs.{scan}

-- A file whose bytes are `text`.
abbrev pub steady : Bytes → OpenFile
steady text = record { size = some (length text); read = λ position n. take n (drop position text) }

drop_all : (s : Bytes) → drop (length s) s ≡ []
drop_all [] = refl
drop_all (c ∷ s) = drop_all s

module _ (block limit : ℕ) (text : Bytes) (all_lines : Bool) (max_lines : ℕ) where
  -- Where the loop stopped, and why: at the front of the file, at the limit on what is read, or
  -- behind enough lines.
  pub record Stopped (position : ℕ) (contents : Bytes) : Type 0 where
    pub suffix : contents ≡ drop position text
    pub inside : position ≤ length text
    pub reason :
        (position ≡ 0)
        ⊎ ((limit ≤ length contents) ⊎ ((all_lines ≡ true) × (max_lines < count b'\n' contents)))

  -- What holds at the head of the loop.
  record Reading (fuel position scanned newlines : ℕ) (contents : Bytes) : Type 0 where
    suffix : contents ≡ drop position text
    total : position + scanned ≡ length text
    counted : newlines ≡ count b'\n' contents
    enough : (position ≡ 0) ⊎ (limit ≤ scanned + fuel * block)

  size_of :
      (fuel position scanned newlines : ℕ) (contents : Bytes)
      → Reading fuel position scanned newlines contents
      → length contents ≡ scanned
  size_of fuel position scanned newlines contents r =
      omega (arith, ap length r.suffix, length-drop position text, r.total)

  pub enough_after :
      (fuel position scanned : ℕ)
      → (position ≡ 0) ⊎ (limit ≤ scanned + suc fuel * block)
      → 0 < position
      → (position - min position block ≡ 0) ⊎ (limit ≤ scanned + min position block + fuel * block)
  enough_after fuel position scanned (inl none_left) pos = absurd (omega arith)
  enough_after fuel position scanned (inr fuelled) pos = elim (Bool-cases (ltb block position)) [
    | inl more ↦ inr (omega (arith, ltb→lt block position more))
    | inr last ↦ inl (omega (arith, ltb→le block position last))
  ]

  -- One more block.
  Reading-next :
      (fuel position scanned newlines : ℕ) (contents : Bytes)
      → 0 < position
      → Reading (suc fuel) position scanned newlines contents
      → (length (take (min position block) (drop (position - min position block) text))
          ≡ min position block)
        × Reading fuel
            (position - min position block)
            (scanned + min position block)
            (newlines
              + count b'\n' (take (min position block) (drop (position - min position block) text)))
            (take (min position block) (drop (position - min position block) text) ++ contents)
  Reading-next fuel position scanned newlines contents pos r =
      let size = min position block in
      let from = position - size in
      let chunk = take size (drop from text) in
      let back : from + size ≡ position = omega arith in
      let joined : chunk ++ drop position text ≡ drop from text =
        rw back at (take-drop-append size from text) in
      (
        omega (arith, length-take size (drop from text), length-drop from text, r.total),
        record {
          suffix = ap (◌++◌ chunk) r.suffix ∙ joined;
          total = omega (arith, r.total);
          counted = omega (arith, r.counted, count-append b'\n' chunk contents);
          enough = enough_after fuel position scanned r.enough pos;
        },
      )

  abbrev Ends : Option (ℕ × Bytes) → Type 0
  Ends none = ⊥
  Ends (some (position, contents)) = Stopped position contents

  still_reading :
      (position scanned : ℕ) → not (ltb 0 position && ltb scanned limit) ≡ false → 0 < position
  still_reading position scanned h = ground arith

  done-Reading :
      (fuel position scanned newlines : ℕ) (contents : Bytes)
      → Reading fuel position scanned newlines contents
      → not (ltb 0 position && ltb scanned limit) ≡ true
      → Stopped position contents
  done-Reading fuel position scanned newlines contents r h = record {
    suffix = r.suffix;
    inside = omega (arith, r.total);
    reason = ground (arith, size_of fuel position scanned newlines contents r);
  }

  out_of_fuel :
      (position scanned newlines : ℕ) (contents : Bytes)
      → Reading 0 position scanned newlines contents
      → Stopped position contents
  out_of_fuel position scanned newlines contents r = record {
    suffix = r.suffix;
    inside = omega (arith, r.total);
    reason = ground (arith, r.enough, size_of 0 position scanned newlines contents r);
  }

  enough_read :
      (fuel position scanned newlines : ℕ) (contents : Bytes)
      → Reading fuel position scanned newlines contents
      → all_lines ≡ true
      → max_lines < newlines
      → Stopped position contents
  enough_read fuel position scanned newlines contents r all many = record {
    suffix = r.suffix;
    inside = omega (arith, r.total);
    reason = inr (inr (all, omega (arith, r.counted)));
  }

  scan-Ends :
      (fuel position scanned newlines : ℕ) (contents : Bytes)
      → Reading fuel position scanned newlines contents
      → Ends (
          scan block limit
            (steady text)
            all_lines
            max_lines
            fuel
            position
            scanned
            newlines
            contents)
  unfolding scan
  scan-Ends zero position scanned newlines contents r =
      out_of_fuel position scanned newlines contents r
  scan-Ends (suc fuel) position scanned newlines contents r =
      let size = min position block in
      let chunk = take size (drop (position - size) text) in
      let newlines' = newlines + count b'\n' chunk in
      if_intro Ends (not (ltb 0 position && ltb scanned limit)) _ _
        (done-Reading (suc fuel) position scanned newlines contents r)
        λ more.
          let (whole, next) =
            Reading-next fuel position scanned newlines contents
              (still_reading position scanned more) r in
          if_intro Ends (not (length chunk == size)) _ _ (λ short. absurd (ground (arith, whole)))
            λ long.
              if_intro Ends (all_lines && ltb max_lines newlines') _ _
                (λ enough_lines.
                  let (all, many) = &&_true all_lines (ltb max_lines newlines') enough_lines in
                  enough_read fuel (position - size) (scanned + size) newlines' (chunk ++ contents)
                    next all (ltb→lt max_lines newlines' many))
                (λ _.
                  scan-Ends fuel (position - size) (scanned + size) newlines' (chunk ++ contents)
                    next)

  -- The loop, from the end of the file.
  pub scan-Stopped :
      (fuel : ℕ)
      → limit ≤ fuel * block
      → (position : ℕ) × (contents : Bytes) × (scan block limit
            (steady text)
            all_lines
            max_lines
            fuel
            (length text)
            0
            0
            []
          ≡ some (position, contents))
        × Stopped position contents
  scan-Stopped fuel enough =
      result (scan block limit (steady text) all_lines max_lines fuel (length text) 0 0 []) refl (
        scan-Ends fuel (length text) 0 0 [] (record {
          suffix = sym (drop_all text);
          total = omega arith;
          counted = refl;
          enough = inr (omega arith);
        }))
    where
      result :
          (o : Option (ℕ × Bytes))
          → scan block limit (steady text) all_lines max_lines fuel (length text) 0 0 [] ≡ o
          → Ends o
          → (position : ℕ) × (contents : Bytes) × (scan block limit
                (steady text)
                all_lines
                max_lines
                fuel
                (length text)
                0
                0
                []
              ≡ some (position, contents))
            × Stopped position contents
      result none e h = absurd h
      result (some (p, c)) e h = (p, c, e, h)
