-- ===== src/Logs/Fuel.antt =====
-- agent/src/LogCollector.cpp: the rounds of the first loop of `ReadLog`.
use edge_scpoe.Base.{
  ℕ, zero, suc, ◌+◌, ◌-◌, ◌*◌, min, ◌≤◌, ◌≡◌, refl, Bool, true, false, not, ◌&&◌, ◌++◌, [], Option,
  some, arith, ltb, ◌==◌, if◌then◌else◌, length, if_intro, sym, ◌∙◌, inr, ◌⊎◌,
}
use mathlib.Core.Bool.{false≢true}
use edge_scpoe.Base.System.{OpenFile}
use edge_scpoe.Text.{Bytes, count}
use edge_scpoe.Logs.{scan, scan_fuel, read_block_size, max_scan_bytes}
use edge_scpoe.Logs.Scan.{enough_after}

if_same_else {ℓ} :
    {A : Type ℓ} (b : Bool) (x y z : A)
    → (b ≡ false → y ≡ z)
    → (if b then x else y) ≡ (if b then x else z)
if_same_else true x y z h = refl
if_same_else false x y z h = h refl

module _ (block limit : ℕ) (file : OpenFile) (all_lines : Bool) (max_lines : ℕ) where
  abbrev Enough : ℕ → ℕ → ℕ → Type 0
  Enough fuel position scanned = (position ≡ 0) ⊎ (limit ≤ scanned + fuel * block)

  not_reading :
      (position scanned : ℕ)
      → Enough 0 position scanned
      → not (ltb 0 position && ltb scanned limit) ≡ true
  not_reading position scanned h = ground arith

  -- With enough rounds, any further rounds change nothing.
  scan_more :
      (fuel more position scanned newlines : ℕ) (contents : Bytes)
      → fuel ≤ more
      → Enough fuel position scanned
      → scan block limit file all_lines max_lines more position scanned newlines contents
        ≡ scan block limit file all_lines max_lines fuel position scanned newlines contents
  unfolding scan
  scan_more zero zero position scanned newlines contents l h = refl
  scan_more zero (suc more) position scanned newlines contents l h =
      if_intro (λ (r : Option (ℕ × Bytes)). r ≡ some (position, contents))
        (not (ltb 0 position && ltb scanned limit)) _ _ (λ t. refl)
        λ reading. absurd (false≢true (sym reading ∙ not_reading position scanned h))
  scan_more (suc fuel) zero position scanned newlines contents l h = absurd (omega arith)
  scan_more (suc fuel) (suc more) position scanned newlines contents l h =
      let size = min position block in
      let from = position - size in
      let chunk = file.read from size in
      let newlines' = newlines + count b'\n' chunk in
      if_same_else (not (ltb 0 position && ltb scanned limit)) _ _ _ λ reading.
        if_same_else (not (length chunk == size)) _ _ _ λ whole.
          if_same_else (all_lines && ltb max_lines newlines') _ _ _ λ few.
            scan_more fuel more from (scanned + size) newlines' (chunk ++ contents) (omega arith) (
              enough_after block limit [] all_lines max_lines fuel position scanned h
                (ground (arith, reading)))

-- The loop ends by its own tests: whatever the file is and the reads give, also when they come
-- short or the file changes meanwhile, more than 128 rounds give the same.
pub scan-ends :
    (file : OpenFile) (all_lines : Bool) (max_lines end rounds : ℕ)
    → scan_fuel ≤ rounds
    → scan read_block_size max_scan_bytes file all_lines max_lines rounds end 0 0 []
      ≡ scan read_block_size max_scan_bytes file all_lines max_lines scan_fuel end 0 0 []
scan-ends file all_lines max_lines end rounds h =
    scan_more read_block_size max_scan_bytes file all_lines max_lines scan_fuel rounds end 0 0 [] h
      (inr (omega arith))
