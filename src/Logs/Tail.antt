-- ===== src/Logs/Tail.antt =====
-- `ReadLog` on a file that does not change while it is read and is no larger than the limit on what
-- is scanned: the blocks read from the end give the same answer as the whole file would.
use edge_scpoe.Base.{
  ℕ, ◌+◌, ◌≤◌, ◌<◌, ◌≡◌, refl, sym, ap, ◌∙◌, Bool, true, false, ◌==◌, ◌||◌, List, [], ◌∷◌, ◌++◌,
  map, some, arith, ltb, any, take_last, take_last-all, take_last_behind, map_append, length-map,
  append_assoc, take, take-append-drop, length, drop, length-drop, inl, inr, ◌⊎◌, null,
}
use edge_scpoe.Base.System.{Opened, opened}
use edge_scpoe.Text.{Bytes, count, lines}
use edge_scpoe.Text.Pieces.{pieces-append, count-le-length}
use edge_scpoe.Logs.{
  AllowedLog, LogReadResult, ok, keeps, stripped, cleaned, too_long, select, scan_fuel, read_open,
  read_block_size, max_scan_bytes, max_lines_limit, max_keyword_length, read_log, find_allowed_log,
}
use edge_scpoe.Logs.Select.{kept, lines-select, truncated-select}
use edge_scpoe.Logs.Scan.{steady, Stopped, scan-Stopped}

-- With no keyword every line is kept.
kept_all : (ls : List Bytes) → map cleaned (kept [] ls) ≡ map (λ l. cleaned (stripped l)) ls
unfolding kept keeps
kept_all [] = refl
kept_all (l ∷ ls) = ap (◌∷◌ (cleaned (stripped l))) (kept_all ls)

-- A suffix with more line ends than lines are wanted gives the last lines of the whole text.
last_lines :
    (f : Bytes → Bytes) (n : ℕ) (s t : Bytes)
    → n < count b'\n' t
    → take_last n (map f (lines (s ++ t))) ≡ take_last n (map f (lines t))
last_lines f n s t h = go (lines t) refl
  where
    go :
        (ls : List Bytes)
        → lines t ≡ ls
        → take_last n (map f (lines (s ++ t))) ≡ take_last n (map f (lines t))
    go [] e = absurd (omega (arith, count-le-length b'\n' t, ap length e))
    go (l ∷ ls) e =
        let (pre, l', whole) = pieces-append b'\n' s t l ls e in
        let enough : n ≤ length (map f ls) =
          omega (arith, count-le-length b'\n' t, ap length e, length-map f ls) in
        let front = map f pre ++ f l' ∷ [] in
        ap (λ (x : List Bytes). take_last n (map f x)) whole
        ∙ ap (take_last n)
            (map_append f pre (l' ∷ ls) ∙ sym (append_assoc (map f pre) (f l' ∷ []) (map f ls)))
        ∙ take_last_behind n front (map f ls) enough
        ∙ sym (take_last_behind n (f l ∷ []) (map f ls) enough)
        ∙ ap (λ (x : List Bytes). take_last n (map f x)) (sym e)

-- The lines that are selected from where the first loop stopped are those of the whole text.
module _ (max_lines : ℕ) (text contents : Bytes) (position : ℕ) where
  whole_text : contents ≡ drop position text → position ≡ 0 → contents ≡ text
  whole_text suffix e = suffix ∙ ap (λ p. drop p text) e

  all_selected :
      contents ≡ drop position text
      → max_lines < count b'\n' contents
      → take_last max_lines (map cleaned (kept [] (lines contents)))
        ≡ take_last max_lines (map cleaned (kept [] (lines text)))
  all_selected suffix many =
      let f = λ (l : Bytes). cleaned (stripped l) in
      let split : take position text ++ contents ≡ text =
        ap (◌++◌ (take position text)) suffix ∙ take-append-drop position text in
      ap (take_last max_lines) (kept_all (lines contents))
      ∙ sym (last_lines f max_lines (take position text) contents many)
      ∙ ap (λ (t : Bytes). take_last max_lines (map f (lines t))) split
      ∙ ap (take_last max_lines) (sym (kept_all (lines text)))

  selected_lines :
      (keyword : Bytes)
      → length text ≤ max_scan_bytes
      → Stopped read_block_size max_scan_bytes text (null keyword) max_lines position contents
      → take_last max_lines (map cleaned (kept keyword (lines contents)))
        ≡ take_last max_lines (map cleaned (kept keyword (lines text)))
  selected_lines keyword small s = go keyword s.reason
    where
      same :
          (keyword : Bytes)
          → position ≡ 0
          → take_last max_lines (map cleaned (kept keyword (lines contents)))
            ≡ take_last max_lines (map cleaned (kept keyword (lines text)))
      same keyword e =
          ap (λ (t : Bytes). take_last max_lines (map cleaned (kept keyword (lines t))))
            (whole_text s.suffix e)

      go :
          (keyword : Bytes)
          → (position ≡ 0)
            ⊎ ((max_scan_bytes ≤ length contents)
                ⊎ ((null keyword ≡ true) × (max_lines < count b'\n' contents)))
          → take_last max_lines (map cleaned (kept keyword (lines contents)))
            ≡ take_last max_lines (map cleaned (kept keyword (lines text)))
      go keyword (inl e) = same keyword e
      go keyword (inr (inl full)) =
          same keyword
            (omega (arith, small, full, s.inside, ap length s.suffix, length-drop position text))
      go [] (inr (inr (all, many))) = all_selected s.suffix many
      go (c ∷ cs) (inr (inr (all, many))) = absurd (ground (arith, all))

-- What `ReadLog` answers for a file: the last lines that match, cleaned; and where nothing is marked
-- as cut, every line that matches, none of them too long.
pub record Answers (max_lines : ℕ) (keyword text : Bytes) (r : LogReadResult) : Type 0 where
  pub last : r.lines ≡ take_last max_lines (map cleaned (kept keyword (lines text)))
  pub complete :
      r.truncated ≡ false
      → (r.lines ≡ map cleaned (kept keyword (lines text)))
        × (any too_long (kept keyword (lines text)) ≡ false)

abbrev nothing : LogReadResult
nothing = record { lines = []; truncated = false }

flags_off :
    (a b : Bool) (m k : ℕ)
    → (false || a || ltb m (0 + k)) || b ≡ false
    → (a ≡ false) × (b ≡ false) × (k ≤ m)
flags_off a b m k h = ground arith

selected-Answers :
    (max_lines position : ℕ) (keyword text contents : Bytes)
    → length text ≤ max_scan_bytes
    → Stopped read_block_size max_scan_bytes text (null keyword) max_lines position contents
    → (let chosen = select max_lines keyword (lines contents) nothing in
        Answers max_lines keyword text
          (record chosen { truncated = chosen.truncated || ltb 0 position }))
selected-Answers max_lines position keyword text contents small s =
    let some_lines = map cleaned (kept keyword (lines contents)) in
    let every_line = map cleaned (kept keyword (lines text)) in
    let chosen = lines-select max_lines keyword (lines contents) nothing (omega arith) in
    let last = chosen ∙ selected_lines max_lines text contents position keyword small s in
    record {
      last = last;
      complete = λ off.
          let (long, front, few) =
            flags_off (any too_long (kept keyword (lines contents))) (ltb 0 position) max_lines
              (length (kept keyword (lines contents)))
              (ap (λ b. b || ltb 0 position)
                  (sym (truncated-select max_lines keyword (lines contents) nothing (omega arith)))
                ∙ off) in
          let whole : contents ≡ text =
            whole_text max_lines text contents position s.suffix (ground arith) in
          (
            chosen
                ∙ take_last-all max_lines some_lines
                    (omega (arith, length-map cleaned (kept keyword (lines contents))))
                ∙ ap (λ (t : Bytes). map cleaned (kept keyword (lines t))) whole,
            ap (λ (t : Bytes). any too_long (kept keyword (lines t))) (sym whole) ∙ long,
          );
    }

read_open-Answers :
    (max_lines : ℕ) (keyword text : Bytes)
    → length text ≤ max_scan_bytes
    → (r : LogReadResult) × (read_open (steady text) max_lines keyword ≡ ok r)
      × Answers max_lines keyword text r
unfolding read_open
read_open-Answers max_lines keyword text small =
    let (position, contents, e, s) =
      scan-Stopped read_block_size max_scan_bytes text (null keyword) max_lines scan_fuel
        (omega arith) in
    (_, rw e, selected-Answers max_lines position keyword text contents small s)

-- A request within the limits for an allowed log, whose file does not change while it is read and
-- holds at most 8 MiB, succeeds: it returns the last `max_lines` of the file's lines that match the
-- keyword, in order, without their carriage returns, cut at 4096 bytes and sanitised. If the answer
-- is not marked as truncated, these are all lines that match, and none was cut.
pub read_log-Answers :
    (file_system : Bytes → Opened) (logs : List AllowedLog) (id : Bytes) (log : AllowedLog)
    (max_lines : ℕ) (keyword text : Bytes)
    → find_allowed_log id logs ≡ some log
    → file_system log.path ≡ opened (steady text)
    → 0 < max_lines
    → max_lines ≤ max_lines_limit
    → length keyword ≤ max_keyword_length
    → length text ≤ max_scan_bytes
    → (r : LogReadResult) × (read_log file_system logs id max_lines keyword ≡ ok r)
      × Answers max_lines keyword text r
unfolding read_log
read_log-Answers file_system logs id log max_lines keyword text found opens lo hi short small =
    let (r, reads, answers) = read_open-Answers max_lines keyword text small in
    let lines_ok : (max_lines == 0 || ltb max_lines_limit max_lines) ≡ false = ground arith in
    let keyword_ok : ltb max_keyword_length (length keyword) ≡ false = ground arith in
    (r, rw found (rw lines_ok (rw keyword_ok (rw opens reads))), answers)
