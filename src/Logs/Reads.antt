-- ===== src/Logs/Reads.antt =====
-- `ReadLog` for any file system: what it returns is bounded, and a request that is not allowed is
-- refused before any file is opened.
use edge_scpoe.Base.{
  ℕ, ◌-◌, ◌*◌, ◌≤◌, ◌<◌, ◌≡◌, refl, Bool, true, false, ◌==◌, ◌||◌, List, [], map, none, arith, ltb,
  if◌then◌else◌, if_intro, length-take_last, length, take, length-take, All, All-drop, All-map, ◌⊎◌,
  null, subst, ltb→le,
}
use edge_scpoe.Base.System.{OpenFile, Opened, refused, opened}
use edge_scpoe.Text.{Bytes, lines}
use edge_scpoe.Utf8.Sanitized.{length-sanitize_utf8}
use edge_scpoe.Logs.{
  AllowedLog, LogReadResult, LogCollectorError, invalid_argument, Result, ok, err, ◌>>=◌, ◌>>◌,
  fail_if, cleaned, too_long, scan, scan_fuel, read_open, read_block_size, max_scan_bytes,
  max_lines_limit, max_keyword_length, max_line_length, read_log, read_opened, find_allowed_log,
  known, or_io_error,
}
use edge_scpoe.Logs.Select.{kept, lines-select}

abbrev pub IsShort : Bytes → Type 0
IsShort line = length line ≤ 3 * max_line_length

cleaned-IsShort : (line : Bytes) → IsShort (cleaned line)
unfolding cleaned
cleaned-IsShort line =
    let cut = if too_long line then take max_line_length line else line in
    let fits : length cut ≤ max_line_length =
      if_intro (λ (c : Bytes). length c ≤ max_line_length) (too_long line) _ _
        (λ _. omega (arith, length-take max_line_length line))
        (λ short. ltb→le max_line_length (length line) short) in
    omega (arith, length-sanitize_utf8 cut, fits)

-- The size of an answer.
abbrev pub IsBounded : ℕ → LogReadResult → Type 0
IsBounded max_lines r = (length r.lines ≤ max_lines) × All IsShort r.lines

-- What holds of every answer that is no error.
abbrev Ensures : (LogReadResult → Type 0) → Result LogReadResult → Type 0
Ensures P (ok r) = P r
Ensures P (err e message) = Unit {0}

Ensures-bind :
    {A : Type 0} (P : LogReadResult → Type 0) (m : Result A) (f : A → Result LogReadResult)
    → ((a : A) → Ensures P (f a))
    → Ensures P (m >>= f)
Ensures-bind P (ok a) f h = h a
Ensures-bind P (err e message) f h = tt

read_open-IsBounded :
    (file : OpenFile) (max_lines : ℕ) (keyword : Bytes)
    → Ensures (IsBounded max_lines) (read_open file max_lines keyword)
unfolding read_open
read_open-IsBounded file max_lines keyword =
    Ensures-bind (IsBounded max_lines) (or_io_error file.size _) _ λ end.
      Ensures-bind (IsBounded max_lines)
        (or_io_error
          (scan read_block_size max_scan_bytes file (null keyword) max_lines scan_fuel end 0 0 [])
          _)
        _
        λ stopped.
          let every = map cleaned (kept keyword (lines stopped.1)) in
          let e =
            lines-select max_lines keyword (lines stopped.1)
              (record { lines = []; truncated = false }) (omega arith) in
          (
            rw e (length-take_last max_lines every),
            rw e (
                All-drop IsShort (length every - max_lines) every
                  (All-map IsShort cleaned (kept keyword (lines stopped.1)) cleaned-IsShort)),
          )

read_opened-IsBounded :
    (o : Opened) (max_lines : ℕ) (keyword : Bytes)
    → Ensures (IsBounded max_lines) (read_opened o max_lines keyword)
unfolding read_opened
read_opened-IsBounded (refused e) max_lines keyword = tt
read_opened-IsBounded (opened file) max_lines keyword = read_open-IsBounded file max_lines keyword

Ensures-guard :
    (P : LogReadResult → Type 0) (b : Bool) (e : LogCollectorError) (message : Bytes)
    (next : Result LogReadResult)
    → (b ≡ false → Ensures P next)
    → Ensures P (fail_if b e message >> next)
Ensures-guard P true e message next h = tt
Ensures-guard P false e message next h = h refl

Ensures-and :
    (P Q : LogReadResult → Type 0) (m : Result LogReadResult)
    → Ensures P m
    → ((r : LogReadResult) → Q r)
    → Ensures (λ r. P r × Q r) m
Ensures-and P Q (ok r) p q = (p, q r)
Ensures-and P Q (err e message) p q = tt

limits_kept :
    (max_lines : ℕ)
    → (max_lines == 0 || ltb max_lines_limit max_lines) ≡ false
    → (0 < max_lines) × (max_lines ≤ max_lines_limit)
limits_kept max_lines h = ground arith

-- An answer holds at most as many lines as were asked for, which are 1 to 1000, and no line is longer
-- than three times 4096 bytes.
pub read_log-IsBounded :
    (file_system : Bytes → Opened) (logs : List AllowedLog) (id : Bytes) (max_lines : ℕ)
    (keyword : Bytes) (r : LogReadResult)
    → read_log file_system logs id max_lines keyword ≡ ok r
    → IsBounded max_lines r × ((0 < max_lines) × (max_lines ≤ max_lines_limit))
unfolding read_log
read_log-IsBounded file_system logs id max_lines keyword r h =
    let Kept = λ (r : LogReadResult).
      IsBounded max_lines r × ((0 < max_lines) × (max_lines ≤ max_lines_limit)) in
    let all : Ensures Kept (read_log file_system logs id max_lines keyword) =
      (Ensures-bind Kept (known (find_allowed_log id logs)) _ λ log.
        Ensures-guard Kept (max_lines == 0 || ltb max_lines_limit max_lines) _ _ _ λ limits.
          Ensures-guard Kept (ltb max_keyword_length (length keyword)) _ _ _ λ _.
            Ensures-and (IsBounded max_lines) _
              (read_opened (file_system log.path) max_lines keyword)
              (read_opened-IsBounded (file_system log.path) max_lines keyword)
              (λ _. limits_kept max_lines limits)) in
    subst (Ensures Kept) h all

-- Why a request is refused before a file is opened.
abbrev pub IsRefused : List AllowedLog → Bytes → ℕ → Bytes → Type 0
IsRefused logs id max_lines keyword =
    (find_allowed_log id logs ≡ none)
    ⊎ ((max_lines ≡ 0) ⊎ ((max_lines_limit < max_lines) ⊎ (max_keyword_length < length keyword)))

abbrev Invalid : Result LogReadResult → Type 0
Invalid (ok r) = ⊥
Invalid (err e message) = e ≡ invalid_argument
