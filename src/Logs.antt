-- ===== src/Logs.antt =====
-- agent/include/LogCollector.h and agent/src/LogCollector.cpp without `SanitizeUtf8`, which is in
-- `Utf8`: the list of logs that may be read, and the last lines of one of them. The file system is
-- a function from paths. `read_log` has the whole of `ReadLog`; its two loops are `scan` and `select`.
pub mod Select
pub mod Scan
pub mod Fuel
pub mod Tail
pub mod Encoded
pub mod Reads
mod Tests
use mathlib.Core.List.{filter_map}
use edge_scpoe.Base.{
  ℕ, zero, suc, ◌+◌, ◌-◌, ◌*◌, min, Bool, true, false, not, ◌&&◌, ◌||◌, List, [], ◌∷◌, ◌++◌, Option,
  none, some, map, leb, ltb, ◌==◌, if◌then◌else◌, length, null, take, drop,
}
use edge_scpoe.Base.System.{Errno, eacces, eperm, enoent, OpenFile, Opened, refused, opened}
use edge_scpoe.Text.{Bytes, codes, equal, contains, count, lines, pop_back_if}
use edge_scpoe.Utf8.{sanitize_utf8}

abbrev pub max_lines_limit : ℕ
max_lines_limit = 1000

abbrev pub max_keyword_length : ℕ
max_keyword_length = 256

abbrev pub max_line_length : ℕ
max_line_length = 4096

abbrev pub read_block_size : ℕ
read_block_size = 64 * 1024

abbrev pub max_scan_bytes : ℕ
max_scan_bytes = 8 * 1024 * 1024

pub record AllowedLog : Type 0 where
  pub id : Bytes
  pub display_name : Bytes
  pub path : Bytes

pub record LogSourceInfo : Type 0 where
  pub id : Bytes
  pub display_name : Bytes
  pub available : Bool

pub record LogReadResult : Type 0 where
  pub lines : List Bytes
  pub truncated : Bool

-- `kNone` stands for success and is no error here.
pub data LogCollectorError : Type 0 where
  invalid_argument not_found permission_denied io_error : LogCollectorError

pub data Result {ℓ} (A : Type ℓ) : Type ℓ where
  ok : A → Result A
  err : LogCollectorError → Bytes → Result A

-- A failing part ends a handler early: `return false`.
infixl 5 ◌>>◌ ◌>>=◌
abbrev pub ◌>>=◌ {ℓ κ} : {A : Type ℓ} {B : Type κ} → Result A → (A → Result B) → Result B
err e message >>= next = err e message
ok a >>= next = next a

abbrev pub ◌>>◌ {ℓ} : {B : Type ℓ} → Result (Unit {0}) → Result B → Result B
ok done >> next = next
err e message >> next = err e message

-- `if (test) { *error_code = e; *error = message; return false; }`
abbrev pub fail_if : Bool → LogCollectorError → Bytes → Result (Unit {0})
fail_if true e message = err e message
fail_if false e message = ok tt

pub open_error : Errno → LogCollectorError
open_error eacces = permission_denied
open_error eperm = permission_denied
open_error enoent = not_found
open_error _ = io_error

-- The constructor's list.
abbrev pub allowed_logs : Bytes → List AllowedLog
allowed_logs agent_log_path =
    record {
      id = codes "system";
      display_name = codes "System log";
      path = codes "/var/log/syslog";
    }
    ∷ record {
      id = codes "packages";
      display_name = codes "Package manager log";
      path = codes "/var/log/dpkg.log";
    }
    ∷ record {
      id = codes "apt-history";
      display_name = codes "APT history";
      path = codes "/var/log/apt/history.log";
    }
    ∷ record {
      id = codes "edgescope-agent";
      display_name = codes "EdgeScope Agent log";
      path = agent_log_path;
    }
    ∷ []

unfoldable pub find_allowed_log : Bytes → List AllowedLog → Option AllowedLog
find_allowed_log id [] = none
find_allowed_log id (log ∷ logs) = if equal id log.id then some log else find_allowed_log id logs

-- `ListLogs`, over the test that a path is a regular file with no error.
unfoldable pub list_logs : (Bytes → Bool) → List AllowedLog → List LogSourceInfo
list_logs is_regular_file logs = map source logs
  where
    source : AllowedLog → LogSourceInfo
    source log = record {
      id = log.id;
      display_name = log.display_name;
      available = is_regular_file log.path;
    }

known : Option AllowedLog → Result AllowedLog
known none = err invalid_argument (codes "unknown log id")
known (some log) = ok log

pub resolve_log_path : Bytes → List AllowedLog → Result Bytes
unfolding known
resolve_log_path id logs = do log ← known (find_allowed_log id logs); ok log.path

-- The loop that reads blocks from the end: where it stopped, and the blocks joined. The head of
-- `contents` is the block that was read last. `none` is a read that came short.
module _ (block limit : ℕ) (file : OpenFile) (all_lines : Bool) (max_lines : ℕ) where
  pub scan : ℕ → ℕ → ℕ → ℕ → Bytes → Option (ℕ × Bytes)
  scan zero position scanned newlines contents = some (position, contents)
  scan (suc fuel) position scanned newlines contents =
      let size = min position block in
      let from = position - size in
      let chunk = file.read from size in
      let newlines' = newlines + count b'\n' chunk in
      let next = scan fuel from (scanned + size) newlines' (chunk ++ contents) in
      if not (ltb 0 position && ltb scanned limit)
      then some (position, contents)
      else if not (length chunk == size)
      then none
      else if all_lines && ltb max_lines newlines'
      then some (from, chunk ++ contents)
      else next

-- One line of the second loop: without its '\r', cut, and sanitised; and whether it is kept.
pub stripped : Bytes → Bytes
unfolding pop_back_if
stripped line = pop_back_if b'\r' line

pub keeps : Bytes → Bytes → Bool
keeps keyword line = null keyword || contains keyword line

abbrev pub too_long : Bytes → Bool
too_long line = ltb max_line_length (length line)

pub cleaned : Bytes → Bytes
cleaned line = sanitize_utf8 (if too_long line then take max_line_length line else line)

-- `push_back`, and `pop_front` if there are more than `max_lines`.
pub push_line : ℕ → List Bytes → Bytes → List Bytes
push_line max_lines selected line =
    let pushed = selected ++ line ∷ [] in
    if ltb max_lines (length pushed) then drop 1 pushed else pushed

-- What is done with a line that matches.
pub add_line : ℕ → LogReadResult → Bytes → LogReadResult
unfolding cleaned push_line
add_line max_lines result line = record {
  lines = push_line max_lines result.lines (cleaned line);
  truncated =
      result.truncated
      || too_long line
      || ltb max_lines (length (result.lines ++ cleaned line ∷ []));
}

pub select : ℕ → Bytes → List Bytes → LogReadResult → LogReadResult
unfolding stripped keeps add_line
select max_lines keyword [] result = result
select max_lines keyword (text ∷ rest) result =
    select max_lines keyword rest
      (if keeps keyword (stripped text) then add_line max_lines result (stripped text) else result)

-- The rounds that the first loop can make.
abbrev pub scan_fuel : ℕ
scan_fuel = 128

abbrev pub or_io_error {ℓ} : {A : Type ℓ} → Option A → Bytes → Result A
or_io_error none message = err io_error message
or_io_error (some a) message = ok a

pub read_open : OpenFile → ℕ → Bytes → Result LogReadResult
read_open file max_lines keyword = do
  end ← or_io_error file.size (codes "failed to determine log file size")
  (position, contents) ←
      or_io_error
        (scan read_block_size max_scan_bytes file (null keyword) max_lines scan_fuel end 0 0 [])
        (codes "failed while reading log file")
  let selected =
      select max_lines keyword (lines contents) (record { lines = []; truncated = false })
  ok (record selected { truncated = selected.truncated || ltb 0 position })

read_opened : Opened → ℕ → Bytes → Result LogReadResult
read_opened (refused e) max_lines keyword = err (open_error e) (codes "log file is not available")
read_opened (opened file) max_lines keyword = read_open file max_lines keyword

-- `ReadLog`.
pub read_log : (Bytes → Opened) → List AllowedLog → Bytes → ℕ → Bytes → Result LogReadResult
unfolding known read_opened
read_log file_system logs id max_lines keyword = do
  log ← known (find_allowed_log id logs)
  fail_if (max_lines == 0 || ltb max_lines_limit max_lines) invalid_argument
      (codes "max_lines must be between 1 and 1000")
  fail_if (ltb max_keyword_length (length keyword)) invalid_argument (codes "keyword is too long")
  read_opened (file_system log.path) max_lines keyword
