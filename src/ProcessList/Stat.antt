-- ===== src/ProcessList/Stat.antt =====
-- `ParseStatLine`.
use edge_scpoe.Base.{
  ℕ, zero, suc, ◌+◌, ◌-◌, ◌&&◌, ◌||◌, [], ◌∷◌, Option, none, some, leb, ltb, if◌then◌else◌, length,
  take, drop,
}
use edge_scpoe.Base.Int.{ℤ, pos, negsuc}
use edge_scpoe.Base.Results.{Result, ok, ◌>>=◌, ◌>>◌, fail_if, or_fail}
use edge_scpoe.Text.{Bytes, codes, find_char, rfind_char}
use edge_scpoe.Text.Numbers
use edge_scpoe.Text.Numbers.{max_u64, max_u32, max_i32, read_u64, read_i64, read_char}
use edge_scpoe.ProcessList.{ProcessInfo}

-- The positions of the first '(' and the last ')', if they enclose a name and something follows.
unfoldable pub enclosed : Bytes → Option ℕ → Option ℕ → Option (ℕ × ℕ)
enclosed line (some opening) (some closing) =
    if leb closing opening || ltb (length line) (closing + 2) then none else some (opening, closing)
enclosed line _ _ = none

-- `low <= value <= high`, as an unsigned number.
unfoldable pub within : ℕ → ℕ → ℤ → Option ℕ
within low high (pos n) = if leb low n && leb n high then some n else none
within low high (negsuc n) = none

unfoldable pub read_within : ℕ → ℕ → Bytes → Option (ℕ × Bytes)
unfolding within
read_within low high s =
    Numbers.◌>>=◌ (read_i64 s) λ (z, rest). Numbers.◌>>=◌ (within low high z) λ n. some (n, rest)

-- So many fields whose values are not used.
unfoldable pub skip_u64 : ℕ → Bytes → Option Bytes
skip_u64 zero s = some s
skip_u64 (suc n) s = Numbers.◌>>=◌ (read_u64 s) λ (_, rest). skip_u64 n rest

unfoldable pub skip_i64 : ℕ → Bytes → Option Bytes
skip_i64 zero s = some s
skip_i64 (suc n) s = Numbers.◌>>=◌ (read_i64 s) λ (_, rest). skip_i64 n rest

-- `fields >> state >> parsed_ppid`, and the range of the latter.
unfoldable pub read_state : Bytes → Option (ℕ × ℕ × Bytes)
unfolding read_within
read_state s =
    Numbers.◌>>=◌ (read_char s)
      λ (c, rest). Numbers.◌>>=◌ (read_within 0 max_i32 rest) λ (n, rest'). some (c, n, rest')

-- `fields >> user_ticks >> system_ticks`.
unfoldable pub read_ticks : Bytes → Option (ℕ × ℕ × Bytes)
read_ticks s =
    Numbers.◌>>=◌ (read_u64 s)
      λ (user, rest). Numbers.◌>>=◌ (read_u64 rest) λ (system, rest'). some (user, system, rest')

-- `fields >> parsed_threads >> interval_timer >> start_time_ticks`.
unfoldable pub read_threads : Bytes → Option (ℕ × ℕ)
read_threads s = Numbers.◌>>=◌ (read_u64 s) λ (threads, rest).
    Numbers.◌>>=◌ (read_i64 rest) λ (_, rest').
      Numbers.◌>>=◌ (read_u64 rest')
        λ (start, _). if ltb max_u32 threads then none else some (threads, start)

-- The process with the fields of the line, and its processor time.
unfoldable pub parse_stat_line {ℓ} :
    {D : Type ℓ} → Bytes → ProcessInfo D → Result Bytes (ProcessInfo D × ℕ)
unfolding enclosed read_within skip_u64 skip_i64 read_state read_ticks read_threads
parse_stat_line line process = do
  (opening, closing) ←
      or_fail (enclosed line (find_char b'(' line) (rfind_char b')' line))
        (codes "invalid /proc/[pid]/stat process name")
  (pid, _) ←
      or_fail (read_within 1 max_i32 (take opening line)) (codes "invalid pid in /proc/[pid]/stat")
  let name = take (closing - opening - 1) (drop (opening + 1) line)
  (state, ppid, fields) ←
      or_fail (read_state (drop (closing + 1) line))
        (codes "invalid state or ppid in /proc/[pid]/stat")
  fields ← or_fail (skip_u64 9 fields) (codes "missing fields in /proc/[pid]/stat")
  (user, system, fields) ←
      or_fail (read_ticks fields) (codes "invalid cpu fields in /proc/[pid]/stat")
  fail_if (ltb (max_u64 - system) user) (codes "cpu fields overflow in /proc/[pid]/stat")
  fields ← or_fail (skip_i64 4 fields) (codes "missing scheduler fields in /proc/[pid]/stat")
  (threads, start) ←
      or_fail (read_threads fields) (codes "invalid thread or start fields in /proc/[pid]/stat")
  ok (
    record process {
      pid = pid;
      name = name;
      state = state ∷ [];
      ppid = ppid;
      start_time_ticks = start;
      thread_count = threads;
    },
    user + system,
  )
