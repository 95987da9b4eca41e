-- ===== src/ProcessList/Status.antt =====
-- `ParseStatus` and `ParseIo`.
use edge_scpoe.Base.{
  ℕ, zero, suc, ◌*◌, ◌/◌, Bool, true, false, not, ◌||◌, List, [], ◌∷◌, Option, none, some, ltb,
  if◌then◌else◌,
}
use edge_scpoe.Base.Results.{Result, ok, err}
use edge_scpoe.Base.Results
use edge_scpoe.Text.{Bytes, codes, equal, starts_with, lines}
use edge_scpoe.Text.Numbers.{◌>>=◌, max_u64, max_u32, read_u64, read_word}
use edge_scpoe.ProcessList.{ProcessInfo}

abbrev pub bytes_per_kilobyte : ℕ
bytes_per_kilobyte = 1024

unfoldable pub parse_kilobyte_field : Bytes → Bytes → Option ℕ
parse_kilobyte_field line expected_key = do
  (key, rest) ← read_word line
  (value, rest) ← read_u64 rest
  (unit, _) ← read_word rest
  let refused =
      not (equal key expected_key)
      || not (equal unit (codes "kB"))
      || ltb (max_u64 / bytes_per_kilobyte) value
  if refused then none else some (value * bytes_per_kilobyte)

unfoldable pub parse_threads : Bytes → Option ℕ
parse_threads line = do
  (key, rest) ← read_word line
  (threads, _) ← read_u64 rest
  if not (equal key (codes "Threads:")) || ltb max_u32 threads then none else some threads

-- `input >> key >> value`.
unfoldable pub io_read : Bytes → Option (Bytes × ℕ × Bytes)
io_read input = do
  (key, rest) ← read_word input
  (value, rest) ← read_u64 rest
  some (key, value, rest)

-- The variables of the loop of `ParseStatus`.
pub record Found {ℓ} (D : Type ℓ) : Type ℓ where
  pub process : ProcessInfo D
  pub found_rss : Bool
  pub found_virtual_memory : Bool

module _ {ℓ} {D : Type ℓ} where
  unfoldable pub with_rss : Option ℕ → Found D → Result Bytes (Found D)
  with_rss none f = err (codes "invalid VmRSS in /proc/[pid]/status")
  with_rss (some bytes) f =
      ok (record f {
        process = record f.process { resident_memory_bytes = bytes };
        found_rss = true;
      })

  unfoldable pub with_virtual_memory : Option ℕ → Found D → Result Bytes (Found D)
  with_virtual_memory none f = err (codes "invalid VmSize in /proc/[pid]/status")
  with_virtual_memory (some bytes) f = ok (record f {
    process = record f.process { virtual_memory_bytes = bytes };
    found_virtual_memory = true;
  })

  unfoldable pub with_threads : Option ℕ → Found D → Result Bytes (Found D)
  with_threads none f = err (codes "invalid Threads in /proc/[pid]/status")
  with_threads (some threads) f =
      ok (record f { process = record f.process { thread_count = threads } })

  unfoldable pub status_line : Bytes → Found D → Result Bytes (Found D)
  unfolding parse_kilobyte_field parse_threads with_rss with_virtual_memory with_threads
  status_line line f =
      if starts_with (codes "VmRSS:") line
      then with_rss (parse_kilobyte_field line (codes "VmRSS:")) f
      else if starts_with (codes "VmSize:") line
      then with_virtual_memory (parse_kilobyte_field line (codes "VmSize:")) f
      else if starts_with (codes "Threads:") line
      then with_threads (parse_threads line) f
      else ok f

  unfoldable pub status_lines : List Bytes → Found D → Result Bytes (Found D)
  unfolding status_line
  status_lines [] f = ok f
  status_lines (line ∷ rest) f = Results.◌>>=◌ (status_line line f) (status_lines rest)

  -- Kernel threads may leave the memory fields out.
  unfoldable pub or_zero : Found D → ProcessInfo D
  or_zero f = record f.process {
    resident_memory_bytes = if f.found_rss then f.process.resident_memory_bytes else 0;
    virtual_memory_bytes = if f.found_virtual_memory then f.process.virtual_memory_bytes else 0;
  }

  unfoldable pub parse_status : Bytes → ProcessInfo D → Result Bytes (ProcessInfo D)
  unfolding status_lines or_zero
  parse_status contents process =
      Results.◌>>=◌
        (status_lines (lines contents)
          (record { process = process; found_rss = false; found_virtual_memory = false }))
        λ f. ok (or_zero f)

  unfoldable pub io_field : Bytes → ℕ → ProcessInfo D → ProcessInfo D
  io_field key value process =
      if equal key (codes "read_bytes:")
      then record process { read_bytes = value }
      else if equal key (codes "write_bytes:")
      then record process { write_bytes = value }
      else process

  -- What follows one `input >> key >> value`.
  unfoldable pub io_next :
      Option (Bytes × ℕ × Bytes)
      → ProcessInfo D
      → (Bytes → ProcessInfo D → ProcessInfo D)
      → ProcessInfo D
  unfolding io_field
  io_next none process loop = process
  io_next (some (key, value, rest)) process loop = loop rest (io_field key value process)

  -- `ParseIo`. A round of the loop consumes a byte at least.
  unfoldable pub parse_io : ℕ → Bytes → ProcessInfo D → ProcessInfo D
  unfolding io_next io_read
  parse_io zero input process = process
  parse_io (suc fuel) input process = io_next (io_read input) process (parse_io fuel)
