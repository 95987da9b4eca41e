-- ===== src/Metrics/Memory.antt =====
-- `ReadMemoryMetrics`.
use edge_scpoe.Base.{
  ℕ, ◌-◌, ◌*◌, ◌/◌, not, ◌||◌, List, [], ◌∷◌, Option, none, some, ltb, if◌then◌else◌,
}
use edge_scpoe.Base.Results.{Result, ok, err}
use edge_scpoe.Text.{Bytes, codes, equal, lines}
use edge_scpoe.Text.Numbers.{◌>>=◌, max_u64, read_word, read_u64}
use edge_scpoe.Metrics.{SystemMetrics}

abbrev pub bytes_per_kilobyte : ℕ
bytes_per_kilobyte = 1024

-- The two values, where a line gave them.
pub record Kilobytes : Type 0 where
  pub total : Option ℕ
  pub available : Option ℕ

-- `stream >> key >> value >> unit`.
unfoldable pub memory_line : Bytes → Option (Bytes × ℕ × Bytes)
memory_line line = do
  (key, s) ← read_word line
  (value, t) ← read_u64 s
  (unit, u) ← read_word t
  some (key, value, unit)

unfoldable pub noted : Option (Bytes × ℕ × Bytes) → Kilobytes → Kilobytes
noted none k = k
noted (some (key, value, unit)) k =
    if not (equal unit (codes "kB"))
    then k
    else if equal key (codes "MemTotal:")
    then record k { total = some value }
    else if equal key (codes "MemAvailable:")
    then record k { available = some value }
    else k

unfoldable pub scan_memory : List Bytes → Kilobytes → Kilobytes
unfolding memory_line noted
scan_memory [] k = k
scan_memory (line ∷ rest) k = scan_memory rest (noted (memory_line line) k)

abbrev pub invalid_memory : Bytes
invalid_memory = codes "invalid memory values in /proc/meminfo"

unfoldable pub with_memory {ℓ} :
    {D : Type ℓ} → Option ℕ → Option ℕ → SystemMetrics D → Result Bytes (SystemMetrics D)
with_memory (some total_kb) (some available_kb) metrics =
    if ltb (max_u64 / bytes_per_kilobyte) total_kb || ltb total_kb available_kb
    then err invalid_memory
    else ok (record metrics {
      memory_total_bytes = total_kb * bytes_per_kilobyte;
      memory_available_bytes = available_kb * bytes_per_kilobyte;
      memory_used_bytes = total_kb * bytes_per_kilobyte - available_kb * bytes_per_kilobyte;
    })
with_memory _ _ metrics = err invalid_memory

-- `ReadMemoryMetrics`, over the contents of /proc/meminfo.
unfoldable pub read_memory_metrics {ℓ} :
    {D : Type ℓ} → Option Bytes → SystemMetrics D → Result Bytes (SystemMetrics D)
unfolding scan_memory with_memory
read_memory_metrics none metrics = err (codes "failed to open /proc/meminfo")
read_memory_metrics (some text) metrics =
    let k = scan_memory (lines text) (record { total = none; available = none }) in
    with_memory k.total k.available metrics
