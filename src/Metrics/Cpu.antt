-- ===== src/Metrics/Cpu.antt =====
-- `ReadCpuTimes`, `CpuTimes` and `CollectCpuUsage`.
use edge_scpoe.Base.{
  ℕ, ◌+◌, ◌-◌, ◌%◌, ◌^◌, not, ◌&&◌, List, [], ◌∷◌, Option, none, some, leb, ◌==◌, if◌then◌else◌,
}
use edge_scpoe.Base.Floats.{Floats}
use edge_scpoe.Base.Results.{Result, ok, err}
use edge_scpoe.Text.{Bytes, codes, equal, lines}
use edge_scpoe.Text.Numbers.{◌>>=◌, read_word, read_u64}

pub record CpuTimes : Type 0 where
  pub user : ℕ
  pub nice : ℕ
  pub system : ℕ
  pub idle : ℕ
  pub iowait : ℕ
  pub irq : ℕ
  pub softirq : ℕ
  pub steal : ℕ

unfoldable pub total_of : CpuTimes → ℕ
total_of t = (t.user + t.nice + t.system + t.idle + t.iowait + t.irq + t.softirq + t.steal) % 2 ^ 64

unfoldable pub idle_of : CpuTimes → ℕ
idle_of t = (t.idle + t.iowait) % 2 ^ 64

-- The stream behind the label, and the label.
unfoldable pub cpu_line : Bytes → Option (Bytes × CpuTimes)
cpu_line line = do
  (label, s0) ← read_word line
  (user, s1) ← read_u64 s0
  (nice, s2) ← read_u64 s1
  (system, s3) ← read_u64 s2
  (idle, s4) ← read_u64 s3
  (iowait, s5) ← read_u64 s4
  (irq, s6) ← read_u64 s5
  (softirq, s7) ← read_u64 s6
  (steal, s8) ← read_u64 s7
  some (
    label,
    record {
      user = user;
      nice = nice;
      system = system;
      idle = idle;
      iowait = iowait;
      irq = irq;
      softirq = softirq;
      steal = steal;
    },
  )

unfoldable pub labelled : Option (Bytes × CpuTimes) → Option CpuTimes
labelled none = none
labelled (some (label, times)) = if equal label (codes "cpu") then some times else none

unfoldable pub first_line : List Bytes → Option Bytes
first_line [] = none
first_line (line ∷ rest) = some line

-- `ReadCpuTimes`, over the contents of /proc/stat.
unfoldable pub read_cpu_times : Option Bytes → Option CpuTimes
unfolding first_line cpu_line labelled
read_cpu_times file = do text ← file; line ← first_line (lines text); labelled (cpu_line line)

-- What of a span was spent busy: the busy time and the span. `none` where the code leaves 0.0.
unfoldable pub busy_between : CpuTimes → CpuTimes → Option (ℕ × ℕ)
unfolding total_of idle_of
busy_between previous current =
    let total_delta = total_of current - total_of previous in
    let idle_delta = idle_of current - idle_of previous in
    if leb (total_of previous) (total_of current) && leb (idle_of previous) (idle_of current)
    then if not (total_delta == 0) && leb idle_delta total_delta
      then some (total_delta - idle_delta, total_delta)
      else none
    else none

unfoldable pub busy_since : Option CpuTimes → CpuTimes → Option (ℕ × ℕ)
unfolding busy_between
busy_since none current = none
busy_since (some previous) current = busy_between previous current

module _ {ℓ} {D : Type ℓ} (floats : Floats D) where
  unfoldable pub percent : Option (ℕ × ℕ) → D
  percent none = floats.of_nat 0
  percent (some (busy, span)) =
      floats.times (floats.over (floats.of_nat busy) (floats.of_nat span)) (floats.of_nat 100)

  -- `CollectCpuUsage`: the usage, and the times that the collector remembers, `none` as long as
  -- `has_previous_cpu_times_` is false.
  unfoldable pub cpu_usage_after :
      Option CpuTimes → Option CpuTimes → Result Bytes D × Option CpuTimes
  unfolding percent busy_since
  cpu_usage_after previous none = (err (codes "failed to parse /proc/stat"), previous)
  cpu_usage_after previous (some current) =
      (ok (percent (busy_since previous current)), some current)

  unfoldable pub collect_cpu_usage :
      Option Bytes → Option CpuTimes → Result Bytes D × Option CpuTimes
  unfolding cpu_usage_after read_cpu_times
  collect_cpu_usage stat previous = cpu_usage_after previous (read_cpu_times stat)
