-- ===== src/Metrics/Valid.antt =====
-- What holds of the metrics that are collected, and of those that the sampler shows.
use edge_scpoe.Base.{
  ℕ, ◌+◌, ◌≤◌, ◌<◌, ◌≡◌, refl, ◌⊎◌, inl, inr, Bool, true, false, ◌||◌, Option, none, some, null,
  arith,
}
use edge_scpoe.Base.Floats.{Floats}
use edge_scpoe.Base.Results.{Result, ok, err, ◌>>=◌, Ensures, Ensures-bind, Ensures-if}
use edge_scpoe.Text.{Bytes, codes, lines}
use edge_scpoe.Text.Numbers.{max_u64}
use edge_scpoe.Metrics.{SystemMetrics}
use edge_scpoe.Metrics.Memory.{read_memory_metrics, with_memory, scan_memory}
use edge_scpoe.Metrics.Cpu.{
  CpuTimes, busy_between, busy_since, percent, cpu_usage_after, collect_cpu_usage, read_cpu_times,
}
use edge_scpoe.Metrics.Collect.{
  Files, refused, with_load, read_load_average, three_doubles, with_uptime, read_uptime, one_double,
  with_cpu, read_rest, collect,
}

-- A part of a span that is not empty.
abbrev Share : Option (ℕ × ℕ) → Type 0
Share none = Unit
Share (some (busy, span)) = (busy ≤ span) × (0 < span)

between-Share : (previous current : CpuTimes) → Share (busy_between previous current)
unfolding busy_between
between-Share previous current = ground arith

since-Share :
    (previous : Option CpuTimes) (current : CpuTimes) → Share (busy_since previous current)
unfolding busy_since
since-Share none current = tt
since-Share (some previous) current = between-Share previous current

neither : (a b : Bool) → (a || b) ≡ false → (a ≡ false) × (b ≡ false)
neither a b h = ground arith

module _ {D : Type 0} (floats : Floats D) (read_double : Bytes → Option (D × Bytes)) where
  -- A share of a span that is not empty, in percent, or 0.0.
  abbrev pub IsUsage : D → Type 0
  IsUsage d =
      (d ≡ floats.of_nat 0)
      ⊎ ((busy : ℕ) × (span : ℕ) × (busy ≤ span)
          × (0 < span)
          × (d ≡ percent floats (some (busy, span))))

  -- Finite and not negative.
  abbrev pub IsMeasure : D → Type 0
  IsMeasure d = (floats.is_finite d ≡ true) × (floats.below d (floats.of_nat 0) ≡ false)

  -- The memory adds up and fits in 64 bits.
  abbrev pub AddsUp : SystemMetrics D → Type 0
  AddsUp m =
      (m.memory_used_bytes + m.memory_available_bytes ≡ m.memory_total_bytes)
      × (m.memory_total_bytes ≤ max_u64)

  abbrev pub HasLoad : SystemMetrics D → Type 0
  HasLoad m =
      IsMeasure m.load_average_1m × IsMeasure m.load_average_5m × IsMeasure m.load_average_15m

  -- The seconds come from a value that is not above the double nearest to 2 ^ 64 - 1, which is 2 ^ 64:
  -- at that value itself the source's conversion is undefined.
  abbrev pub HasUptime : SystemMetrics D → Type 0
  HasUptime m =
      (uptime : D) × (IsMeasure uptime
        × (floats.below (floats.of_nat max_u64) uptime ≡ false)
        × (m.uptime_seconds ≡ floats.to_u64 uptime))

  abbrev pub IsValid : SystemMetrics D → Type 0
  IsValid m = IsUsage m.cpu_usage_percent × AddsUp m × HasLoad m × HasUptime m

  -- A failure has a text.
  abbrev pub Explains : Result Bytes (SystemMetrics D) → Type 0
  Explains (ok m) = Unit
  Explains (err e) = null e ≡ false

  percent-IsUsage : (share : Option (ℕ × ℕ)) → Share share → IsUsage (percent floats share)
  unfolding percent
  percent-IsUsage none h = inl refl
  percent-IsUsage (some (busy, span)) h = inr (busy, span, h.0, h.1, refl)

  cpu_usage_after-IsUsage :
      (previous times : Option CpuTimes)
      → Ensures IsUsage ((cpu_usage_after floats previous times).0)
  unfolding cpu_usage_after
  cpu_usage_after-IsUsage previous none = tt
  cpu_usage_after-IsUsage previous (some current) =
      percent-IsUsage (busy_since previous current) (since-Share previous current)

  Explains-then :
      (r : Result Bytes (SystemMetrics D)) (next : SystemMetrics D → Result Bytes (SystemMetrics D))
      → Explains r
      → ((m : SystemMetrics D) → Explains (next m))
      → Explains (r >>= next)
  Explains-then (ok m) next e f = f m
  Explains-then (err t) next e f = e

  values-Explains :
      (total available : Option ℕ) (m : SystemMetrics D) → Explains (with_memory total available m)
  unfolding with_memory
  values-Explains none a m = refl
  values-Explains (some t) none m = refl
  values-Explains (some t) (some a) m = ground arith

  memory-Explains :
      (file : Option Bytes) (m : SystemMetrics D) → Explains (read_memory_metrics file m)
  unfolding read_memory_metrics
  memory-Explains none m = refl
  memory-Explains (some text) m =
      let k = scan_memory (lines text) (record { total = none; available = none }) in
      values-Explains k.total k.available m

  -- The usage is right, then the memory too, then the load.
  abbrev HasUsage : SystemMetrics D → Type 0
  HasUsage m = IsUsage m.cpu_usage_percent

  abbrev HasMemory : SystemMetrics D → Type 0
  HasMemory m = HasUsage m × AddsUp m

  abbrev HasLoads : SystemMetrics D → Type 0
  HasLoads m = HasUsage m × AddsUp m × HasLoad m

  values-HasMemory :
      (total available : Option ℕ) (m : SystemMetrics D)
      → HasUsage m
      → Ensures HasMemory (with_memory total available m)
  unfolding with_memory
  values-HasMemory none a m u = tt
  values-HasMemory (some t) none m u = tt
  values-HasMemory (some t) (some a) m u = ground arith

  memory-HasMemory :
      (file : Option Bytes) (m : SystemMetrics D)
      → HasUsage m
      → Ensures HasMemory (read_memory_metrics file m)
  unfolding read_memory_metrics
  memory-HasMemory none m u = tt
  memory-HasMemory (some text) m u =
      let k = scan_memory (lines text) (record { total = none; available = none }) in
      values-HasMemory k.total k.available m u

  refused-IsMeasure : (d : D) → refused floats read_double d ≡ false → IsMeasure d
  unfolding refused
  refused-IsMeasure d h = (ground arith, ground arith)

  load-HasLoads :
      (loads : Option (D × D × D)) (m : SystemMetrics D)
      → HasMemory m
      → Ensures HasLoads (with_load floats read_double loads m)
  unfolding with_load
  load-HasLoads none m h = tt
  load-HasLoads (some (a, b, c)) m h =
      let no = refused floats read_double in
      let m' = record m { load_average_1m = a; load_average_5m = b; load_average_15m = c } in
      Ensures-if HasLoads (no a || no b || no c) (codes "failed to parse /proc/loadavg") m' λ good.
        let (others, good_c) = neither _ _ good in
        let (good_a, good_b) = neither _ _ others in
        (
          h.0,
          h.1,
          (refused-IsMeasure a good_a, refused-IsMeasure b good_b, refused-IsMeasure c good_c),
        )

  uptime-IsValid :
      (uptime : Option D) (m : SystemMetrics D)
      → HasLoads m
      → Ensures IsValid (with_uptime floats read_double uptime m)
  unfolding with_uptime
  uptime-IsValid none m h = tt
  uptime-IsValid (some u) m h =
      let test = refused floats read_double u || floats.below (floats.of_nat max_u64) u in
      let m' = record m { uptime_seconds = floats.to_u64 u } in
      Ensures-if IsValid test (codes "failed to parse /proc/uptime") m' λ good.
        let (fits, below) = neither _ _ good in
        (h.0, h.1, h.2, (u, (refused-IsMeasure u fits, below, refl)))

  load-Explains :
      (loads : Option (D × D × D)) (m : SystemMetrics D)
      → Explains (with_load floats read_double loads m)
  unfolding with_load
  load-Explains none m = refl
  load-Explains (some (a, b, c)) m = ground arith

  uptime-Explains :
      (uptime : Option D) (m : SystemMetrics D) → Explains (with_uptime floats read_double uptime m)
  unfolding with_uptime
  uptime-Explains none m = refl
  uptime-Explains (some u) m = ground arith

  rest-IsValid :
      (files : Files) (usage : D)
      → IsUsage usage
      → Ensures IsValid (read_rest floats read_double files usage)
  unfolding read_rest read_load_average read_uptime with_cpu
  rest-IsValid files usage u =
      let memory = read_memory_metrics files.meminfo (with_cpu floats read_double usage) in
      let loads = three_doubles floats read_double files.loadavg in
      let load = with_load floats read_double loads in
      Ensures-bind HasLoads IsValid (memory >>= load) _
        (Ensures-bind HasMemory HasLoads memory load (memory-HasMemory files.meminfo _ u)
          (load-HasLoads loads))
        (uptime-IsValid (one_double floats read_double files.uptime))

  -- Whatever the files of /proc hold: metrics that `Collect` returns have a usage that is 0.0 or a
  -- part of a span that is not empty in percent, used and available memory that add up to the total,
  -- which fits in 64 bits, load averages that are finite and not negative, and an uptime from a value
  -- that is finite, not negative and not above the double nearest to 2 ^ 64 - 1.
  pub collect-IsValid :
      (files : Files) (previous : Option CpuTimes)
      → Ensures IsValid ((collect floats read_double files previous).0)
  unfolding collect collect_cpu_usage
  collect-IsValid files previous =
      let usage = cpu_usage_after floats previous (read_cpu_times files.stat) in
      Ensures-bind IsUsage IsValid (usage.0) (read_rest floats read_double files)
        (cpu_usage_after-IsUsage previous (read_cpu_times files.stat)) (rest-IsValid files)

  rest-Explains : (files : Files) (usage : D) → Explains (read_rest floats read_double files usage)
  unfolding read_rest read_load_average read_uptime
  rest-Explains files usage =
      let memory = read_memory_metrics files.meminfo (with_cpu floats read_double usage) in
      let loads = three_doubles floats read_double files.loadavg in
      let load = with_load floats read_double loads in
      Explains-then (memory >>= load) _
        (Explains-then memory load (memory-Explains files.meminfo _) (load-Explains loads))
        (uptime-Explains (one_double floats read_double files.uptime))

  pub collect-Explains :
      (files : Files) (previous : Option CpuTimes)
      → Explains ((collect floats read_double files previous).0)
  unfolding collect collect_cpu_usage cpu_usage_after
  collect-Explains files previous = of_times (read_cpu_times files.stat)
    where
      of_times :
          (times : Option CpuTimes)
          → Explains
              ((cpu_usage_after floats previous times).0 >>= read_rest floats read_double files)
      of_times none = refl
      of_times (some current) = rest-Explains files (percent floats (busy_since previous current))
