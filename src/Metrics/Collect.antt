-- ===== src/Metrics/Collect.antt =====
-- `ReadLoadAverage`, `ReadUptime` and `Collect`.
use edge_scpoe.Base.{Bool, not, ◌||◌, Option, none, some, if◌then◌else◌}
use edge_scpoe.Base.Floats.{Floats}
use edge_scpoe.Base.Results.{Result, ok, err, ◌>>=◌}
use edge_scpoe.Text.{Bytes, codes}
use edge_scpoe.Text.Numbers
use edge_scpoe.Text.Numbers.{max_u64}
use edge_scpoe.Metrics.{SystemMetrics, empty_metrics}
use edge_scpoe.Metrics.Memory.{read_memory_metrics}
use edge_scpoe.Metrics.Cpu.{CpuTimes, read_cpu_times, collect_cpu_usage}

-- The contents of the files, `none` where one cannot be opened.
pub record Files : Type 0 where
  pub stat : Option Bytes
  pub meminfo : Option Bytes
  pub loadavg : Option Bytes
  pub uptime : Option Bytes

-- `read_double` is `stream >> value` for a `double`.
module _ {ℓ} {D : Type ℓ} (floats : Floats D) (read_double : Bytes → Option (D × Bytes)) where
  -- Not finite, or negative.
  unfoldable pub refused : D → Bool
  refused d = not (floats.is_finite d) || floats.below d (floats.of_nat 0)

  unfoldable pub three_doubles : Option Bytes → Option (D × D × D)
  three_doubles file = Numbers.◌>>=◌ file λ text. Numbers.◌>>=◌ (read_double text) λ first.
      Numbers.◌>>=◌ (read_double (first.1))
        λ second. Numbers.◌>>=◌ (read_double (second.1)) λ third. some (first.0, second.0, third.0)

  unfoldable pub with_load : Option (D × D × D) → SystemMetrics D → Result Bytes (SystemMetrics D)
  unfolding refused
  with_load none metrics = err (codes "failed to parse /proc/loadavg")
  with_load (some (one, five, fifteen)) metrics =
      if refused one || refused five || refused fifteen
      then err (codes "failed to parse /proc/loadavg")
      else ok (record metrics {
        load_average_1m = one;
        load_average_5m = five;
        load_average_15m = fifteen;
      })

  unfoldable pub read_load_average : Option Bytes → SystemMetrics D → Result Bytes (SystemMetrics D)
  unfolding three_doubles with_load
  read_load_average file metrics = with_load (three_doubles file) metrics

  unfoldable pub one_double : Option Bytes → Option D
  one_double file =
      Numbers.◌>>=◌ file λ text. Numbers.◌>>=◌ (read_double text) λ first. some (first.0)

  -- The bound is the double of 2 ^ 64 - 1, which is 2 ^ 64. The source's conversion of that value, which
  -- passes the test, is undefined; `to_u64` is what it gives there.
  unfoldable pub with_uptime : Option D → SystemMetrics D → Result Bytes (SystemMetrics D)
  unfolding refused
  with_uptime none metrics = err (codes "failed to parse /proc/uptime")
  with_uptime (some uptime) metrics =
      if refused uptime || floats.below (floats.of_nat max_u64) uptime
      then err (codes "failed to parse /proc/uptime")
      else ok (record metrics { uptime_seconds = floats.to_u64 uptime })

  unfoldable pub read_uptime : Option Bytes → SystemMetrics D → Result Bytes (SystemMetrics D)
  unfolding one_double with_uptime
  read_uptime file metrics = with_uptime (one_double file) metrics

  unfoldable pub with_cpu : D → SystemMetrics D
  with_cpu usage = record (empty_metrics (floats.of_nat 0)) { cpu_usage_percent = usage }

  -- The readers behind the usage of the processor.
  unfoldable pub read_rest : Files → D → Result Bytes (SystemMetrics D)
  unfolding with_cpu read_load_average read_uptime
  read_rest files usage =
      read_memory_metrics files.meminfo (with_cpu usage)
      >>= read_load_average files.loadavg
      >>= read_uptime files.uptime

  -- `Collect`: the metrics or an error text, and the times that are remembered.
  unfoldable pub collect :
      Files → Option CpuTimes → Result Bytes (SystemMetrics D) × Option CpuTimes
  unfolding collect_cpu_usage read_rest
  collect files previous =
      let cpu = collect_cpu_usage floats files.stat previous in (cpu.0 >>= read_rest files, cpu.1)

-- The constructor.
unfoldable pub new_collector : Option Bytes → Option CpuTimes
unfolding read_cpu_times
new_collector stat = read_cpu_times stat
