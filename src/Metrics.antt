-- ===== src/Metrics.antt =====
-- agent/include/SystemCollector.h and agent/src/SystemCollector.cpp: the metrics of the system, from
-- the files of /proc. A file is what can be read of it, `none` if it cannot be opened. Floating-point
-- values are of a type `D` with operations that are parameters, their reading from a stream too. The
-- mutex makes a collection one step.
pub mod Memory
pub mod Cpu
pub mod Collect
pub mod Valid
pub mod Sampled
mod Tests
use edge_scpoe.Base.{ℕ}

pub record SystemMetrics {ℓ} (D : Type ℓ) : Type ℓ where
  pub cpu_usage_percent : D
  pub memory_total_bytes : ℕ
  pub memory_available_bytes : ℕ
  pub memory_used_bytes : ℕ
  pub load_average_1m : D
  pub load_average_5m : D
  pub load_average_15m : D
  pub uptime_seconds : ℕ

-- `SystemMetrics{}`.
abbrev pub empty_metrics {ℓ} : {D : Type ℓ} → D → SystemMetrics D
empty_metrics nothing = record {
  cpu_usage_percent = nothing;
  memory_total_bytes = 0;
  memory_available_bytes = 0;
  memory_used_bytes = 0;
  load_average_1m = nothing;
  load_average_5m = nothing;
  load_average_15m = nothing;
  uptime_seconds = 0;
}
