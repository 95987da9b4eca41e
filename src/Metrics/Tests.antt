-- ===== src/Metrics/Tests.antt =====
-- Tests of the collection of metrics, with whole numbers for the floating-point values.
use edge_scpoe.Base.{ℕ, ◌-◌, ◌*◌, ◌/◌, ◌≡◌, refl, true, [], ◌∷◌, Option, none, some, leb, ltb}
use edge_scpoe.Base.Floats.{Floats}
use edge_scpoe.Base.Results.{Ensures}
use edge_scpoe.Text.{Bytes, codes, equal, pieces}
use edge_scpoe.Text.Numbers.{read_u64, read_word}
use edge_scpoe.Metrics.Cpu.{read_cpu_times, busy_since}
use edge_scpoe.Metrics.Collect.{Files, collect, new_collector}
use edge_scpoe.Metrics.Valid.{IsValid, collect-IsValid}
use edge_scpoe.Metrics.Sampled.{Shows, latest_of, latest_of-Shows}

-- A whole number in place of a `double`.
abbrev number : Bytes → Option (ℕ × Bytes)
number = read_u64

abbrev whole : Floats ℕ
whole = record {
  of_nat = λ n. n;
  minus = λ a b. a - b;
  times = λ a b. a * b;
  over = λ a b. a / b;
  at_most = leb;
  below = ltb;
  is_finite = λ n. true;
  to_u64 = λ n. n;
}

abbrev earlier : Option Bytes
earlier = some (codes "cpu  10 0 10 80 0 0 0 0 0 0\ncpu0 1\n")

abbrev now : Files
now = record {
  stat = some (codes "cpu  110 0 10 180 0 0 0 0 0 0\n");
  meminfo = some (codes "MemTotal:   8 kB\nMemFree: 1 kB\nMemAvailable:   2 kB\n");
  loadavg = some (codes "1 2 3 4/5 6\n");
  uptime = some (codes "77 5\n");
}

abbrev shut : Files
shut = record { stat = earlier; meminfo = none; loadavg = none; uptime = none }

busy :
    busy_since (read_cpu_times earlier) (record {
      user = 110;
      nice = 0;
      system = 10;
      idle = 180;
      iowait = 0;
      irq = 0;
      softirq = 0;
      steal = 0;
    })
    ≡ some (100, 200)
unfolding busy_since read_cpu_times equal pieces read_u64 read_word
busy = refl

collect-IsValid_example :
    Ensures (IsValid whole number) ((collect whole number now (new_collector earlier)).0)
collect-IsValid_example = collect-IsValid whole number now (new_collector earlier)

latest_of-Shows_example : Shows whole number (latest_of whole number earlier now (shut ∷ now ∷ []))
latest_of-Shows_example = latest_of-Shows whole number earlier now (shut ∷ now ∷ [])
