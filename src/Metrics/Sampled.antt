-- ===== src/Metrics/Sampled.antt =====
-- The sampler of MetricsSampler.cpp over the collector: each `Sample` calls `Collect`.
use edge_scpoe.Base.{◌≡◌, subst, sym, List, [], ◌∷◌, Option, null, false}
use edge_scpoe.Base.Floats.{Floats}
use edge_scpoe.Base.Results.{Result, ok, err, Ensures}
use edge_scpoe.Text.{Bytes}
use edge_scpoe.Metrics.{SystemMetrics, empty_metrics}
use edge_scpoe.Metrics.Cpu.{CpuTimes}
use edge_scpoe.Metrics.Collect.{Files, collect, new_collector}
use edge_scpoe.Metrics.Valid.{IsValid, Explains, collect-IsValid, collect-Explains}
use edge_scpoe.Sampler.{Collected, collected, failed, initial, sample, get_latest}
use edge_scpoe.Sampler.Latest.{Step, sampled, run, last_sample, HasText, HaveTexts, get_latest-run}

unfoldable pub as_collected {ℓ} : {A : Type ℓ} → Result Bytes A → Collected A
as_collected (ok metrics) = collected metrics
as_collected (err message) = failed message

module _ {D : Type 0} (floats : Floats D) (read_double : Bytes → Option (D × Bytes)) where
  -- The steps of the thread, each with the files as it finds them; the collector keeps the times.
  unfoldable pub samples : List Files → Option CpuTimes → List (Step (SystemMetrics D))
  unfolding collect as_collected
  samples [] previous = []
  samples (files ∷ rest) previous =
      let outcome = collect floats read_double files previous in
      sampled (as_collected (outcome.0)) ∷ samples rest (outcome.1)

  -- The latest reading of a sampler whose collector is made when /proc/stat is `stat`, whose
  -- constructor samples `first`, and whose thread samples `later`.
  unfoldable pub latest_of : Option Bytes → Files → List Files → Collected (SystemMetrics D)
  unfolding new_collector collect as_collected samples get_latest run sample
  latest_of stat first later =
      let outcome = collect floats read_double first (new_collector stat) in
      let zeros = empty_metrics (floats.of_nat 0) in
      (get_latest (
        run (sample (as_collected (outcome.0)) (initial zeros)) (samples later (outcome.1)))).result

  -- Valid metrics, or a failure with a text.
  abbrev pub Shows : Collected (SystemMetrics D) → Type 0
  Shows (collected m) = IsValid floats read_double m
  Shows (failed e) = null e ≡ false

  outcome-Shows :
      (r : Result Bytes (SystemMetrics D))
      → Ensures (IsValid floats read_double) r
      → Explains floats read_double r
      → Shows (as_collected r)
  unfolding as_collected
  outcome-Shows (ok m) v e = v
  outcome-Shows (err t) v e = e

  Shows-HasText : (c : Collected (SystemMetrics D)) → Shows c → HasText c
  Shows-HasText (collected m) h = tt
  Shows-HasText (failed e) h = h

  collect-Shows :
      (files : Files) (previous : Option CpuTimes)
      → Shows (as_collected ((collect floats read_double files previous).0))
  collect-Shows files previous =
      outcome-Shows _ (collect-IsValid floats read_double files previous)
        (collect-Explains floats read_double files previous)

  samples-HaveTexts :
      (later : List Files) (previous : Option CpuTimes) → HaveTexts (samples later previous)
  unfolding samples
  samples-HaveTexts [] previous = tt
  samples-HaveTexts (files ∷ rest) previous = (
    Shows-HasText _ (collect-Shows files previous),
    samples-HaveTexts rest ((collect floats read_double files previous).1),
  )

  last-Shows :
      (later : List Files) (previous : Option CpuTimes) (c : Collected (SystemMetrics D))
      → Shows c
      → Shows (last_sample c (samples later previous))
  unfolding samples
  last-Shows [] previous c h = h
  last-Shows (files ∷ rest) previous c h =
      last-Shows rest ((collect floats read_double files previous).1) _
        (collect-Shows files previous)

  -- The sampler over the collector, however the files of /proc change from sample to sample:
  -- `GetLatest` gives valid metrics, or fails with a text.
  pub latest_of-Shows :
      (stat : Option Bytes) (first : Files) (later : List Files)
      → Shows (latest_of stat first later)
  unfolding latest_of
  latest_of-Shows stat first later =
      let outcome = collect floats read_double first (new_collector stat) in
      let c = as_collected (outcome.0) in
      let shown = collect-Shows first (new_collector stat) in
      let zeros = empty_metrics (floats.of_nat 0) in
      let xs = samples later (outcome.1) in
      let e =
        get_latest-run zeros c xs (Shows-HasText c shown) (samples-HaveTexts later (outcome.1)) in
      subst Shows (sym e) (last-Shows later (outcome.1) c shown)
