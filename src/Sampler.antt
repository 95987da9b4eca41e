-- ===== src/Sampler.antt =====
-- agent/include/MetricsSampler.h and agent/src/MetricsSampler.cpp: a thread takes samples, and
-- callers read the latest one or wait for the next. The mutex makes each call one step, so that a
-- run is a sequence of steps. What one sample collects is a parameter, of the type `A`.
pub mod Latest
pub mod Stream
pub mod Spacing
mod Tests
use edge_scpoe.Base.{
  ℕ, suc, ◌+◌, ◌%◌, ◌^◌, Bool, true, false, not, ◌&&◌, ◌||◌, List, [], ◌∷◌, ltb, null,
  if◌then◌else◌, Option, none, some,
}
use edge_scpoe.Text.{Bytes, codes}

-- What `SystemCollector::Collect` returns: the metrics, or an error text.
pub data Collected {ℓ} (A : Type ℓ) : Type ℓ where
  collected : A → Collected A
  failed : Bytes → Collected A

-- The members under the mutex.
pub record Sampler {ℓ} (A : Type ℓ) : Type ℓ where
  pub latest_metrics : A
  pub latest_error : Bytes
  pub generation : ℕ
  pub has_snapshot : Bool
  pub stopping : Bool

-- What a reader is left with: the metrics, or an error text; and the generation.
pub record Reading {ℓ} (A : Type ℓ) : Type ℓ where
  pub result : Collected A
  pub generation : ℕ

module _ {ℓ} {A : Type ℓ} where
  abbrev pub initial : A → Sampler A
  initial zeros = record {
    latest_metrics = zeros;
    latest_error = [];
    generation = 0;
    has_snapshot = false;
    stopping = false;
  }

  -- The part of `Sample` under the mutex.
  unfoldable pub sample : Collected A → Sampler A → Sampler A
  sample (collected metrics) s = record s {
    latest_metrics = metrics;
    latest_error = [];
    generation = (s.generation + 1) % 2 ^ 64;
    has_snapshot = true;
  }
  sample (failed error) s = record s {
    latest_error = error;
    generation = (s.generation + 1) % 2 ^ 64;
  }

  -- The destructor's first step.
  unfoldable pub stop : Sampler A → Sampler A
  stop s = record s { stopping = true }

  -- The shared end of `GetLatest` and `WaitForNext`.
  unfoldable pub snapshot : Sampler A → Reading A
  snapshot s =
      if not s.has_snapshot || not (null s.latest_error)
      then record { result = failed s.latest_error; generation = s.generation }
      else record { result = collected s.latest_metrics; generation = s.generation }

  unfoldable pub get_latest : Sampler A → Reading A
  unfolding snapshot
  get_latest s = snapshot s

  -- The predicate on which `WaitForNext` waits, and what it returns in a state where it holds.
  unfoldable pub may_wake : ℕ → Sampler A → Bool
  may_wake previous s = s.stopping || ltb previous s.generation

  unfoldable pub wake : Sampler A → Reading A
  unfolding snapshot
  wake s =
      if s.stopping
      then record {
        result = failed (codes "metrics sampler is stopping");
        generation = s.generation;
      }
      else snapshot s
