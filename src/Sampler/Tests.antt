-- ===== src/Sampler/Tests.antt =====
-- Tests of the sampler and the metrics stream, with numbers for the metrics.
use edge_scpoe.Base.{ℕ, ◌+◌, ◌⊎◌, All, ◌≡◌, refl, true, false, List, [], ◌∷◌, map, arith}
use edge_scpoe.Text.{codes}
use edge_scpoe.Sampler.{Collected, collected, failed, Sampler, initial, sample, get_latest}
use edge_scpoe.Sampler.Latest.{Step, sampled, stopped, run, get_latest-run}
use edge_scpoe.Sampler.Stream.{
  Turn, Response, stream_system_metrics, requested, wait_for_next, samples_per_response,
}
use edge_scpoe.Sampler.Spacing.{
  TurnFits, Refuses, OutOfRange, InRange, Paced, stream_system_metrics-Paced,
}

abbrev history : List (Step ℕ)
history = sampled (failed (codes "no /proc")) ∷ sampled (collected 7) ∷ stopped ∷ []

abbrev zeros : ℕ
zeros = 0

abbrev five : Collected ℕ
five = collected 5

-- The last sample counts, after the failure before it.
get_latest-run_example :
    (get_latest (run (sample five (initial zeros)) history)).result ≡ collected 7
get_latest-run_example = get_latest-run zeros five history tt (refl, (tt, tt))

abbrev state : ℕ → Sampler ℕ
state n = record {
  latest_metrics = n;
  latest_error = [];
  generation = n;
  has_snapshot = true;
  stopping = false;
}

abbrev turn : ℕ → Turn ℕ
turn n = record { cancelled = false; seen = state (n + 4) ∷ state (n + 5) ∷ []; delivered = true }

abbrev turns : List (Turn ℕ)
turns = turn 0 ∷ turn 1 ∷ turn 2 ∷ turn 3 ∷ turn 4 ∷ []

abbrev sent : List (Response ℕ)
sent = (stream_system_metrics 1000 500 (state 4) true turns).0

generations : map (λ (r : Response ℕ). r.generation) sent ≡ 4 ∷ 6 ∷ 8 ∷ []
unfolding stream_system_metrics get_latest wait_for_next samples_per_response
generations = refl

turns-fit : All TurnFits turns
turns-fit = ground arith

stream_system_metrics-Paced_example :
    (Refuses (stream_system_metrics 1000 500 (state 4) true turns) × OutOfRange 1000)
    ⊎ (InRange 1000 × Paced (requested 1000) 500 sent)
stream_system_metrics-Paced_example =
    stream_system_metrics-Paced 1000 500 (state 4) true turns (omega arith) turns-fit
