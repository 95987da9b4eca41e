-- ===== src/Sampler/Stream.antt =====
-- `StreamSystemMetrics` of agent/src/EdgeScopeServiceImpl.cpp, over the states in which the sampler
-- is seen by the handler's thread.
use edge_scpoe.Base.{
  ℕ, ◌+◌, ◌-◌, ◌/◌, ◌%◌, ◌^◌, Bool, ◌||◌, List, [], ◌∷◌, Option, none, some, ltb, ◌==◌,
  if◌then◌else◌,
}
use edge_scpoe.Text.{Bytes, codes}
use edge_scpoe.Rpc.{Status, status_ok, internal, invalid_argument}
use edge_scpoe.Sampler.{Collected, collected, failed, Sampler, Reading, get_latest, may_wake, wake}

abbrev pub default_interval_ms : ℕ
default_interval_ms = 1000

abbrev pub min_interval_ms : ℕ
min_interval_ms = 1000

abbrev pub max_interval_ms : ℕ
max_interval_ms = 60000

-- One round of the loop: whether the call is cancelled before it, the states that the waiting
-- thread sees, and whether a response that is written reaches the client.
pub record Turn {ℓ} (A : Type ℓ) : Type ℓ where
  pub cancelled : Bool
  pub seen : List (Sampler A)
  pub delivered : Bool

-- A response: the metrics, and the generation of the sampler that they come from.
pub record Response {ℓ} (A : Type ℓ) : Type ℓ where
  pub metrics : A
  pub generation : ℕ

-- The responses, and the status; `none` is a call that still waits.
abbrev pub Streamed {ℓ} : Type ℓ → Type ℓ
Streamed A = List (Response A) × Option Status

unfoldable pub failure : Bytes → Status
failure error = record { code = internal; message = error }

-- `generation - last_sent_generation < samples_per_response`, in 64 bits.
unfoldable pub too_early : ℕ → ℕ → ℕ → Bool
too_early samples last generation = ltb ((generation + 2 ^ 64 - last) % 2 ^ 64) samples

unfoldable pub samples_per_response : ℕ → ℕ → ℕ
samples_per_response interval sample_interval = (interval + sample_interval - 1) / sample_interval

unfoldable pub requested : ℕ → ℕ
requested interval_ms = if interval_ms == 0 then default_interval_ms else interval_ms

module _ {ℓ} {A : Type ℓ} where
  -- `WaitForNext`: `condition_.wait` goes on in the first state in which its predicate holds.
  unfoldable pub wait_for_next : ℕ → List (Sampler A) → Option (Reading A)
  unfolding may_wake wake
  wait_for_next previous [] = none
  wait_for_next previous (s ∷ states) =
      if may_wake previous s then some (wake s) else wait_for_next previous states

  unfoldable pub answered : Response A → Bool → Streamed A → Streamed A
  answered response delivered next =
      (response ∷ (if delivered then next.0 else []), if delivered then next.1 else some status_ok)

  -- What a round does with a reading, from what follows if it sends and if it does not.
  unfoldable pub respond_to : ℕ → ℕ → Bool → Collected A → ℕ → (ℕ → ℕ → Streamed A) → Streamed A
  unfolding failure answered too_early
  respond_to samples last delivered (failed error) g next = ([], some (failure error))
  respond_to samples last delivered (collected metrics) g next =
      let response : Response A = record { metrics = metrics; generation = g } in
      if too_early samples last g then next g last else answered response delivered (next g g)

  unfoldable pub respond : ℕ → ℕ → Bool → Option (Reading A) → (ℕ → ℕ → Streamed A) → Streamed A
  unfolding respond_to
  respond samples last delivered none next = ([], none)
  respond samples last delivered (some reading) next =
      respond_to samples last delivered reading.result reading.generation next

  -- The loop. A list that ends stands for a call that has come no further.
  unfoldable pub rounds : ℕ → List (Turn A) → ℕ → ℕ → Streamed A
  unfolding respond
  rounds samples [] generation last = ([], none)
  rounds samples (t ∷ ts) generation last =
      let reading = wait_for_next generation t.seen in
      let next = respond samples last t.delivered reading (rounds samples ts) in
      if t.cancelled then ([], some status_ok) else next

  unfoldable pub first_response : ℕ → ℕ → Bool → Collected A → ℕ → List (Turn A) → Streamed A
  unfolding rounds failure
  first_response interval sample_interval delivered (failed error) g turns =
      ([], some (failure error))
  first_response interval sample_interval delivered (collected metrics) g turns =
      let response : Response A = record { metrics = metrics; generation = g } in
      answered response delivered (rounds (samples_per_response interval sample_interval) turns g g)

  -- `StreamSystemMetrics`.
  unfoldable pub stream_system_metrics : ℕ → ℕ → Sampler A → Bool → List (Turn A) → Streamed A
  unfolding requested first_response
  stream_system_metrics interval_ms sample_interval s delivered turns =
      let interval = requested interval_ms in
      if ltb interval min_interval_ms || ltb max_interval_ms interval
      then (
        [],
        some (record {
          code = invalid_argument;
          message = codes "interval_ms must be between 1000 and 60000";
        }),
      )
      else let reading = get_latest s in
        first_response interval sample_interval delivered reading.result reading.generation turns
