-- ===== src/Sampler/Spacing.antt =====
-- The responses of a metrics stream keep the interval that was asked for.
use edge_scpoe.Base.{
  ℕ, zero, suc, ◌+◌, ◌*◌, ◌^◌, ◌≤◌, ◌<◌, ◌≡◌, refl, ◌⊎◌, inl, inr, Bool, true, false, not, ◌||◌,
  List, [], ◌∷◌, Option, none, some, ltb, null, All, if_intro, arith,
}
use native.Mathlib.Nat.{mul-le-mul_right, add-mul}
use edge_scpoe.Rpc.{invalid_argument}
use edge_scpoe.Sampler.{
  Collected, collected, failed, Sampler, Reading, get_latest, may_wake, wake, snapshot,
}
use edge_scpoe.Sampler.Stream.{
  Turn, Response, Streamed, wait_for_next, answered, too_early, respond_to, respond, rounds,
  samples_per_response, requested, first_response, stream_system_metrics,
}

-- A generation fits in 64 bits.
abbrev pub Fits {ℓ} : {A : Type ℓ} → Sampler A → Type 0
Fits s = s.generation < 2 ^ 64

abbrev pub TurnFits {ℓ} : {A : Type ℓ} → Turn A → Type 0
TurnFits t = All Fits t.seen

too_early-false :
    (samples last g : ℕ)
    → last ≤ g
    → g < 2 ^ 64
    → too_early samples last g ≡ false
    → last + samples ≤ g
unfolding too_early
too_early-false samples last g up fits h = ground arith

module _ {ℓ} {A : Type ℓ} where
  -- Each response is `samples` generations at least behind the one before.
  abbrev pub Spaced : ℕ → ℕ → List (Response A) → Type 0
  Spaced samples last [] = Unit
  Spaced samples last (r ∷ rs) = (last + samples ≤ r.generation) × Spaced samples r.generation rs

  -- A reading that gives metrics is of a later generation.
  abbrev Later : ℕ → Collected A → ℕ → Type 0
  Later previous (failed error) g = Unit
  Later previous (collected metrics) g = (g < 2 ^ 64) × (previous < g)

  abbrev IsLater : ℕ → Option (Reading A) → Type 0
  IsLater previous none = Unit
  IsLater previous (some r) = Later previous r.result r.generation

  wake-Later :
      (previous : ℕ) (s : Sampler A)
      → Fits s
      → may_wake previous s ≡ true
      → IsLater previous (some (wake s))
  unfolding may_wake wake snapshot
  wake-Later previous s fits h =
      let P = λ (r : Reading A). Later previous r.result r.generation in
      if_intro P s.stopping _ _ (λ _. tt)
        λ runs.
          if_intro P (not s.has_snapshot || not (null s.latest_error)) _ _ (λ _. tt)
            λ _. (fits, ground arith)

  wait-Later :
      (previous : ℕ) (seen : List (Sampler A))
      → All Fits seen
      → IsLater previous (wait_for_next previous seen)
  unfolding wait_for_next
  wait-Later previous [] fits = tt
  wait-Later previous (s ∷ states) fits =
      if_intro (IsLater previous) (may_wake previous s) _ _ (wake-Later previous s fits.0)
        λ _. wait-Later previous states fits.1

  answered-Spaced :
      (samples last : ℕ) (response : Response A) (delivered : Bool) (next : Streamed A)
      → last + samples ≤ response.generation
      → Spaced samples response.generation next.0
      → Spaced samples last (answered response delivered next).0
  unfolding answered
  answered-Spaced samples last response true next far rest = (far, rest)
  answered-Spaced samples last response false next far rest = (far, tt)

  -- What follows a round keeps the distance, from any later generation.
  abbrev Continues : ℕ → (ℕ → ℕ → Streamed A) → Type 0
  Continues samples next = (g last : ℕ) → last ≤ g → Spaced samples last (next g last).0

  respond_to-Spaced :
      (samples generation last : ℕ) (delivered : Bool) (c : Collected A) (g : ℕ)
      (next : ℕ → ℕ → Streamed A)
      → last ≤ generation
      → Later generation c g
      → Continues samples next
      → Spaced samples last (respond_to samples last delivered c g next).0
  unfolding respond_to
  respond_to-Spaced samples generation last delivered (failed error) g next up later rest = tt
  respond_to-Spaced samples generation last delivered (collected metrics) g next up later rest =
      let (fits, above) = later in
      if_intro (λ (r : Streamed A). Spaced samples last r.0) (too_early samples last g) _ _
        (λ _. rest g last (omega arith))
        λ far.
          answered-Spaced samples last (record { metrics = metrics; generation = g }) delivered
            (next g g) (too_early-false samples last g (omega arith) fits far)
            (rest g g (omega arith))

  respond-Spaced :
      (samples generation last : ℕ) (delivered : Bool) (reading : Option (Reading A))
      (next : ℕ → ℕ → Streamed A)
      → last ≤ generation
      → IsLater generation reading
      → Continues samples next
      → Spaced samples last (respond samples last delivered reading next).0
  unfolding respond
  respond-Spaced samples generation last delivered none next up later rest = tt
  respond-Spaced samples generation last delivered (some r) next up later rest =
      respond_to-Spaced samples generation last delivered r.result r.generation next up later rest

  rounds-Spaced :
      (samples : ℕ) (turns : List (Turn A))
      → All TurnFits turns
      → Continues samples (rounds samples turns)
  unfolding rounds
  rounds-Spaced samples [] fits g last up = tt
  rounds-Spaced samples (t ∷ ts) fits g last up =
      if_intro (λ (r : Streamed A). Spaced samples last r.0) t.cancelled _ _ (λ _. tt)
        λ _.
          respond-Spaced samples g last t.delivered (wait_for_next g t.seen) (rounds samples ts) up
            (wait-Later g t.seen fits.0) (rounds-Spaced samples ts fits.1)

samples-enough :
    (interval sample_interval : ℕ)
    → 0 < sample_interval
    → interval ≤ samples_per_response interval sample_interval * sample_interval
unfolding samples_per_response
samples-enough interval sample_interval h = grind arith

apart :
    (interval si n last g : ℕ) → interval ≤ n * si → last + n ≤ g → interval + last * si ≤ g * si
apart interval si n last g h far = omega (arith, h, mul-le-mul_right si far, add-mul last n si)

-- Requests outside the limits: 0 stands for the default.
abbrev pub OutOfRange : ℕ → Type 0
OutOfRange interval_ms = (0 < interval_ms) × ((interval_ms < 1000) ⊎ (60000 < interval_ms))

out_of_range :
    (interval_ms : ℕ)
    → (ltb (requested interval_ms) 1000 || ltb 60000 (requested interval_ms)) ≡ true
    → OutOfRange interval_ms
unfolding requested
out_of_range interval_ms h = ground arith

-- The requests that are answered.
abbrev pub InRange : ℕ → Type 0
InRange interval_ms = (interval_ms ≡ 0) ⊎ ((1000 ≤ interval_ms) × (interval_ms ≤ 60000))

requested-InRange :
    (interval_ms : ℕ)
    → (ltb (requested interval_ms) 1000 || ltb 60000 (requested interval_ms)) ≡ false
    → InRange interval_ms
unfolding requested
requested-InRange zero h = inl refl
requested-InRange (suc n) h = inr (ground arith)

-- Nothing is sent, and the status is an error of the request.
abbrev pub Refuses {ℓ} : {A : Type ℓ} → Streamed A → Type 0
Refuses (responses, none) = ⊥
Refuses (responses, some status) = (null responses ≡ true) × (status.code ≡ invalid_argument)

module _ {ℓ} {A : Type ℓ} (interval sample_interval : ℕ) where
  -- Between two responses the sampler took samples for at least `interval`.
  abbrev pub Apart : ℕ → List (Response A) → Type 0
  Apart last [] = Unit
  Apart last (r ∷ rs) =
      (interval + last * sample_interval ≤ r.generation * sample_interval) × Apart r.generation rs

  abbrev pub Paced : List (Response A) → Type 0
  Paced [] = Unit
  Paced (r ∷ rs) = Apart r.generation rs

  Spaced-Apart :
      (n last : ℕ) (rs : List (Response A))
      → interval ≤ n * sample_interval
      → Spaced n last rs
      → Apart last rs
  Spaced-Apart n last [] h s = tt
  Spaced-Apart n last (r ∷ rs) h s = (
    apart interval sample_interval n last r.generation h s.0,
    Spaced-Apart n r.generation rs h s.1,
  )

  first_response-Paced :
      (delivered : Bool) (c : Collected A) (g : ℕ) (turns : List (Turn A))
      → 0 < sample_interval
      → All TurnFits turns
      → Paced (first_response interval sample_interval delivered c g turns).0
  unfolding first_response answered
  first_response-Paced delivered (failed error) g turns h fits = tt
  first_response-Paced false (collected metrics) g turns h fits = tt
  first_response-Paced true (collected metrics) g turns h fits =
      let n = samples_per_response interval sample_interval in
      Spaced-Apart n g _ (samples-enough interval sample_interval h)
        (rounds-Spaced n turns fits g g (omega arith))

-- A request is refused before anything is sent, and its interval is out of range; or its interval is 0
-- or from 1000 to 60000, and any two consecutive responses are so many samples apart that, at the
-- sampler's interval, at least the interval that was asked for lies between them, or a second if none
-- was. The conditions are that the sampler's interval is above 0 and that generations fit in 64 bits.
pub stream_system_metrics-Paced {ℓ} :
    {A : Type ℓ} (interval_ms sample_interval : ℕ) (s : Sampler A) (delivered : Bool)
    (turns : List (Turn A))
    → 0 < sample_interval
    → All TurnFits turns
    → (Refuses (stream_system_metrics interval_ms sample_interval s delivered turns)
        × OutOfRange interval_ms)
      ⊎ (InRange interval_ms
          × Paced
              (requested interval_ms)
              sample_interval
              (stream_system_metrics interval_ms sample_interval s delivered turns).0)
unfolding stream_system_metrics
stream_system_metrics-Paced interval_ms sample_interval s delivered turns h fits =
    let interval = requested interval_ms in
    let r = get_latest s in
    if_intro
      (λ (x : Streamed _).
        (Refuses x × OutOfRange interval_ms)
        ⊎ (InRange interval_ms × Paced interval sample_interval x.0))
      (ltb interval 1000 || ltb 60000 interval) _ _
      (λ bad. inl ((refl, refl), out_of_range interval_ms bad))
      λ good. inr (
        requested-InRange interval_ms good,
        first_response-Paced interval sample_interval delivered r.result r.generation turns h fits,
      )
