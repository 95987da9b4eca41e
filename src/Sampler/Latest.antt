-- ===== src/Sampler/Latest.antt =====
-- What a reader gets after any sequence of samples and stops.
use edge_scpoe.Base.{◌≡◌, refl, ◌∙◌, false, List, [], ◌∷◌, null, arith}
use edge_scpoe.Sampler.{
  Collected, collected, failed, Sampler, initial, sample, stop, snapshot, get_latest,
}

-- One step of the sampling thread, or of the destructor.
pub data Step {ℓ} (A : Type ℓ) : Type ℓ where
  sampled : Collected A → Step A
  stopped : Step A

module _ {ℓ} {A : Type ℓ} where
  unfoldable pub step : Step A → Sampler A → Sampler A
  unfolding sample stop
  step (sampled c) s = sample c s
  step stopped s = stop s

  -- The constructor takes a sample; then the steps follow, the first of the list first.
  unfoldable pub run : Sampler A → List (Step A) → Sampler A
  unfolding step
  run s [] = s
  run s (x ∷ xs) = run (step x s) xs

  -- The last sample of a run.
  abbrev pub last_sample : Collected A → List (Step A) → Collected A
  last_sample c [] = c
  last_sample c (sampled d ∷ xs) = last_sample d xs
  last_sample c (stopped ∷ xs) = last_sample c xs

  -- A failure has a text.
  abbrev pub HasText : Collected A → Type 0
  HasText (collected metrics) = Unit
  HasText (failed error) = null error ≡ false

  abbrev pub HaveTexts : List (Step A) → Type 0
  HaveTexts [] = Unit
  HaveTexts (sampled c ∷ xs) = HasText c × HaveTexts xs
  HaveTexts (stopped ∷ xs) = HaveTexts xs

  snapshot-sample :
      (c : Collected A) (s : Sampler A) → HasText c → (snapshot (sample c s)).result ≡ c
  unfolding snapshot sample
  snapshot-sample (collected metrics) s h = refl
  snapshot-sample (failed error) s h = ground arith

  stop-snapshot : (s : Sampler A) → (snapshot (stop s)).result ≡ (snapshot s).result
  unfolding snapshot stop
  stop-snapshot s = ground arith

  snapshot-run :
      (s : Sampler A) (c : Collected A) (xs : List (Step A))
      → (snapshot s).result ≡ c
      → HaveTexts xs
      → (snapshot (run s xs)).result ≡ last_sample c xs
  unfolding run
  snapshot-run s c [] shows texts = shows
  snapshot-run s c (sampled d ∷ xs) shows texts =
      snapshot-run (sample d s) d xs (snapshot-sample d s texts.0) texts.1
  snapshot-run s c (stopped ∷ xs) shows texts =
      snapshot-run (stop s) c xs (stop-snapshot s ∙ shows) texts

  -- After any run of samples and stops, `GetLatest` gives the outcome of the last sample: its
  -- metrics, or its error text, if failing samples have texts. It never gives older metrics for a
  -- sample that failed.
  pub get_latest-run :
      (zeros : A) (first : Collected A) (xs : List (Step A))
      → HasText first
      → HaveTexts xs
      → (get_latest (run (sample first (initial zeros)) xs)).result ≡ last_sample first xs
  unfolding get_latest
  get_latest-run zeros first xs text texts =
      snapshot-run (sample first (initial zeros)) first xs
        (snapshot-sample first (initial zeros) text) texts
