-- ===== src/Text/Search.antt =====
-- Laws of `starts_with`, `find` and the searches for one character.
use mathlib.Core.Option
use edge_scpoe.Base.{
  ℕ, zero, suc, ◌≡◌, ◌≢◌, refl, ap, Bool, true, false, [], ◌∷◌, ◌++◌, Option, none, some, arith,
  ◌==◌, length, take, drop, All, Bool-cases, inl, inr, ◌⊎◌, if◌then◌else◌,
}
use edge_scpoe.Text.{Bytes, starts_with, find_char, find, later, rfind_char}

pub starts_with-split : (p s : Bytes) → starts_with p s ≡ true → s ≡ p ++ drop (length p) s
unfolding starts_with
starts_with-split [] s h = refl
starts_with-split (p ∷ ps) [] h = cc
starts_with-split (p ∷ ps) (c ∷ cs) h = ground (arith, starts_with-split ps cs)

pub starts_with-append : (p s : Bytes) → starts_with p (p ++ s) ≡ true
unfolding starts_with
starts_with-append [] s = refl
starts_with-append (p ∷ ps) s = ground (arith, starts_with-append ps s)

map-suc : (o : Option ℕ) {i : ℕ} → Option.map suc o ≡ some i → (j : ℕ) × (o ≡ some j) × (i ≡ suc j)
map-suc none h = cc
map-suc (some j) {i} h = (j, refl, ground arith)

-- `s` holds `p` at position `i`.
pub record At (p s : Bytes) (i : ℕ) : Type 0 where
  pub before : Bytes
  pub after : Bytes
  pub splits : s ≡ before ++ (p ++ after)
  pub length_before : length before ≡ i

At-here : (p s : Bytes) → starts_with p s ≡ true → At p s 0
At-here p s h = record {
  before = [];
  after = drop (length p) s;
  splits = starts_with-split p s h;
  length_before = refl;
}

At-cons : (p s : Bytes) (c i : ℕ) → At p s i → At p (c ∷ s) (suc i)
At-cons p s c i a = record {
  before = c ∷ a.before;
  after = a.after;
  splits = ap (◌∷◌ c) a.splits;
  length_before = ap suc a.length_before;
}

find_nil : (p : Bytes) → find p [] ≡ (if starts_with p [] then some 0 else none)
unfolding find
find_nil p = refl

find_cons :
    (p : Bytes) (c : ℕ) (cs : Bytes)
    → find p (c ∷ cs) ≡ (if starts_with p (c ∷ cs) then some 0 else Option.map suc (find p cs))
unfolding find
find_cons p c cs = refl

-- A position that `find` returns holds the pattern.
pub find-At : (p s : Bytes) (i : ℕ) → find p s ≡ some i → At p s i
find-At p [] i h = elim (Bool-cases (starts_with p [])) [
  | inl here ↦ let e : i ≡ 0 = ground (arith, find_nil p) in rw e (At-here p [] here)
  | inr away ↦ absurd (ground (arith, find_nil p))
]
find-At p (c ∷ cs) i h = elim (Bool-cases (starts_with p (c ∷ cs))) [
  | inl here ↦ let e : i ≡ 0 = ground (arith, find_cons p c cs) in rw e (At-here p (c ∷ cs) here)
  | inr away ↦
      let (j, found, e) = map-suc (find p cs) {i = i} (ground (arith, find_cons p c cs)) in
      rw e (At-cons p cs c j (find-At p cs j found))
]

pub find_char-split :
    (x : ℕ) (s : Bytes) (i : ℕ)
    → find_char x s ≡ some i
    → (s ≡ take i s ++ x ∷ drop (suc i) s) × All (λ c. c ≢ x) (take i s)
unfolding find_char
find_char-split x [] i h = cc
find_char-split x (c ∷ cs) zero h = grind (arith, map-suc)
find_char-split x (c ∷ cs) (suc i) h = ground (arith, find_char-split x cs i)

later-some :
    (here : Bool) (o : Option ℕ) (i : ℕ)
    → later here o ≡ some i
    → ((j : ℕ) × (o ≡ some j) × (i ≡ suc j)) ⊎ ((o ≡ none) × (here ≡ true) × (i ≡ 0))
unfolding later
later-some here (some j) i h = inl (j, refl, ground arith)
later-some true none i h = inr (refl, refl, ground arith)
later-some false none i h = cc

later-none : (here : Bool) (o : Option ℕ) → later here o ≡ none → (o ≡ none) × (here ≡ false)
unfolding later
later-none here (some j) h = cc
later-none true none h = cc
later-none false none h = (refl, refl)

rfind_char-none : (x : ℕ) (s : Bytes) → rfind_char x s ≡ none → All (λ c. c ≢ x) s
rfind_char-none x [] h = tt
rfind_char-none x (c ∷ cs) h =
    let (e, away) = later-none (c == x) (rfind_char x cs) (unfold rfind_char in h) in
    (ground arith, rfind_char-none x cs e)

-- The text split at a position, which holds `x`, with none of it behind.
abbrev pub LastAt : ℕ → Bytes → ℕ → Type 0
LastAt x s i =
    (s ≡ take i s ++ x ∷ drop (suc i) s)
    × (length (take i s) ≡ i)
    × All (λ c. c ≢ x) (drop (suc i) s)

pub rfind_char-LastAt : (x : ℕ) (s : Bytes) (i : ℕ) → rfind_char x s ≡ some i → LastAt x s i
rfind_char-LastAt x [] i h = unfold rfind_char in cc
rfind_char-LastAt x (c ∷ cs) i h =
    elim (later-some (c == x) (rfind_char x cs) i (unfold rfind_char in h)) [
      | inl (j, e, at) ↦
          let (splits, long, lacks) = rfind_char-LastAt x cs j e in
          rw at (ap (◌∷◌ c) splits, ap suc long, lacks)
      | inr (e, here, at) ↦
          let same : c ≡ x = ground arith in rw (at, same) (refl, refl, rfind_char-none x cs e)
    ]
