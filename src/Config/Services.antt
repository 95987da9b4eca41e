-- ===== src/Config/Services.antt =====
-- `IsValidServiceName`: exactly which names pass.
use edge_scpoe.Base.{
  ℕ, ◌+◌, ◌-◌, ◌%◌, ◌^◌, ◌≤◌, ◌<◌, ◌≡◌, ap, ◌≢◌, ◌↔◌, ◌⊎◌, inl, inr, refl, true, [], ◌∷◌, ◌++◌,
  Option, none, some, arith, length, all, length-append, Option-cases,
}
use edge_scpoe.Text.{Bytes, codes, find}
use edge_scpoe.Text.Search.{find-At}
use edge_scpoe.Config.{position, is_name_char, is_valid_service_name}

abbrev pub suffix : Bytes
suffix = codes ".service"

nil_of_length : (s : Bytes) → length s ≡ 0 → s ≡ []
nil_of_length [] h = refl
nil_of_length (c ∷ cs) h = absurd (omega arith)

-- Where `find` gives a position, the whole suffix fits behind it.
find-suffix_bound : (name : Bytes) (i : ℕ) → find suffix name ≡ some i → i + 8 ≤ length name
find-suffix_bound name i h =
    let a = find-At suffix name i h in
    omega (
      arith,
      ap length a.splits,
      length-append a.before (suffix ++ a.after),
      length-append suffix a.after,
      a.length_before,
    )

-- A name that ends with the suffix, and holds it nowhere before.
abbrev pub EndsWithSuffix : Bytes → Type 0
EndsWithSuffix name =
    (stem : Bytes) × (name ≡ stem ++ suffix) × (find suffix name ≡ some (length stem))

suffix_at_end :
    (name : Bytes) (i : ℕ) → find suffix name ≡ some i → i + 8 ≡ length name → EndsWithSuffix name
suffix_at_end name i h e =
    let a = find-At suffix name i h in
    let after_nil : a.after ≡ [] = nil_of_length a.after (
      omega (
        arith,
        ap length a.splits,
        length-append a.before (suffix ++ a.after),
        length-append suffix a.after,
        a.length_before,
      )) in
    (a.before, rw (← after_nil) a.splits, rw a.length_before h)

-- What the test asks of a name's length and of the first `.service` in it.
abbrev Placed : Bytes → Option ℕ → Type 0
Placed name found = position found ≡ (length name + 2 ^ 64 - 8) % 2 ^ 64

suffix_end_bound :
    (name : Bytes) → EndsWithSuffix name → length name ≡ position (find suffix name) + 8
suffix_end_bound name (stem, e, f) = rw f (omega (arith, ap length e, length-append stem suffix))

Placed-ends :
    (name : Bytes)
    → 0 < length name
    → length name ≤ 128
    → Placed name (find suffix name)
    → EndsWithSuffix name ⊎ (length name ≡ 7)
Placed-ends name lo hi h = elim (Option-cases (find suffix name)) [
  | inl e ↦ let p : Placed name none = rw e at h in inr (omega arith)
  | inr (i, e) ↦
      let p : Placed name (some i) = rw e at h in
      inl (suffix_at_end name i e (omega (arith, find-suffix_bound name i e)))
]

ends-Placed :
    (name : Bytes)
    → 0 < length name
    → length name ≤ 128
    → EndsWithSuffix name ⊎ (length name ≡ 7)
    → Placed name (find suffix name)
ends-Placed name lo hi (inl ends) = omega (arith, suffix_end_bound name ends)
ends-Placed name lo hi (inr seven) = elim (Option-cases (find suffix name)) [
  | inl e ↦ rw e (omega arith)
  | inr (i, e) ↦ absurd (omega (arith, find-suffix_bound name i e))
]

-- What `IsValidServiceName` accepts: 1 to 128 characters, all of them allowed, and either ending in
-- the first `.service` that the name holds, or seven in number.
pub record IsAccepted (name : Bytes) : Type 0 where
  pub nonempty : 0 < length name
  pub short : length name ≤ 128
  pub characters : all is_name_char name ≡ true
  pub placed : EndsWithSuffix name ⊎ (length name ≡ 7)

valid_parts :
    (name : Bytes)
    → is_valid_service_name name ≡ true
    → (0 < length name)
      × (length name ≤ 128)
      × (all is_name_char name ≡ true)
      × Placed name (find suffix name)
unfolding is_valid_service_name
valid_parts [] h = cc
valid_parts (c ∷ cs) h = ground arith

valid_of_parts :
    (name : Bytes)
    → (0 < length name)
    → (length name ≤ 128)
    → (all is_name_char name ≡ true)
    → Placed name (find suffix name)
    → is_valid_service_name name ≡ true
unfolding is_valid_service_name
valid_of_parts [] a b c d = absurd (omega arith)
valid_of_parts (x ∷ xs) a b c d = ground arith

-- A name passes the test if and only if it is of that form.
pub is_valid_service_name-IsAccepted :
    (name : Bytes) → (is_valid_service_name name ≡ true) ↔ IsAccepted name
is_valid_service_name-IsAccepted name = (
  λ h.
      let (lo, hi, chars, p) = valid_parts name h in
      record { nonempty = lo; short = hi; characters = chars; placed = Placed-ends name lo hi p },
  λ a.
      valid_of_parts name a.nonempty a.short a.characters
        (ends-Placed name a.nonempty a.short a.placed),
)

-- Every name of seven allowed characters passes, though none of them ends with `.service`: the
-- unsigned `name.size() - 8` is then the value of `npos`.
pub seven_characters_pass :
    (name : Bytes)
    → length name ≡ 7
    → all is_name_char name ≡ true
    → (is_valid_service_name name ≡ true) × ((stem : Bytes) → name ≢ stem ++ suffix)
seven_characters_pass name seven chars = (
  (is_valid_service_name-IsAccepted name).1 (record {
    nonempty = omega arith;
    short = omega arith;
    characters = chars;
    placed = inr seven;
  }),
  λ stem e. omega (arith, ap length e, length-append stem suffix),
)
