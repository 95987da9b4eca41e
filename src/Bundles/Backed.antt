-- ===== src/Bundles/Backed.antt =====
-- Stored bundles and the archives on the disk, side by side.
use edge_scpoe.Base.{
  ℕ, ◌≤◌, ◌<◌, ◌≡◌, ◌≢◌, ◌⊎◌, inl, inr, refl, sym, ap, ◌∙◌, Bool, true, false, List, [], ◌∷◌, ◌++◌,
  none, some, ltb, length, arith, if_intro, Bool-cases,
}
use edge_scpoe.Base.Results.{ok}
use edge_scpoe.Text.{Bytes, equal}
use edge_scpoe.Text.Laws.{equal_iff, equal_refl}
use edge_scpoe.Bundles.{
  StoredBundle, Disk, without_archive, remove_archive, find_archive, get_bundle_path,
  remove_old_bundles, maximum_bundles,
}
use edge_scpoe.Bundles.Names.{number_of}

-- A bundle with the number `n` in its id and its path, and its archive of the size that it tells.
pub record Matches (n : ℕ) (b : StoredBundle) (path contents : Bytes) : Type 0 where
  pub id_number : number_of b.info.id ≡ some n
  pub path_number : number_of b.path ≡ some n
  pub same_path : path ≡ b.path
  pub same_size : length contents ≡ b.info.size_bytes

-- Each bundle with its archive and no archive else, by ascending numbers above `low` up to `high`.
pub data Backed (high : ℕ) : ℕ → List StoredBundle → List (Bytes × Bytes) → Type 0 where
  nothing : {low : ℕ} → low ≤ high → Backed high low [] []
  bundle :
      {low : ℕ} {b : StoredBundle} {path contents : Bytes} {bs : List StoredBundle}
      {fs : List (Bytes × Bytes)} (n : ℕ)
      → low < n
      → Matches n b path contents
      → Backed high n bs fs
      → Backed high low (b ∷ bs) ((path, contents) ∷ fs)

-- A number that no bundle has.
abbrev pub Outside : ℕ → ℕ → ℕ → Type 0
Outside low high m = (m ≤ low) ⊎ (high < m)

Backed-le :
    {high low : ℕ} {bs : List StoredBundle} {fs : List (Bytes × Bytes)}
    → Backed high low bs fs
    → low ≤ high
Backed-le (nothing h) = h
Backed-le (bundle n h m rest) = let k = Backed-le rest in omega arith

-- Different numbers are in different texts.
pub differ :
    (s t : Bytes) (m n : ℕ)
    → number_of s ≡ some m
    → number_of t ≡ some n
    → m ≢ n
    → equal s t ≡ false
differ s t m n hs ht d = decide (Bool-cases (equal s t))
  where
    decide : (equal s t ≡ true) ⊎ (equal s t ≡ false) → equal s t ≡ false
    decide (inr apart) = apart
    decide (inl equals) =
        let same : s ≡ t = (equal_iff s t).0 equals in
        let numbers : some m ≡ some n = sym hs ∙ (ap number_of same ∙ ht) in absurd (d (cc))

module _ {high : ℕ} where
  -- A path with a number outside is not there.
  pub without-Outside :
      {low : ℕ} {bs : List StoredBundle} {fs : List (Bytes × Bytes)} (p : Bytes) (m : ℕ)
      → number_of p ≡ some m
      → Outside low high m
      → Backed high low bs fs
      → (without_archive p fs ≡ fs) × (find_archive p fs ≡ none)
  unfolding without_archive find_archive
  without-Outside p m hp out (nothing h) = (refl, refl)
  without-Outside p m hp out (bundle {path = path} n h k rest) =
      let top = Backed-le rest in
      let named : number_of path ≡ some n = rw (k.same_path) (k.path_number) in
      let other =
        differ p path m n hp named
          (elim out [ inl o ↦ λ e. omega arith | inr o ↦ λ e. omega arith ]) in
      let (gone, none_there) =
        without-Outside p m hp (elim out [ inl o ↦ inl (omega arith) | inr o ↦ inr o ]) rest in
      rw (other, gone, none_there) (refl, refl)

  -- The front archive goes with the front bundle.
  pub without-front :
      {low : ℕ} {b : StoredBundle} {bs : List StoredBundle} {fs : List (Bytes × Bytes)}
      → Backed high low (b ∷ bs) fs
      → (n : ℕ) × Backed high n bs (without_archive b.path fs)
  unfolding without_archive
  without-front {b = b} (bundle {path = path} n h k rest) =
      let front : equal b.path path ≡ true = rw (k.same_path) (equal_refl (b.path)) in
      let gone = (without-Outside (b.path) n (k.path_number) (inl (omega arith)) rest).0 in
      rw (front) (n, rw gone rest)

  pub push :
      {low : ℕ} {bs : List StoredBundle} {fs : List (Bytes × Bytes)} {b : StoredBundle}
      {path contents : Bytes} (m : ℕ)
      → high < m
      → Matches m b path contents
      → Backed high low bs fs
      → Backed m low (bs ++ b ∷ []) (fs ++ (path, contents) ∷ [])
  push m h k (nothing l) = bundle m (omega arith) k (nothing (omega arith))
  push m h k (bundle n l j rest) = bundle n l j (push m h k rest)

-- A bundle at the end is found by its id.
pub get_bundle_path-last :
    {high low : ℕ} {fs : List (Bytes × Bytes)} (xs : List StoredBundle) (b : StoredBundle)
    → Backed high low (xs ++ b ∷ []) fs
    → get_bundle_path b.info.id (xs ++ b ∷ []) ≡ ok (b.path, b.info.size_bytes)
unfolding get_bundle_path
get_bundle_path-last [] b h = rw (equal_refl b.info.id) refl
get_bundle_path-last (x ∷ xs) b (bundle n l k rest) =
    let (m, above, last) = last_number xs b rest in
    rw (differ x.info.id b.info.id n m k.id_number last (λ e. omega arith))
      (get_bundle_path-last xs b rest)
  where
    last_number :
        {high low : ℕ} {fs : List (Bytes × Bytes)} (ys : List StoredBundle) (c : StoredBundle)
        → Backed high low (ys ++ c ∷ []) fs
        → (m : ℕ) × (low < m) × (number_of c.info.id ≡ some m)
    last_number [] c (bundle m l k rest) = (m, l, k.id_number)
    last_number (y ∷ ys) c (bundle n l k rest) =
        let (m, above, last) = last_number ys c rest in (m, omega arith, last)

-- What `RemoveOldBundles` leaves: at most five bundles with their archives, and no other change.
abbrev pub Trimmed : ℕ → List Bytes → List StoredBundle × Disk → Type 0
Trimmed high stagings (bs, disk) =
    (length bs ≤ maximum_bundles)
    × (disk.stagings ≡ stagings)
    × ((low : ℕ) × Backed high low bs disk.archives)

pub remove_old_bundles-Trimmed :
    {high : ℕ} (removable : Bytes → Bool) (removes : (p : Bytes) → removable p ≡ true)
    (bs : List StoredBundle) (disk : Disk) {low : ℕ}
    → Backed high low bs disk.archives
    → Trimmed high disk.stagings (remove_old_bundles removable bs disk)
unfolding remove_old_bundles remove_archive
remove_old_bundles-Trimmed removable removes [] disk {low} h = (omega arith, refl, (low, h))
remove_old_bundles-Trimmed {high} removable removes (b ∷ bs) disk {low} h =
    if_intro (Trimmed high disk.stagings) (ltb maximum_bundles (length (b ∷ bs))) _ _
      (λ many.
        let (n, rest) = without-front h in
        rw (removes b.path) (
          remove_old_bundles-Trimmed removable removes bs
            (record disk { archives = without_archive b.path disk.archives }) rest))
      λ few. (ground arith, refl, (low, h))

-- The bundle at the end stays.
pub remove_old_bundles-keeps :
    (removable : Bytes → Bool) (bs : List StoredBundle) (b : StoredBundle) (disk : Disk)
    → (xs : List StoredBundle) × ((remove_old_bundles removable (bs ++ b ∷ []) disk).0
        ≡ xs ++ b ∷ [])
unfolding remove_old_bundles
remove_old_bundles-keeps removable [] b disk = ([], refl)
remove_old_bundles-keeps removable (c ∷ bs) b disk =
    if_intro (λ (r : List StoredBundle × Disk). (xs : List StoredBundle) × (r.0 ≡ xs ++ b ∷ [])) _ _
      _ (λ many. remove_old_bundles-keeps removable bs b (remove_archive removable c.path disk))
      λ few. (c ∷ bs, refl)
