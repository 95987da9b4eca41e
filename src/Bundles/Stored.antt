-- ===== src/Bundles/Stored.antt =====
-- What holds of the store between calls, and the branches of a call behind the staging directory.
use mathlib.Core.Option
use edge_scpoe.Base.{
  suc, ℕ, ◌≤◌, ◌<◌, ◌≡◌, inr, refl, sym, subst, Bool, true, false, List, [], ◌∷◌, ◌++◌, Option,
  none, some, if◌then◌else◌, length, arith,
}
use edge_scpoe.Base.Results.{Result, ok, err}
use edge_scpoe.Text.{Bytes, codes}
use edge_scpoe.Text.Laws.{equal_refl}
use edge_scpoe.Bundles.{
  DiagnosticBundleInfo, StoredBundle, Disk, DiagnosticCollector, without, without_archive,
  remove_archive, remove_staging, write_archive, find_archive, get_bundle_path, remove_old_bundles,
  maximum_bundles,
}
use edge_scpoe.Bundles.Report.{Progress}
use edge_scpoe.Bundles.Create.{
  Answers, archive_name, archive_path, staging_path, dropped, archive_size, stored, without_staging,
  Tarred, create_tar_gzip, kept_or_dropped, packed, collected, staged, started,
}
use edge_scpoe.Bundles.Names.{number_of}
use edge_scpoe.Bundles.Backed.{
  Matches, Backed, without-Outside, push, get_bundle_path-last, remove_old_bundles-Trimmed,
  remove_old_bundles-keeps,
}

-- Between calls there is no staging directory, there are at most five bundles, and the archives on
-- the disk are theirs and no others, each of the size that is stored with it.
pub record IsStored (s : DiagnosticCollector) : Type 0 where
  pub unstaged : s.disk.stagings ≡ []
  pub bounded : length s.bundles ≤ maximum_bundles
  pub backed : (low : ℕ) × Backed s.sequence low s.bundles s.disk.archives

-- A call that fails leaves the bundles and the archives; after one that succeeds, the bundle is found
-- by its id.
abbrev pub Outcome :
    Bytes → DiagnosticCollector → Result Bytes DiagnosticBundleInfo → DiagnosticCollector → Type 0
Outcome root s (err message) s' = (s'.bundles ≡ s.bundles) × (s'.disk.archives ≡ s.disk.archives)
Outcome root s (ok info) s' =
    get_bundle_path info.id s'.bundles ≡ ok (archive_path root info.id, info.size_bytes)

-- The sequence number rises by at most one, so that it lasts.
abbrev pub Kept :
    Bytes → DiagnosticCollector → Result Bytes DiagnosticBundleInfo × DiagnosticCollector → Type 0
Kept root s (r, s') = IsStored s' × (s'.sequence ≤ suc s.sequence) × Outcome root s r s'

-- The collector with the parts that a call changes.
abbrev pub state : List StoredBundle → ℕ → List Bytes → List (Bytes × Bytes) → DiagnosticCollector
state bs sequence stagings fs = record {
  bundles = bs;
  sequence = sequence;
  disk = record { stagings = stagings; archives = fs };
}

without_archive-last :
    (p contents : Bytes) (fs : List (Bytes × Bytes))
    → without_archive p (fs ++ (p, contents) ∷ []) ≡ without_archive p fs
unfolding without_archive
without_archive-last p contents [] = rw (equal_refl p) refl
without_archive-last p contents ((q, c) ∷ fs) = rw (without_archive-last p contents fs) refl

find_archive-last :
    (p contents : Bytes) (fs : List (Bytes × Bytes))
    → find_archive p fs ≡ none
    → find_archive p (fs ++ (p, contents) ∷ []) ≡ some contents
unfolding find_archive
find_archive-last p contents [] h = rw (equal_refl p) refl
find_archive-last p contents ((q, c) ∷ fs) h =
    let rest = find_archive-last p contents fs in ground arith

Backed-raise :
    {high low : ℕ} {bs : List StoredBundle} {fs : List (Bytes × Bytes)} (m : ℕ)
    → high ≤ m
    → Backed high low bs fs
    → Backed m low bs fs
Backed-raise m h (Backed.nothing l) = Backed.nothing (omega arith)
Backed-raise m h (Backed.bundle n l k rest) = Backed.bundle n l k (Backed-raise m h rest)

module _ {D : Type 0} (root : Bytes) (answers : Answers D)
    (removes : (p : Bytes) → answers.removable p ≡ true) (id : Bytes) (m : ℕ)
    (id_number : number_of id ≡ some m) (path_number : number_of (archive_path root id) ≡ some m)
    (bs : List StoredBundle) (q : ℕ) (fs : List (Bytes × Bytes)) (few : length bs ≤ maximum_bundles)
    (low : ℕ) (backed : Backed q low bs fs) (above : q < m) (one : m ≤ suc q) where
  abbrev before : DiagnosticCollector
  before = state bs q [] fs

  -- The state with the new number.
  abbrev after : DiagnosticCollector
  after = state bs m [] fs

  fails : (message : Bytes) → Kept root before (err message, after)
  fails message = (
    record { unstaged = refl; bounded = few; backed = (low, Backed-raise m (omega arith) backed) },
    one,
    (refl, refl),
  )

  untouched :
      (without_archive (archive_path root id) fs ≡ fs)
      × (find_archive (archive_path root id) fs ≡ none)
  untouched = without-Outside (archive_path root id) m path_number (inr above) backed

  dropped-Kept : (message : Bytes) → Kept root before (dropped root answers message id after)
  unfolding dropped remove_archive
  dropped-Kept message = rw (removes (archive_path root id), untouched.0) (fails message)

  -- A half-written archive goes too.
  dropped_written-Kept :
      (message contents : Bytes)
      → Kept root before (
          dropped root answers message id
            (state bs m [] (fs ++ (archive_path root id, contents) ∷ [])))
  unfolding dropped remove_archive
  dropped_written-Kept message contents =
      rw
        (
          removes (archive_path root id),
          without_archive-last (archive_path root id) contents fs,
          untouched.0,
        )
        (fails message)

  stored-Kept :
      (contents : Bytes)
      → Kept root before (
          stored root answers id
            (some (length contents))
            (state bs m [] (fs ++ (archive_path root id, contents) ∷ [])))
  unfolding stored
  stored-Kept contents =
      let info : DiagnosticBundleInfo = record {
        id = id;
        filename = archive_name id;
        size_bytes = length contents;
        created_at_unix_seconds = answers.timestamp;
      } in
      let b : StoredBundle = record { info = info; path = archive_path root id } in
      let disk : Disk = record {
        stagings = [];
        archives = fs ++ (archive_path root id, contents) ∷ [];
      } in
      let match : Matches m b (archive_path root id) contents = record {
        id_number = id_number;
        path_number = path_number;
        same_path = refl;
        same_size = refl;
      } in
      let left = remove_old_bundles answers.removable (bs ++ b ∷ []) disk in
      let (small, same, kept) =
        remove_old_bundles-Trimmed answers.removable removes (bs ++ b ∷ []) disk
          (push m above match backed) in
      let (xs, ends) = remove_old_bundles-keeps answers.removable bs b disk in
      (
        record { unstaged = same; bounded = small; backed = kept },
        one,
        rw ends (
            get_bundle_path-last xs b (subst (λ l. Backed m kept.0 l left.1.archives) ends kept.1)),
      )

  unstored-Kept : Kept root before (stored root answers id none after)
  unfolding stored
  unstored-Kept = dropped-Kept (codes "failed to determine diagnostic archive size")

  sized-Kept :
      (has_size : Bool) (contents : Bytes)
      → Kept root before (
          stored root answers id
            (if has_size then some (length contents) else none)
            (state bs m [] (fs ++ (archive_path root id, contents) ∷ [])))
  unfolding stored
  sized-Kept true contents = stored-Kept contents
  sized-Kept false contents =
      dropped_written-Kept (codes "failed to determine diagnostic archive size") contents

  sizeless :
      (has_size : Bool) → (if has_size then Option.map (length {A = ℕ}) none else none) ≡ none
  sizeless true = refl
  sizeless false = refl

  -- The state while the staging directory is there.
  abbrev staging_state : DiagnosticCollector
  staging_state = state bs m (staging_path root id ∷ []) fs

  unstaged_state :
      (gs : List (Bytes × Bytes))
      → without_staging root answers id (state bs m (staging_path root id ∷ []) gs)
        ≡ state bs m [] gs
  unfolding without_staging remove_staging without
  unstaged_state gs = rw (removes (staging_path root id), equal_refl (staging_path root id)) refl

  -- What is done after the staging directory is gone.
  at_unstaged :
      (gs : List (Bytes × Bytes))
      (next : DiagnosticCollector → Result Bytes DiagnosticBundleInfo × DiagnosticCollector)
      → Kept root before (next (state bs m [] gs))
      → Kept root before
          (next (without_staging root answers id (state bs m (staging_path root id ∷ []) gs)))
  at_unstaged gs next h = subst (λ s. Kept root before (next s)) (sym (unstaged_state gs)) h

  kept_or_dropped-Kept :
      (failure output : Option Bytes)
      → let disk = write_archive (archive_path root id) output staging_state.disk in
        Kept root before (
          kept_or_dropped root answers id failure
            (without_staging root answers id (record staging_state { disk = disk })))
  unfolding kept_or_dropped write_archive archive_size
  kept_or_dropped-Kept (some message) none =
      at_unstaged fs (dropped root answers message id) (dropped-Kept message)
  kept_or_dropped-Kept (some message) (some contents) =
      let gs = fs ++ (archive_path root id, contents) ∷ [] in
      rw (untouched.0)
        (at_unstaged gs (dropped root answers message id) (dropped_written-Kept message contents))
  kept_or_dropped-Kept none none =
      at_unstaged fs (λ s. stored root answers id (archive_size root answers id s) s)
        (rw (untouched.1, sizeless answers.has_size) unstored-Kept)
  kept_or_dropped-Kept none (some contents) =
      let gs = fs ++ (archive_path root id, contents) ∷ [] in
      rw (untouched.0) (
        at_unstaged gs (λ s. stored root answers id (archive_size root answers id s) s)
          (rw (find_archive-last (archive_path root id) contents fs (untouched.1))
            (sized-Kept answers.has_size contents)))

  packed-Kept : (tarred : Tarred) → Kept root before (packed root answers id tarred staging_state)
  unfolding packed
  packed-Kept tarred = kept_or_dropped-Kept (create_tar_gzip tarred.tar_end) tarred.output

  collected-Kept :
      (progress : Result Bytes Progress)
      → Kept root before (collected root answers id progress staging_state)
  unfolding collected
  collected-Kept (err message) =
      at_unstaged fs (dropped root answers message id) (dropped-Kept message)
  collected-Kept (ok progress) = packed-Kept (answers.tar progress.files)

  staged-Kept :
      (secured : Option Bytes) (progress : Result Bytes Progress)
      → Kept root before (staged root answers id secured progress staging_state)
  unfolding staged
  staged-Kept (some message) progress =
      let text = codes "failed to secure diagnostic staging directory: " ++ message in
      at_unstaged fs (λ s. (err text, s)) (fails text)
  staged-Kept none progress = collected-Kept progress

  pub started-Kept :
      (created : Option Bytes) (progress : Result Bytes Progress)
      → Kept root before (started root answers id created progress after)
  unfolding started
  started-Kept (some message) progress =
      fails (codes "failed to create diagnostic staging directory: " ++ message)
  started-Kept none progress = staged-Kept answers.secure_staging progress
