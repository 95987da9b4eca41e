-- ===== src/Bundles/Calls.antt =====
-- Every call of `CreateBundle` keeps the store, and the destructor removes the archives.
use edge_scpoe.Base.{
  ℕ, suc, ◌+◌, ◌%◌, ◌^◌, ◌≤◌, ◌<◌, ◌≡◌, refl, sym, ap, subst, Bool, true, List, [], ◌∷◌, length,
  arith,
}
use edge_scpoe.Base.Results.{Result, ok, err}
use edge_scpoe.Text.{Bytes}
use edge_scpoe.Text.Numbers.{max_u64}
use edge_scpoe.Metrics.{SystemMetrics}
use edge_scpoe.Bundles.{
  StoredBundle, Disk, DiagnosticCollector, without_archive, remove_archive, maximum_bundles,
}
use edge_scpoe.Bundles.Report.{FloatText, collect}
use edge_scpoe.Bundles.Create.{Answers, prepare_root, bundle_id, numbered, prepared, create_bundle}
use edge_scpoe.Bundles.Names.{number_of-id, number_of-path}
use edge_scpoe.Bundles.Backed.{Backed}
use edge_scpoe.Bundles.Stored.{IsStored, Kept, state, started-Kept}
use edge_scpoe.Bundles.{remove_all_bundles}
use edge_scpoe.Bundles.Backed.{without-front}

module _ {D : Type 0} (root : Bytes) (answers : Answers D) where
  created-Kept :
      (removes : (p : Bytes) → answers.removable p ≡ true) (show : FloatText D)
      (metrics : SystemMetrics D) (bs : List StoredBundle) (q : ℕ) (fs : List (Bytes × Bytes))
      → length bs ≤ maximum_bundles
      → (low : ℕ) → Backed q low bs fs
      → q < max_u64
      → Kept root (state bs q [] fs) (create_bundle root answers show metrics (state bs q [] fs))
  unfolding create_bundle prepared numbered
  created-Kept removes show metrics bs q fs few low backed small =
      by_root (prepare_root answers.create_directories answers.secure_root)
    where
      next : (q + 1) % 2 ^ 64 ≡ suc q
      next = omega arith

      by_root :
          (done : Result Bytes (Unit {0}))
          → Kept root (state bs q [] fs) (
              prepared root answers done (collect show answers.findings metrics) (state bs q [] fs))
      by_root (err message) = (
        record { unstaged = refl; bounded = few; backed = (low, backed) },
        omega arith,
        (refl, refl),
      )
      by_root (ok tt) =
          subst
            (λ n.
              Kept root (state bs q [] fs) (
                numbered root answers n (collect show answers.findings metrics) (state bs q [] fs)))
            (sym next)
            (started-Kept root answers removes (bundle_id answers.timestamp answers.pid (suc q))
              (suc q) (number_of-id answers.timestamp answers.pid (suc q))
              (number_of-path root answers.timestamp answers.pid (suc q)) bs q fs few low backed
              (omega arith) (omega arith) answers.create_staging
              (collect show answers.findings metrics))

  -- If paths can be removed, every call of `CreateBundle`, but for one after 2 ^ 64 - 1 calls, keeps
  -- this: no staging directory is left, at most five bundles are stored, and the archives on the disk
  -- are those of the bundles, each of the size that is stored with it. The sequence number rises by at
  -- most one. A call that fails leaves the
  -- bundles and the archives as they were; after one that succeeds, `GetBundlePath` gives the path and
  -- the size for the id that was returned.
  pub create_bundle-Kept :
      (removes : (p : Bytes) → answers.removable p ≡ true) (show : FloatText D)
      (metrics : SystemMetrics D) (s : DiagnosticCollector)
      → IsStored s
      → s.sequence < max_u64
      → Kept root s (create_bundle root answers show metrics s)
  create_bundle-Kept removes show metrics s h small =
      let same : state s.bundles s.sequence [] s.disk.archives ≡ s =
        ap (λ l. state s.bundles s.sequence l s.disk.archives) (sym h.unstaged) in
      subst (λ t. Kept root t (create_bundle root answers show metrics t)) same
        (created-Kept removes show metrics s.bundles s.sequence s.disk.archives h.bounded h.backed.0
          h.backed.1 small)

no_archives : {high low : ℕ} {fs : List (Bytes × Bytes)} → Backed high low [] fs → fs ≡ []
no_archives (Backed.nothing l) = refl

emptied :
    (removable : Bytes → Bool) (removes : (p : Bytes) → removable p ≡ true) (bs : List StoredBundle)
    (disk : Disk) {high low : ℕ}
    → Backed high low bs disk.archives
    → (remove_all_bundles removable bs disk).archives ≡ []
unfolding remove_all_bundles remove_archive
emptied removable removes [] disk h = no_archives h
emptied removable removes (b ∷ bs) disk h =
    let (n, rest) = without-front h in
    let disk' : Disk = record disk { archives = without_archive b.path disk.archives } in
    let gone : remove_archive removable b.path disk ≡ disk' = rw (removes b.path) refl in
    subst (λ d. (remove_all_bundles removable bs d).archives ≡ []) (sym gone)
      (emptied removable removes bs disk' rest)

-- The destructor leaves no archive on the disk, if paths can be removed.
pub remove_all_bundles-empties :
    (removable : Bytes → Bool)
    → ((p : Bytes) → removable p ≡ true)
    → (s : DiagnosticCollector) → IsStored s
    → (remove_all_bundles removable s.bundles s.disk).archives ≡ []
remove_all_bundles-empties removable removes s h =
    emptied removable removes s.bundles s.disk h.backed.1

-- The calls of `CreateBundle` in a row, each with what it finds, the first of the list first.
unfoldable pub create_bundles :
    {D : Type 0}
    → Bytes
    → FloatText D
    → List (Answers D × SystemMetrics D)
    → DiagnosticCollector
    → DiagnosticCollector
unfolding create_bundle
create_bundles root show [] s = s
create_bundles root show ((answers, metrics) ∷ rest) s =
    create_bundles root show rest ((create_bundle root answers show metrics s).1)

-- Paths can be removed in every call.
abbrev pub Removes : {D : Type 0} → List (Answers D × SystemMetrics D) → Type 0
Removes [] = Unit
Removes ((answers, metrics) ∷ rest) = ((p : Bytes) → answers.removable p ≡ true) × Removes rest

-- After any row of calls, failing ones among them, that does not use up the sequence numbers, no staging
-- directory is left, at most five bundles are stored, and the archives on the disk are those of the
-- bundles, each of the size that is stored with it, if paths can be removed.
pub create_bundles-IsStored :
    {D : Type 0} (root : Bytes) (show : FloatText D) (calls : List (Answers D × SystemMetrics D))
    (s : DiagnosticCollector)
    → Removes calls
    → IsStored s
    → s.sequence + length calls ≤ max_u64
    → IsStored (create_bundles root show calls s)
unfolding create_bundles
create_bundles-IsStored root show [] s removes h room = h
create_bundles-IsStored root show ((answers, metrics) ∷ rest) s removes h room =
    let kept = create_bundle-Kept root answers (removes.0) show metrics s h (omega arith) in
    let s' = (create_bundle root answers show metrics s).1 in
    let rises : s'.sequence ≤ suc s.sequence = kept.1 in
    create_bundles-IsStored root show rest s' (removes.1) (kept.0) (omega arith)
