-- ===== src/Diagnostics/Downloads.antt =====
-- A bundle that is created can be downloaded.
use edge_scpoe.Base.{
  ℕ, ◌<◌, ◌≡◌, refl, sym, subst, ◌∙◌, Bool, true, false, List, [], ◌∷◌, some, null, length, arith,
  if_intro,
}
use edge_scpoe.Base.Results.{Result, ok, err}
use edge_scpoe.Text.{Bytes, equal}
use edge_scpoe.Text.Laws.{equal_iff}
use edge_scpoe.Text.Numbers.{max_u64}
use edge_scpoe.Metrics.{SystemMetrics}
use edge_scpoe.Sampler.{Collected, collected, failed}
use edge_scpoe.Bundles.{
  DiagnosticBundleInfo, StoredBundle, DiagnosticCollector, get_bundle_path, find_archive,
}
use edge_scpoe.Bundles.Report.{FloatText}
use edge_scpoe.Bundles.Create.{Answers, create_bundle, archive_path}
use edge_scpoe.Bundles.Names.{number_of, after_dash}
use edge_scpoe.Bundles.Backed.{Backed, differ}
use edge_scpoe.Bundles.Stored.{IsStored, Kept}
use edge_scpoe.Bundles.Calls.{create_bundle-Kept}
use edge_scpoe.Transfer.Server.{Line}
use edge_scpoe.Transfer.Client.{save, ready}
use edge_scpoe.Transfer.Complete.{IsClear, save-download_clear}
use edge_scpoe.Diagnostics.{
  CreateDiagnosticBundleResponse, created_response, create_diagnostic_bundle, opened_archive,
  located, download_diagnostic_bundle,
}

-- The id has a text, and the archive with the path is there, of the size.
pub record Found (low : ℕ) (id path : Bytes) (size : ℕ) (fs : List (Bytes × Bytes)) : Type 0 where
  pub number : ℕ
  pub above : low < number
  pub path_number : number_of path ≡ some number
  pub has_text : null id ≡ false
  pub contents : Bytes
  pub stored : find_archive path fs ≡ some contents
  pub same_size : length contents ≡ size

has_number : (id : Bytes) (n : ℕ) → number_of id ≡ some n → null id ≡ false
unfolding number_of after_dash
has_number [] n h = cc
has_number (c ∷ s) n h = refl

get_bundle_path-Found :
    {high low : ℕ} {bs : List StoredBundle} {fs : List (Bytes × Bytes)} (id path : Bytes) (size : ℕ)
    → Backed high low bs fs
    → get_bundle_path id bs ≡ ok (path, size)
    → Found low id path size fs
unfolding get_bundle_path find_archive
get_bundle_path-Found id path size (Backed.nothing l) h = cc
get_bundle_path-Found id path size
      (Backed.bundle {low = low} {b = b} {path = q} {contents = c} {bs = bs} {fs = fs} n l k rest)
      h =
    if_intro
      (λ (r : Result Bytes (Bytes × ℕ)). r ≡ ok (path, size) → Found low id path size ((q, c) ∷ fs))
      (equal b.info.id id) _ _
      (λ here e.
        let same_path : b.path ≡ path = cc in
        let same_size : b.info.size_bytes ≡ size = cc in
        let same_id = (equal_iff b.info.id id).0 here in
        record {
          number = n;
          above = l;
          path_number = subst (λ p. number_of p ≡ some n) same_path k.path_number;
          has_text = has_number id n (subst (λ i. number_of i ≡ some n) same_id k.id_number);
          contents = c;
          stored = rw ((equal_iff path q).1 (sym same_path ∙ sym k.same_path)) refl;
          same_size = k.same_size ∙ same_size;
        })
      (λ there e.
        let found = get_bundle_path-Found id path size rest e in
        let behind : n < found.number = found.above in
        let named : number_of q ≡ some n = rw (k.same_path) (k.path_number) in
        let other = differ path q found.number n found.path_number named (λ e'. omega arith) in
        record {
          number = found.number;
          above = omega arith;
          path_number = found.path_number;
          has_text = found.has_text;
          contents = found.contents;
          stored = rw other found.stored;
          same_size = found.same_size;
        })
      h

-- A response is one of a bundle that is stored and found.
abbrev Stores : Bytes → Result Bytes CreateDiagnosticBundleResponse × DiagnosticCollector → Type 0
Stores root (err message, s) = Unit
Stores root (ok response, s) =
    IsStored s
    × (get_bundle_path response.bundle_id s.bundles
        ≡ ok (archive_path root response.bundle_id, response.total_size_bytes))

created-Stores :
    (root : Bytes) (s : DiagnosticCollector) (r : Result Bytes DiagnosticBundleInfo)
    (s' : DiagnosticCollector)
    → Kept root s (r, s')
    → Stores root (created_response r, s')
unfolding created_response
created-Stores root s (err message) s' kept = tt
created-Stores root s (ok info) s' kept = (kept.0, kept.2)

create_diagnostic_bundle-Stores :
    {D : Type 0} (root : Bytes) (answers : Answers D) (show : FloatText D)
    (reading : Collected (SystemMetrics D)) (s : DiagnosticCollector)
    → ((p : Bytes) → answers.removable p ≡ true)
    → IsStored s
    → s.sequence < max_u64
    → Stores root (create_diagnostic_bundle root answers show reading s)
unfolding create_diagnostic_bundle
create_diagnostic_bundle-Stores root answers show (failed message) s removes stored small = tt
create_diagnostic_bundle-Stores root answers show (collected metrics) s removes stored small =
    let created = create_bundle root answers show metrics s in
    created-Stores root s (created.0) (created.1)
      (create_bundle-Kept root answers removes show metrics s stored small)

module _ (line : Line) (readable : Bytes → Bool) (disk_writes : ℕ → Bool)
    (closed : Bytes → Bytes) where
  -- The client ends with a local file that is the archive of the bundle in the agent's directory.
  abbrev pub Downloads :
      Bytes → Result Bytes CreateDiagnosticBundleResponse × DiagnosticCollector → Type 0
  Downloads root (err message, s) = Unit
  Downloads root (ok response, s) =
      (archive : Bytes) × (find_archive (archive_path root response.bundle_id) s.disk.archives
        ≡ some archive)
      × (save response.total_size_bytes disk_writes closed
            ((download_diagnostic_bundle line readable response.bundle_id s).0)
            ((download_diagnostic_bundle line readable response.bundle_id s).1)
          ≡ ready response.total_size_bytes archive)

  Downloads-Stores :
      (root : Bytes) (r : Result Bytes CreateDiagnosticBundleResponse) (s : DiagnosticCollector)
      → IsClear line
      → ((p : Bytes) → readable p ≡ true)
      → ((n : ℕ) → disk_writes n ≡ true)
      → ((t : Bytes) → closed t ≡ t)
      → Stores root (r, s)
      → Downloads root (r, s)
  unfolding download_diagnostic_bundle located opened_archive
  Downloads-Stores root (err message) s clear opens disk flushed stores = tt
  Downloads-Stores root (ok response) s clear opens disk flushed stores =
      let path = archive_path root response.bundle_id in
      let found =
        get_bundle_path-Found response.bundle_id path response.total_size_bytes (stores.0.backed.1)
          (stores.1) in
      let whole =
        (save-download_clear line disk_writes closed found.contents clear disk flushed).1 in
      (
        found.contents,
        found.stored,
        rw (found.has_text, stores.1, opens path, found.stored, ← found.same_size) whole,
      )

  -- A bundle that `CreateDiagnosticBundle` creates can be downloaded: over a line and a local disk that
  -- take every write, that of the close too, the client that asks for the id and the size of the
  -- response is left with the archive, whole, if the agent can open and remove its archives and has not
  -- made 2 ^ 64 - 1 bundles.
  pub create_diagnostic_bundle-Downloads :
      {D : Type 0} (root : Bytes) (answers : Answers D) (show : FloatText D)
      (reading : Collected (SystemMetrics D)) (s : DiagnosticCollector)
      → IsClear line
      → ((p : Bytes) → readable p ≡ true)
      → ((n : ℕ) → disk_writes n ≡ true)
      → ((t : Bytes) → closed t ≡ t)
      → ((p : Bytes) → answers.removable p ≡ true)
      → IsStored s
      → s.sequence < max_u64
      → Downloads root (create_diagnostic_bundle root answers show reading s)
  create_diagnostic_bundle-Downloads root answers show reading s clear opens disk flushed removes
        stored small =
      let r = create_diagnostic_bundle root answers show reading s in
      Downloads-Stores root (r.0) (r.1) clear opens disk flushed
        (create_diagnostic_bundle-Stores root answers show reading s removes stored small)
