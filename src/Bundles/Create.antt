-- ===== src/Bundles/Create.antt =====
-- `CreateBundle`: one call, with what it finds.
use edge_scpoe.Base.{
  ℕ, ◌+◌, ◌%◌, ◌^◌, Bool, List, [], ◌∷◌, ◌++◌, Option, none, some, if◌then◌else◌, length,
}
use mathlib.Core.Option
use edge_scpoe.Base.Results.{Result, ok, err}
use edge_scpoe.Text.{Bytes, codes}
use edge_scpoe.Text.Decimal.{to_string}
use edge_scpoe.Metrics.{SystemMetrics}
use edge_scpoe.Bundles.{
  DiagnosticBundleInfo, StoredBundle, DiagnosticCollector, remove_archive, remove_staging,
  write_archive, find_archive, remove_old_bundles,
}
use edge_scpoe.Bundles.Report.{File, Progress, FloatText, Findings, collect}

-- How tar ended: it could not be forked, it failed, or it made the archive.
pub data TarEnd : Type 0 where
  not_forked : TarEnd
  failed : TarEnd
  succeeded : TarEnd

-- The text of the error, if there is one.
unfoldable pub create_tar_gzip : TarEnd → Option Bytes
create_tar_gzip not_forked = some (codes "failed to fork tar process")
create_tar_gzip failed = some (codes "tar failed to create diagnostic archive")
create_tar_gzip succeeded = none

-- How tar ended, and the archive that it left, if any.
pub record Tarred : Type 0 where
  pub tar_end : TarEnd
  pub output : Option Bytes

-- What the calls of the system answer. A text is the message of an error.
pub record Answers (D : Type 0) : Type 0 where
  pub create_directories : Option Bytes
  pub secure_root : Option Bytes
  pub create_staging : Option Bytes
  pub secure_staging : Option Bytes
  pub timestamp : ℕ
  pub pid : ℕ
  pub findings : Findings D
  pub tar : List File → Tarred
  pub has_size : Bool
  pub removable : Bytes → Bool

-- `PrepareRoot`.
unfoldable pub prepare_root : Option Bytes → Option Bytes → Result Bytes (Unit {0})
prepare_root (some message) secured =
    err (codes "failed to create diagnostic directory: " ++ message)
prepare_root none (some message) = err (codes "failed to secure diagnostic directory: " ++ message)
prepare_root none none = ok tt

abbrev pub bundle_id : ℕ → ℕ → ℕ → Bytes
bundle_id timestamp pid sequence =
    to_string timestamp ++ b'-' ∷ to_string pid ++ b'-' ∷ to_string sequence

abbrev pub archive_name : Bytes → Bytes
archive_name id = codes "edgescope-diagnostic-" ++ id ++ codes ".tar.gz"

abbrev pub archive_path : Bytes → Bytes → Bytes
archive_path root id = root ++ b'/' ∷ archive_name id

abbrev pub staging_path : Bytes → Bytes → Bytes
staging_path root id = root ++ b'/' ∷ codes "staging-" ++ id

module _ {D : Type 0} (root : Bytes) (answers : Answers D) where
  -- A failure ends the call and removes the archive.
  unfoldable pub dropped :
      Bytes → Bytes → DiagnosticCollector → Result Bytes DiagnosticBundleInfo × DiagnosticCollector
  unfolding remove_archive
  dropped message id s = (
    err message,
    record s { disk = remove_archive answers.removable (archive_path root id) s.disk },
  )

  unfoldable pub archive_size : Bytes → DiagnosticCollector → Option ℕ
  unfolding find_archive
  archive_size id s =
      if answers.has_size
      then Option.map length (find_archive (archive_path root id) s.disk.archives)
      else none

  -- `push_back`, and `RemoveOldBundles`.
  unfoldable pub stored :
      Bytes
      → Option ℕ
      → DiagnosticCollector
      → Result Bytes DiagnosticBundleInfo × DiagnosticCollector
  unfolding dropped remove_old_bundles
  stored id none s = dropped (codes "failed to determine diagnostic archive size") id s
  stored id (some size) s =
      let info : DiagnosticBundleInfo = record {
        id = id;
        filename = archive_name id;
        size_bytes = size;
        created_at_unix_seconds = answers.timestamp;
      } in
      let bundle : StoredBundle = record { info = info; path = archive_path root id } in
      let pushed = s.bundles ++ bundle ∷ [] in
      let left = remove_old_bundles answers.removable pushed s.disk in
      (ok info, record s { bundles = left.0; disk = left.1 })

  unfoldable pub without_staging : Bytes → DiagnosticCollector → DiagnosticCollector
  unfolding remove_staging
  without_staging id s = record s {
    disk = remove_staging answers.removable (staging_path root id) s.disk;
  }

  unfoldable pub kept_or_dropped :
      Bytes
      → Option Bytes
      → DiagnosticCollector
      → Result Bytes DiagnosticBundleInfo × DiagnosticCollector
  unfolding archive_size dropped stored
  kept_or_dropped id (some message) s = dropped message id s
  kept_or_dropped id none s = stored id (archive_size id s) s

  unfoldable pub packed :
      Bytes → Tarred → DiagnosticCollector → Result Bytes DiagnosticBundleInfo × DiagnosticCollector
  unfolding create_tar_gzip write_archive without_staging kept_or_dropped
  packed id tarred s =
      let written = record s { disk = write_archive (archive_path root id) tarred.output s.disk } in
      kept_or_dropped id (create_tar_gzip tarred.tar_end) (without_staging id written)

  unfoldable pub collected :
      Bytes
      → Result Bytes Progress
      → DiagnosticCollector
      → Result Bytes DiagnosticBundleInfo × DiagnosticCollector
  unfolding dropped without_staging packed
  collected id (err message) s = dropped message id (without_staging id s)
  collected id (ok progress) s = packed id (answers.tar progress.files) s

  -- The directory is made, so that it is there from here on.
  unfoldable pub staged :
      Bytes
      → Option Bytes
      → Result Bytes Progress
      → DiagnosticCollector
      → Result Bytes DiagnosticBundleInfo × DiagnosticCollector
  unfolding without_staging collected
  staged id (some message) progress s = (
    err (codes "failed to secure diagnostic staging directory: " ++ message),
    without_staging id s,
  )
  staged id none progress s = collected id progress s

  unfoldable pub started :
      Bytes
      → Option Bytes
      → Result Bytes Progress
      → DiagnosticCollector
      → Result Bytes DiagnosticBundleInfo × DiagnosticCollector
  unfolding staged
  started id (some message) progress s =
      (err (codes "failed to create diagnostic staging directory: " ++ message), s)
  started id none progress s =
      staged id answers.secure_staging progress
        (record s { disk = record (s.disk) { stagings = staging_path root id ∷ s.disk.stagings } })

  unfoldable pub numbered :
      ℕ
      → Result Bytes Progress
      → DiagnosticCollector
      → Result Bytes DiagnosticBundleInfo × DiagnosticCollector
  unfolding started
  numbered sequence progress s =
      started (bundle_id answers.timestamp answers.pid sequence) answers.create_staging progress
        (record s { sequence = sequence })

  unfoldable pub prepared :
      Result Bytes (Unit {0})
      → Result Bytes Progress
      → DiagnosticCollector
      → Result Bytes DiagnosticBundleInfo × DiagnosticCollector
  unfolding numbered
  prepared (err message) progress s = (err message, s)
  prepared (ok done) progress s = numbered ((s.sequence + 1) % 2 ^ 64) progress s

  -- `CreateBundle`.
  unfoldable pub create_bundle :
      FloatText D
      → SystemMetrics D
      → DiagnosticCollector
      → Result Bytes DiagnosticBundleInfo × DiagnosticCollector
  unfolding prepare_root prepared collect
  create_bundle show metrics s =
      prepared (prepare_root answers.create_directories answers.secure_root)
        (collect show answers.findings metrics) s
