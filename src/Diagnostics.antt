-- ===== src/Diagnostics.antt =====
-- The handlers `CreateDiagnosticBundle` and `DownloadDiagnosticBundle` of
-- agent/src/EdgeScopeServiceImpl.cpp over the store of bundles, and the client's download.
pub mod Downloads
mod Tests
use edge_scpoe.Base.{ℕ, Bool, List, [], Option, none, some, if◌then◌else◌, null}
use edge_scpoe.Base.Results.{Result, ok, err}
use edge_scpoe.Text.{Bytes}
use edge_scpoe.Metrics.{SystemMetrics}
use edge_scpoe.Sampler.{Collected, collected, failed}
use edge_scpoe.Bundles.{DiagnosticBundleInfo, DiagnosticCollector, get_bundle_path, find_archive}
use edge_scpoe.Bundles.Report.{FloatText}
use edge_scpoe.Bundles.Create.{Answers, create_bundle}
use edge_scpoe.Transfer.{DiagnosticChunk}
use edge_scpoe.Transfer.Server.{Line, Status, invalid_argument, not_found, download}

pub record CreateDiagnosticBundleResponse : Type 0 where
  pub bundle_id : Bytes
  pub filename : Bytes
  pub total_size_bytes : ℕ
  pub created_at_unix_seconds : ℕ

unfoldable pub created_response :
    Result Bytes DiagnosticBundleInfo → Result Bytes CreateDiagnosticBundleResponse
created_response (err message) = err message
created_response (ok bundle) = ok (record {
  bundle_id = bundle.id;
  filename = bundle.filename;
  total_size_bytes = bundle.size_bytes;
  created_at_unix_seconds = bundle.created_at_unix_seconds;
})

-- `CreateDiagnosticBundle`, over what `GetLatest` gives. An error is a status INTERNAL with the text.
unfoldable pub create_diagnostic_bundle :
    {D : Type 0}
    → Bytes
    → Answers D
    → FloatText D
    → Collected (SystemMetrics D)
    → DiagnosticCollector
    → Result Bytes CreateDiagnosticBundleResponse × DiagnosticCollector
unfolding created_response create_bundle
create_diagnostic_bundle root answers show (failed message) s = (err message, s)
create_diagnostic_bundle root answers show (collected metrics) s =
    let created = create_bundle root answers show metrics s in
    (created_response (created.0), created.1)

-- The archive as a stream finds it; `readable` tells the paths that can be opened.
unfoldable pub opened_archive : (Bytes → Bool) → Bytes → DiagnosticCollector → Option Bytes
unfolding find_archive
opened_archive readable path s = if readable path then find_archive path s.disk.archives else none

unfoldable pub located :
    Line
    → (Bytes → Bool)
    → DiagnosticCollector
    → Result Bytes (Bytes × ℕ)
    → List DiagnosticChunk × Status
unfolding opened_archive
located line readable s (err message) = ([], not_found)
located line readable s (ok (path, total_size)) =
    download total_size line (opened_archive readable path s)

-- `DownloadDiagnosticBundle`: the chunks that it writes, and the status.
unfoldable pub download_diagnostic_bundle :
    Line → (Bytes → Bool) → Bytes → DiagnosticCollector → List DiagnosticChunk × Status
unfolding located get_bundle_path
download_diagnostic_bundle line readable id s =
    if null id
    then ([], invalid_argument)
    else located line readable s (get_bundle_path id s.bundles)
