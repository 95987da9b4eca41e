-- ===== src/Logs/Tests.antt =====
-- Tests of the log reader, and its theorems at a concrete file.
use edge_scpoe.Base.{◌≤◌, ◌<◌, ◌≡◌, refl, true, false, List, [], ◌∷◌, some, arith}
use edge_scpoe.Base.System.{Opened, opened, refused, enoent}
use edge_scpoe.Text.{Bytes, codes, equal, contains, pieces, pop_back_if}
use edge_scpoe.Utf8.{sanitize_utf8}
use edge_scpoe.Logs.{
  AllowedLog, LogReadResult, allowed_logs, find_allowed_log, read_log, read_open, scan, scan_fuel,
  read_block_size, max_scan_bytes, select, ok, err, not_found, open_error,
}
use edge_scpoe.Logs.Scan.{steady}
use edge_scpoe.Logs.Fuel.{scan-ends}
use edge_scpoe.Logs.Tail.{Answers, read_log-Answers}
use edge_scpoe.Logs.Reads.{IsBounded, read_log-IsBounded}

abbrev text : Bytes
text = codes "boot ok\r\nerror: disk\nidle\nerror: net\r\nlast"

abbrev logs : List AllowedLog
logs = allowed_logs (codes "/tmp/edgescope-agent.log")

abbrev files : Bytes → Opened
files path = opened (steady text)

abbrev answer : LogReadResult
answer = record { lines = codes "error: net" ∷ codes "last" ∷ []; truncated = true }

read_log-text : read_log files logs (codes "system") 2 [] ≡ ok answer
unfolding read_log find_allowed_log read_open scan select equal pieces pop_back_if contains
    sanitize_utf8
read_log-text = refl

read_log-keyword :
    read_log files logs (codes "system") 9 (codes "error")
    ≡ ok (record { lines = codes "error: disk" ∷ codes "error: net" ∷ []; truncated = false })
unfolding read_log find_allowed_log read_open scan select equal pieces pop_back_if contains
    sanitize_utf8
read_log-keyword = refl

read_log-missing :
    read_log (λ path. refused enoent) logs (codes "apt-history") 5 []
    ≡ err not_found (codes "log file is not available")
unfolding read_log find_allowed_log open_error equal
read_log-missing = refl

found :
    find_allowed_log (codes "packages") logs
    ≡ some (record {
      id = codes "packages";
      display_name = codes "Package manager log";
      path = codes "/var/log/dpkg.log";
    })
unfolding find_allowed_log equal
found = refl

read_log-Answers_example :
    (r : LogReadResult) × (read_log files logs (codes "packages") 2 [] ≡ ok r) × Answers 2 [] text r
read_log-Answers_example =
    read_log-Answers files logs (codes "packages") _ 2 [] text found refl (omega arith)
      (omega arith) (omega arith) (omega arith)

read_log-IsBounded_example : IsBounded 2 answer × ((0 < 2) × (2 ≤ 1000))
read_log-IsBounded_example =
    read_log-IsBounded files logs (codes "system") 2 [] answer read_log-text

scan-ends_example :
    scan read_block_size max_scan_bytes (steady text) true 2 500 39 0 0 []
    ≡ scan read_block_size max_scan_bytes (steady text) true 2 scan_fuel 39 0 0 []
scan-ends_example = scan-ends (steady text) true 2 39 500 (omega arith)
