-- ===== src/Bundles/Example.antt =====
-- Data of the tests of bundles: a call in which nothing can be listed, and tar succeeds.
use edge_scpoe.Base.{ℕ, true, false, [], ◌∷◌, none, some}
use edge_scpoe.Base.System.{refused, enoent}
use edge_scpoe.Base.Results.{ok, err}
use edge_scpoe.Text.{Bytes, codes}
use edge_scpoe.Text.Decimal.{to_string}
use edge_scpoe.Bundles.Report.{FloatText, Findings}
use edge_scpoe.Bundles.Create.{Answers, succeeded}

abbrev pub show : FloatText ℕ
show = record { plain = to_string; fixed = to_string }

-- Nothing can be listed, and the failures are told in the bundle.
abbrev pub findings : Findings ℕ
findings = record {
  hostname = none;
  release = codes "6.1";
  processes = err (codes "no /proc");
  interfaces = ok [];
  connections = ok [];
  logs = [];
  is_regular_file = λ p. false;
  file_system = λ p. refused enoent;
  writes = λ p. true;
  logs_directory_made = true;
}

abbrev pub answers : Answers ℕ
answers = record {
  create_directories = none;
  secure_root = none;
  create_staging = none;
  secure_staging = none;
  timestamp = 7;
  pid = 3;
  findings = findings;
  tar = λ files. record { tar_end = succeeded; output = some (1 ∷ 2 ∷ 3 ∷ []) };
  has_size = true;
  removable = λ p. true;
}

abbrev pub root : Bytes
root = codes "d"
