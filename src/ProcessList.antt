-- ===== src/ProcessList.antt =====
-- agent/include/ProcessCollector.h and agent/src/ProcessCollector.cpp: processes as /proc shows them.
-- A file is a function from paths; the names in /proc are a list. Floating-point values are of a type
-- `D` with operations that are parameters.
pub mod Stat
pub mod Status
pub mod Collect
pub mod Readers
pub mod Bounds
pub mod Sorted
mod Tests
use edge_scpoe.Base.{ℕ, Bool, List, [], ◌∷◌, ◌++◌, ◌-◌}
use edge_scpoe.Base.Int.{ℤ}
use edge_scpoe.Base.System.{Errno, enoent, esrch, eacces, eperm, eio}
use edge_scpoe.Base.Results.{Result, ok, err}
use edge_scpoe.Text.{Bytes, codes}

pub record ProcessInfo {ℓ} (D : Type ℓ) : Type ℓ where
  pub pid : ℕ
  pub ppid : ℕ
  pub name : Bytes
  pub state : Bytes
  pub command_line : Bytes
  pub cpu_usage_percent : D
  pub resident_memory_bytes : ℕ
  pub virtual_memory_bytes : ℕ
  pub thread_count : ℕ
  pub read_bytes : ℕ
  pub write_bytes : ℕ
  pub start_time_ticks : ℕ

-- `ProcessInfo{}`.
abbrev pub empty_process {ℓ} : {D : Type ℓ} → D → ProcessInfo D
empty_process zero_percent = record {
  pid = 0;
  ppid = 0;
  name = [];
  state = [];
  command_line = [];
  cpu_usage_percent = zero_percent;
  resident_memory_bytes = 0;
  virtual_memory_bytes = 0;
  thread_count = 0;
  read_bytes = 0;
  write_bytes = 0;
  start_time_ticks = 0;
}

-- `kNone` stands for success and is no error here.
pub data ProcessCollectorError : Type 0 where
  invalid_argument not_found permission_denied parse_error io_error : ProcessCollectorError

-- What reading a file of /proc gives: opening it is refused, the stream goes bad, or its contents.
pub data FileRead : Type 0 where
  refused : Errno → FileRead
  broken : FileRead
  contents : Bytes → FileRead

unfoldable pub read_file : FileRead → Result Errno Bytes
read_file (refused e) = err e
read_file broken = err eio
read_file (contents text) = ok text

unfoldable pub error_from_errno : Errno → ProcessCollectorError
error_from_errno enoent = not_found
error_from_errno esrch = not_found
error_from_errno eacces = permission_denied
error_from_errno eperm = permission_denied
error_from_errno _ = io_error
