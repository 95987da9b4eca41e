-- ===== src/ProcessList/Tests.antt =====
-- Tests of the process collector, with whole numbers for the floating-point values.
use edge_scpoe.Base.{
  ℕ, ◌-◌, ◌*◌, ◌/◌, ◌≡◌, refl, true, List, [], ◌∷◌, some, leb, ltb, if◌then◌else◌,
}
use edge_scpoe.Base.Int.{pos}
use edge_scpoe.Base.System.{enoent}
use edge_scpoe.Base.Floats.{Floats}
use edge_scpoe.Base.Results.{Result, ok, err, Ensures}
use edge_scpoe.Text.{
  Bytes, codes, equal, find_char, rfind_char, starts_with, pieces, pop_back_while,
}
use edge_scpoe.Text.Numbers.{read_u64, read_i64, read_word, read_char}
use edge_scpoe.Text.Decimal.{to_string}
use edge_scpoe.ProcessList.{ProcessInfo, FileRead, refused, contents, read_file, error_from_errno}
use edge_scpoe.ProcessList.Stat.{parse_stat_line}
use edge_scpoe.ProcessList.Status.{parse_status, parse_io}
use edge_scpoe.ProcessList.Collect
use edge_scpoe.ProcessList.Collect.{
  System, get_process, contents_of, parsed, finished, with_status, with_stat, get_positive,
}
use edge_scpoe.ProcessList.Bounds.{IsValid, get_process-IsValid}

abbrev whole : Floats ℕ
whole = record {
  of_nat = λ n. n;
  minus = λ a b. a - b;
  times = λ a b. a * b;
  over = λ a b. a / b;
  at_most = leb;
  below = ltb;
  is_finite = λ n. true;
  to_u64 = λ n. n;
}

abbrev stat_line : Bytes
stat_line = codes "42 (a) b) S 1 42 42 0 -1 0 0 0 0 0 700 300 0 0 20 0 3 0 5000 0 0\n"

abbrev file : Bytes → FileRead
file path =
    if equal path (codes "/proc/42/stat")
    then contents stat_line
    else if equal path (codes "/proc/42/status")
    then contents (codes "Name:\ta\nVmSize:\t  2048 kB\nVmRSS:\t 1024 kB\nThreads:\t4\n")
    else if equal path (codes "/proc/42/io")
    then contents (codes "rchar: 1\nread_bytes: 512\nwrite_bytes: 256\n")
    else refused enoent

abbrev system : System ℕ
system = record { files = file; uptime = some 100; ticks_per_second = pos 100 }

abbrev expected : ProcessInfo ℕ
expected = record {
  pid = 42;
  ppid = 1;
  name = codes "a) b";
  state = codes "S";
  command_line = codes "[a) b]";
  cpu_usage_percent = 0;
  resident_memory_bytes = 1048576;
  virtual_memory_bytes = 2097152;
  thread_count = 4;
  read_bytes = 512;
  write_bytes = 256;
  start_time_ticks = 5000;
}

get_process-42 : get_process whole system (pos 42) ≡ ok expected
unfolding get_process contents_of read_file equal to_string parsed parse_stat_line find_char
    rfind_char read_i64 read_char read_u64 with_stat with_status parse_status pieces starts_with
    read_word finished get_positive parse_io error_from_errno pop_back_while
get_process-42 = refl

missing :
    get_process whole system (pos 7)
    ≡ err (
        Collect.error edge_scpoe.ProcessList.not_found
          (codes "failed to read process stat for pid 7"))
unfolding get_process contents_of read_file equal to_string
missing = refl

get_process-IsValid_example : Ensures IsValid (get_process whole system (pos 42))
get_process-IsValid_example = get_process-IsValid whole system (pos 42)

abbrev entries : Result Bytes (List Bytes)
entries = ok (codes "42" ∷ codes "self" ∷ codes "7" ∷ [])
