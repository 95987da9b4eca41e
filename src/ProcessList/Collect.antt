-- ===== src/ProcessList/Collect.antt =====
-- `GetProcess` and `ListProcesses`, over the files of /proc.
use mathlib.Core.List.{map}
use edge_scpoe.Base.{
  ℕ, Bool, not, ◌&&◌, ◌||◌, List, [], ◌∷◌, ◌++◌, Option, none, some, leb, ◌==◌, if◌then◌else◌,
  length, null, all,
}
use edge_scpoe.Base.Int.{ℤ, pos, negsuc}
use edge_scpoe.Base.System.{Errno}
use edge_scpoe.Base.Floats.{Floats}
use edge_scpoe.Base.Results.{Result, ok, err}
use edge_scpoe.Base.Results
use edge_scpoe.Text.{Bytes, codes, is_digit, pop_back_while}
use edge_scpoe.Text.Numbers.{max_i32, stoll}
use edge_scpoe.Text.Decimal.{to_string}
use edge_scpoe.ProcessList.{
  ProcessInfo, empty_process, ProcessCollectorError, invalid_argument, parse_error, FileRead,
  read_file, error_from_errno,
}
use edge_scpoe.ProcessList.Stat.{parse_stat_line, within}
use edge_scpoe.ProcessList.Status.{parse_status, parse_io}

unfoldable pub is_numeric : Bytes → Bool
unfolding is_digit
is_numeric value = not (null value) && all is_digit value

-- `std::replace` of '\0' by ' '.
unfoldable pub blanked : Bytes → Bytes
blanked s = map (λ c. if c == 0 then b' ' else c) s

unfoldable pub bracketed : Bytes → Bytes
bracketed name = b'[' ∷ name ++ b']' ∷ []

unfoldable pub command_line_of : Result Errno Bytes → Bytes → Bytes
unfolding blanked bracketed
command_line_of (err e) name = bracketed name
command_line_of (ok text) name =
    let line = pop_back_while b' ' (blanked text) in
    if null text || null line then bracketed name else line

-- The system: what the files of /proc hold, the number in /proc/uptime if it is read, and the clock
-- ticks of a second.
pub record System {ℓ} (D : Type ℓ) : Type ℓ where
  pub files : Bytes → FileRead
  pub uptime : Option D
  pub ticks_per_second : ℤ

pub data Error : Type 0 where
  error : ProcessCollectorError → Bytes → Error

module _ {ℓ} {D : Type ℓ} (floats : Floats D) where
  -- `CalculateCpuUsage`.
  unfoldable pub cpu_over : D → ℕ → ℕ → ℕ → D
  cpu_over uptime_seconds ticks process_ticks start_ticks =
      let process_seconds = floats.over (floats.of_nat process_ticks) (floats.of_nat ticks) in
      let start_seconds = floats.over (floats.of_nat start_ticks) (floats.of_nat ticks) in
      let elapsed_seconds = floats.minus uptime_seconds start_seconds in
      if floats.at_most elapsed_seconds (floats.of_nat 0)
      then floats.of_nat 0
      else floats.times (floats.over process_seconds elapsed_seconds) (floats.of_nat 100)

  unfoldable pub cpu_usage : Option D → ℤ → ℕ → ℕ → D
  unfolding cpu_over
  cpu_usage (some uptime) (pos ticks) process_ticks start_ticks =
      if not (floats.is_finite uptime) || floats.at_most uptime (floats.of_nat 0) || ticks == 0
      then floats.of_nat 0
      else cpu_over uptime ticks process_ticks start_ticks
  cpu_usage _ _ process_ticks start_ticks = floats.of_nat 0

  module _ (system : System D) where
    abbrev file_of : ℕ → Bytes → Result Errno Bytes
    file_of pid name = read_file (system.files (codes "/proc/" ++ to_string pid ++ b'/' ∷ name))

    unfoldable pub contents_of : Result Errno Bytes → Bytes → Result Error Bytes
    unfolding error_from_errno
    contents_of (ok text) message = ok text
    contents_of (err e) message = err (error (error_from_errno e) message)

    unfoldable pub parsed : {A : Type ℓ} → Result Bytes A → Result Error A
    parsed (ok a) = ok a
    parsed (err message) = err (error parse_error message)

    -- The accounting of input and output may be missing.
    unfoldable pub with_io : Result Errno Bytes → ProcessInfo D → ProcessInfo D
    unfolding parse_io
    with_io (err e) process = process
    with_io (ok text) process = parse_io (length text) text process

    unfoldable pub finished : ℕ → ℕ → ProcessInfo D → ProcessInfo D
    unfolding with_io cpu_usage command_line_of
    finished pid ticks process =
        let named = record process {
          command_line = command_line_of (file_of pid (codes "cmdline")) process.name;
        } in
        let counted = with_io (file_of pid (codes "io")) named in
        record counted {
          cpu_usage_percent =
              cpu_usage system.uptime system.ticks_per_second ticks counted.start_time_ticks;
        }

    unfoldable pub with_status : ℕ → ℕ → ProcessInfo D → Bytes → Result Error (ProcessInfo D)
    with_status pid ticks process status =
        Results.◌>>=◌ (parsed (parse_status status process))
          λ process'. ok (finished pid ticks process')

    unfoldable pub with_stat : ℕ → ProcessInfo D × ℕ → Result Error (ProcessInfo D)
    with_stat pid (process, ticks) =
        Results.◌>>=◌
          (contents_of (file_of pid (codes "status"))
            (codes "failed to read process status for pid " ++ to_string pid))
          (with_status pid ticks process)

    unfoldable pub get_positive : ℕ → Result Error (ProcessInfo D)
    get_positive pid =
        Results.◌>>=◌
          (contents_of (file_of pid (codes "stat"))
            (codes "failed to read process stat for pid " ++ to_string pid))
          λ stat.
            Results.◌>>=◌ (parsed (parse_stat_line stat (empty_process (floats.of_nat 0))))
              (with_stat pid)

    -- `GetProcess`.
    unfoldable pub get_process : ℤ → Result Error (ProcessInfo D)
    unfolding get_positive
    get_process (negsuc n) = err (error invalid_argument (codes "pid must be positive"))
    get_process (pos pid) =
        if pid == 0
        then err (error invalid_argument (codes "pid must be positive"))
        else get_positive pid

    -- `push_back` if the call succeeded.
    unfoldable pub kept : Result Error (ProcessInfo D) → List (ProcessInfo D)
    kept (ok process) = process ∷ []
    kept (err e) = []

    unfoldable pub listed_pid : Option ℕ → List (ProcessInfo D)
    unfolding kept
    listed_pid none = []
    listed_pid (some pid) = kept (get_process (pos pid))

    -- A name in /proc; an exception of `std::stoll` is `none`.
    unfoldable pub pid_named : Option (ℤ × ℕ) → Option ℕ
    pid_named none = none
    pid_named (some (z, _)) = within 1 max_i32 z

    unfoldable pub listed_entry : Bytes → List (ProcessInfo D)
    unfolding is_numeric pid_named listed_pid
    listed_entry filename =
        if is_numeric filename then listed_pid (pid_named (stoll filename)) else []

    unfoldable pub listed_entries : List Bytes → List (ProcessInfo D)
    unfolding listed_entry
    listed_entries [] = []
    listed_entries (filename ∷ rest) = listed_entry filename ++ listed_entries rest

-- `std::sort` by pid.
unfoldable pub insert_process {ℓ} :
    {D : Type ℓ} → ProcessInfo D → List (ProcessInfo D) → List (ProcessInfo D)
insert_process p [] = p ∷ []
insert_process p (q ∷ qs) = if leb p.pid q.pid then p ∷ q ∷ qs else q ∷ insert_process p qs

unfoldable pub sort_processes {ℓ} : {D : Type ℓ} → List (ProcessInfo D) → List (ProcessInfo D)
unfolding insert_process
sort_processes [] = []
sort_processes (p ∷ ps) = insert_process p (sort_processes ps)

-- `ListProcesses`, over the names in /proc, or the text of the error if it cannot be read.
unfoldable pub list_processes {ℓ} :
    {D : Type ℓ}
    → Floats D
    → System D
    → Result Bytes (List Bytes)
    → Result Bytes (List (ProcessInfo D))
unfolding listed_entries sort_processes
list_processes floats system (err message) = err (codes "failed to scan /proc: " ++ message)
list_processes floats system (ok entries) =
    ok (sort_processes (listed_entries floats system entries))
