-- ===== src/ProcessList/Bounds.antt =====
-- The numbers of every process that is returned are in range.
use edge_scpoe.Base.{
  ℕ, zero, suc, ◌+◌, ◌-◌, ◌≤◌, false, List, [], ◌∷◌, Option, none, some, ltb, ◌==◌, arith, if_intro,
  length, take, drop,
}
use edge_scpoe.Base.Int.{ℤ, pos, negsuc}
use edge_scpoe.Base.System.{Errno}
use edge_scpoe.Base.Floats.{Floats}
use edge_scpoe.Base.Results
use edge_scpoe.Base.Results.{
  Result, ok, err, Ensures, Ensures-then, Ensures-unless, Ensures-ok, or_fail, fail_if,
}
use edge_scpoe.Text.{Bytes, find_char, rfind_char, lines, starts_with, codes}
use edge_scpoe.Text.Numbers.{max_u64, max_u32, max_i32}
use edge_scpoe.ProcessList.Readers.{
  Gives, read_within-bounds, ltb-false, read_ticks-bounds, read_threads-bounds, read_state-bounds,
  or_fail-Gives, always, parse_kilobyte_field-bounds, parse_threads-bounds, io_read-bounds,
}
use edge_scpoe.ProcessList.{ProcessInfo, empty_process}
use edge_scpoe.ProcessList.Stat.{
  enclosed, read_within, skip_u64, skip_i64, read_state, read_ticks, read_threads, parse_stat_line,
}
use edge_scpoe.ProcessList.Status.{
  Found, with_rss, with_virtual_memory, with_threads, status_line, status_lines, or_zero,
  parse_status, io_field, io_next, io_read, parse_io,
}
use edge_scpoe.ProcessList.Collect.{
  Error, with_stat, with_status, System, get_process, get_positive, finished, with_io, parsed,
  contents_of,
}

-- Every number of a process is in the range of its C++ type; the pid is positive, and the parent is
-- not negative.
pub record IsValid {ℓ} {D : Type ℓ} (p : ProcessInfo D) : Type 0 where
  pub pid_range : (1 ≤ p.pid) × (p.pid ≤ max_i32)
  pub ppid_range : p.ppid ≤ max_i32
  pub memory_range : (p.resident_memory_bytes ≤ max_u64) × (p.virtual_memory_bytes ≤ max_u64)
  pub threads_range : p.thread_count ≤ max_u32
  pub io_range : (p.read_bytes ≤ max_u64) × (p.write_bytes ≤ max_u64)
  pub start_range : p.start_time_ticks ≤ max_u64

module _ {ℓ} {D : Type ℓ} where
  -- The process that the line gives, and its processor time.
  abbrev InRange : ProcessInfo D × ℕ → Type 0
  InRange (p, ticks) = IsValid p × (ticks ≤ max_u64)

  -- The fields that the line does not have.
  abbrev Started : ProcessInfo D → Type 0
  Started p =
      ((p.resident_memory_bytes ≤ max_u64) × (p.virtual_memory_bytes ≤ max_u64))
      × ((p.read_bytes ≤ max_u64) × (p.write_bytes ≤ max_u64))

  parse_stat_line-InRange :
      (line : Bytes) (process : ProcessInfo D)
      → Started process
      → Ensures InRange (parse_stat_line line process)
  unfolding parse_stat_line
  parse_stat_line-InRange line process started =
      or_fail-Gives InRange _ (enclosed line (find_char b'(' line) (rfind_char b')' line)) _ _
        (always _)
        λ (opening, closing) _.
          or_fail-Gives InRange _ (read_within 1 max_i32 (take opening line)) _ _
            (read_within-bounds 1 max_i32 _)
            λ (pid, _) pid_range.
              or_fail-Gives InRange _ (read_state (drop (closing + 1) line)) _ _
                (read_state-bounds _)
                λ (state, ppid, fields) ppid_range.
                  or_fail-Gives InRange _ (skip_u64 9 fields) _ _ (always _) λ fields' _.
                    or_fail-Gives InRange _ (read_ticks fields') _ _ (read_ticks-bounds _)
                      λ (user, system, fields'') system_range.
                        Ensures-unless InRange (ltb (max_u64 - system) user) _ _ λ fits.
                          or_fail-Gives InRange _ (skip_i64 4 fields'') _ _ (always _)
                            λ fields''' _.
                              or_fail-Gives InRange _ (read_threads fields''') _ _
                                (read_threads-bounds _)
                                λ (threads, start) last. (
                                  record {
                                    pid_range = pid_range;
                                    ppid_range = ppid_range;
                                    memory_range = started.0;
                                    threads_range = last.0;
                                    io_range = started.1;
                                    start_range = last.1;
                                  },
                                  omega
                                      (arith, ltb-false (max_u64 - system) user fits, system_range),
                                )

  -- Each later step keeps the ranges.
  abbrev Valid : Found D → Type 0
  Valid f = IsValid f.process

  with_rss-Valid :
      (bytes : Option ℕ) (f : Found D)
      → Gives (λ n. n ≤ max_u64) bytes
      → Valid f
      → Ensures Valid (with_rss bytes f)
  unfolding with_rss
  with_rss-Valid none f h v = tt
  with_rss-Valid (some n) f h v = ground arith

  with_virtual_memory-Valid :
      (bytes : Option ℕ) (f : Found D)
      → Gives (λ n. n ≤ max_u64) bytes
      → Valid f
      → Ensures Valid (with_virtual_memory bytes f)
  unfolding with_virtual_memory
  with_virtual_memory-Valid none f h v = tt
  with_virtual_memory-Valid (some n) f h v = ground arith

  with_threads-Valid :
      (threads : Option ℕ) (f : Found D)
      → Gives (λ n. n ≤ max_u32) threads
      → Valid f
      → Ensures Valid (with_threads threads f)
  unfolding with_threads
  with_threads-Valid none f h v = tt
  with_threads-Valid (some n) f h v = ground arith

  status_line-Valid : (line : Bytes) (f : Found D) → Valid f → Ensures Valid (status_line line f)
  unfolding status_line
  status_line-Valid line f v =
      let P = Ensures Valid in
      if_intro P (starts_with (codes "VmRSS:") line) _ _
        (λ _. with_rss-Valid _ f (parse_kilobyte_field-bounds line (codes "VmRSS:")) v)
        λ _.
          if_intro P (starts_with (codes "VmSize:") line) _ _
            (λ _.
              with_virtual_memory-Valid _ f (parse_kilobyte_field-bounds line (codes "VmSize:")) v)
            λ _.
              if_intro P (starts_with (codes "Threads:") line) _ _
                (λ _. with_threads-Valid _ f (parse_threads-bounds line) v) λ _. v

  status_lines-Valid : (ls : List Bytes) (f : Found D) → Valid f → Ensures Valid (status_lines ls f)
  unfolding status_lines
  status_lines-Valid [] f v = v
  status_lines-Valid (l ∷ ls) f v = Ensures-then Valid (status_line l f) (status_lines ls) λ g e.
      status_lines-Valid ls g (Ensures-ok Valid (status_line l f) (status_line-Valid l f v) e)

  or_zero-IsValid : (f : Found D) → Valid f → IsValid (or_zero f)
  unfolding or_zero
  or_zero-IsValid f v = ground arith

  parse_status-IsValid :
      (contents : Bytes) (p : ProcessInfo D) → IsValid p → Ensures IsValid (parse_status contents p)
  unfolding parse_status
  parse_status-IsValid contents p v =
      let start : Found D = record {
        process = p;
        found_rss = false;
        found_virtual_memory = false;
      } in
      Ensures-then IsValid (status_lines (lines contents) start) _ λ f e. or_zero-IsValid f (
        Ensures-ok Valid (status_lines (lines contents) start)
          (status_lines-Valid (lines contents) start v) e)

  io_field-IsValid :
      (key : Bytes) (value : ℕ) (p : ProcessInfo D)
      → value ≤ max_u64
      → IsValid p
      → IsValid (io_field key value p)
  unfolding io_field
  io_field-IsValid key value p h v = ground arith

  io_next-IsValid :
      (r : Option (Bytes × ℕ × Bytes)) (p : ProcessInfo D)
      (loop : Bytes → ProcessInfo D → ProcessInfo D)
      → Gives (λ (x : Bytes × ℕ × Bytes). x.1 ≤ max_u64) r
      → IsValid p
      → ((s : Bytes) (q : ProcessInfo D) → IsValid q → IsValid (loop s q))
      → IsValid (io_next r p loop)
  unfolding io_next
  io_next-IsValid none p loop h v rest = v
  io_next-IsValid (some (key, value, s)) p loop h v rest =
      rest s (io_field key value p) (io_field-IsValid key value p h v)

  parse_io-IsValid :
      (fuel : ℕ) (s : Bytes) (p : ProcessInfo D) → IsValid p → IsValid (parse_io fuel s p)
  unfolding parse_io
  parse_io-IsValid zero s p v = v
  parse_io-IsValid (suc fuel) s p v =
      io_next-IsValid (io_read s) p (parse_io fuel) (io_read-bounds s) v (parse_io-IsValid fuel)

  -- What is not a number of the system's files has no range.
  relabelled :
      (p : ProcessInfo D) (line : Bytes) (percent : D)
      → IsValid p
      → IsValid (record p { command_line = line })
        × IsValid (record p { cpu_usage_percent = percent })
  relabelled p line percent v = (ground arith, ground arith)

module _ {D : Type 0} (floats : Floats D) (system : System D) where
  with_io-IsValid :
      (r : Result Errno Bytes) (p : ProcessInfo D) → IsValid p → IsValid (with_io floats system r p)
  unfolding with_io
  with_io-IsValid (err e) p v = v
  with_io-IsValid (ok text) p v = parse_io-IsValid (length text) text p v

  with_contents :
      {A : Type 0} (P : A → Type 0) (r : Result Errno Bytes) (message : Bytes)
      (next : Bytes → Result Error A)
      → ((text : Bytes) → Ensures P (next text))
      → Ensures P (Results.◌>>=◌ (contents_of floats system r message) next)
  with_contents P r message next h =
      Ensures-then P (contents_of floats system r message) next λ text _. h text

  parsed-Ensures :
      {A : Type 0} (P : A → Type 0) (m : Result Bytes A)
      → Ensures P m
      → Ensures P (parsed floats system m)
  unfolding parsed
  parsed-Ensures P (ok a) h = h
  parsed-Ensures P (err e) h = tt

  finished-IsValid :
      (pid ticks : ℕ) (p : ProcessInfo D) → IsValid p → IsValid (finished floats system pid ticks p)
  unfolding finished
  finished-IsValid pid ticks p v =
      (relabelled _ [] _ (with_io-IsValid _ _ (relabelled p _ p.cpu_usage_percent v).0)).1

  with_status-IsValid :
      (pid ticks : ℕ) (p : ProcessInfo D) (status : Bytes)
      → IsValid p
      → Ensures IsValid (with_status floats system pid ticks p status)
  unfolding with_status
  with_status-IsValid pid ticks p status v =
      Ensures-then IsValid (parsed floats system (parse_status status p)) _ λ p' e.
        finished-IsValid pid ticks p' (
          Ensures-ok IsValid _
            (parsed-Ensures IsValid (parse_status status p) (parse_status-IsValid status p v)) e)

  with_stat-IsValid :
      (pid : ℕ) (r : ProcessInfo D × ℕ)
      → IsValid r.0
      → Ensures IsValid (with_stat floats system pid r)
  unfolding with_stat
  with_stat-IsValid pid (p, ticks) v =
      with_contents IsValid _ _ (with_status floats system pid ticks p)
        λ status. with_status-IsValid pid ticks p status v

  get_positive-IsValid : (pid : ℕ) → Ensures IsValid (get_positive floats system pid)
  unfolding get_positive
  get_positive-IsValid pid =
      let begun = empty_process (floats.of_nat 0) in
      with_contents IsValid _ _ _ λ stat.
        Ensures-then IsValid (parsed floats system (parse_stat_line stat begun))
          (with_stat floats system pid)
          λ r e.
            with_stat-IsValid pid r
              (Ensures-ok InRange _
                (parsed-Ensures InRange (parse_stat_line stat begun) (
                  parse_stat_line-InRange stat begun
                    ((omega arith, omega arith), (omega arith, omega arith))))
                e).0

  -- Whatever the files of /proc hold, a process that `GetProcess` returns has a positive pid, a parent
  -- that is not negative, and every other number in the range of its C++ type.
  pub get_process-IsValid : (pid : ℤ) → Ensures IsValid (get_process floats system pid)
  unfolding get_process
  get_process-IsValid (negsuc n) = tt
  get_process-IsValid (pos n) =
      if_intro (Ensures IsValid) (n == 0) _ _ (λ _. tt) λ _. get_positive-IsValid n
