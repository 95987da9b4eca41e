-- ===== src/Follow.antt =====
-- `StreamLog` of agent/src/EdgeScopeServiceImpl.cpp: following a log as it grows. The file is looked
-- at again and again; a `Poll` is what one round of the loop meets. The waits of 250 ms between the
-- rounds are left out.
pub mod Split
pub mod Blocks
pub mod Growing
mod Tests
use edge_scpoe.Base.{
  ℕ, zero, suc, ◌+◌, ◌-◌, ◌*◌, Bool, true, false, not, ◌&&◌, ◌||◌, List, [], ◌∷◌, ◌++◌, Option,
  none, some, ltb, ◌==◌, if◌then◌else◌, length, take, drop, null,
}
use edge_scpoe.Text.{Bytes, codes, find_char, contains, pop_back_if}
use edge_scpoe.Utf8.{sanitize_utf8}
use edge_scpoe.Logs
use edge_scpoe.Logs.{AllowedLog, resolve_log_path}
use edge_scpoe.Rpc.{Status, status_ok, invalid_argument, not_found, log_status}

-- What the handler uses of `struct stat`.
pub record FileStatus : Type 0 where
  pub inode : ℕ
  pub size : ℕ

-- One round: whether the call is cancelled before it, what `stat` gives (`none` if it fails), and the
-- bytes that a read of so many at an offset delivers.
pub record Poll : Type 0 where
  pub cancelled : Bool
  pub status : Option FileStatus
  pub read : ℕ → ℕ → Bytes

-- The variables of the loop. `written` counts the calls of the writer.
pub record Tail : Type 0 where
  pub offset : ℕ
  pub inode : ℕ
  pub partial_line : Bytes
  pub written : ℕ

abbrev pub stream_read_size : ℕ
stream_read_size = 64 * 1024

abbrev pub longest : ℕ
longest = 4096

-- A line without its '\r', and cut.
unfoldable pub shown : Bytes → Bytes
shown line = take longest (pop_back_if b'\r' line)

-- The keyword is looked for in the line that is cut already.
unfoldable pub skipped : Bytes → Bytes → Bool
unfolding shown
skipped keyword line = not (null keyword) && not (contains keyword (shown line))

-- What was written, and the state; `none` if the call ended, after a failed write or a cancellation.
abbrev pub Lines : Type 0
Lines = List Bytes × Option Tail

-- `erase` of all but the last 4096 bytes.
unfoldable pub cut_front : Bytes → Bytes
cut_front partial =
    if ltb longest (length partial) then drop (length partial - longest) partial else partial

module _ (keyword : Bytes) (writes : ℕ → Bool) where
  unfoldable pub write_line : Bytes → ℕ → Lines → Lines
  unfolding shown
  write_line line n next =
      if writes n then (sanitize_utf8 (shown line) ∷ next.0, next.1) else ([], none)

  -- One round of the inner loop, at the next line break; `drain` is what follows.
  unfoldable pub next_line : Option ℕ → Tail → (Tail → Lines) → Lines
  unfolding skipped write_line
  next_line none t drain = ([], some t)
  next_line (some i) t drain =
      let line = take i t.partial_line in
      let rest = drop (suc i) t.partial_line in
      let skip = drain (record t { partial_line = rest }) in
      let next = drain (record t { partial_line = rest; written = suc t.written }) in
      if skipped keyword line then skip else write_line line t.written next

  -- The inner loop: a round for each unit of fuel.
  unfoldable pub drain : ℕ → Tail → Lines
  unfolding next_line
  drain zero t = ([], some t)
  drain (suc fuel) t = next_line (find_char b'\n' t.partial_line) t (drain fuel)

  unfoldable pub cut_partial : Lines → Lines
  unfolding cut_front
  cut_partial (sent, none) = (sent, none)
  cut_partial (sent, some t) = (sent, some (record t { partial_line = cut_front t.partial_line }))

  -- The file was replaced or cut: start again.
  unfoldable pub rewound : FileStatus → Tail → Tail
  rewound status t =
      if not (status.inode == t.inode) || ltb status.size t.offset
      then record t { inode = status.inode; offset = 0; partial_line = [] }
      else t

  unfoldable pub appended : Bytes → Tail → Tail
  appended block t = record t {
    offset = t.offset + length block;
    partial_line = t.partial_line ++ block;
  }

  unfoldable pub read_on : Poll → FileStatus → Tail → Lines
  unfolding appended drain cut_partial
  read_on p status t =
      let t' = appended (p.read t.offset stream_read_size) t in
      if ltb t.offset status.size
      then cut_partial (drain (length t'.partial_line) t')
      else ([], some t)

  unfoldable pub poll : Poll → Option FileStatus → Tail → Lines
  unfolding rewound read_on
  poll p none t = ([], some t)
  poll p (some status) t = read_on p status (rewound status t)

  unfoldable pub then_follow : Lines → (Tail → Lines) → Lines
  then_follow (sent, none) next = (sent, none)
  then_follow (sent, some t) next = (sent ++ (next t).0, (next t).1)

  -- The outer loop; a list that ends stands for a call that has come no further.
  unfoldable pub follow : List Poll → Tail → Lines
  unfolding poll then_follow
  follow [] t = ([], some t)
  follow (p ∷ ps) t =
      let next = then_follow (poll p p.status t) (follow ps) in
      if p.cancelled then ([], none) else next

  unfoldable pub start_offset : Bool → ℕ → ℕ
  start_offset true size = size
  start_offset false size = if ltb stream_read_size size then size - stream_read_size else 0

  unfoldable pub start : Bool → FileStatus → Tail
  unfolding start_offset
  start start_at_end status = record {
    offset = start_offset start_at_end status.size;
    inode = status.inode;
    partial_line = [];
    written = 0;
  }

-- A call that is cancelled, or whose client is gone, ends with OK; one that goes on has no status.
ended : Lines → Option Status
ended (sent, none) = some status_ok
ended (sent, some t) = none

opened_stream :
    Bytes → Bool → (ℕ → Bool) → Option FileStatus → List Poll → List Bytes × Option Status
unfolding ended
opened_stream keyword start_at_end writes none polls =
    ([], some (record { code = not_found; message = codes "log file is not available" }))
opened_stream keyword start_at_end writes (some status) polls =
    let r = follow keyword writes polls (start keyword writes start_at_end status) in (r.0, ended r)

resolved_stream :
    Bytes
    → Bool
    → (ℕ → Bool)
    → (Bytes → Option FileStatus)
    → Logs.Result Bytes
    → List Poll
    → List Bytes × Option Status
unfolding opened_stream
resolved_stream keyword start_at_end writes stat (Logs.err e message) polls =
    ([], some (log_status e message))
resolved_stream keyword start_at_end writes stat (Logs.ok path) polls =
    opened_stream keyword start_at_end writes (stat path) polls

-- `StreamLog`: what it writes, and the status. `stat` is the first look at the file.
unfoldable pub stream_log :
    List AllowedLog
    → Bytes
    → Bytes
    → Bool
    → (ℕ → Bool)
    → (Bytes → Option FileStatus)
    → List Poll
    → List Bytes × Option Status
unfolding resolved_stream
stream_log logs id keyword start_at_end writes stat polls =
    if ltb 256 (length keyword)
    then ([], some (record { code = invalid_argument; message = codes "keyword is too long" }))
    else resolved_stream keyword start_at_end writes stat (resolve_log_path id logs) polls
