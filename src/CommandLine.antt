-- ===== src/CommandLine.antt =====
-- The arguments of a process control in client/src/main.cpp. An action is the number of its enumerator
-- in proto/edgescope.proto.
pub mod Pid
pub mod Control
mod Tests
use edge_scpoe.Base.{ℕ, Bool, ◌&&◌, Option, none, some, ◌==◌, if◌then◌else◌, length}
use edge_scpoe.Base.Int.{ℤ, pos, negsuc}
use edge_scpoe.Text.{Bytes, codes, equal}
use edge_scpoe.Text.Numbers.{max_i32, stoll, ◌>>=◌}
use edge_scpoe.ProcessList.Stat.{within}

unfoldable pub parse_control_action : Bytes → Option ℕ
parse_control_action value =
    if equal value (codes "term")
    then some 1
    else if equal value (codes "kill")
    then some 2
    else if equal value (codes "stop")
    then some 3
    else if equal value (codes "continue")
    then some 4
    else none

unfoldable pub positive_pid : ℕ → Option (ℤ × ℕ) → Option ℕ
positive_pid size none = none
positive_pid size (some (parsed, parsed_characters)) =
    if parsed_characters == size then within 1 max_i32 parsed else none

-- `ParsePid`; an exception of `std::stoll` is `none`.
unfoldable pub parse_pid : Bytes → Option ℕ
unfolding positive_pid
parse_pid value = positive_pid (length value) (stoll value)
