-- ===== src/CommandLine/Tests.antt =====
-- Tests of the arguments of a process control.
use edge_scpoe.Base.{◌≡◌, refl, true, some, none, arith}
use edge_scpoe.Processes.{Kernel}
use edge_scpoe.Text.{codes, equal}
use edge_scpoe.Text.Numbers.{stoll}
use edge_scpoe.Text.Decimal.{to_string}
use edge_scpoe.CommandLine.{parse_pid, parse_control_action}
use edge_scpoe.ProcessList.Stat.{within}
use edge_scpoe.CommandLine.Control.{run_control, Reports, run_control-Reports}
use edge_scpoe.CommandLine.Pid.{parse_pid-to_string}

digits_only : parse_pid (codes "42") ≡ some 42
unfolding parse_pid within stoll
digits_only = refl

trailing : parse_pid (codes "42x") ≡ none
unfolding parse_pid within stoll
trailing = refl

stops : parse_control_action (codes "stop") ≡ some 3
unfolding parse_control_action equal
stops = refl

parse_pid-to_string_example : parse_pid (to_string 4711) ≡ some 4711
parse_pid-to_string_example = parse_pid-to_string 4711 (omega arith) (omega arith)

abbrev kernel : Kernel
kernel sent = none

run_control-Reports_example :
    Reports kernel 500 (codes "42") (run_control kernel 500 true (codes "42") (codes "term"))
run_control-Reports_example = run_control-Reports kernel 500 true (codes "42") (codes "term")
