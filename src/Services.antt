-- ===== src/Services.antt =====
-- agent/include/ServiceManager.h and agent/src/ServiceManager.cpp: the systemd services that may be
-- listed and controlled. The runner of commands is a parameter, as it is in the source, and every
-- command that is run is recorded in order; its POSIX implementation (fork, exec, pipe) is left out.
pub mod Whitelist
pub mod Listing
mod Tests
use edge_scpoe.Base.{
  ℕ, suc, ◌+◌, Bool, true, false, not, ◌&&◌, ◌||◌, List, [], ◌∷◌, ◌++◌, Option, none, some, ◌==◌,
  if◌then◌else◌, length, null, drop,
}
use edge_scpoe.Text.{Bytes, codes, equal, starts_with, contains, lines}

pub record ServiceInfo : Type 0 where
  pub name : Bytes
  pub description : Bytes
  pub load_state : Bytes
  pub active_state : Bytes
  pub sub_state : Bytes

pub data ServiceAction : Type 0 where
  start stop restart : ServiceAction

pub data ServiceManagerError : Type 0 where
  invalid_argument not_allowed not_found permission_denied command_failed : ServiceManagerError

-- The exit code as `WEXITSTATUS` gives it; `none` is the -1 of a command that did not exit.
pub record CommandResult : Type 0 where
  pub exit_code : Option ℕ
  pub output : Bytes

abbrev pub Command : Type 0
Command = List Bytes

-- `ServiceCommandRunner::Run` on the n-th command of a call: a result, or an error text.
pub data Ran : Type 0 where
  ran : CommandResult → Ran
  failed : Bytes → Ran

abbrev pub Runner : Type 0
Runner = Command → Ran

value_in : Bytes → List Bytes → Bytes
value_in prefix [] = []
value_in prefix (line ∷ rest) =
    if starts_with prefix line then drop (length prefix) line else value_in prefix rest

pub value_for : Bytes → Bytes → Bytes
unfolding value_in
value_for output key = value_in (key ++ b'=' ∷ []) (lines output)

exited_zero : Option ℕ → Bool
exited_zero none = false
exited_zero (some n) = n == 0

abbrev pub show_command : Bytes → Command
show_command name =
    codes "show"
    ∷ codes "--no-pager"
    ∷ codes "--property=Description,LoadState,ActiveState,SubState"
    ∷ name
    ∷ []

-- One entry of the list, from the result of its command.
pub service_info : Bytes → CommandResult → ServiceInfo
unfolding exited_zero
service_info name result =
    let load_state = value_for result.output (codes "LoadState") in
    let description = value_for result.output (codes "Description") in
    if not (exited_zero result.exit_code) || null load_state
    then record {
      name = name;
      description = description;
      load_state = codes "unavailable";
      active_state = codes "unknown";
      sub_state = codes "unknown";
    }
    else record {
      name = name;
      description = description;
      load_state = load_state;
      active_state = value_for result.output (codes "ActiveState");
      sub_state = value_for result.output (codes "SubState");
    }

-- What `ListServices` leaves: the entries so far, and the error text if a command could not be run.
pub record Listed : Type 0 where
  pub services : List ServiceInfo
  pub error : Option Bytes

listed : Bytes → Ran → Listed → Listed
unfolding service_info
listed name (failed text) rest = record { services = []; error = some text }
listed name (ran result) rest = record rest { services = service_info name result ∷ rest.services }

pub list_services : Runner → List Bytes → Listed
unfolding listed
list_services run [] = record { services = []; error = none }
list_services run (name ∷ names) = listed name (run (show_command name)) (list_services run names)

unfoldable pub is_allowed : List Bytes → Bytes → Bool
is_allowed [] name = false
is_allowed (s ∷ services) name = equal s name || is_allowed services name

abbrev pub operation : ServiceAction → Bytes
operation start = codes "start"
operation stop = codes "stop"
operation restart = codes "restart"

abbrev pub control_command : ServiceAction → Bytes → Command
control_command action name = operation action ∷ codes "--no-ask-password" ∷ name ∷ []

-- The outcome of `ControlService`: success, or the error code and text.
pub data Outcome : Type 0 where
  done : Outcome
  error : ServiceManagerError → Bytes → Outcome

failure_code : Bytes → ServiceManagerError
failure_code output =
    if contains (codes "not found") output
    then not_found
    else if contains (codes "permission") output || contains (codes "authentication") output
    then permission_denied
    else command_failed

judge : Ran → Outcome
unfolding exited_zero failure_code
judge (failed text) = error command_failed text
judge (ran result) =
    if not (exited_zero result.exit_code)
    then error (failure_code result.output)
        (if null result.output then codes "systemctl operation failed" else result.output)
    else done

-- `ControlService`: the outcome, and the commands that were run.
pub control_service : Runner → List Bytes → Bytes → ServiceAction → Outcome × List Command
unfolding judge
control_service run allowed name action =
    if null name
    then (error invalid_argument (codes "service name is required"), [])
    else if not (is_allowed allowed name)
    then (error not_allowed (codes "service is not in the configured whitelist"), [])
    else (judge (run (control_command action name)), control_command action name ∷ [])
