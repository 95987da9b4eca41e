-- ===== src/Rpc.antt =====
-- The handlers of agent/src/EdgeScopeServiceImpl.cpp that call one component and turn its outcome
-- into a status: the tables of error codes, `ControlProcess` and `ControlService`. A number in a
-- request stands for an enumerator of proto/edgescope.proto.
pub mod Control
pub mod Messages
pub mod Listings
mod Tests
use edge_scpoe.Base.{
  ℕ, ◌≡◌, Bool, true, false, List, [], ◌∷◌, Option, none, some, ◌==◌, if◌then◌else◌,
}
use edge_scpoe.Base.System.{Opened}
use edge_scpoe.Base.Int.{ℤ}
use edge_scpoe.Text.{Bytes, codes}
use edge_scpoe.Logs
use edge_scpoe.Logs.{LogCollectorError, LogReadResult, read_log}
use edge_scpoe.Services
use edge_scpoe.Services.{ServiceAction, ServiceManagerError, control_service}
use edge_scpoe.Processes
use edge_scpoe.Processes.{ProcessControlAction, ProcessControlError, Kernel, Sent, control}

-- The codes of `grpc::Status` that the agent returns.
pub data StatusCode : Type 0 where
  ok invalid_argument not_found permission_denied failed_precondition internal : StatusCode

pub record Status : Type 0 where
  pub code : StatusCode
  pub message : Bytes

abbrev pub status_ok : Status
status_ok = record { code = ok; message = [] }

unfoldable pub process_control_status : ProcessControlError → Bytes → Status
process_control_status ProcessControlError.invalid_argument error = record {
  code = invalid_argument;
  message = error;
}
process_control_status ProcessControlError.not_found error = record {
  code = not_found;
  message = error;
}
process_control_status ProcessControlError.permission_denied error = record {
  code = permission_denied;
  message = error;
}
process_control_status ProcessControlError.internal error = record {
  code = internal;
  message = error;
}

unfoldable pub service_status : ServiceManagerError → Bytes → Status
service_status ServiceManagerError.invalid_argument error = record {
  code = invalid_argument;
  message = error;
}
service_status ServiceManagerError.not_allowed error = record {
  code = permission_denied;
  message = error;
}
service_status ServiceManagerError.permission_denied error = record {
  code = permission_denied;
  message = error;
}
service_status ServiceManagerError.not_found error = record { code = not_found; message = error }
service_status ServiceManagerError.command_failed error = record {
  code = failed_precondition;
  message = error;
}

unfoldable pub log_status : LogCollectorError → Bytes → Status
log_status LogCollectorError.invalid_argument error = record {
  code = invalid_argument;
  message = error;
}
log_status LogCollectorError.not_found error = record { code = not_found; message = error }
log_status LogCollectorError.permission_denied error = record {
  code = permission_denied;
  message = error;
}
log_status LogCollectorError.io_error error = record { code = internal; message = error }

-- The `switch` on the action of a request; `none` is its `default`.
unfoldable pub process_action : ℕ → Option ProcessControlAction
process_action action =
    if action == 1
    then some ProcessControlAction.terminate
    else if action == 2
    then some ProcessControlAction.kill
    else if action == 3
    then some ProcessControlAction.stop
    else if action == 4
    then some ProcessControlAction.resume
    else none

unfoldable pub service_action : ℕ → Option ServiceAction
service_action action =
    if action == 1
    then some ServiceAction.start
    else if action == 2
    then some ServiceAction.stop
    else if action == 3
    then some ServiceAction.restart
    else none

process_outcome : Processes.Outcome × List Sent → Status × List Sent
unfolding process_control_status
process_outcome (Processes.done, sent) = (status_ok, sent)
process_outcome (Processes.error e message, sent) = (process_control_status e message, sent)

control_known : Kernel → ℕ → ℤ → Option ProcessControlAction → Status × List Sent
unfolding process_outcome
control_known kernel own pid none = (
  record { code = invalid_argument; message = codes "a supported process action is required" },
  [],
)
control_known kernel own pid (some action) = process_outcome (control kernel own pid action)

-- `ControlProcess`: the status, and the signals that were sent.
pub control_process : Kernel → ℕ → ℤ → ℕ → Status × List Sent
unfolding process_action control_known
control_process kernel own pid action = control_known kernel own pid (process_action action)

service_outcome : Services.Outcome × List Services.Command → Status × List Services.Command
unfolding service_status
service_outcome (Services.done, commands) = (status_ok, commands)
service_outcome (Services.error e message, commands) = (service_status e message, commands)

service_known :
    Services.Runner → List Bytes → Bytes → Option ServiceAction → Status × List Services.Command
unfolding service_outcome
service_known run allowed name none = (
  record { code = invalid_argument; message = codes "a supported service action is required" },
  [],
)
service_known run allowed name (some action) =
    service_outcome (control_service run allowed name action)

-- `ControlService`: the status, and the commands that were run.
pub control_service_call : Services.Runner → List Bytes → Bytes → ℕ → Status × List Services.Command
unfolding service_action service_known
control_service_call run allowed name action =
    service_known run allowed name (service_action action)

abbrev empty_result : LogReadResult
empty_result = record { lines = []; truncated = false }

unfoldable pub log_outcome : Logs.Result LogReadResult → Status × LogReadResult
unfolding log_status
log_outcome (Logs.ok r) = (status_ok, r)
log_outcome (Logs.err e message) = (log_status e message, empty_result)

-- `ReadLog`: the status, and the response; an unset response is empty.
unfoldable pub read_log_call :
    (Bytes → Opened) → List Logs.AllowedLog → Bytes → ℕ → Bytes → Status × LogReadResult
unfolding log_outcome
read_log_call file_system logs id max_lines keyword =
    log_outcome (read_log file_system logs id max_lines keyword)
