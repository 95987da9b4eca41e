-- ===== src/Window/Buttons.antt =====
-- The slots of `MainWindow` for the user: what the buttons of `BuildUi` are connected to, the timers,
-- and the code behind a box when it closes.
use edge_scpoe.Base.{
  ℕ, zero, suc, Bool, true, false, List, [], ◌∷◌, Option, none, some, ◌==◌, if◌then◌else◌, null,
}
use edge_scpoe.Base.Int.{ℤ, pos, negsuc}
use edge_scpoe.Text.{Bytes, codes, equal}
use edge_scpoe.Text.Decimal.{int_to_string}
use edge_scpoe.Client.{ProcessData}
use edge_scpoe.Window.{
  Qt, connecting_text, reconnecting_text, MainWindow, Dialog, confirm_process, confirm_service,
  save_diagnostic, failed, request_connect, request_disconnect, request_process_details,
  request_process_control, request_log_content, request_start_log_stream, request_stop_log_stream,
  request_service_control, request_diagnostic, information, warning, question, Handled,
}
use edge_scpoe.Window.Table.{process_at}
use edge_scpoe.Window.Handlers.{with_timers, set_connected}

-- What the user does with a box: whether the button is Yes, and the path that is chosen.
pub record Answer : Type 0 where
  pub yes_button : Bool
  pub path : Bytes

-- The numbers of the proto.
pub data ProcessButton : Type 0 where
  terminate_button kill_button stop_button continue_button : ProcessButton

pub data ServiceButton : Type 0 where
  service_start_button service_stop_button service_restart_button : ServiceButton

unfoldable pub process_action : ProcessButton → ℕ × Bytes
process_action terminate_button = (1, codes "terminate")
process_action kill_button = (2, codes "kill")
process_action stop_button = (3, codes "stop")
process_action continue_button = (4, codes "continue")

unfoldable pub service_action : ServiceButton → ℕ × Bytes
service_action service_start_button = (1, codes "start")
service_action service_stop_button = (2, codes "stop")
service_action service_restart_button = (3, codes "restart")

-- `pid <= 0`.
unfoldable pub not_positive : ℤ → Bool
not_positive (pos n) = n == 0
not_positive (negsuc n) = true

-- `currentData` of the choice of logs; without a choice it is empty.
unfoldable pub current_log_id : Option ℕ → List (Bytes × Bytes) → Bytes
current_log_id none entries = []
current_log_id (some index) [] = []
current_log_id (some zero) (entry ∷ rest) = entry.1
current_log_id (some (suc n)) (entry ∷ rest) = current_log_id (some n) rest

-- The text of a row's first cell, if there is one.
unfoldable pub first_cell : List (List Bytes) → ℤ → Option Bytes
first_cell rows (negsuc n) = none
first_cell [] (pos row) = none
first_cell ([] ∷ rest) (pos zero) = none
first_cell ((cell ∷ cells) ∷ rest) (pos zero) = some cell
first_cell (row ∷ rest) (pos (suc n)) = first_cell rest (pos n)

module _ {D : Type 0} where
  -- A click on a button that is enabled, or a timer that is active.
  unfoldable pub when_enabled : Bool → Handled D → MainWindow D → Handled D
  when_enabled true handled w = handled
  when_enabled false handled w = (w, [])

  unfoldable pub disconnect_from_agent : MainWindow D → Handled D
  unfolding with_timers
  disconnect_from_agent w = (
    record w { controls = with_timers false w.controls },
    request_stop_log_stream ∷ request_disconnect ∷ [],
  )

  unfoldable pub pid_or_zero : Option (ProcessData D) → ℤ
  pid_or_zero none = pos 0
  pid_or_zero (some process) = process.pid

  -- `SelectedPid`: the row of the model that the selection is mapped to, if there is one.
  unfoldable pub selected_pid : Option ℤ → MainWindow D → ℤ
  unfolding pid_or_zero process_at
  selected_pid none w = pos 0
  selected_pid (some row) w = pid_or_zero (process_at w.process_model row)

  -- `ShowSelectedProcessDetails`.
  unfoldable pub show_selected_process_details : Option ℤ → MainWindow D → Handled D
  unfolding selected_pid not_positive
  show_selected_process_details selected w =
      let pid = selected_pid selected w in
      if not_positive pid
      then (w, information (codes "Process details") (codes "Select a process first.") ∷ [])
      else (w, request_process_details pid ∷ [])

  -- The start and the stop of a log stream, and the tail of a log.
  unfoldable pub start_streaming : Option ℕ → Bytes → MainWindow D → Handled D
  unfolding current_log_id
  start_streaming index keyword w =
      let log_id = current_log_id index w.log_source_combo in
      if null log_id
      then (w, information (codes "Logs") (codes "No log source selected.") ∷ [])
      else (
        record w {
          controls = record (w.controls) {
            log_stream_start_button = false;
            log_stream_stop_button = true;
          };
        },
        request_start_log_stream log_id keyword ∷ [],
      )

  unfoldable pub read_tail : Option ℕ → ℕ → Bytes → MainWindow D → Handled D
  unfolding current_log_id
  read_tail index lines keyword w =
      let log_id = current_log_id index w.log_source_combo in
      if null log_id
      then (w, information (codes "Logs") (codes "No log source selected.") ∷ [])
      else (w, request_log_content log_id lines keyword ∷ [])

  -- `CreateDiagnostic`, up to the choice of a file.
  abbrev pub create_diagnostic : MainWindow D → Handled D
  create_diagnostic w = (record w { dialogs = save_diagnostic ∷ w.dialogs }, [])

  unfoldable pub saved_at : Bytes → MainWindow D → Handled D
  saved_at destination w = if null destination then (w, []) else (
    record w {
      controls = record (w.controls) { diagnostic_create_button = false };
      diagnostic_progress = 0;
      diagnostic_status = codes "Creating diagnostic bundle on Agent...";
    },
    request_diagnostic destination ∷ [],
  )

  -- The code behind a box: the ends of `ConfirmProcessControl`, `ConfirmServiceControl`,
  -- `CreateDiagnostic` and `HandleRpcError`.
  unfoldable pub answered : Dialog → Answer → MainWindow D → Handled D
  unfolding saved_at set_connected
  answered (confirm_process pid action) a w =
      if a.yes_button then (w, request_process_control pid action ∷ []) else (w, [])
  answered (confirm_service name action) a w =
      if a.yes_button then (w, request_service_control name action ∷ []) else (w, [])
  answered save_diagnostic a w = saved_at a.path w
  answered (failed operation) a w =
      if equal operation (codes "Connect")
      then (record w { controls = set_connected false w.controls }, [])
      else (w, [])

  -- The innermost box closes.
  unfoldable pub closed : List Dialog → Answer → MainWindow D → Handled D
  unfolding answered
  closed [] a w = (w, [])
  closed (dialog ∷ rest) a w = answered dialog a (record w { dialogs = rest })

module _ {D : Type 0} (q : Qt D) where
  -- `ConnectToAgent`, with the host and the port of the fields.
  unfoldable pub connect_to_agent : Bytes → ℕ → MainWindow D → Handled D
  connect_to_agent host port w =
      let given = q.trimmed host in
      if null given
      then (w, warning (codes "Invalid address") (codes "Agent address cannot be empty.") ∷ [])
      else (
        record w {
          controls = record (w.controls) {
            connection_status = connecting_text;
            connect_button = false;
          };
        },
        request_connect given port ∷ [],
      )

  unfoldable pub reconnect_to_agent : Bytes → ℕ → MainWindow D → Handled D
  unfolding with_timers
  reconnect_to_agent host port w = (
    record w {
      controls = record (with_timers false w.controls) { connection_status = reconnecting_text };
    },
    request_stop_log_stream ∷ request_disconnect ∷ request_connect (q.trimmed host) port ∷ [],
  )

  -- `ConfirmProcessControl`, up to the answer.
  unfoldable pub confirm_process_control : ProcessButton → Option ℤ → MainWindow D → Handled D
  unfolding selected_pid process_action not_positive
  confirm_process_control button selected w =
      let pid = selected_pid selected w in
      let action = process_action button in
      let text = q.arg (q.arg (codes "Really %1 process %2?") (action.1)) (int_to_string pid) in
      if not_positive pid
      then (w, information (codes "Process control") (codes "Select a process first.") ∷ [])
      else (
        record w { dialogs = confirm_process pid (action.0) ∷ w.dialogs },
        question (codes "Confirm process operation") text ∷ [],
      )

  unfoldable pub confirm_service_named : ServiceButton → Option Bytes → MainWindow D → Handled D
  unfolding service_action
  confirm_service_named button none w =
      (w, information (codes "Service control") (codes "Select an allowed service first.") ∷ [])
  confirm_service_named button (some name) w =
      let action = service_action button in
      (
        record w { dialogs = confirm_service name (action.0) ∷ w.dialogs },
        question (codes "Confirm service operation")
              (q.arg_two (codes "Really %1 %2?") (action.1) name)
            ∷ [],
      )

  -- `ConfirmServiceControl`, up to the answer.
  unfoldable pub confirm_service_control : ServiceButton → ℤ → MainWindow D → Handled D
  unfolding confirm_service_named first_cell
  confirm_service_control button row w =
      confirm_service_named button (first_cell w.service_table row) w
