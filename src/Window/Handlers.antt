-- ===== src/Window/Handlers.antt =====
-- The slots of `MainWindow` for the worker's signals.
use edge_scpoe.Base.{ℕ, Bool, true, false, not, ◌||◌, [], ◌∷◌, ◌++◌, if◌then◌else◌}
use edge_scpoe.Text.{Bytes, codes, equal}
use edge_scpoe.Client.{AgentInfoData}
use edge_scpoe.Worker.{
  Signal, connected, disconnected, log_stream_stopped, metrics_ready, processes_ready,
  process_details_ready, network_ready, logs_ready, log_content_ready, log_line_ready,
  services_ready, diagnostic_progress, diagnostic_ready, operation_succeeded, rpc_error,
}
use edge_scpoe.Window.{
  Qt, ConnectionStatus, disconnected_text, connecting_text, connected_text, reconnecting_text,
  Controls, MainWindow, failed, request_metrics, request_processes, request_network, request_logs,
  request_services, request_stop_log_stream, show_message, warning, append_log_output, Handled,
}
use edge_scpoe.Window.Views.{
  show_agent, update_metrics, update_processes, update_process_details, update_network, update_logs,
  update_log_content, update_services, update_diagnostic_progress, format_bytes,
}

unfoldable pub is_connected : ConnectionStatus → Bool
is_connected connected_text = true
is_connected disconnected_text = false
is_connected connecting_text = false
is_connected reconnecting_text = false

-- Both timers.
unfoldable pub with_timers : Bool → Controls → Controls
with_timers active c = record c { metrics_timer = active; processes_timer = active }

-- `SetConnected`.
unfoldable pub set_connected : Bool → Controls → Controls
unfolding with_timers
set_connected up c =
    let set = record c {
      connection_status = if up then connected_text else disconnected_text;
      connect_button = not up;
      disconnect_button = up;
      reconnect_button = up;
      network_refresh_button = up;
      log_refresh_button = up;
      log_stream_start_button = up;
      log_stream_stop_button = false;
      service_refresh_button = up;
      diagnostic_create_button = up;
      host_edit = not up;
      port_spin = not up;
    } in
    if up then set else with_timers false set

-- `HandleLogStreamStopped`.
unfoldable pub log_stopped : Controls → Controls
unfolding is_connected
log_stopped c = record c {
  log_stream_stop_button = false;
  log_stream_start_button = is_connected c.connection_status;
}

-- The enabling of `HandleRpcError`.
unfoldable pub enable_create_for : Bytes → Controls → Controls
enable_create_for operation c =
    if equal operation (codes "CreateDiagnosticBundle")
      || equal operation (codes "DownloadDiagnosticBundle")
    then record c { diagnostic_create_button = true }
    else c

module _ {D : Type 0} (q : Qt D) where
  -- `HandleConnected`.
  unfoldable pub handle_connected : AgentInfoData → MainWindow D → Handled D
  unfolding set_connected with_timers
  handle_connected info w = (
    record w {
      overview = show_agent q info w.overview;
      controls = with_timers true (set_connected true w.controls);
    },
    request_metrics ∷ request_processes ∷ request_network ∷ request_logs ∷ request_services ∷ [],
  )

  -- `HandleDisconnected`.
  unfoldable pub handle_disconnected : MainWindow D → Handled D
  unfolding set_connected
  handle_disconnected w = (
    record w { controls = set_connected false w.controls },
    show_message (codes "Disconnected from Agent") ∷ [],
  )

  unfoldable pub handle_log_stream_stopped : MainWindow D → Handled D
  unfolding log_stopped
  handle_log_stream_stopped w = (record w { controls = log_stopped w.controls }, [])

  -- `DiagnosticCompleted`.
  unfoldable pub diagnostic_completed : Bytes → ℕ → MainWindow D → Handled D
  unfolding format_bytes
  diagnostic_completed path size_bytes w = (
    record w {
      diagnostic_progress = 100;
      controls = record (w.controls) { diagnostic_create_button = true };
      diagnostic_status = q.arg_two (codes "Saved %1 to %2") (format_bytes q size_bytes) path;
    },
    show_message (codes "Diagnostic bundle downloaded") ∷ [],
  )

  -- `HandleRpcError`, up to the closing of the box of an error that leaves the connection.
  unfoldable pub handle_rpc_error : Bytes → Bytes → Bool → MainWindow D → Handled D
  unfolding enable_create_for set_connected with_timers
  handle_rpc_error operation message true w = (
    record w {
      controls = set_connected false (with_timers false (enable_create_for operation w.controls));
    },
    show_message (operation ++ codes ": " ++ message)
        ∷ request_stop_log_stream
        ∷ warning (codes "Agent connection lost") message
        ∷ [],
  )
  handle_rpc_error operation message false w = (
    record w {
      controls = enable_create_for operation w.controls;
      dialogs = failed operation ∷ w.dialogs;
    },
    show_message (operation ++ codes ": " ++ message)
        ∷ warning (operation ++ codes " failed") message
        ∷ [],
  )

  -- The slot that each signal of the worker is connected to.
  unfoldable pub handle : Signal D → MainWindow D → Handled D
  unfolding handle_connected handle_disconnected handle_log_stream_stopped diagnostic_completed
      handle_rpc_error update_metrics update_processes update_process_details update_network
      update_logs update_log_content update_services update_diagnostic_progress
  handle (connected info) w = handle_connected info w
  handle disconnected w = handle_disconnected w
  handle log_stream_stopped w = handle_log_stream_stopped w
  handle (metrics_ready metrics) w = update_metrics q metrics w
  handle (processes_ready processes) w = update_processes q processes w
  handle (process_details_ready process) w = update_process_details q process w
  handle (network_ready interfaces connections) w = update_network q interfaces connections w
  handle (logs_ready logs) w = update_logs q logs w
  handle (log_content_ready lines truncated) w = update_log_content q lines truncated w
  handle (log_line_ready line) w = (w, append_log_output line ∷ [])
  handle (services_ready services) w = update_services q services w
  handle (diagnostic_progress received total) w = update_diagnostic_progress q received total w
  handle (diagnostic_ready path size) w = diagnostic_completed path size w
  handle (operation_succeeded message) w = (w, show_message message ∷ [])
  handle (rpc_error operation message lost) w = handle_rpc_error operation message lost w
