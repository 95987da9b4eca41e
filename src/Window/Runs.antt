-- ===== src/Window/Runs.antt =====
-- client/src/MainWindow.cpp: the controls along the events of a run.
use edge_scpoe.Base.{true, false, List, [], ◌∷◌, Option}
use mathlib.Core.Bool.{false≢true}
use edge_scpoe.Text.{Bytes}
use edge_scpoe.Worker.{
  Signal, connected, disconnected, log_stream_stopped, metrics_ready, processes_ready,
  process_details_ready, network_ready, logs_ready, log_content_ready, log_line_ready,
  services_ready, diagnostic_progress, diagnostic_ready, operation_succeeded, rpc_error,
}
use edge_scpoe.Window.{Qt, MainWindow}
use edge_scpoe.Window.Handlers.{
  is_connected, with_timers, enable_create_for, handle, handle_rpc_error, handle_connected,
  handle_disconnected, handle_log_stream_stopped, diagnostic_completed,
}
use edge_scpoe.Window.Views.{
  update_metrics, update_processes, update_process_details, update_network, update_logs,
  update_log_content, update_services, update_diagnostic_progress,
}
use edge_scpoe.Window.Buttons
use edge_scpoe.Window.Buttons.{
  ProcessButton, ServiceButton, disconnect_from_agent, show_selected_process_details,
  start_streaming, read_tail, reconnect_to_agent, confirm_process_control, confirm_service_control,
  confirm_service_named,
}
use edge_scpoe.Window.Actions.{
  Click, connect_click, reconnect_click, disconnect_click, metrics_timeout, processes_timeout,
  details_click, process_click, network_refresh_click, log_refresh_click, log_stream_start_click,
  log_stream_stop_click, service_refresh_click, service_click, diagnostic_create_click,
  close_dialog, Event, user, signal, click, react, window_after, main_window, built_controls,
}
use edge_scpoe.Window.Consistency.{
  IsConsistent, AfterConsistent, connected-IsConsistent, disconnected-IsConsistent,
  stopped-IsConsistent, created-IsConsistent, if-AfterConsistent, enabled-AfterConsistent,
  quiet-IsConsistent, streaming-IsConsistent, connecting-IsConsistent, closed-AfterConsistent,
}

module _ {D : Type 0} (q : Qt D) where
  handle-AfterConsistent :
      (s : Signal D) (w : MainWindow D) → IsConsistent w.controls → AfterConsistent (handle q s w)
  unfolding AfterConsistent handle handle_connected handle_disconnected handle_log_stream_stopped
      diagnostic_completed handle_rpc_error update_metrics update_processes update_process_details
      update_network update_logs update_log_content update_services update_diagnostic_progress
  handle-AfterConsistent (connected info) w h = connected-IsConsistent w.controls
  handle-AfterConsistent disconnected w h = disconnected-IsConsistent w.controls
  handle-AfterConsistent log_stream_stopped w h = stopped-IsConsistent w.controls h
  handle-AfterConsistent (metrics_ready metrics) w h = h
  handle-AfterConsistent (processes_ready processes) w h = h
  handle-AfterConsistent (process_details_ready process) w h = h
  handle-AfterConsistent (network_ready interfaces connections) w h = h
  handle-AfterConsistent (logs_ready logs) w h = h
  handle-AfterConsistent (log_content_ready lines truncated) w h = h
  handle-AfterConsistent (log_line_ready line) w h = h
  handle-AfterConsistent (services_ready services) w h = h
  handle-AfterConsistent (diagnostic_progress received total) w h = h
  handle-AfterConsistent (diagnostic_ready path size) w h = h
  handle-AfterConsistent (operation_succeeded message) w h = h
  handle-AfterConsistent (rpc_error operation message true) w h =
      disconnected-IsConsistent (with_timers false (enable_create_for operation w.controls))
  handle-AfterConsistent (rpc_error operation message false) w h =
      created-IsConsistent operation w.controls h

  service_named-AfterConsistent :
      (button : ServiceButton) (name : Option Bytes) (w : MainWindow D)
      → IsConsistent w.controls
      → AfterConsistent (confirm_service_named q button name w)
  unfolding AfterConsistent confirm_service_named
  service_named-AfterConsistent button Option.none w h = h
  service_named-AfterConsistent button (Option.some name) w h = h

  click-AfterConsistent :
      (c : Click) (w : MainWindow D) → IsConsistent w.controls → AfterConsistent (click q c w)
  unfolding AfterConsistent click Buttons.connect_to_agent disconnect_from_agent
      show_selected_process_details start_streaming read_tail reconnect_to_agent
      confirm_process_control confirm_service_control is_connected
  click-AfterConsistent (connect_click host port) w h =
      enabled-AfterConsistent w.controls.connect_button _ w h
        λ e. if-AfterConsistent _ _ _ h (connecting-IsConsistent w.controls h e)
  click-AfterConsistent (reconnect_click host port) w h =
      enabled-AfterConsistent w.controls.reconnect_button _ w h
        λ e. quiet-IsConsistent w.controls h λ f. absurd (false≢true f)
  click-AfterConsistent disconnect_click w h =
      enabled-AfterConsistent w.controls.disconnect_button _ w h
        λ e. quiet-IsConsistent w.controls h h.2.label_true
  click-AfterConsistent metrics_timeout w h =
      enabled-AfterConsistent w.controls.metrics_timer _ w h λ e. h
  click-AfterConsistent processes_timeout w h =
      enabled-AfterConsistent w.controls.processes_timer _ w h λ e. h
  click-AfterConsistent (details_click selected) w h = if-AfterConsistent _ _ _ h h
  click-AfterConsistent (process_click button selected) w h = if-AfterConsistent _ _ _ h h
  click-AfterConsistent network_refresh_click w h =
      enabled-AfterConsistent w.controls.network_refresh_button _ w h λ e. h
  click-AfterConsistent (log_refresh_click index lines keyword) w h =
      enabled-AfterConsistent w.controls.log_refresh_button _ w h λ e. if-AfterConsistent _ _ _ h h
  click-AfterConsistent (log_stream_start_click index keyword) w h =
      enabled-AfterConsistent w.controls.log_stream_start_button _ w h
        λ e. if-AfterConsistent _ _ _ h (streaming-IsConsistent w.controls h e)
  click-AfterConsistent log_stream_stop_click w h =
      enabled-AfterConsistent w.controls.log_stream_stop_button _ w h λ e. h
  click-AfterConsistent service_refresh_click w h =
      enabled-AfterConsistent w.controls.service_refresh_button _ w h λ e. h
  click-AfterConsistent (service_click button row) w h = service_named-AfterConsistent button _ w h
  click-AfterConsistent diagnostic_create_click w h =
      enabled-AfterConsistent w.controls.diagnostic_create_button _ w h λ e. h
  click-AfterConsistent (close_dialog answer) w h = closed-AfterConsistent w.dialogs answer w h

  react-AfterConsistent :
      (e : Event D) (w : MainWindow D) → IsConsistent w.controls → AfterConsistent (react q e w)
  unfolding react
  react-AfterConsistent (user c) w h = click-AfterConsistent c w h
  react-AfterConsistent (signal s) w h = handle-AfterConsistent s w h

  kept-IsConsistent :
      (events : List (Event D)) (w : MainWindow D)
      → IsConsistent w.controls
      → IsConsistent (window_after q events w).controls
  unfolding window_after AfterConsistent
  kept-IsConsistent [] w h = h
  kept-IsConsistent (e ∷ rest) w h =
      kept-IsConsistent rest ((react q e w).0) (react-AfterConsistent e w h)

  -- From the start on, whatever the user clicks and whatever signals of the worker come, in any order,
  -- the window is consistent: the buttons to disconnect, to reconnect and to refresh the network, the
  -- logs and the services are enabled together, and the address is editable exactly when they are not;
  -- a connect is offered only without such a session, the label says Connected and a log can be started
  -- or stopped only with one, never both; and the timers run together and only under the label Connected.
  pub window_after-IsConsistent :
      (events : List (Event D)) → IsConsistent (window_after q events main_window).controls
  unfolding main_window
  window_after-IsConsistent events =
      kept-IsConsistent events main_window (disconnected-IsConsistent built_controls)
