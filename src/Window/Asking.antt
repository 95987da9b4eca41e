-- ===== src/Window/Asking.antt =====
-- client/src/MainWindow.cpp: the requests that each reaction of the window makes.
use edge_scpoe.Base.{
  Bool, true, false, List, [], ◌∷◌, Option, none, some, refl, All, if_intro, null,
}
use edge_scpoe.Base.Int.{ℤ}
use edge_scpoe.Text.{Bytes, codes, equal}
use edge_scpoe.Worker.{
  Signal, connected, disconnected, log_stream_stopped, metrics_ready, processes_ready,
  process_details_ready, network_ready, logs_ready, log_content_ready, log_line_ready,
  services_ready, diagnostic_progress, diagnostic_ready, operation_succeeded, rpc_error,
}
use edge_scpoe.Window.{
  Qt, MainWindow, Dialog, confirm_process, confirm_service, save_diagnostic, failed, Handled,
}
use edge_scpoe.Window.Handlers.{
  handle, handle_rpc_error, handle_connected, handle_disconnected, handle_log_stream_stopped,
  diagnostic_completed,
}
use edge_scpoe.Window.Views.{
  update_metrics, update_processes, update_process_details, update_network, update_logs,
  update_log_content, update_services, update_diagnostic_progress,
}
use edge_scpoe.Window.Buttons
use edge_scpoe.Window.Buttons.{
  not_positive, Answer, ProcessButton, ServiceButton, when_enabled, disconnect_from_agent,
  show_selected_process_details, start_streaming, read_tail, saved_at, answered, closed,
  reconnect_to_agent, confirm_process_control, confirm_service_control, confirm_service_named,
  selected_pid, pid_or_zero, current_log_id,
}
use edge_scpoe.Window.Actions.{
  Click, connect_click, reconnect_click, disconnect_click, metrics_timeout, processes_timeout,
  details_click, process_click, network_refresh_click, log_refresh_click, log_stream_start_click,
  log_stream_stop_click, service_refresh_click, service_click, diagnostic_create_click,
  close_dialog, Event, user, signal, click, react, window_after, main_window,
}
use edge_scpoe.Window.Requests.{IsAskedFor, IsPositive, Asked, selected-IsListed}

effects-Asked :
    {D : Type 0} (e : Event D) (w : MainWindow D) (x : Handled D)
    → All (IsAskedFor e w) x.1
    → All IsPositive x.0.dialogs
    → Asked e w x
unfolding Asked
effects-Asked e w x h k = (h, k)

enabled-Asked :
    {D : Type 0} (e : Event D) (b : Bool) (x : Handled D) (w : MainWindow D)
    → All IsPositive w.dialogs
    → Asked e w x
    → Asked e w (when_enabled b x w)
unfolding when_enabled Asked
enabled-Asked e true x w k h = h
enabled-Asked e false x w k h = (tt, k)

closed-Asked :
    {D : Type 0} (dialogs : List Dialog) (a : Answer) (w : MainWindow D)
    → All IsPositive dialogs
    → let before = record w { dialogs = dialogs } in
      Asked (user (close_dialog a)) before (closed dialogs a before)
unfolding closed answered saved_at Asked
closed-Asked [] a w h = (tt, tt)
closed-Asked (confirm_process pid action ∷ rest) a w (h, k) =
    if_intro
      (Asked (user (close_dialog a)) (record w { dialogs = confirm_process pid action ∷ rest }))
      a.yes_button _ _ (λ t. (((h, (t, refl)), tt), k)) λ t. (tt, k)
closed-Asked (confirm_service name action ∷ rest) a w (h, k) =
    if_intro
      (Asked (user (close_dialog a)) (record w { dialogs = confirm_service name action ∷ rest }))
      a.yes_button _ _ (λ t. (((t, refl), tt), k)) λ t. (tt, k)
closed-Asked (save_diagnostic ∷ rest) a w (h, k) =
    if_intro (Asked (user (close_dialog a)) (record w { dialogs = save_diagnostic ∷ rest }))
      (null a.path) _ _ (λ t. (tt, k)) λ t. ((tt, tt), k)
closed-Asked (failed operation ∷ rest) a w (h, k) =
    if_intro (Asked (user (close_dialog a)) (record w { dialogs = failed operation ∷ rest }))
      (equal operation (codes "Connect")) _ _ (λ t. (tt, k)) λ t. (tt, k)

module _ {D : Type 0} (q : Qt D) where
  handle-Asked :
      (s : Signal D) (w : MainWindow D)
      → All IsPositive w.dialogs
      → Asked (signal s) w (handle q s w)
  unfolding Asked handle handle_connected handle_disconnected handle_log_stream_stopped
      diagnostic_completed handle_rpc_error update_metrics update_processes update_process_details
      update_network update_logs update_log_content update_services update_diagnostic_progress
  handle-Asked (connected info) w h = ((tt, (tt, (tt, (tt, (tt, tt))))), h)
  handle-Asked disconnected w h = ((tt, tt), h)
  handle-Asked log_stream_stopped w h = (tt, h)
  handle-Asked (metrics_ready metrics) w h = (tt, h)
  handle-Asked (processes_ready processes) w h = ((tt, tt), h)
  handle-Asked (process_details_ready process) w h = (tt, h)
  handle-Asked (network_ready interfaces connections) w h = ((tt, tt), h)
  handle-Asked (logs_ready logs) w h = (tt, h)
  handle-Asked (log_content_ready lines truncated) w h = ((tt, (tt, tt)), h)
  handle-Asked (log_line_ready line) w h = ((tt, tt), h)
  handle-Asked (services_ready services) w h = ((tt, tt), h)
  handle-Asked (diagnostic_progress received total) w h = (tt, h)
  handle-Asked (diagnostic_ready path size) w h = ((tt, tt), h)
  handle-Asked (operation_succeeded message) w h = ((tt, tt), h)
  handle-Asked (rpc_error operation message true) w h = ((tt, (tt, (tt, tt))), h)
  handle-Asked (rpc_error operation message false) w h = ((tt, (tt, tt)), (tt, h))

  service_named-Asked :
      (e : Event D) (button : ServiceButton) (name : Option Bytes) (w : MainWindow D)
      → All IsPositive w.dialogs
      → Asked e w (confirm_service_named q button name w)
  unfolding confirm_service_named Asked
  service_named-Asked e button none w h = ((tt, tt), h)
  service_named-Asked e button (some name) w h = ((tt, tt), (tt, h))

  details-Asked :
      (e : Event D) (selected : Option ℤ) (w : MainWindow D)
      → All IsPositive w.dialogs
      → Asked e w (show_selected_process_details selected w)
  unfolding show_selected_process_details Asked
  details-Asked e selected w h =
      if_intro (Asked e w) (not_positive (selected_pid selected w)) _ _ (λ t. ((tt, tt), h))
        λ f. ((selected-IsListed selected w f, tt), h)

  process-Asked :
      (e : Event D) (button : ProcessButton) (selected : Option ℤ) (w : MainWindow D)
      → All IsPositive w.dialogs
      → Asked e w (confirm_process_control q button selected w)
  unfolding confirm_process_control Asked
  process-Asked e button selected w h =
      if_intro (Asked e w) (not_positive (selected_pid selected w)) _ _ (λ t. ((tt, tt), h))
        λ f. ((tt, tt), ((selected-IsListed selected w f).0, h))

  click-Asked :
      (c : Click) (w : MainWindow D) → All IsPositive w.dialogs → Asked (user c) w (click q c w)
  unfolding click Buttons.connect_to_agent disconnect_from_agent start_streaming read_tail
      reconnect_to_agent confirm_service_control
  click-Asked (connect_click host port) w h = enabled-Asked _ w.controls.connect_button _ w h (
      if_intro (Asked (user (connect_click host port)) w) (null (q.trimmed host)) _ _
        (λ t. effects-Asked _ w _ (tt, tt) h) λ t. effects-Asked _ w _ (tt, tt) h)
  click-Asked (reconnect_click host port) w h =
      enabled-Asked _ w.controls.reconnect_button _ w h (effects-Asked _ w _ (tt, (tt, (tt, tt))) h)
  click-Asked disconnect_click w h =
      enabled-Asked _ w.controls.disconnect_button _ w h (effects-Asked _ w _ (tt, (tt, tt)) h)
  click-Asked metrics_timeout w h =
      enabled-Asked _ w.controls.metrics_timer _ w h (effects-Asked _ w _ (tt, tt) h)
  click-Asked processes_timeout w h =
      enabled-Asked _ w.controls.processes_timer _ w h (effects-Asked _ w _ (tt, tt) h)
  click-Asked (details_click selected) w h = details-Asked _ selected w h
  click-Asked (process_click button selected) w h = process-Asked _ button selected w h
  click-Asked network_refresh_click w h =
      enabled-Asked _ w.controls.network_refresh_button _ w h (effects-Asked _ w _ (tt, tt) h)
  click-Asked (log_refresh_click index lines keyword) w h =
      enabled-Asked _ w.controls.log_refresh_button _ w h (
        if_intro (Asked (user (log_refresh_click index lines keyword)) w)
          (null (current_log_id index w.log_source_combo)) _ _ (λ t. effects-Asked _ w _ (tt, tt) h)
          λ t. effects-Asked _ w _ (tt, tt) h)
  click-Asked (log_stream_start_click index keyword) w h =
      enabled-Asked _ w.controls.log_stream_start_button _ w h (
        if_intro (Asked (user (log_stream_start_click index keyword)) w)
          (null (current_log_id index w.log_source_combo)) _ _ (λ t. effects-Asked _ w _ (tt, tt) h)
          λ t. effects-Asked _ w _ (tt, tt) h)
  click-Asked log_stream_stop_click w h =
      enabled-Asked _ w.controls.log_stream_stop_button _ w h (effects-Asked _ w _ (tt, tt) h)
  click-Asked service_refresh_click w h =
      enabled-Asked _ w.controls.service_refresh_button _ w h (effects-Asked _ w _ (tt, tt) h)
  click-Asked (service_click button row) w h = service_named-Asked _ button _ w h
  click-Asked diagnostic_create_click w h =
      enabled-Asked _ w.controls.diagnostic_create_button _ w h (effects-Asked _ w _ tt (tt, h))
  click-Asked (close_dialog answer) w h = closed-Asked w.dialogs answer w h

  react-Asked :
      (e : Event D) (w : MainWindow D) → All IsPositive w.dialogs → Asked e w (react q e w)
  unfolding react
  react-Asked (user c) w h = click-Asked c w h
  react-Asked (signal s) w h = handle-Asked s w h

  kept-IsPositive :
      (events : List (Event D)) (w : MainWindow D)
      → All IsPositive w.dialogs
      → All IsPositive (window_after q events w).dialogs
  unfolding window_after Asked
  kept-IsPositive [] w h = h
  kept-IsPositive (e ∷ rest) w h = kept-IsPositive rest ((react q e w).0) ((react-Asked e w h).1)

  -- Whatever events have come to the window since its start, what it requests at the next event is
  -- asked for: to control a process or a service only when the event is a Yes in the innermost box, and
  -- that box asks for just this control; a process only by a positive pid; and details only of a
  -- positive pid that a row of the table has.
  pub react-IsAskedFor :
      (events : List (Event D)) (e : Event D)
      → let w = window_after q events main_window in All (IsAskedFor e w) ((react q e w).1)
  unfolding main_window Asked
  react-IsAskedFor events e =
      (react-Asked e (window_after q events main_window) (kept-IsPositive events main_window tt)).0
