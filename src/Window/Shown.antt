-- ===== src/Window/Shown.antt =====
-- client/src/MainWindow.cpp: what the window's reactions make of the session that it shows.
use edge_scpoe.Base.{
  Bool, true, false, not, ◌&&◌, ◌||◌, List, [], ◌∷◌, Option, none, some, ◌≡◌, refl, sym, ◌∙◌, subst,
  any, if◌then◌else◌, if_intro, null,
}
use mathlib.Core.Bool.{false≢true}
use edge_scpoe.Text.{Bytes, codes, equal}
use edge_scpoe.Worker.{
  Signal, connected, disconnected, log_stream_stopped, metrics_ready, processes_ready,
  process_details_ready, network_ready, logs_ready, log_content_ready, log_line_ready,
  services_ready, diagnostic_progress, diagnostic_ready, operation_succeeded, rpc_error,
}
use edge_scpoe.Window.{
  Qt, Controls, MainWindow, Dialog, confirm_process, confirm_service, save_diagnostic, failed,
  Handled,
}
use edge_scpoe.Window.Handlers.{
  is_connected, with_timers, enable_create_for, set_connected, log_stopped, handle,
  handle_rpc_error, handle_connected, handle_disconnected, handle_log_stream_stopped,
  diagnostic_completed,
}
use edge_scpoe.Window.Views.{
  update_metrics, update_processes, update_process_details, update_network, update_logs,
  update_log_content, update_services, update_diagnostic_progress,
}
use edge_scpoe.Window.Buttons
use edge_scpoe.Window.Buttons.{
  not_positive, Answer, ProcessButton, ServiceButton, when_enabled, disconnect_from_agent,
  show_selected_process_details, start_streaming, read_tail, saved_at, answered, closed,
  reconnect_to_agent, confirm_process_control, confirm_service_control, confirm_service_named,
  selected_pid, current_log_id,
}
use edge_scpoe.Window.Actions.{
  Click, connect_click, reconnect_click, disconnect_click, metrics_timeout, processes_timeout,
  details_click, process_click, network_refresh_click, log_refresh_click, log_stream_start_click,
  log_stream_stop_click, service_refresh_click, service_click, diagnostic_create_click,
  close_dialog, click,
}
use edge_scpoe.Window.System.{refuses, linked, linked_by}

-- A window that shows a session did so before.
unfoldable pub Fades : {D : Type 0} → Bool → Handled D → Type 0
Fades before handled = linked handled.0 ≡ true → before ≡ true

-- The conjunctions of `linked` with one more box.
moved_conjunct : (a b c : Bool) → (a && not (b || c)) ≡ true → ((a && not c) && not b) ≡ true
moved_conjunct true false false h = refl
moved_conjunct true true c h = absurd (false≢true h)
moved_conjunct true false true h = absurd (false≢true h)
moved_conjunct false b c h = absurd (false≢true h)

enabled_status :
    (operation : Bytes) (c : Controls)
    → (enable_create_for operation c).connection_status ≡ c.connection_status
unfolding enable_create_for
enabled_status operation c =
    if_intro (λ (set : Controls). set.connection_status ≡ c.connection_status) _ _ _ (λ t. refl)
      λ t. refl

if-Fades :
    {D : Type 0} (before : Bool) (b : Bool) (x y : Handled D)
    → Fades before x
    → Fades before y
    → Fades before (if b then x else y)
if-Fades before b x y h k = if_intro (Fades before) b x y (λ t. h) λ t. k

enabled-Fades :
    {D : Type 0} (b : Bool) (x : Handled D) (w : MainWindow D)
    → Fades (linked w) x
    → Fades (linked w) (when_enabled b x w)
unfolding Fades when_enabled
enabled-Fades true x w h = h
enabled-Fades false x w h = λ e. e

kept-Fades : {D : Type 0} (before : Bool) (x : Handled D) → linked x.0 ≡ before → Fades before x
unfolding Fades
kept-Fades before x h e = sym h ∙ e

gone-Fades : {D : Type 0} (before : Bool) (x : Handled D) → linked x.0 ≡ false → Fades before x
unfolding Fades
gone-Fades before x h e = absurd (false≢true (sym h ∙ e))

module _ {D : Type 0} (q : Qt D) where
  -- A signal that the window handles shows no more than it tells.
  pub handle-linked_by :
      (s : Signal D) (w : MainWindow D)
      → linked (handle q s w).0 ≡ true
      → linked_by s (linked w) ≡ true
  unfolding linked linked_by refuses is_connected handle handle_connected handle_disconnected
      handle_log_stream_stopped diagnostic_completed handle_rpc_error update_metrics
      update_processes update_process_details update_network update_logs update_log_content
      update_services update_diagnostic_progress set_connected with_timers log_stopped
  handle-linked_by (connected info) w e = refl
  handle-linked_by disconnected w e = e
  handle-linked_by log_stream_stopped w e = e
  handle-linked_by (metrics_ready metrics) w e = e
  handle-linked_by (processes_ready processes) w e = e
  handle-linked_by (process_details_ready process) w e = e
  handle-linked_by (network_ready interfaces connections) w e = e
  handle-linked_by (logs_ready logs) w e = e
  handle-linked_by (log_content_ready lines truncated) w e = e
  handle-linked_by (log_line_ready line) w e = e
  handle-linked_by (services_ready services) w e = e
  handle-linked_by (diagnostic_progress received total) w e = e
  handle-linked_by (diagnostic_ready path size) w e = e
  handle-linked_by (operation_succeeded message) w e = e
  handle-linked_by (rpc_error operation message true) w e = e
  handle-linked_by (rpc_error operation message false) w e =
      moved_conjunct (is_connected w.controls.connection_status) (equal operation (codes "Connect"))
        (any refuses w.dialogs)
        (subst
          (λ status.
            (is_connected status
              && not (equal operation (codes "Connect") || any refuses w.dialogs))
            ≡ true)
          (enabled_status operation w.controls) e)

  service_named-Fades :
      (button : ServiceButton) (name : Option Bytes) (w : MainWindow D)
      → Fades (linked w) (confirm_service_named q button name w)
  unfolding Fades confirm_service_named linked refuses
  service_named-Fades button none w = λ e. e
  service_named-Fades button (some name) w = λ e. e

  failed-Fades :
      (operation : Bytes) (rest : List Dialog) (a : Answer) (w : MainWindow D)
      → Fades
          (is_connected w.controls.connection_status
            && not (equal operation (codes "Connect") || any refuses rest))
          (answered (failed operation) a (record w { dialogs = rest }))
  unfolding Fades answered linked set_connected with_timers is_connected
  failed-Fades operation rest a w =
      if_intro
        (Fades (
          is_connected w.controls.connection_status
          && not (equal operation (codes "Connect") || any refuses rest)))
        (equal operation (codes "Connect")) _ _ (λ t e. absurd (false≢true e))
        λ f e.
          subst
            (λ b. (is_connected w.controls.connection_status && not (b || any refuses rest)) ≡ true)
            (sym f) e

  closed-Fades :
      (dialogs : List Dialog) (a : Answer) (w : MainWindow D)
      → Fades
          (is_connected w.controls.connection_status && not (any refuses dialogs))
          (closed dialogs a (record w { dialogs = dialogs }))
  unfolding Fades closed linked refuses answered saved_at
  closed-Fades [] a w = λ e. e
  closed-Fades (confirm_process pid action ∷ rest) a w = if-Fades _ a.yes_button _ _ (λ e. e) λ e. e
  closed-Fades (confirm_service name action ∷ rest) a w =
      if-Fades _ a.yes_button _ _ (λ e. e) λ e. e
  closed-Fades (save_diagnostic ∷ rest) a w = if-Fades _ (null a.path) _ _ (λ e. e) λ e. e
  closed-Fades (failed operation ∷ rest) a w = failed-Fades operation rest a w

  pub click-Fades : (c : Click) (w : MainWindow D) → Fades (linked w) ((click q c w))
  unfolding click linked refuses is_connected Buttons.connect_to_agent disconnect_from_agent
      show_selected_process_details start_streaming read_tail reconnect_to_agent
      confirm_process_control confirm_service_control with_timers
  click-Fades (connect_click host port) w = enabled-Fades w.controls.connect_button _ w (
      if-Fades (linked w) (null (q.trimmed host)) _ _ (kept-Fades (linked w) _ refl)
        (gone-Fades (linked w) _ refl))
  click-Fades (reconnect_click host port) w =
      enabled-Fades w.controls.reconnect_button _ w (gone-Fades (linked w) _ refl)
  click-Fades disconnect_click w =
      enabled-Fades w.controls.disconnect_button _ w (kept-Fades (linked w) _ refl)
  click-Fades metrics_timeout w =
      enabled-Fades w.controls.metrics_timer _ w (kept-Fades (linked w) _ refl)
  click-Fades processes_timeout w =
      enabled-Fades w.controls.processes_timer _ w (kept-Fades (linked w) _ refl)
  click-Fades (details_click selected) w =
      if-Fades (linked w) (not_positive (selected_pid selected w)) _ _
        (kept-Fades (linked w) _ refl) (kept-Fades (linked w) _ refl)
  click-Fades (process_click button selected) w =
      if-Fades (linked w) (not_positive (selected_pid selected w)) _ _
        (kept-Fades (linked w) _ refl) (kept-Fades (linked w) _ refl)
  click-Fades network_refresh_click w =
      enabled-Fades w.controls.network_refresh_button _ w (kept-Fades (linked w) _ refl)
  click-Fades (log_refresh_click index lines keyword) w =
      enabled-Fades w.controls.log_refresh_button _ w (
        if-Fades (linked w) (null (current_log_id index w.log_source_combo)) _ _
          (kept-Fades (linked w) _ refl) (kept-Fades (linked w) _ refl))
  click-Fades (log_stream_start_click index keyword) w =
      enabled-Fades w.controls.log_stream_start_button _ w (
        if-Fades (linked w) (null (current_log_id index w.log_source_combo)) _ _
          (kept-Fades (linked w) _ refl) (kept-Fades (linked w) _ refl))
  click-Fades log_stream_stop_click w =
      enabled-Fades w.controls.log_stream_stop_button _ w (kept-Fades (linked w) _ refl)
  click-Fades service_refresh_click w =
      enabled-Fades w.controls.service_refresh_button _ w (kept-Fades (linked w) _ refl)
  click-Fades (service_click button row) w = service_named-Fades button _ w
  click-Fades diagnostic_create_click w =
      enabled-Fades w.controls.diagnostic_create_button _ w (kept-Fades (linked w) _ refl)
  click-Fades (close_dialog answer) w = closed-Fades w.dialogs answer w
