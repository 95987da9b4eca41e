-- ===== src/Window/Actions.antt =====
-- Runs of the window: clicks, timers, boxes that close, and signals of the worker.
use edge_scpoe.Base.{ℕ, true, false, List, [], ◌∷◌, Option}
use edge_scpoe.Base.Int.{ℤ}
use edge_scpoe.Text.{Bytes, codes}
use edge_scpoe.Worker.{Signal}
use edge_scpoe.Window.{
  Qt, disconnected_text, Controls, Overview, MainWindow, Handled, request_metrics,
  request_processes, request_network, request_services, request_stop_log_stream,
}
use edge_scpoe.Window.Handlers.{set_connected, handle}
use edge_scpoe.Window.Buttons
use edge_scpoe.Window.Buttons.{
  Answer, ProcessButton, ServiceButton, when_enabled, disconnect_from_agent,
  show_selected_process_details, start_streaming, read_tail, create_diagnostic, closed,
  reconnect_to_agent, confirm_process_control, confirm_service_control,
}

-- A host and a port, a row that is selected, and the fields of the log tab are as the user left them.
pub data Click : Type 0 where
  connect_click reconnect_click : Bytes → ℕ → Click
  disconnect_click : Click
  metrics_timeout processes_timeout : Click
  details_click : Option ℤ → Click
  process_click : ProcessButton → Option ℤ → Click
  network_refresh_click : Click
  log_refresh_click : Option ℕ → ℕ → Bytes → Click
  log_stream_start_click : Option ℕ → Bytes → Click
  log_stream_stop_click service_refresh_click : Click
  service_click : ServiceButton → ℤ → Click
  diagnostic_create_click : Click
  close_dialog : Answer → Click

-- What the window reacts to.
pub data Event (D : Type 0) : Type 0 where
  user : Click → Event D
  signal : Signal D → Event D

-- The controls as `BuildUi` leaves them, and behind the constructor.
abbrev pub built_controls : Controls
built_controls = record {
  connection_status = disconnected_text;
  connect_button = true;
  disconnect_button = true;
  reconnect_button = true;
  network_refresh_button = true;
  log_refresh_button = true;
  log_stream_start_button = true;
  log_stream_stop_button = true;
  service_refresh_button = true;
  diagnostic_create_button = true;
  host_edit = true;
  port_spin = true;
  metrics_timer = false;
  processes_timer = false;
}

abbrev pub dashes : Overview
dashes = record {
  hostname_value = b'-' ∷ [];
  kernel_value = b'-' ∷ [];
  agent_version_value = b'-' ∷ [];
  uptime_value = b'-' ∷ [];
  cpu_value = b'-' ∷ [];
  memory_value = b'-' ∷ [];
  available_memory_value = b'-' ∷ [];
  load_value = b'-' ∷ [];
}

unfoldable pub main_window : {D : Type 0} → MainWindow D
unfolding set_connected
main_window = record {
  controls = set_connected false built_controls;
  overview = dashes;
  process_model = [];
  process_details = [];
  interface_table = [];
  connection_table = [];
  service_table = [];
  log_source_combo = [];
  diagnostic_progress = 0;
  diagnostic_status = codes "No diagnostic bundle downloaded.";
  dialogs = [];
}

module _ {D : Type 0} (q : Qt D) where
  unfoldable pub click : Click → MainWindow D → Handled D
  unfolding when_enabled
  click (connect_click host port) w =
      when_enabled (w.controls.connect_button) (Buttons.connect_to_agent q host port w) w
  click (reconnect_click host port) w =
      when_enabled (w.controls.reconnect_button) (reconnect_to_agent q host port w) w
  click disconnect_click w = when_enabled (w.controls.disconnect_button) (disconnect_from_agent w) w
  click metrics_timeout w = when_enabled (w.controls.metrics_timer) (w, request_metrics ∷ []) w
  click processes_timeout w =
      when_enabled (w.controls.processes_timer) (w, request_processes ∷ []) w
  click (details_click selected) w = show_selected_process_details selected w
  click (process_click button selected) w = confirm_process_control q button selected w
  click network_refresh_click w =
      when_enabled (w.controls.network_refresh_button) (w, request_network ∷ []) w
  click (log_refresh_click index lines keyword) w =
      when_enabled (w.controls.log_refresh_button) (read_tail index lines keyword w) w
  click (log_stream_start_click index keyword) w =
      when_enabled (w.controls.log_stream_start_button) (start_streaming index keyword w) w
  click log_stream_stop_click w =
      when_enabled (w.controls.log_stream_stop_button) (w, request_stop_log_stream ∷ []) w
  click service_refresh_click w =
      when_enabled (w.controls.service_refresh_button) (w, request_services ∷ []) w
  click (service_click button row) w = confirm_service_control q button row w
  click diagnostic_create_click w =
      when_enabled (w.controls.diagnostic_create_button) (create_diagnostic w) w
  click (close_dialog answer) w = closed w.dialogs answer w

  unfoldable pub react : Event D → MainWindow D → Handled D
  unfolding click
  react (user c) w = click c w
  react (signal s) w = handle q s w

  -- The window behind a row of events, the first of the list first.
  unfoldable pub window_after : List (Event D) → MainWindow D → MainWindow D
  unfolding react
  window_after [] w = w
  window_after (e ∷ rest) w = window_after rest ((react e w).0)
