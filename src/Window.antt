-- ===== src/Window.antt =====
-- client/include/MainWindow.h and client/src/MainWindow.cpp: the window. This file has its state and
-- what its handlers bring about; Table is the model behind the table of processes
-- (client/src/ProcessTableModel.cpp), Views fills the tabs, Handlers handles the worker's signals,
-- Buttons the user's clicks, and Actions runs
-- both. Consistency and Runs are about the controls, Requests and Asking about the window's requests,
-- System, Linked, Shown and Held about the window with its worker, and LogTab about a log on its way from
-- the agent. Layout and Qt's own behaviour are not modelled, but
-- for this: a button that is not enabled is not clicked, and a box that waits for the user runs the
-- event loop, so that other handlers run before the code behind it.
pub mod Table
pub mod Views
pub mod Handlers
pub mod Buttons
pub mod Actions
pub mod Consistency
pub mod Runs
pub mod Requests
pub mod Asking
pub mod System
pub mod LogTab
pub mod Linked
pub mod Shown
pub mod Held
mod Tests
use edge_scpoe.Base.Int.{ℤ}
use edge_scpoe.Base.{ℕ, Bool, List}
use edge_scpoe.Base.Floats.{Floats}
use edge_scpoe.Text.{Bytes}
use edge_scpoe.Client.{ProcessData, ServiceData}

-- What the window uses of Qt besides: `double`, `QString::number(_, 'f', _)`, `QString::arg` of one
-- text and of two at once, and `QString::trimmed`.
pub record Qt (D : Type 0) : Type 0 where
  pub floats : Floats D
  pub number : D → ℕ → Bytes
  pub arg : Bytes → Bytes → Bytes
  pub arg_two : Bytes → Bytes → Bytes → Bytes
  pub trimmed : Bytes → Bytes

-- The text of `connection_status_`.
pub data ConnectionStatus : Type 0 where
  disconnected_text connecting_text connected_text reconnecting_text : ConnectionStatus

-- What tells of the connection: the label, the buttons and fields that are enabled, and the timers that
-- are active.
pub record Controls : Type 0 where
  pub connection_status : ConnectionStatus
  pub connect_button : Bool
  pub disconnect_button : Bool
  pub reconnect_button : Bool
  pub network_refresh_button : Bool
  pub log_refresh_button : Bool
  pub log_stream_start_button : Bool
  pub log_stream_stop_button : Bool
  pub service_refresh_button : Bool
  pub diagnostic_create_button : Bool
  pub host_edit : Bool
  pub port_spin : Bool
  pub metrics_timer : Bool
  pub processes_timer : Bool

-- The values of the overview.
pub record Overview : Type 0 where
  pub hostname_value : Bytes
  pub kernel_value : Bytes
  pub agent_version_value : Bytes
  pub uptime_value : Bytes
  pub cpu_value : Bytes
  pub memory_value : Bytes
  pub available_memory_value : Bytes
  pub load_value : Bytes

-- A box that waits for the user, with what the code behind it needs: the question before a control, the
-- choice of a file for a bundle, the warning for an operation that failed.
pub data Dialog : Type 0 where
  confirm_process : ℤ → ℕ → Dialog
  confirm_service : Bytes → ℕ → Dialog
  save_diagnostic : Dialog
  failed : Bytes → Dialog

-- The tables by their rows, the entries of the choice of logs with their ids, the value last set of the
-- progress, and the boxes that are open, the innermost first.
pub record MainWindow (D : Type 0) : Type 0 where
  pub controls : Controls
  pub overview : Overview
  pub process_model : List (ProcessData D)
  pub process_details : Bytes
  pub interface_table : List (List Bytes)
  pub connection_table : List (List Bytes)
  pub service_table : List (List Bytes)
  pub log_source_combo : List (Bytes × Bytes)
  pub diagnostic_progress : ℕ
  pub diagnostic_status : Bytes
  pub dialogs : List Dialog

-- The signals of the window, in the order of the header, and what it shows and goes on.
pub data Effect : Type 0 where
  request_connect : Bytes → ℕ → Effect
  request_disconnect request_metrics request_processes : Effect
  request_process_details : ℤ → Effect
  request_process_control : ℤ → ℕ → Effect
  request_network request_logs : Effect
  request_log_content : Bytes → ℕ → Bytes → Effect
  request_start_log_stream : Bytes → Bytes → Effect
  request_stop_log_stream request_services : Effect
  request_service_control : Bytes → ℕ → Effect
  request_diagnostic : Bytes → Effect
  show_message : Bytes → Effect
  information warning question : Bytes → Bytes → Effect
  set_log_output append_log_output : Bytes → Effect

abbrev pub Handled : Type 0 → Type 0
Handled D = MainWindow D × List Effect
