-- ===== src/Window/System.antt =====
-- The window and its worker together. The worker's signals are queued to the window's thread: the window
-- handles them in their order, when it comes to it, and the user and the worker go on meanwhile.
use edge_scpoe.Base.{Bool, true, false, not, ◌&&◌, List, [], ◌∷◌, ◌++◌, none, any}
use edge_scpoe.Text.{Bytes, codes, equal}
use edge_scpoe.Worker.{
  RpcWorker, idle, Signal, connected, disconnected, log_stream_stopped, metrics_ready,
  processes_ready, process_details_ready, network_ready, logs_ready, log_content_ready,
  log_line_ready, services_ready, diagnostic_progress, diagnostic_ready, operation_succeeded,
  rpc_error,
}
use edge_scpoe.Worker.Actions.{Action, perform}
use edge_scpoe.Window.{
  Qt, MainWindow, Dialog, confirm_process, confirm_service, save_diagnostic, failed,
}
use edge_scpoe.Window.Handlers.{is_connected, handle}
use edge_scpoe.Window.Actions.{Click, click, main_window}

-- The signals that the window has not handled yet, the oldest first.
pub record System (D : Type 0) : Type 0 where
  pub window : MainWindow D
  pub signals : List (Signal D)
  pub worker : RpcWorker

-- The box of a connect that failed, behind which the window gives the session up.
unfoldable pub refuses : Dialog → Bool
refuses (failed operation) = equal operation (codes "Connect")
refuses (confirm_process pid action) = false
refuses (confirm_service name action) = false
refuses save_diagnostic = false

-- The window shows a session.
unfoldable pub linked : {D : Type 0} → MainWindow D → Bool
unfolding is_connected refuses
linked w = is_connected w.controls.connection_status && not (any refuses w.dialogs)

-- What a signal makes of that.
unfoldable pub linked_by : {D : Type 0} → Signal D → Bool → Bool
linked_by (connected info) l = true
linked_by disconnected l = false
linked_by (rpc_error operation message true) l = false
linked_by (rpc_error operation message false) l = l && not (equal operation (codes "Connect"))
linked_by log_stream_stopped l = l
linked_by (metrics_ready metrics) l = l
linked_by (processes_ready processes) l = l
linked_by (process_details_ready process) l = l
linked_by (network_ready interfaces connections) l = l
linked_by (logs_ready logs) l = l
linked_by (log_content_ready lines truncated) l = l
linked_by (log_line_ready line) l = l
linked_by (services_ready services) l = l
linked_by (diagnostic_progress received total) l = l
linked_by (diagnostic_ready path size) l = l
linked_by (operation_succeeded message) l = l

unfoldable pub linked_after : {D : Type 0} → List (Signal D) → Bool → Bool
unfolding linked_by
linked_after [] l = l
linked_after (s ∷ rest) l = linked_after rest (linked_by s l)

-- The systems that come about: the user clicks, the window handles the oldest signal, or the worker runs
-- a slot or its thread goes on, whatever the calls give.
pub data Reachable {D : Type 0} (q : Qt D) (from_std_string : Bytes → Bytes)
    : System D → Type 0 where
  starts : Reachable q from_std_string (record {
    window = main_window;
    signals = [];
    worker = record { client = none; stream = idle };
  })
  clicks :
      {s : System D} (c : Click)
      → Reachable q from_std_string s
      → Reachable q from_std_string (record s { window = (click q c s.window).0 })
  handles :
      {w : MainWindow D} {x : Signal D} {rest : List (Signal D)} {worker : RpcWorker}
      → Reachable q from_std_string (record { window = w; signals = x ∷ rest; worker = worker })
      → Reachable q from_std_string
          (record { window = (handle q x w).0; signals = rest; worker = worker })
  works :
      {s : System D} (a : Action D)
      → Reachable q from_std_string s
      → Reachable q from_std_string (record s {
        signals = s.signals ++ (perform from_std_string a s.worker).1;
        worker = (perform from_std_string a s.worker).0;
      })
