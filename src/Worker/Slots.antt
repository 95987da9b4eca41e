-- ===== src/Worker/Slots.antt =====
-- The slots of `RpcWorker`: each gives the worker behind it and the signals that it emits, in order.
use edge_scpoe.Base.Int.{ℤ}
use edge_scpoe.Base.{ℕ, Bool, true, false, List, [], ◌∷◌, ◌++◌, Option, none, some, map}
use edge_scpoe.Base.Results.{ok, err}
use edge_scpoe.Text.{Bytes, codes}
use edge_scpoe.Text.Decimal.{to_string, int_to_string}
use edge_scpoe.Rpc.Messages.{
  GetAgentInfoResponse, GetSystemMetricsResponse, ProcessMessage, NetworkInterface, TcpConnection,
  LogSource, ServiceMessage,
}
use edge_scpoe.Logs.{LogReadResult}
use edge_scpoe.Worker.{
  ErrorCode, unavailable, deadline_exceeded, cancelled, other, CallError, Call, StreamThread, idle,
  following, ended, RpcWorker, Signal, connected, disconnected, log_stream_stopped, metrics_ready,
  processes_ready, process_details_ready, network_ready, logs_ready, log_content_ready,
  log_line_ready, services_ready, operation_succeeded, rpc_error,
}
use edge_scpoe.Worker.Convert.{
  convert_metrics, convert_agent_info, convert_process, convert_interface, convert_connection,
  convert_log, convert_service,
}

-- A log stream from where it is stopped: the lines that still arrive, and how the call ends; `none` is
-- the status OK.
pub record LogEnd : Type 0 where
  pub lines : List Bytes
  pub status : Option CallError

unfoldable pub connection_lost : ErrorCode → Bool
connection_lost unavailable = true
connection_lost deadline_exceeded = true
connection_lost cancelled = false
connection_lost other = false

unfoldable pub without_client_if : Bool → RpcWorker → RpcWorker
without_client_if true w = record w { client = none }
without_client_if false w = w

unfoldable pub following_if : Option Bytes → RpcWorker → RpcWorker
following_if none w = w
following_if (some target) w = record w { stream = following }

abbrev pub Emitted : Type 0 → Type 0
Emitted D = RpcWorker × List (Signal D)

-- What a slot emits behind other signals.
abbrev pub behind : {D : Type 0} → List (Signal D) → Emitted D → Emitted D
behind signals (w, more) = (w, signals ++ more)

-- A slot that needs a client does nothing without one.
unfoldable pub with_client : {D : Type 0} → Option Bytes → Emitted D → RpcWorker → Emitted D
with_client none emitted w = (w, [])
with_client (some target) emitted w = emitted

module _ {D : Type 0} (from_std_string : Bytes → Bytes) where
  -- `EmitRpcError`.
  unfoldable pub emit_rpc_error : Bytes → CallError → RpcWorker → Emitted D
  unfolding connection_lost without_client_if
  emit_rpc_error operation e w =
      let lost = connection_lost e.code in
      (without_client_if lost w, rpc_error operation (from_std_string e.message) lost ∷ [])

  -- What the thread emits at the end of its call.
  unfoldable pub stream_error : ErrorCode → Bytes → List (Signal D)
  stream_error cancelled message = []
  stream_error unavailable message =
      rpc_error (codes "StreamLog") (from_std_string message) true ∷ []
  stream_error deadline_exceeded message =
      rpc_error (codes "StreamLog") (from_std_string message) false ∷ []
  stream_error other message = rpc_error (codes "StreamLog") (from_std_string message) false ∷ []

  unfoldable pub stream_end : Option CallError → List (Signal D)
  unfolding stream_error
  stream_end none = log_stream_stopped ∷ []
  stream_end (some e) = stream_error e.code e.message ++ log_stream_stopped ∷ []

  unfoldable pub line_signals : List Bytes → List (Signal D)
  line_signals [] = []
  line_signals (line ∷ rest) = log_line_ready (from_std_string line) ∷ line_signals rest

  unfoldable pub joined_signals : LogEnd → StreamThread → List (Signal D)
  unfolding stream_end line_signals
  joined_signals e following = line_signals e.lines ++ stream_end e.status
  joined_signals e idle = []
  joined_signals e ended = []

  -- `StopLogStream`: cancelling, and waiting for the thread, which emits the rest.
  unfoldable pub stop_log_stream : LogEnd → RpcWorker → Emitted D
  unfolding joined_signals
  stop_log_stream e w = (record w { stream = idle }, joined_signals e w.stream)

  unfoldable pub agent_answered : Call GetAgentInfoResponse → RpcWorker → Emitted D
  unfolding emit_rpc_error convert_agent_info
  agent_answered (ok response) w = (w, connected (convert_agent_info from_std_string response) ∷ [])
  agent_answered (err e) w = emit_rpc_error (codes "Connect") e (record w { client = none })

  -- `ConnectToAgent`.
  unfoldable pub connect_to_agent :
      Bytes → ℕ → LogEnd → Call GetAgentInfoResponse → RpcWorker → Emitted D
  unfolding stop_log_stream agent_answered
  connect_to_agent host port e answer w =
      let stopped = stop_log_stream e w in
      let target = host ++ b':' ∷ to_string port in
      behind (stopped.1) (agent_answered answer (record (stopped.0) { client = some target }))

  -- `DisconnectFromAgent`.
  unfoldable pub disconnect_from_agent : LogEnd → RpcWorker → Emitted D
  unfolding stop_log_stream
  disconnect_from_agent e w =
      let stopped = stop_log_stream e w in
      (record (stopped.0) { client = none }, stopped.1 ++ disconnected ∷ [])

  -- `StartLogStream`.
  unfoldable pub start_log_stream : LogEnd → RpcWorker → Emitted D
  unfolding stop_log_stream following_if
  start_log_stream e w =
      let stopped = stop_log_stream e w in (following_if w.client (stopped.0), stopped.1)

  -- A call, and what is emitted for its response.
  unfoldable pub emit_response :
      {A : Type 0} → Bytes → (A → Signal D) → Call A → RpcWorker → Emitted D
  unfolding emit_rpc_error
  emit_response operation signal (ok response) w = (w, signal response ∷ [])
  emit_response operation signal (err e) w = emit_rpc_error operation e w

  unfoldable pub refresh : {A : Type 0} → Bytes → (A → Signal D) → Call A → RpcWorker → Emitted D
  unfolding with_client emit_response
  refresh operation signal answer w =
      with_client w.client (emit_response operation signal answer w) w

  abbrev pub refresh_metrics : Call (GetSystemMetricsResponse D) → RpcWorker → Emitted D
  refresh_metrics =
      refresh (codes "GetSystemMetrics") λ response. metrics_ready (convert_metrics response)

  abbrev pub refresh_processes : Call (List (ProcessMessage D)) → RpcWorker → Emitted D
  refresh_processes =
      refresh (codes "ListProcesses")
        λ processes. processes_ready (map (convert_process from_std_string) processes)

  abbrev pub get_process_details : Call (ProcessMessage D) → RpcWorker → Emitted D
  get_process_details =
      refresh (codes "GetProcessDetails")
        λ process. process_details_ready (convert_process from_std_string process)

  abbrev pub list_logs : Call (List LogSource) → RpcWorker → Emitted D
  list_logs = refresh (codes "ListLogs") λ logs. logs_ready (map (convert_log from_std_string) logs)

  abbrev pub read_log : Call LogReadResult → RpcWorker → Emitted D
  read_log =
      refresh (codes "ReadLog")
        λ response. log_content_ready (map from_std_string response.lines) response.truncated

  abbrev pub refresh_services : Call (List ServiceMessage) → RpcWorker → Emitted D
  refresh_services =
      refresh (codes "ListServices")
        λ services. services_ready (map (convert_service from_std_string) services)

  -- A control that succeeds is followed by a refresh of its list.
  unfoldable pub control_answered :
      Bytes → Bytes → Call (Unit {0}) → (RpcWorker → Emitted D) → RpcWorker → Emitted D
  unfolding emit_rpc_error
  control_answered operation text (err e) refreshed w = emit_rpc_error operation e w
  control_answered operation text (ok done) refreshed w =
      behind (operation_succeeded text ∷ []) (refreshed w)

  -- `ControlProcess`.
  unfoldable pub control_process :
      ℤ → Call (Unit {0}) → Call (List (ProcessMessage D)) → RpcWorker → Emitted D
  unfolding with_client control_answered
  control_process pid answer processes w =
      let text = codes "Process " ++ int_to_string pid ++ codes " operation succeeded" in
      with_client w.client
        (control_answered (codes "ControlProcess") text answer (refresh_processes processes) w) w

  -- `ControlService`.
  unfoldable pub control_service :
      Bytes → Call (Unit {0}) → Call (List ServiceMessage) → RpcWorker → Emitted D
  unfolding with_client control_answered
  control_service name answer services w =
      let text = codes "Service operation succeeded: " ++ name in
      with_client w.client
        (control_answered (codes "ControlService") text answer (refresh_services services) w) w

  unfoldable pub connections_answered :
      List NetworkInterface → Call (List TcpConnection) → RpcWorker → Emitted D
  unfolding emit_rpc_error
  connections_answered interfaces (err e) w = emit_rpc_error (codes "ListTcpConnections") e w
  connections_answered interfaces (ok connections) w = (
    w,
    network_ready (map (convert_interface from_std_string) interfaces)
          (map (convert_connection from_std_string) connections)
        ∷ [],
  )

  unfoldable pub interfaces_answered :
      Call (List NetworkInterface) → Call (List TcpConnection) → RpcWorker → Emitted D
  unfolding emit_rpc_error connections_answered
  interfaces_answered (err e) connections w = emit_rpc_error (codes "GetNetworkInterfaces") e w
  interfaces_answered (ok interfaces) connections w = connections_answered interfaces connections w

  -- `RefreshNetwork`.
  unfoldable pub refresh_network :
      Call (List NetworkInterface) → Call (List TcpConnection) → RpcWorker → Emitted D
  unfolding with_client interfaces_answered
  refresh_network interfaces connections w =
      with_client w.client (interfaces_answered interfaces connections w) w
