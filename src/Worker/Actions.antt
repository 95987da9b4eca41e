-- ===== src/Worker/Actions.antt =====
-- Runs of the worker: the slots that the window's requests call, one after the other, and what the
-- thread that follows a log does between them.
use edge_scpoe.Base.Int.{ℤ}
use edge_scpoe.Base.{ℕ, Bool, List, [], ◌∷◌, Option}
use edge_scpoe.Text.{Bytes}
use edge_scpoe.Diagnostics.{CreateDiagnosticBundleResponse}
use edge_scpoe.Transfer.{DiagnosticChunk}
use edge_scpoe.Rpc.Messages.{
  GetAgentInfoResponse, GetSystemMetricsResponse, ProcessMessage, NetworkInterface, TcpConnection,
  LogSource, ServiceMessage,
}
use edge_scpoe.Logs.{LogReadResult}
use edge_scpoe.Worker.{
  CallError, Call, StreamThread, idle, following, ended, RpcWorker, log_line_ready,
}
use edge_scpoe.Worker.Slots
use edge_scpoe.Worker.Download
use edge_scpoe.Worker.Slots.{LogEnd, Emitted, behind, stream_end}

-- A slot with what its calls give, a line that the thread reads, or the end of the thread's call.
pub data Action (D : Type 0) : Type 0 where
  connect_to_agent : Bytes → ℕ → LogEnd → Call GetAgentInfoResponse → Action D
  disconnect_from_agent start_log_stream stop_log_stream : LogEnd → Action D
  refresh_metrics : Call (GetSystemMetricsResponse D) → Action D
  refresh_processes : Call (List (ProcessMessage D)) → Action D
  get_process_details : Call (ProcessMessage D) → Action D
  control_process : ℤ → Call (Unit {0}) → Call (List (ProcessMessage D)) → Action D
  refresh_network : Call (List NetworkInterface) → Call (List TcpConnection) → Action D
  list_logs : Call (List LogSource) → Action D
  read_log : Call LogReadResult → Action D
  refresh_services : Call (List ServiceMessage) → Action D
  control_service : Bytes → Call (Unit {0}) → Call (List ServiceMessage) → Action D
  create_and_download_diagnostic :
      Bytes
      → Bool
      → (ℕ → Bool)
      → Call CreateDiagnosticBundleResponse
      → List DiagnosticChunk
      → Call (Unit {0})
      → Action D
  thread_line : Bytes → Action D
  thread_end : Option CallError → Action D

module _ {D : Type 0} (q : Bytes → Bytes) where
  -- The thread's lambda of `StartLogStream`, on a line and at the end of the call.
  unfoldable pub line_read : Bytes → StreamThread → RpcWorker → Emitted D
  line_read line following w = (w, log_line_ready (q line) ∷ [])
  line_read line idle w = (w, [])
  line_read line ended w = (w, [])

  unfoldable pub call_ended : Option CallError → StreamThread → RpcWorker → Emitted D
  unfolding stream_end
  call_ended status following w = (record w { stream = ended }, stream_end q status)
  call_ended status idle w = (w, [])
  call_ended status ended w = (w, [])

  unfoldable pub perform : Action D → RpcWorker → Emitted D
  unfolding line_read call_ended
  perform (connect_to_agent host port e answer) w = Slots.connect_to_agent q host port e answer w
  perform (disconnect_from_agent e) w = Slots.disconnect_from_agent q e w
  perform (start_log_stream e) w = Slots.start_log_stream q e w
  perform (stop_log_stream e) w = Slots.stop_log_stream q e w
  perform (refresh_metrics answer) w = Slots.refresh_metrics q answer w
  perform (refresh_processes answer) w = Slots.refresh_processes q answer w
  perform (get_process_details answer) w = Slots.get_process_details q answer w
  perform (control_process pid answer processes) w = Slots.control_process q pid answer processes w
  perform (refresh_network interfaces connections) w =
      Slots.refresh_network q interfaces connections w
  perform (list_logs answer) w = Slots.list_logs q answer w
  perform (read_log answer) w = Slots.read_log q answer w
  perform (refresh_services answer) w = Slots.refresh_services q answer w
  perform (control_service name answer services) w = Slots.control_service q name answer services w
  perform (create_and_download_diagnostic destination opens disk_writes created chunks status) w =
      Download.create_and_download_diagnostic q destination opens disk_writes created chunks status
        w
  perform (thread_line line) w = line_read line w.stream w
  perform (thread_end status) w = call_ended status w.stream w

  -- The first action of the list first, and all the signals in order.
  unfoldable pub run : List (Action D) → RpcWorker → Emitted D
  unfolding perform
  run [] w = (w, [])
  run (a ∷ rest) w = let done = perform a w in behind (done.1) (run rest (done.0))
