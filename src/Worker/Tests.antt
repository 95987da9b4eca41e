-- ===== src/Worker/Tests.antt =====
-- A run of the worker.
use edge_scpoe.Base.{ℕ, true, false, List, [], ◌∷◌, none}
use edge_scpoe.Base.Results.{ok, err}
use edge_scpoe.Text.{Bytes, codes}
use edge_scpoe.Rpc.Messages.{GetAgentInfoResponse}
use edge_scpoe.Worker.{
  unavailable, cancelled, CallError, idle, RpcWorker, Signal, connected, log_line_ready, rpc_error,
  log_stream_stopped,
}
use edge_scpoe.Worker.Convert.{convert_agent_info}
use edge_scpoe.Worker.Slots.{LogEnd}
use edge_scpoe.Worker.Actions.{
  Action, run, connect_to_agent, start_log_stream, thread_line, thread_end, refresh_metrics,
}
use edge_scpoe.Worker.Session.{Moves}
use edge_scpoe.Worker.Refines.{run-Simulates}

abbrev text_of : Bytes → Bytes
text_of bytes = bytes

abbrev fresh_worker : RpcWorker
fresh_worker = record { client = none; stream = idle }

abbrev no_log : LogEnd
no_log = record { lines = []; status = none }

abbrev agent : GetAgentInfoResponse
agent = record {
  agent_version = codes "0.3.0";
  hostname = codes "edge";
  kernel_version = codes "6.1";
  uptime_seconds = 60;
}

abbrev session_actions : List (Action ℕ)
session_actions =
    connect_to_agent (codes "edge") 50051 no_log (ok agent)
    ∷ start_log_stream no_log
    ∷ thread_line (codes "up")
    ∷ refresh_metrics (err (record { code = unavailable; message = codes "gone" }))
    ∷ thread_end none
    ∷ []

run-Simulates_example :
    Moves ℕ false false
      (connected (convert_agent_info text_of agent)
        ∷ log_line_ready (codes "up")
        ∷ rpc_error (codes "GetSystemMetrics") (codes "gone") true
        ∷ log_stream_stopped
        ∷ [])
      false
      false
unfolding run edge_scpoe.Worker.Slots.connect_to_agent edge_scpoe.Worker.Slots.refresh
    edge_scpoe.Worker.Slots.start_log_stream
run-Simulates_example = run-Simulates text_of session_actions fresh_worker
