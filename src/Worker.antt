-- ===== src/Worker.antt =====
-- client/include/RpcWorker.h and client/src/RpcWorker.cpp: the worker thread of the window. This file
-- has its state and its signals, Convert the conversions of messages, Slots the slots but for the one in
-- Download, and Actions the runs of slots and of the thread that follows a log; Session, Simulates and
-- Refines are about its session with an agent. A call of gRPC gives a response or an error; what it gives
-- is a parameter of the slot, as is what Qt makes of a text's bytes.
pub mod Convert
pub mod Slots
pub mod Download
pub mod Actions
pub mod Session
pub mod Simulates
pub mod Refines
mod Tests
use edge_scpoe.Base.{ℕ, Bool, List, Option}
use edge_scpoe.Base.Results.{Result}
use edge_scpoe.Text.{Bytes}
use edge_scpoe.Client.{
  AgentInfoData, SystemMetricsData, ProcessData, NetworkInterfaceData, TcpConnectionData,
  LogSourceData, ServiceData,
}

-- The error codes of gRPC that the worker tells apart.
pub data ErrorCode : Type 0 where
  unavailable deadline_exceeded cancelled other : ErrorCode

-- A status that is not OK.
pub record CallError : Type 0 where
  pub code : ErrorCode
  pub message : Bytes

abbrev pub Call : Type 0 → Type 0
Call = Result CallError

-- `stream_thread_`: not joinable, following a log, or at its end and not joined yet. The context of
-- its call is there while it is joinable.
pub data StreamThread : Type 0 where
  idle following ended : StreamThread

-- The members: the target of `client_`, if there is one, and the thread.
pub record RpcWorker : Type 0 where
  pub client : Option Bytes
  pub stream : StreamThread

-- The signals.
pub data Signal (D : Type 0) : Type 0 where
  connected : AgentInfoData → Signal D
  disconnected log_stream_stopped : Signal D
  metrics_ready : SystemMetricsData D → Signal D
  processes_ready : List (ProcessData D) → Signal D
  process_details_ready : ProcessData D → Signal D
  network_ready : List NetworkInterfaceData → List TcpConnectionData → Signal D
  logs_ready : List LogSourceData → Signal D
  log_content_ready : List Bytes → Bool → Signal D
  log_line_ready : Bytes → Signal D
  services_ready : List ServiceData → Signal D
  diagnostic_progress : ℕ → ℕ → Signal D
  diagnostic_ready : Bytes → ℕ → Signal D
  operation_succeeded : Bytes → Signal D
  rpc_error : Bytes → Bytes → Bool → Signal D
