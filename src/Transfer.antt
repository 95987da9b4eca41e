-- ===== src/Transfer.antt =====
-- A diagnostic bundle on its way: `DownloadDiagnosticBundle` of agent/src/EdgeScopeServiceImpl.cpp
-- cuts the archive into chunks, and `CreateAndDownloadDiagnostic` of client/src/RpcWorker.cpp
-- checks them and writes them to a local file. Between the two, the calls of gRPC deliver the chunks
-- that were written, in order, and then the status; they may end early with an error.
pub mod Server
pub mod Client
pub mod Whole
pub mod Complete
mod Tests
use edge_scpoe.Base.{ℕ, Bool, List}
use edge_scpoe.Text.{Bytes}

pub record DiagnosticChunk : Type 0 where
  pub chunk_bytes : Bytes
  pub offset : ℕ
  pub total_size_bytes : ℕ
  pub eof : Bool
