-- ===== src/Transfer/Client.antt =====
-- The receiving side: `on_chunk` and the checks behind it in `CreateAndDownloadDiagnostic`, and the
-- loop of `EdgeScopeClient::DownloadDiagnosticBundle`, which stops reading when `on_chunk` refuses.
use edge_scpoe.Base.{
  ℕ, suc, ◌+◌, Bool, true, false, not, ◌||◌, List, [], ◌∷◌, ◌++◌, ◌==◌, if◌then◌else◌, length,
}
use edge_scpoe.Text.{Bytes}
use edge_scpoe.Transfer.{DiagnosticChunk}
use edge_scpoe.Transfer.Server.{Status, ok}

-- The captured variables: `received`, `local_write_failed` and what `output` took for the local file.
pub record Receiver : Type 0 where
  pub received : ℕ
  pub local_write_failed : Bool
  pub file : Bytes

-- What the user is told; the local file is kept only with `ready`.
pub data Outcome : Type 0 where
  ready : ℕ → Bytes → Outcome
  write_failed rpc_failed size_mismatch : Outcome

-- `created_size` is the size that `CreateDiagnosticBundle` returned; `disk_writes` says whether the
-- stream is good behind the n-th write. The stream has a buffer, so that a write that it took may not
-- be in the file before the stream is closed.
module _ (created_size : ℕ) (disk_writes : ℕ → Bool) where
  unfoldable pub receive : ℕ → Receiver → List DiagnosticChunk → Receiver
  receive n r [] = r
  receive n r (chunk ∷ chunks) =
      let failed = record r { local_write_failed = true } in
      let taken = record r {
        received = r.received + length chunk.chunk_bytes;
        file = r.file ++ chunk.chunk_bytes;
      } in
      let next = receive (suc n) taken chunks in
      if not (chunk.offset == r.received) || not (chunk.total_size_bytes == created_size)
      then failed
      else if not (disk_writes n)
      then failed
      else next

unfoldable pub is_ok : Status → Bool
is_ok ok = true
is_ok _ = false

-- `local_write_failed || !status.ok() || received != created.total_size_bytes()`, and which error.
unfoldable pub judge : ℕ → Status → Receiver → Outcome
unfolding is_ok
judge created_size status r =
    if r.local_write_failed
    then write_failed
    else if not (is_ok status)
    then rpc_failed
    else if not (r.received == created_size)
    then size_mismatch
    else ready r.received r.file

abbrev pub start : Receiver
start = record { received = 0; local_write_failed = false; file = [] }

-- `output.close()`, whose failure is not looked at. `closed` is what the local file then holds of the
-- bytes that the stream took.
unfoldable pub close_file : (Bytes → Bytes) → Receiver → Receiver
close_file closed r = record r { file = closed r.file }

-- The chunks that arrived, and the status.
unfoldable pub save : ℕ → (ℕ → Bool) → (Bytes → Bytes) → List DiagnosticChunk → Status → Outcome
unfolding judge receive close_file
save created_size disk_writes closed chunks status =
    judge created_size status (close_file closed (receive created_size disk_writes 0 start chunks))
