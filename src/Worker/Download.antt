-- ===== src/Worker/Download.antt =====
-- The slot `CreateAndDownloadDiagnostic` of client/src/RpcWorker.cpp.
use edge_scpoe.Base.{
  ℕ, suc, ◌+◌, Bool, false, not, ◌||◌, List, [], ◌∷◌, ◌==◌, if◌then◌else◌, length,
}
use edge_scpoe.Base.Results.{ok, err}
use edge_scpoe.Text.{Bytes, codes}
use edge_scpoe.Diagnostics.{CreateDiagnosticBundleResponse}
use edge_scpoe.Transfer.{DiagnosticChunk}
use edge_scpoe.Transfer.Client.{Receiver, receive, start}
use edge_scpoe.Worker.{Call, RpcWorker, Signal, diagnostic_progress, diagnostic_ready, rpc_error}
use edge_scpoe.Worker.Slots.{emit_rpc_error, with_client, behind, Emitted}

module _ {D : Type 0} (from_std_string : Bytes → Bytes) where
  -- The progress that `on_chunk` emits for each chunk that it takes.
  unfoldable pub progress : ℕ → (ℕ → Bool) → ℕ → ℕ → List DiagnosticChunk → List (Signal D)
  progress created_size disk_writes n received [] = []
  progress created_size disk_writes n received (chunk ∷ chunks) =
      let received' = received + length chunk.chunk_bytes in
      let next = progress created_size disk_writes (suc n) received' chunks in
      if not (chunk.offset == received) || not (chunk.total_size_bytes == created_size)
      then []
      else if not (disk_writes n)
      then []
      else diagnostic_progress received' chunk.total_size_bytes ∷ next

  -- The end of `CreateAndDownloadDiagnostic`.
  unfoldable pub received_all : Bytes → ℕ → ℕ → Call (Unit {0}) → RpcWorker → Emitted D
  unfolding emit_rpc_error
  received_all destination created_size received (err e) w =
      emit_rpc_error from_std_string (codes "DownloadDiagnosticBundle") e w
  received_all destination created_size received (ok done) w =
      if not (received == created_size)
      then (
        w,
        rpc_error (codes "DownloadDiagnosticBundle")
              (codes "Downloaded size does not match bundle size") false
            ∷ [],
      )
      else (w, diagnostic_ready destination received ∷ [])

  unfoldable pub judged : Bytes → ℕ → Receiver → Call (Unit {0}) → RpcWorker → Emitted D
  unfolding received_all
  judged destination created_size r status w =
      if r.local_write_failed
      then (
        w,
        rpc_error (codes "DownloadDiagnosticBundle")
              (codes "Local write failed or chunk sequence was invalid") false
            ∷ [],
      )
      else received_all destination created_size r.received status w

  unfoldable pub downloaded :
      Bytes → ℕ → (ℕ → Bool) → List DiagnosticChunk → Call (Unit {0}) → RpcWorker → Emitted D
  unfolding progress judged receive
  downloaded destination created_size disk_writes chunks status w =
      behind (progress created_size disk_writes 0 0 chunks)
        (judged destination created_size (receive created_size disk_writes 0 start chunks) status w)

  unfoldable pub bundle_created :
      Bytes
      → Bool
      → (ℕ → Bool)
      → List DiagnosticChunk
      → Call (Unit {0})
      → Call CreateDiagnosticBundleResponse
      → RpcWorker
      → Emitted D
  unfolding emit_rpc_error downloaded
  bundle_created destination opens disk_writes chunks status (err e) w =
      emit_rpc_error from_std_string (codes "CreateDiagnosticBundle") e w
  bundle_created destination opens disk_writes chunks status (ok created) w =
      if opens
      then downloaded destination created.total_size_bytes disk_writes chunks status w
      else (
        w,
        rpc_error (codes "DownloadDiagnosticBundle") (codes "Cannot open the selected local file")
              false
            ∷ [],
      )

  -- `CreateAndDownloadDiagnostic`; `opens` tells whether the local file can be opened.
  unfoldable pub create_and_download_diagnostic :
      Bytes
      → Bool
      → (ℕ → Bool)
      → Call CreateDiagnosticBundleResponse
      → List DiagnosticChunk
      → Call (Unit {0})
      → RpcWorker
      → Emitted D
  unfolding with_client bundle_created
  create_and_download_diagnostic destination opens disk_writes created chunks status w =
      with_client w.client (bundle_created destination opens disk_writes chunks status created w) w
