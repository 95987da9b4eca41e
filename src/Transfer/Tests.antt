-- ===== src/Transfer/Tests.antt =====
-- The transfer at concrete archives.
use edge_scpoe.Base.{ℕ, ◌≡◌, refl, Bool, true, false, [], ◌∷◌, ◌++◌, some, length}
use edge_scpoe.Text.{Bytes, codes}
use edge_scpoe.Transfer.{DiagnosticChunk}
use edge_scpoe.Transfer.Server
use edge_scpoe.Transfer.Client
use edge_scpoe.Transfer.Server.{Line, Status, ok, internal, send, status_of, download}
use edge_scpoe.Transfer.Client.{ready, rpc_failed, receive, judge, save}
use edge_scpoe.Transfer.Whole.{save-ready, save-download}
use edge_scpoe.Transfer.Complete.{IsClear, save-download_clear}

abbrev archive : Bytes
archive = codes "bundle"

abbrev clear_line : Line
clear_line = record { cancelled = λ n. false; writes = λ n. true; bad = false }

clear_line-IsClear : IsClear clear_line
clear_line-IsClear = record { no_cancel = λ n. refl; all_written = λ n. refl; sound = refl }

abbrev disk : ℕ → Bool
disk n = true

abbrev flushed : Bytes → Bytes
flushed bytes = bytes

abbrev whole_chunk : DiagnosticChunk
whole_chunk = record { chunk_bytes = archive; offset = 0; total_size_bytes = 6; eof = true }

-- Two blocks of four bytes, the second one short.
send-archive : send 4 6 clear_line 7 0 0 archive ≡ (
  record { chunk_bytes = codes "bund"; offset = 0; total_size_bytes = 6; eof = false }
      ∷ record { chunk_bytes = codes "le"; offset = 4; total_size_bytes = 6; eof = true }
      ∷ [],
  Server.left 2 6,
)
unfolding send Server.with_chunk Server.chunk_at
send-archive = refl

download-archive : (download 6 clear_line (some archive)).0 ≡ (whole_chunk ∷ []) ++ []
unfolding download send Server.with_chunk Server.chunk_at
download-archive = refl

save-archive : save 6 disk flushed (whole_chunk ∷ []) ok ≡ ready 6 archive
unfolding save receive judge Client.is_ok Client.close_file
save-archive = refl

-- A flush that fails at the close leaves an empty file, and the user is told that the bundle is there.
save-unflushed : save 6 disk (λ bytes. []) (whole_chunk ∷ []) ok ≡ ready 6 []
unfolding save receive judge Client.is_ok Client.close_file
save-unflushed = refl

save-ready_example : (archive ≡ archive) × (length archive ≡ 6) × ◌≡◌ {A = ℕ} 6 6 × (ok ≡ ok)
save-ready_example = save-ready 6 disk flushed (whole_chunk ∷ []) ok 6 archive save-archive

save-download_example : archive ≡ archive
save-download_example =
    save-download clear_line disk flushed archive (whole_chunk ∷ []) [] ok 6 archive
      download-archive save-archive

save-download_clear_example :
    ((download 6 clear_line (some archive)).1 ≡ ok)
    × (save 6 disk flushed
          (download 6 clear_line (some archive)).0
          (download 6 clear_line (some archive)).1
        ≡ ready 6 archive)
save-download_clear_example =
    save-download_clear clear_line disk flushed archive clear_line-IsClear (λ n. refl) λ t. refl
