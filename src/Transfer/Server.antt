-- ===== src/Transfer/Server.antt =====
-- The sending loop of `DownloadDiagnosticBundle`, over what the archive's stream delivers.
use edge_scpoe.Base.{
  ℕ, zero, suc, ◌+◌, ◌*◌, Bool, not, ◌||◌, List, [], ◌∷◌, Option, none, some, ltb, ◌==◌,
  if◌then◌else◌, length, take, drop, null,
}
use edge_scpoe.Text.{Bytes}
use edge_scpoe.Transfer.{DiagnosticChunk}

abbrev pub chunk_size : ℕ
chunk_size = 64 * 1024

-- What the sender meets: whether the call is cancelled when it asks for the n-th time, whether the
-- n-th write reaches the client, and whether the stream went bad.
pub record Line : Type 0 where
  pub cancelled : ℕ → Bool
  pub writes : ℕ → Bool
  pub bad : Bool

-- How the loop ended: after a failed write, or with the round and the offset that it reached.
pub data Ended : Type 0 where
  hung_up : Ended
  left : ℕ → ℕ → Ended

-- The status that the call returns.
pub data Status : Type 0 where
  ok : Status
  invalid_argument not_found internal : Status

module _ (block total : ℕ) (line : Line) where
  unfoldable pub chunk_at : ℕ → Bytes → DiagnosticChunk
  chunk_at offset part = record {
    chunk_bytes = part;
    offset = offset;
    total_size_bytes = total;
    eof = offset + length part == total;
  }

  unfoldable pub with_chunk :
      DiagnosticChunk → List DiagnosticChunk × Ended → List DiagnosticChunk × Ended
  with_chunk chunk (chunks, e) = (chunk ∷ chunks, e)

  -- A round reads a block, writes it, and goes on while the stream has not met its end.
  unfoldable pub send : ℕ → ℕ → ℕ → Bytes → List DiagnosticChunk × Ended
  unfolding chunk_at with_chunk
  send zero round offset rest = ([], left round offset)
  send (suc fuel) round offset rest =
      let part = take block rest in
      let after = offset + length part in
      let next =
        if ltb (length part) block
        then ([], left (suc round) after)
        else send fuel (suc round) after (drop block rest) in
      if line.cancelled round || null part
      then ([], left round offset)
      else if not (line.writes round)
      then ([], hung_up)
      else with_chunk (chunk_at offset part) next

  unfoldable pub status_of : Ended → Status
  status_of hung_up = ok
  status_of (left round offset) =
      if line.cancelled (suc round)
      then ok
      else if line.bad || not (offset == total)
      then internal
      else ok

-- The handler behind `GetBundlePath`, which found an archive of `total` bytes; `archive` is what the
-- stream delivers, `none` if it cannot be opened.
unfoldable pub download : ℕ → Line → Option Bytes → List DiagnosticChunk × Status
unfolding send status_of
download total line none = ([], internal)
download total line (some archive) =
    let sent = send chunk_size total line (suc (length archive)) 0 0 archive in
    (sent.0, status_of chunk_size total line sent.1)
