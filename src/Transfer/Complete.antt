-- ===== src/Transfer/Complete.antt =====
-- A download that nothing disturbs.
use edge_scpoe.Base.{
  ℕ, zero, suc, ◌+◌, ◌<◌, ◌≡◌, refl, sym, ap, ◌∙◌, Bool, true, false, not, ◌||◌, List, [], ◌∷◌,
  ◌++◌, some, arith, ltb, if◌then◌else◌, if_intro, length, take, drop, length-take, length-drop,
  take-append-drop, null, ltb→lt, ltb→le,
}
use edge_scpoe.Text.{Bytes}
use edge_scpoe.Transfer.{DiagnosticChunk}
use edge_scpoe.Transfer.Server.{
  Line, Ended, left, Status, ok, send, download, chunk_size, status_of, with_chunk, chunk_at,
}
use edge_scpoe.Transfer.Client.{Receiver, ready, receive, judge, is_ok, start, close_file, save}
use edge_scpoe.Transfer.Whole.{joined, Follows, send-Sends, receive-joined, receive-Follows}

-- No cancellation, every write delivered, and no stream error.
pub record IsClear (line : Line) : Type 0 where
  pub no_cancel : (n : ℕ) → line.cancelled n ≡ false
  pub all_written : (n : ℕ) → line.writes n ≡ true
  pub sound : line.bad ≡ false

nil_of_length : (s : Bytes) → length s ≡ 0 → s ≡ []
nil_of_length [] h = refl
nil_of_length (c ∷ cs) h = absurd (omega arith)

length_of_null : (s : Bytes) → null s ≡ true → length s ≡ 0
length_of_null [] h = refl
length_of_null (c ∷ cs) h = cc

module _ (block total : ℕ) (line : Line) (positive : 0 < block) (clear : IsClear line) where
  -- The loop reaches the end of the archive.
  abbrev Finishes : ℕ → Bytes → List DiagnosticChunk × Ended → Type 0
  Finishes offset rest sent =
      (joined sent.0 ≡ rest) × ((n : ℕ) × (sent.1 ≡ left n (offset + length rest)))

  Finishes-none :
      (offset n : ℕ) (rest : Bytes) → length rest ≡ 0 → Finishes offset rest ([], left n offset)
  Finishes-none offset n rest h = (sym (nil_of_length rest h), (n, ap (left n) (omega arith)))

  Finishes-chunk :
      (offset : ℕ) (rest : Bytes) (sent : List DiagnosticChunk × Ended)
      → Finishes (offset + length (take block rest)) (drop block rest) sent
      → Finishes offset rest
          (with_chunk block total line (chunk_at block total line offset (take block rest)) sent)
  unfolding with_chunk chunk_at
  Finishes-chunk offset rest (cs, e) (same, (n, at)) = (
    ap (◌++◌ (take block rest)) same ∙ take-append-drop block rest,
    (n, at ∙ ap (left n) (omega (arith, length-take block rest, length-drop block rest))),
  )

  send-Finishes :
      (fuel round offset : ℕ) (rest : Bytes)
      → length rest < fuel
      → Finishes offset rest (send block total line fuel round offset rest)
  unfolding send
  send-Finishes zero round offset rest h = absurd (omega arith)
  send-Finishes (suc fuel) round offset rest h =
      let part = take block rest in
      let size = length-take block rest in
      let behind = length-drop block rest in
      if_intro (Finishes offset rest) (line.cancelled round || null part) _ _
        (λ stop.
          let empty : null part ≡ true = ground (arith, clear.no_cancel round) in
          Finishes-none offset round rest (omega (arith, size, length_of_null part empty)))
        λ go_on.
          if_intro (Finishes offset rest) (not (line.writes round)) _ _
            (λ refused. absurd (ground (arith, clear.all_written round)))
            λ _.
              let next : List DiagnosticChunk × Ended =
                if ltb (length part) block
                then ([], left (suc round) (offset + length part))
                else send block total line fuel (suc round) (offset + length part)
                    (drop block rest) in
              Finishes-chunk offset rest next (
                if_intro (Finishes (offset + length part) (drop block rest))
                  (ltb (length part) block) _ _
                  (λ short.
                    Finishes-none (offset + length part) (suc round) (drop block rest)
                      (omega (arith, size, behind, ltb→lt (length part) block short)))
                  (λ long.
                    send-Finishes fuel (suc round) (offset + length part) (drop block rest)
                      (omega (arith, size, behind, ltb→le (length part) block long))))

judge_clean :
    (size : ℕ) (r : Receiver) (file : Bytes)
    → r.local_write_failed ≡ false
    → r.received ≡ size
    → r.file ≡ file
    → judge size ok r ≡ ready size file
unfolding judge is_ok
judge_clean size r file clean full same = ground arith

status_clear :
    (block total n : ℕ) (line : Line) (e : Ended)
    → IsClear line
    → e ≡ left n (0 + total)
    → status_of block total line e ≡ ok
unfolding status_of
status_clear block total n line e clear at =
    rw at (ground (arith, clear.no_cancel (suc n), clear.sound))

receive_all :
    (block size : ℕ) (disk_writes : ℕ → Bool) (closed : Bytes → Bytes) (archive : Bytes)
    (cs : List DiagnosticChunk)
    → ((n : ℕ) → disk_writes n ≡ true)
    → ((t : Bytes) → closed t ≡ t)
    → Follows block size 0 cs
    → joined cs ≡ archive
    → length archive ≡ size
    → judge size ok (close_file closed (receive size disk_writes 0 start cs)) ≡ ready size archive
unfolding close_file
receive_all block size disk_writes closed archive cs disk flushed follows same full =
    let end = receive size disk_writes 0 start cs in
    let clean = receive-Follows size disk_writes block 0 start cs follows disk refl in
    let (file, count) = receive-joined size disk_writes 0 start cs clean in
    judge_clean size (close_file closed end) archive clean
      (omega (arith, count, ap length same, full)) (flushed end.file ∙ file ∙ same)

-- A download that is not cancelled, with every write delivered, no read error and a local disk that
-- takes every write, that of the close too, ends with status OK and leaves the archive, whole, in the
-- local file.
pub save-download_clear :
    (line : Line) (disk_writes : ℕ → Bool) (closed : Bytes → Bytes) (archive : Bytes)
    → IsClear line
    → ((n : ℕ) → disk_writes n ≡ true)
    → ((t : Bytes) → closed t ≡ t)
    → ((download (length archive) line (some archive)).1 ≡ ok)
      × (save
            (length archive)
            disk_writes
            closed
            (download (length archive) line (some archive)).0
            (download (length archive) line (some archive)).1
          ≡ ready (length archive) archive)
unfolding download save
save-download_clear line disk_writes closed archive clear disk flushed =
    let size = length archive in
    let s = send-Sends chunk_size size line (suc size) 0 0 archive in
    let (same, (n, at)) =
      send-Finishes chunk_size size line (omega arith) clear (suc size) 0 0 archive (omega arith) in
    let good = status_clear chunk_size size n line _ clear at in
    (
      good,
      ap
            (λ (st : Status). judge size st (
              close_file closed (
                receive size disk_writes 0 start
                  (send chunk_size size line (suc size) 0 0 archive).0)))
            good
          ∙ receive_all chunk_size size disk_writes closed archive _ disk flushed s.follows same
              refl,
    )
