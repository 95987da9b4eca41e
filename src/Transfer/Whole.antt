-- ===== src/Transfer/Whole.antt =====
-- The two sides together.
use edge_scpoe.Base.{
  ℕ, zero, suc, ◌+◌, ◌≤◌, ◌<◌, ◌≡◌, refl, sym, ap, ◌∙◌, Bool, true, false, not, ◌||◌, List, [], ◌∷◌,
  ◌++◌, append_assoc, append-nil, some, arith, ltb, ◌==◌, if_intro, length, take, drop,
  length-append, length-take, take-append-drop, null,
}
use edge_scpoe.Text.{Bytes}
use edge_scpoe.Transfer.{DiagnosticChunk}
use edge_scpoe.Transfer.Server.{
  Line, Ended, Status, ok, send, download, chunk_size, with_chunk, chunk_at,
}
use edge_scpoe.Transfer.Client.{Receiver, ready, receive, judge, is_ok, start, close_file, save}

-- The bytes of some chunks, in order.
abbrev pub joined : List DiagnosticChunk → Bytes
joined [] = []
joined (c ∷ cs) = c.chunk_bytes ++ joined cs

-- Chunks of one file, each at the offset where the one before it ends, none empty or over the size.
pub data Follows (block total : ℕ) : ℕ → List DiagnosticChunk → Type 0 where
  done : {offset : ℕ} → Follows block total offset []
  chunk :
      {offset : ℕ} {c : DiagnosticChunk} {cs : List DiagnosticChunk}
      → c.offset ≡ offset
      → c.total_size_bytes ≡ total
      → 0 < length c.chunk_bytes
      → length c.chunk_bytes ≤ block
      → Follows block total (offset + length c.chunk_bytes) cs
      → Follows block total offset (c ∷ cs)

not_null : (s : Bytes) → null s ≡ false → 0 < length s
not_null [] h = cc
not_null (c ∷ cs) h = omega arith

module _ (block total : ℕ) (line : Line) where
  -- What every run of the loop sends.
  pub record Sends (offset : ℕ) (rest : Bytes) (sent : List DiagnosticChunk × Ended) : Type 0 where
    pub follows : Follows block total offset sent.0
    pub unsent : Bytes
    pub splits : rest ≡ joined sent.0 ++ unsent

  Sends-none : (offset : ℕ) (rest : Bytes) (e : Ended) → Sends offset rest ([], e)
  Sends-none offset rest e = record { follows = done; unsent = rest; splits = refl }

  Sends-chunk :
      (offset : ℕ) (rest : Bytes) (sent : List DiagnosticChunk × Ended)
      → 0 < length (take block rest)
      → Sends (offset + length (take block rest)) (drop block rest) sent
      → Sends offset rest
          (with_chunk block total line (chunk_at block total line offset (take block rest)) sent)
  unfolding with_chunk chunk_at
  Sends-chunk offset rest (cs, e) some_bytes s = record {
    follows = chunk refl refl some_bytes (omega (arith, length-take block rest)) s.follows;
    unsent = s.unsent;
    splits =
        sym (take-append-drop block rest)
        ∙ ap (◌++◌ (take block rest)) s.splits
        ∙ sym (append_assoc (take block rest) (joined cs) s.unsent);
  }

  -- Every chunk follows the one before it, and together they are the front of the archive.
  pub send-Sends :
      (fuel round offset : ℕ) (rest : Bytes)
      → Sends offset rest (send block total line fuel round offset rest)
  unfolding send
  send-Sends zero round offset rest = Sends-none offset rest _
  send-Sends (suc fuel) round offset rest =
      let part = take block rest in
      if_intro (Sends offset rest) (line.cancelled round || null part) _ _
        (λ _. Sends-none offset rest _)
        λ go_on.
          if_intro (Sends offset rest) (not (line.writes round)) _ _ (λ _. Sends-none offset rest _)
            λ _. Sends-chunk offset rest _ (ground (arith, not_null part)) (
              if_intro (Sends (offset + length part) (drop block rest)) (ltb (length part) block) _
                _ (λ _. Sends-none _ _ _)
                (λ _. send-Sends fuel (suc round) (offset + length part) (drop block rest)))

module _ (size : ℕ) (disk_writes : ℕ → Bool) where
  -- Where no failure is noted, everything that arrived was written.
  abbrev pub Written : Receiver → List DiagnosticChunk → Receiver → Type 0
  Written r cs end =
      end.local_write_failed ≡ false
      → (end.file ≡ r.file ++ joined cs) × (end.received ≡ r.received + length (joined cs))

  pub receive-joined :
      (n : ℕ) (r : Receiver) (cs : List DiagnosticChunk)
      → (receive size disk_writes n r cs).local_write_failed ≡ false
      → ((receive size disk_writes n r cs).file ≡ r.file ++ joined cs)
        × ((receive size disk_writes n r cs).received ≡ r.received + length (joined cs))
  unfolding receive
  receive-joined n r [] = λ h. (sym (append-nil r.file), omega arith)
  receive-joined n r (c ∷ cs) =
      let next = record r {
        received = r.received + length c.chunk_bytes;
        file = r.file ++ c.chunk_bytes;
      } in
      if_intro (Written r (c ∷ cs))
        (not (c.offset == r.received) || not (c.total_size_bytes == size)) _ _ (λ _ h. cc)
        λ _.
          if_intro (Written r (c ∷ cs)) (not (disk_writes n)) _ _ (λ _ h. cc)
            λ _ h.
              let (file, count) = receive-joined (suc n) next cs h in
              (
                file ∙ append_assoc r.file c.chunk_bytes (joined cs),
                omega (arith, count, length-append c.chunk_bytes (joined cs)),
              )

  -- Chunks that follow one another are all taken.
  pub receive-Follows :
      (block n : ℕ) (r : Receiver) (cs : List DiagnosticChunk)
      → Follows block size r.received cs
      → ((k : ℕ) → disk_writes k ≡ true)
      → r.local_write_failed ≡ false
      → (receive size disk_writes n r cs).local_write_failed ≡ false
  unfolding receive
  receive-Follows block n r [] f disk clean = clean
  receive-Follows block n r (c ∷ cs) (chunk at whole some_bytes fits f) disk clean =
      let later =
        receive-Follows block (suc n)
          (record r {
            received = r.received + length c.chunk_bytes;
            file = r.file ++ c.chunk_bytes;
          })
          cs f disk clean in
      ground (arith, later, disk n)

judge-ready :
    (size : ℕ) (status : Status) (r : Receiver) (n : ℕ) (file : Bytes)
    → judge size status r ≡ ready n file
    → (r.local_write_failed ≡ false)
      × (status ≡ ok)
      × (r.received ≡ size)
      × (n ≡ r.received)
      × (file ≡ r.file)
unfolding judge is_ok
judge-ready size ok r n file h = ground arith
judge-ready size _ r n file h = ground arith

-- Whatever arrives, with whatever status: a file is kept only if the call succeeded and the chunks
-- have exactly as many bytes as the bundle was announced to have; and it holds what closing leaves
-- of the bytes of all chunks in order.
pub save-ready :
    (size : ℕ) (disk_writes : ℕ → Bool) (closed : Bytes → Bytes) (cs : List DiagnosticChunk)
    (status : Status) (n : ℕ) (file : Bytes)
    → save size disk_writes closed cs status ≡ ready n file
    → (file ≡ closed (joined cs)) × (length (joined cs) ≡ size) × (n ≡ size) × (status ≡ ok)
unfolding save close_file
save-ready size disk_writes closed cs status n file h =
    let end = receive size disk_writes 0 start cs in
    let (clean, good, full, count, kept) =
      judge-ready size status (close_file closed end) n file h in
    let (written, got) = receive-joined size disk_writes 0 start cs clean in
    (kept ∙ ap closed written, omega (arith, got, full), count ∙ full, good)

joined-append : (xs ys : List DiagnosticChunk) → joined (xs ++ ys) ≡ joined xs ++ joined ys
joined-append [] ys = refl
joined-append (x ∷ xs) ys =
    ap (◌++◌ x.chunk_bytes) (joined-append xs ys)
    ∙ sym (append_assoc x.chunk_bytes (joined xs) (joined ys))

-- Of a text split in front of another split of it, equal lengths make the front the whole.
front_is_whole : (a b whole : Bytes) → whole ≡ a ++ b → length a ≡ length whole → a ≡ whole
front_is_whole a [] whole e h = sym (e ∙ append-nil a)
front_is_whole a (c ∷ cs) whole e h = absurd (omega (arith, ap length e, length-append a (c ∷ cs)))

-- If only the first part of what the agent sends for an archive arrives, under any cancellation,
-- failing writes or stream error, a file that the client keeps holds what closing leaves of the whole
-- archive: the archive, unless the flush at the end fails, which is not looked at.
pub save-download :
    (line : Line) (disk_writes : ℕ → Bool) (closed : Bytes → Bytes) (archive : Bytes)
    (arrived lost : List DiagnosticChunk) (status : Status) (n : ℕ) (file : Bytes)
    → (download (length archive) line (some archive)).0 ≡ arrived ++ lost
    → save (length archive) disk_writes closed arrived status ≡ ready n file
    → file ≡ closed archive
unfolding download
save-download line disk_writes closed archive arrived lost status n file split kept =
    let (same, full, _, _) =
      save-ready (length archive) disk_writes closed arrived status n file kept in
    let s = send-Sends chunk_size (length archive) line (suc (length archive)) 0 0 archive in
    let whole : archive ≡ joined arrived ++ (joined lost ++ s.unsent) =
      s.splits
      ∙ ap (λ (cs : List DiagnosticChunk). joined cs ++ s.unsent) split
      ∙ ap (λ (t : Bytes). t ++ s.unsent) (joined-append arrived lost)
      ∙ append_assoc (joined arrived) (joined lost) s.unsent in
    same ∙ ap closed (front_is_whole (joined arrived) _ archive whole full)
