-- ===== src/Follow/Blocks.antt =====
-- One block of a log that is followed: what it adds to the lines written.
use edge_scpoe.Base.{
  ℕ, ◌+◌, ◌≤◌, ◌≡◌, refl, ap, sym, ◌∙◌, Bool, true, List, [], ◌++◌, none, some, append-nil, length,
  arith,
}
use edge_scpoe.Text.{Bytes}
use edge_scpoe.Follow.{Tail, Lines, longest, cut_front, cut_partial, appended, drain}
use edge_scpoe.Follow.Split.{split_lines, wanted, Ends, drain-Ends, split-append, wanted-append}

-- The lines of a text are written, and what is behind them is kept.
abbrev pub Shows : Bytes → Bytes → ℕ → ℕ → Lines → Type 0
Shows keyword s offset inode r =
    Ends r (wanted keyword (split_lines s).0) (split_lines s).1 offset inode

module _ (keyword : Bytes) (writes : ℕ → Bool) (all_written : (n : ℕ) → writes n ≡ true) where
  cut_front-short : (s : Bytes) → length s ≤ longest → cut_front s ≡ s
  unfolding cut_front
  cut_front-short s h = ground arith

  cut-Ends :
      (r : Lines) (sent : List Bytes) (partial : Bytes) (offset inode : ℕ)
      → length partial ≤ longest
      → Ends r sent partial offset inode
      → Ends (cut_partial keyword writes r) sent partial offset inode
  unfolding cut_partial
  cut-Ends (ls, none) sent partial offset inode h ends = absurd (ground (arith, ends.goes_on))
  cut-Ends (ls, some t) sent partial offset inode h ends =
      let same : t ≡ ends.after = ground (arith, ends.goes_on) in
      let kept : t.partial_line ≡ partial = ap (λ (u : Tail). u.partial_line) same ∙ ends.keeps in
      record {
        after = record t { partial_line = cut_front t.partial_line };
        wrote = ends.wrote;
        goes_on = refl;
        keeps = ap cut_front kept ∙ cut_front-short partial h;
        stands = ap (λ (u : Tail). u.offset) same ∙ ends.stands;
        same_file = ap (λ (u : Tail). u.inode) same ∙ ends.same_file;
      }

  -- From a text to a longer one: what is written is what the longer one has more.
  pub record Advances (s longer : Bytes) (offset inode : ℕ) (r : Lines) : Type 0 where
    pub sent : List Bytes
    pub more : wanted keyword (split_lines s).0 ++ sent ≡ wanted keyword (split_lines longer).0
    pub ends : Ends r sent (split_lines longer).1 offset inode

  -- The state behind a text.
  pub record Behind (s : Bytes) (offset inode : ℕ) (t : Tail) : Type 0 where
    pub keeps : t.partial_line ≡ (split_lines s).1
    pub stands : t.offset ≡ offset
    pub same_file : t.inode ≡ inode

  pub still :
      (s : Bytes) (offset inode : ℕ) (t : Tail)
      → Behind s offset inode t
      → Advances s s offset inode ([], some t)
  still s offset inode t b = record {
    sent = [];
    more = append-nil _;
    ends = record {
      after = t;
      wrote = refl;
      goes_on = refl;
      keeps = b.keeps;
      stands = b.stands;
      same_file = b.same_file;
    };
  }

  pub block-Advances :
      (s block : Bytes) (offset inode : ℕ) (t : Tail)
      → Behind s offset inode t
      → length (split_lines (s ++ block)).1 ≤ longest
      → Advances s (s ++ block) (offset + length block) inode (
          cut_partial keyword writes (
            drain keyword writes
              (length (appended keyword writes block t).partial_line)
              (appended keyword writes block t)))
  unfolding appended
  block-Advances s block offset inode t b short =
      let t' = appended keyword writes block t in
      let d = drain-Ends keyword writes all_written (length t'.partial_line) t' (omega arith) in
      let joined : split_lines (s ++ block) ≡ (
        (split_lines s).0 ++ (split_lines (t.partial_line ++ block)).0,
        (split_lines (t.partial_line ++ block)).1,
      ) =
        rw (b.keeps) (split-append s block) in
      record {
        sent = wanted keyword (split_lines (t.partial_line ++ block)).0;
        more = rw joined (sym (wanted-append keyword (split_lines s).0 _));
        ends =
            cut-Ends _ _ (split_lines (s ++ block)).1 (offset + length block) inode short (record {
              after = d.after;
              wrote = d.wrote;
              goes_on = d.goes_on;
              keeps = d.keeps ∙ sym (ap (λ (r : List Bytes × Bytes). r.1) joined);
              stands = d.stands ∙ ap (λ n. n + length block) b.stands;
              same_file = d.same_file ∙ b.same_file;
            });
      }
