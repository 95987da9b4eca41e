-- ===== src/Follow/Growing.antt =====
-- Following a log that only grows.
use edge_scpoe.Base.{
  ℕ, zero, suc, ◌+◌, ◌-◌, ◌≤◌, min, ◌≡◌, refl, ap, subst, sym, ◌∙◌, Bool, true, false, not, ◌||◌,
  List, [], ◌∷◌, ◌++◌, Option, none, some, append_assoc, ltb, ◌==◌, length, take, drop, arith,
  if_intro, if◌then◌else◌, Bool-cases, inl, inr, length-take, length-drop, drop-drop,
}
use edge_scpoe.Text.{Bytes}
use edge_scpoe.Follow.{
  FileStatus, Poll, Tail, Lines, stream_read_size, longest, cut_partial, rewound, appended, read_on,
  poll, then_follow, follow, drain,
}
use edge_scpoe.Follow.Blocks.{Shows, Advances, Behind, still, block-Advances}
use edge_scpoe.Follow.Split.{split_lines, wanted}

-- A round of the loop, and how much the file holds when it is read, which may be more than when its
-- status was taken.
pub record Round : Type 0 where
  pub seen : Poll
  pub held : ℕ

abbrev pub polls_of : List Round → List Poll
polls_of [] = []
polls_of (r ∷ rs) = r.seen ∷ polls_of rs

-- The size of the file as far as it is known after a round.
abbrev pub known_size : ℕ → Option FileStatus → ℕ → ℕ
known_size low none held = low
known_size low (some status) held = held

-- How far one round reads, and all rounds.
abbrev pub reach_one : ℕ → Option FileStatus → ℕ → ℕ
reach_one offset none held = offset
reach_one offset (some status) held =
    if ltb offset status.size then offset + min stream_read_size (held - offset) else offset

abbrev pub reach : ℕ → List Round → ℕ
reach offset [] = offset
reach offset (r ∷ rs) = reach (reach_one offset r.seen.status r.held) rs

module _ (text : Bytes) (inode : ℕ) where
  -- A round that sees a file that holds a first part of `text`, not shorter than before, and reads
  -- from one that is as long or longer.
  abbrev pub Sees : ℕ → Poll → Option FileStatus → ℕ → Type 0
  Sees low p none held = Unit
  Sees low p (some status) held =
      (status.inode ≡ inode)
      × (low ≤ status.size)
      × (status.size ≤ held)
      × (held ≤ length text)
      × ((o k : ℕ) → p.read o k ≡ take (min k (held - o)) (drop o text))

  abbrev pub Grows : ℕ → List Round → Type 0
  Grows low [] = Unit
  Grows low (r ∷ rs) =
      (r.seen.cancelled ≡ false)
      × Sees low r.seen r.seen.status r.held
      × Grows (known_size low r.seen.status r.held) rs

module _ (text : Bytes) where
  -- The part of the text from one offset to another.
  abbrev pub between : ℕ → ℕ → Bytes
  between from to = take (to - from) (drop from text)

  -- No part of the text has more than 4096 bytes behind its last line break.
  abbrev pub ShortLines : ℕ → Type 0
  ShortLines from = (to : ℕ) → length (split_lines (between from to)).1 ≤ longest

take_more : (n k m : ℕ) (xs : Bytes) → n + k ≡ m → take n xs ++ take k (drop n xs) ≡ take m xs
take_more zero k m xs e = let e' : k ≡ m = omega arith in rw e' refl
take_more (suc n) k zero xs e = absurd (omega arith)
take_more (suc n) zero (suc m) [] e = refl
take_more (suc n) (suc k) (suc m) [] e = refl
take_more (suc n) k (suc m) (x ∷ xs) e = ap (◌∷◌ x) (take_more n k m xs (omega arith))

module _ (text : Bytes) where
  -- A block that is read where the last one ended.
  between-more :
      (from offset n : ℕ)
      → from ≤ offset
      → between text from offset ++ take n (drop offset text) ≡ between text from (offset + n)
  between-more from offset n h =
      rw (← drop-drop (offset - from) from offset text (omega arith))
        (take_more (offset - from) n (offset + n - from) (drop from text) (omega arith))

between-nil : (text : Bytes) (from : ℕ) → between text from from ≡ []
between-nil text from = let z : from - from ≡ 0 = omega arith in rw z refl

module _ (keyword : Bytes) (writes : ℕ → Bool) (all_written : (n : ℕ) → writes n ≡ true) where
  module _ (text : Bytes) (from inode : ℕ) (short : ShortLines text from) where
    abbrev upto : ℕ → Bytes
    upto offset = between text from offset

    read_on-Advances :
        (p : Poll) (status : FileStatus) (held offset : ℕ) (t : Tail)
        → from ≤ offset
        → held ≤ length text
        → ((o k : ℕ) → p.read o k ≡ take (min k (held - o)) (drop o text))
        → Behind keyword writes all_written (upto offset) offset inode t
        → Advances keyword writes all_written
            (upto offset)
            (upto (reach_one offset (some status) held))
            (reach_one offset (some status) held)
            inode
            (read_on keyword writes p status t)
    unfolding read_on
    read_on-Advances p status held offset t above inside reads b =
        let n = min stream_read_size (held - offset) in
        let block = p.read t.offset stream_read_size in
        let is_block : block ≡ take n (drop offset text) =
          ap (λ o. p.read o stream_read_size) b.stands ∙ reads offset stream_read_size in
        let size : length block ≡ n =
          ap length is_block
          ∙ omega (arith, length-take n (drop offset text), length-drop offset text) in
        let grown : upto offset ++ block ≡ upto (offset + n) =
          ap (◌++◌ (upto offset)) is_block ∙ between-more text from offset n above in
        let t' = appended keyword writes block t in
        let done = cut_partial keyword writes (drain keyword writes (length t'.partial_line) t') in
        let same : ltb t.offset status.size ≡ ltb offset status.size =
          ap (λ o. ltb o status.size) b.stands in
        elim (Bool-cases (ltb offset status.size)) [
          | inl more ↦
              rw (same, more)
                (subst
                  (λ l. Advances keyword writes all_written (upto offset) l (offset + n) inode done)
                  grown
                  (subst
                    (λ m.
                      Advances keyword writes all_written (upto offset) (upto offset ++ block)
                        (offset + m) inode done)
                    size
                    (block-Advances keyword writes all_written (upto offset) block offset inode t b
                      (rw grown (short (offset + n))))))
          | inr none_left ↦
              rw (same, none_left) (still keyword writes all_written (upto offset) offset inode t b)
        ]

    poll-Advances :
        (p : Poll) (status : Option FileStatus) (held low offset : ℕ) (t : Tail)
        → from ≤ offset
        → offset ≤ low
        → Sees text inode low p status held
        → Behind keyword writes all_written (upto offset) offset inode t
        → Advances keyword writes all_written
            (upto offset)
            (upto (reach_one offset status held))
            (reach_one offset status held)
            inode
            (poll keyword writes p status t)
    unfolding poll rewound
    poll-Advances p none held low offset t above known sees b =
        still keyword writes all_written (upto offset) offset inode t b
    poll-Advances p (some status) held low offset t above known (same, grown, more, inside, reads)
          b =
        let P = λ (u : Tail).
          Advances keyword writes all_written (upto offset)
            (upto (reach_one offset (some status) held)) (reach_one offset (some status) held) inode
            (read_on keyword writes p status u) in
        if_intro P (not (status.inode == t.inode) || ltb status.size t.offset) _ _
          (λ e. absurd (ground (arith, b.stands, b.same_file, same, grown, known)))
          λ _. read_on-Advances p status held offset t above inside reads b

    then_follow-Advances :
        (s m longer : Bytes) (offset end_ : ℕ) (r : Lines) (next : Tail → Lines)
        → Advances keyword writes all_written s m offset inode r
        → ((t : Tail)
            → Behind keyword writes all_written m offset inode t
            → Advances keyword writes all_written m longer end_ inode (next t))
        → Advances keyword writes all_written s longer end_ inode
            (then_follow keyword writes r next)
    unfolding then_follow
    then_follow-Advances s m longer offset end_ (ls, none) next a rest =
        absurd (ground (arith, a.ends.goes_on))
    then_follow-Advances s m longer offset end_ (ls, some t) next a rest =
        let same : a.ends.after ≡ t = ground (arith, a.ends.goes_on) in
        let b = rest t (record {
          keeps = ap (λ (u : Tail). u.partial_line) (sym same) ∙ a.ends.keeps;
          stands = ap (λ (u : Tail). u.offset) (sym same) ∙ a.ends.stands;
          same_file = ap (λ (u : Tail). u.inode) (sym same) ∙ a.ends.same_file;
        }) in
        record {
          sent = a.sent ++ b.sent;
          more =
              sym (append_assoc (wanted keyword (split_lines s).0) a.sent b.sent)
              ∙ ap (λ (w : List Bytes). w ++ b.sent) a.more
              ∙ b.more;
          ends = record {
            after = b.ends.after;
            wrote = rw (a.ends.wrote, b.ends.wrote) refl;
            goes_on = b.ends.goes_on;
            keeps = b.ends.keeps;
            stands = b.ends.stands;
            same_file = b.ends.same_file;
          };
        }

    reach_one-bounds :
        (p : Poll) (status : Option FileStatus) (held low offset : ℕ)
        → offset ≤ low
        → Sees text inode low p status held
        → (offset ≤ reach_one offset status held)
          × (reach_one offset status held ≤ known_size low status held)
    reach_one-bounds p none held low offset known sees = (omega arith, known)
    reach_one-bounds p (some status) held low offset known (same, grown, more, inside, reads) =
        (ground arith, ground arith)

    follow-Advances :
        (rounds : List Round) (low offset : ℕ) (t : Tail)
        → from ≤ offset
        → offset ≤ low
        → Grows text inode low rounds
        → Behind keyword writes all_written (upto offset) offset inode t
        → Advances keyword writes all_written
            (upto offset)
            (upto (reach offset rounds))
            (reach offset rounds)
            inode
            (follow keyword writes (polls_of rounds) t)
    unfolding follow
    follow-Advances [] low offset t above known grows b =
        still keyword writes all_written (upto offset) offset inode t b
    follow-Advances (r ∷ rs) low offset t above known (runs, sees, grows) b =
        let p = r.seen in
        let (up, within) = reach_one-bounds p p.status r.held low offset known sees in
        rw runs (
          then_follow-Advances (upto offset) (upto (reach_one offset p.status r.held)) _ _ _ _ _
            (poll-Advances p p.status r.held low offset t above known sees b)
            λ u.
              follow-Advances rs (known_size low p.status r.held) (reach_one offset p.status r.held)
                u (omega arith) within grows)

-- A call that follows a log which only grows, with every write delivered and no line longer than
-- 4096 bytes, writes exactly the lines that were completed behind the starting offset, up to the
-- offset that the rounds reach, in order: those with the keyword, sanitised. It keeps the incomplete
-- line behind them. A round whose look at the file shows more than was read reads on up to 64 KiB of
-- what the file holds by then, which may have grown since the look.
pub follow-Shows :
    (keyword : Bytes) (writes : ℕ → Bool) (text : Bytes) (inode from : ℕ) (rounds : List Round)
    → ((n : ℕ) → writes n ≡ true)
    → ShortLines text from
    → Grows text inode from rounds
    → Shows keyword (between text from (reach from rounds)) (reach from rounds) inode (
        follow keyword writes
          (polls_of rounds)
          (record { offset = from; inode = inode; partial_line = []; written = 0 }))
unfolding split_lines wanted
follow-Shows keyword writes text inode from rounds all_written short grows =
    let t : Tail = record { offset = from; inode = inode; partial_line = []; written = 0 } in
    let nothing = between-nil text from in
    let a =
      follow-Advances keyword writes all_written text from inode short rounds from from t
        (omega arith) (omega arith) grows
        (record { keeps = rw nothing refl; stands = refl; same_file = refl }) in
    let all : a.sent ≡ wanted keyword (split_lines (between text from (reach from rounds))).0 =
      ap (λ s. wanted keyword (split_lines s).0 ++ a.sent) (sym nothing) ∙ a.more in
    record {
      after = a.ends.after;
      wrote = a.ends.wrote ∙ all;
      goes_on = a.ends.goes_on;
      keeps = a.ends.keeps;
      stands = a.ends.stands;
      same_file = a.ends.same_file;
    }
