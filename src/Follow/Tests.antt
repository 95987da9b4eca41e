-- ===== src/Follow/Tests.antt =====
-- Tests of following a log: three rounds over a file that grows to 11 bytes, in the
-- first of them between the look and the read.
use edge_scpoe.Base.{
  ℕ, ◌-◌, min, ◌≡◌, refl, true, false, List, [], ◌∷◌, none, some, take, drop, length-take, arith,
}
use edge_scpoe.Text.{Bytes, codes, find_char, contains, find, starts_with, pop_back_if}
use edge_scpoe.Utf8.{sanitize_utf8}
use edge_scpoe.Follow.{Tail, follow}
use edge_scpoe.Follow.Split.{length-split_lines}
use edge_scpoe.Follow.Blocks.{Shows}
use edge_scpoe.Follow.Growing.{ShortLines, Round, polls_of, between, reach, follow-Shows}

abbrev text : Bytes
text = codes "ab\ncd\r\nxa\nq"

-- The file has `size` bytes at the look and `held` bytes at the read.
abbrev looks : ℕ → ℕ → Round
looks size held = record {
  seen = record {
    cancelled = false;
    status = some (record { inode = 9; size = size });
    read = λ o k. take (min k (held - o)) (drop o text);
  };
  held = held;
}

abbrev gone : Round
gone = record { seen = record { cancelled = false; status = none; read = λ o k. [] }; held = 0 }

abbrev growing_rounds : List Round
growing_rounds = looks 5 7 ∷ gone ∷ looks 11 11 ∷ []

abbrev begin : Tail
begin = record { offset = 0; inode = 9; partial_line = []; written = 0 }

follow-lines :
    (follow (codes "a") (λ n. true) (polls_of growing_rounds) begin).0
    ≡ codes "ab" ∷ codes "xa" ∷ []
unfolding follow find_char contains find starts_with pop_back_if sanitize_utf8
follow-lines = refl

short : ShortLines text 0
short to = omega (arith, length-split_lines (between text 0 to), length-take (to - 0) (drop 0 text))

follow-Shows_example :
    Shows
      (codes "a")
      (between text 0 (reach 0 growing_rounds))
      (reach 0 growing_rounds)
      9
      (follow (codes "a") (λ n. true) (polls_of growing_rounds) begin)
follow-Shows_example =
    follow-Shows (codes "a") (λ n. true) text 9 0 growing_rounds (λ n. refl) short
      (
        refl,
        (refl, omega arith, omega arith, omega arith, λ o k. refl),
        (refl, tt, (refl, (refl, omega arith, omega arith, omega arith, λ o k. refl), tt)),
      )
