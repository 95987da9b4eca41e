-- ===== src/Config/Errors.antt =====
-- `Load`: what an error says of the file.
use edge_scpoe.Base.{
  ℕ, suc, ◌+◌, ◌≡◌, ap, refl, subst, not, ltb, ◌==◌, all, Bool, true, false, List, [], ◌∷◌, ◌++◌,
  Option, none, some, arith, length, null, ◌||◌, if◌then◌else◌, inl, inr,
}
use edge_scpoe.Text.{Bytes, codes, equal, find_char, trim, lines}
use edge_scpoe.Text.Numbers.{stoul}
use edge_scpoe.Config.{
  AgentConfig, default_config, ConfigError, invalid_line, invalid_listen_address, unknown_key,
  Result, ok, err, front_is, split_services, set_option, set_interval, set_pair, apply_line,
  load_lines, finish, load, bind-err, is_valid_address, is_valid_service_name,
}

-- An error that names a line names line `n`.
abbrev pub Names : ConfigError → ℕ → Type 0
Names (invalid_line m) n = m ≡ n
Names (invalid_listen_address m) n = m ≡ n
Names (unknown_key m key) n = m ≡ n
Names _ n = Unit {0}

-- The loop, from `config` behind `n` lines, stops at the first line that it refuses: the lines
-- before it were taken and gave `reached`.
pub record StopsAt (n : ℕ) (config : AgentConfig) (text : List Bytes) (e : ConfigError)
    : Type 0 where
  pub read : List Bytes
  pub line : Bytes
  pub unread : List Bytes
  pub reached : AgentConfig
  pub splits : text ≡ read ++ line ∷ unread
  pub taken : load_lines n config read ≡ ok reached
  pub refused : apply_line (n + length read + 1) line reached ≡ err e
  pub named : Names e (n + length read + 1)

abbrev NamesIn : ℕ → Result AgentConfig → Type 0
NamesIn n (ok c) = Unit {0}
NamesIn n (err e) = Names e n

if_NamesIn :
    (n : ℕ) (x y : Result AgentConfig) (b : Bool)
    → NamesIn n x
    → NamesIn n y
    → NamesIn n (if b then x else y)
if_NamesIn n x y true hx hy = hx
if_NamesIn n x y false hx hy = hy

set_interval-NamesIn :
    (n : ℕ) (read : Option (ℕ × ℕ)) (value : Bytes) (c : AgentConfig)
    → NamesIn n (set_interval read value c)
unfolding set_interval
set_interval-NamesIn n none value c = tt
set_interval-NamesIn n (some (v, consumed)) value c =
    if_NamesIn n _ _ (not (consumed == length value) || ltb v 100 || ltb 60000 v) tt tt

set_option-NamesIn :
    (n : ℕ) (key value : Bytes) (c : AgentConfig) → NamesIn n (set_option n key value c)
unfolding set_option
set_option-NamesIn n key value c =
    if_NamesIn n _ _ (equal key (codes "listen_address"))
      (if_NamesIn n _ _ (is_valid_address value) tt refl)
      (if_NamesIn n _ _ (equal key (codes "sample_interval_ms"))
        (set_interval-NamesIn n (stoul value) value c)
        (if_NamesIn n _ _ (equal key (codes "log_file"))
          (if_NamesIn n _ _ (front_is b'/' value) tt tt)
          (if_NamesIn n _ _ (equal key (codes "diagnostic_directory"))
            (if_NamesIn n _ _ (front_is b'/' value) tt tt)
            (if_NamesIn n _ _ (equal key (codes "allowed_services"))
              (if_NamesIn n _ _ (all is_valid_service_name (split_services value)) tt tt) refl))))

set_pair-NamesIn :
    (n : ℕ) (line : Bytes) (at : Option ℕ) (c : AgentConfig) → NamesIn n (set_pair n line at c)
unfolding set_pair
set_pair-NamesIn n line none c = refl
set_pair-NamesIn n line (some i) c = set_option-NamesIn n _ _ c

apply_line-NamesIn : (n : ℕ) (line : Bytes) (c : AgentConfig) → NamesIn n (apply_line n line c)
unfolding apply_line
apply_line-NamesIn n line c =
    if_NamesIn n _ _ (null (trim line) || front_is b'#' (trim line)) tt
      (set_pair-NamesIn n (trim line) (find_char b'=' (trim line)) c)

StopsAt-here :
    (n : ℕ) (c : AgentConfig) (line : Bytes) (rest : List Bytes) (e : ConfigError)
    → apply_line (n + 1) line c ≡ err e
    → StopsAt n c (line ∷ rest) e
StopsAt-here n c line rest e h =
    let at : n + 0 + 1 ≡ n + 1 = omega arith in
    record {
      read = [];
      line = line;
      unread = rest;
      reached = c;
      splits = refl;
      taken = unfold load_lines in refl;
      refused = rw at h;
      named = rw at (subst (NamesIn (n + 1)) h (apply_line-NamesIn (n + 1) line c));
    }

StopsAt-cons :
    (n : ℕ) (c d : AgentConfig) (line : Bytes) (rest : List Bytes) (e : ConfigError)
    → apply_line (n + 1) line c ≡ ok d
    → StopsAt (n + 1) d rest e
    → StopsAt n c (line ∷ rest) e
StopsAt-cons n c d line rest e h s =
    let at : n + suc (length s.read) + 1 ≡ n + 1 + length s.read + 1 = omega arith in
    record {
      read = line ∷ s.read;
      line = s.line;
      unread = s.unread;
      reached = s.reached;
      splits = ap (◌∷◌ line) s.splits;
      taken = unfold load_lines in rw h s.taken;
      refused = rw at s.refused;
      named = rw at s.named;
    }

load_lines-StopsAt :
    (text : List Bytes) (n : ℕ) (c : AgentConfig) (e : ConfigError)
    → load_lines n c text ≡ err e
    → StopsAt n c text e
unfolding load_lines
load_lines-StopsAt [] n c e h = cc
load_lines-StopsAt (l ∷ ls) n c e h =
    elim (bind-err (λ q. load_lines (n + 1) q ls) (apply_line (n + 1) l c) h) [
      | inl here ↦ StopsAt-here n c l ls e here
      | inr (d, first, later) ↦
          StopsAt-cons n c d l ls e first (load_lines-StopsAt ls (n + 1) d e later)
    ]

finish-some :
    (before : AgentConfig) (r : Result AgentConfig) {after : AgentConfig} {e : ConfigError}
    → finish before r ≡ (after, some e)
    → (r ≡ err e) × (after ≡ before)
unfolding finish
finish-some before (ok parsed) h = ground arith
finish-some before (err x) h = ground arith

-- When `Load` fails on a file that it could open, it leaves `*config` as it was, the error is that of
-- the first line that is refused after the lines before it were taken, and where the error names a
-- line, it names that one, counted from 1.
pub load-StopsAt :
    (contents : Bytes) (before after : AgentConfig) (e : ConfigError)
    → load (some contents) before ≡ (after, some e)
    → (after ≡ before) × StopsAt 0 default_config (lines contents) e
unfolding load
load-StopsAt contents before after e h =
    let (failed, same) = finish-some before (load_lines 0 default_config (lines contents)) h in
    (same, load_lines-StopsAt (lines contents) 0 default_config e failed)
