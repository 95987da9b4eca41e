-- ===== src/Config/Loaded.antt =====
-- `Load`: what holds of a configuration that was loaded.
use edge_scpoe.Base.{
  ℕ, suc, length-append, ◌+◌, ◌-◌, ◌≤◌, ◌<◌, ◌≡◌, ap, ◌≢◌, refl, true, false, List, [], ◌∷◌, ◌++◌,
  Option, none, some, arith, null, subst, length, take, drop, All, all, ◌||◌, Option-cases, inl,
  inr, &&_true,
}
use native.Mathlib.Numerals.{add-one}
use edge_scpoe.Text.{Bytes, codes, equal, find, find_char, rfind_char, trim, lines}
use edge_scpoe.Text.Search.{LastAt, rfind_char-LastAt}
use edge_scpoe.Text.Numbers.{stoul}
use edge_scpoe.Config.{
  AgentConfig, default_config, Result, ok, err, ok_injective, port_at, is_valid_address,
  is_valid_service_name, split_services, set_option, set_interval, set_address, set_log_file,
  set_directory, set_services, set_pair, apply_line, load_lines, finish, load, if_cases, bind-ok,
  within, front_is,
}
use edge_scpoe.Config.Services.{IsAccepted, is_valid_service_name-IsAccepted}

-- A host, a colon, and a text behind the last colon that reads whole as a port.
pub record IsAddress (address : Bytes) : Type 0 where
  pub host : Bytes
  pub port_text : Bytes
  pub port : ℕ
  pub splits : address ≡ host ++ b':' ∷ port_text
  pub host_ne_nil : host ≢ []
  pub last_colon : All (λ c. c ≢ b':') port_text
  pub reads : stoul port_text ≡ some (port, length port_text)
  pub positive : 0 < port
  pub fits : port ≤ 65535

pub record IsAbsolute (path : Bytes) : Type 0 where
  pub rest : Bytes
  pub splits : path ≡ b'/' ∷ rest

pub record IsValid (config : AgentConfig) : Type 0 where
  pub address : IsAddress config.listen_address
  pub interval_from : 100 ≤ config.sample_interval
  pub interval_to : config.sample_interval ≤ 60000
  pub log_absolute : IsAbsolute config.log_file
  pub directory_absolute : IsAbsolute config.diagnostic_directory
  pub services : All IsAccepted config.allowed_services

within-reads :
    (read : Option (ℕ × ℕ)) (size lo hi : ℕ)
    → within read size lo hi ≡ true
    → (v : ℕ) × (read ≡ some (v, size)) × (lo ≤ v) × (v ≤ hi)
within-reads none size lo hi h = cc
within-reads (some (v, consumed)) size lo hi h = (v, ground arith, ground arith, ground arith)

port_at-IsAddress : (s : Bytes) (i : ℕ) → LastAt b':' s i → port_at s (some i) ≡ true → IsAddress s
unfolding port_at
port_at-IsAddress s i (splits, long, lacks) h =
    let sized : length s ≡ i + suc (length (drop (suc i) s)) =
      omega (arith, ap length splits, length-append (take i s) (b':' ∷ drop (suc i) s)) in
    let size : length s - i - 1 ≡ length (drop (suc i) s) = omega arith in
    let inside : 0 < i = ground arith in
    let read : within (stoul (drop (suc i) s)) (length (drop (suc i) s)) 1 65535 ≡ true =
      ground (arith, add-one i) in
    let (port, reads, lo, hi) = within-reads (stoul (drop (suc i) s)) _ 1 65535 read in
    record {
      host = take i s;
      port_text = drop (suc i) s;
      port = port;
      splits = splits;
      host_ne_nil = λ e. omega (arith, ap length e);
      last_colon = lacks;
      reads = reads;
      positive = lo;
      fits = hi;
    }

is_valid_address-IsAddress : (s : Bytes) → is_valid_address s ≡ true → IsAddress s
unfolding is_valid_address
is_valid_address-IsAddress s h = elim (Option-cases (rfind_char b':' s)) [
  | inl e ↦ absurd (unfold port_at in let x : false ≡ true = rw e at h in cc)
  | inr (i, e) ↦ port_at-IsAddress s i (rfind_char-LastAt b':' s i e) (rw e at h)
]

front_is-IsAbsolute : (s : Bytes) → front_is b'/' s ≡ true → IsAbsolute s
front_is-IsAbsolute [] h = cc
front_is-IsAbsolute (c ∷ cs) h = record { rest = cs; splits = ground arith }

all-IsAccepted :
    (names : List Bytes) → all is_valid_service_name names ≡ true → All IsAccepted names
all-IsAccepted [] h = tt
all-IsAccepted (s ∷ ss) h =
    let (first, rest) = &&_true (is_valid_service_name s) (all is_valid_service_name ss) h in
    ((is_valid_service_name-IsAccepted s).0 first, all-IsAccepted ss rest)

-- Each branch of `Load` keeps the configuration valid.
set_address-IsValid :
    (n : ℕ) (value : Bytes) (c d : AgentConfig)
    → IsValid c
    → set_address n value c ≡ ok d
    → IsValid d
unfolding set_address
set_address-IsValid n value c d v h = ground (arith, is_valid_address-IsAddress value)

set_interval-IsValid :
    (read : Option (ℕ × ℕ)) (value : Bytes) (c d : AgentConfig)
    → IsValid c
    → set_interval read value c ≡ ok d
    → IsValid d
unfolding set_interval
set_interval-IsValid none value c d v h = cc
set_interval-IsValid (some (n, consumed)) value c d v h = ground arith

set_log_file-IsValid :
    (value : Bytes) (c d : AgentConfig) → IsValid c → set_log_file value c ≡ ok d → IsValid d
unfolding set_log_file
set_log_file-IsValid value c d v h = ground (arith, front_is-IsAbsolute value)

set_directory-IsValid :
    (value : Bytes) (c d : AgentConfig) → IsValid c → set_directory value c ≡ ok d → IsValid d
unfolding set_directory
set_directory-IsValid value c d v h = ground (arith, front_is-IsAbsolute value)

set_services-IsValid :
    (names : List Bytes) (c d : AgentConfig) → IsValid c → set_services names c ≡ ok d → IsValid d
unfolding set_services
set_services-IsValid names c d v h = ground (arith, all-IsAccepted names)

set_option-IsValid :
    (n : ℕ) (key value : Bytes) (c d : AgentConfig)
    → IsValid c
    → set_option n key value c ≡ ok d
    → IsValid d
unfolding set_option
set_option-IsValid n key value c d v =
    if_cases (equal key (codes "listen_address")) (set_address-IsValid n value c d v) (
      if_cases (equal key (codes "sample_interval_ms"))
        (set_interval-IsValid (stoul value) value c d v)
        (if_cases (equal key (codes "log_file")) (set_log_file-IsValid value c d v) (
          if_cases (equal key (codes "diagnostic_directory")) (set_directory-IsValid value c d v) (
            if_cases (equal key (codes "allowed_services"))
              (set_services-IsValid (split_services value) c d v) (λ h. cc)))))

set_pair-IsValid :
    (n : ℕ) (line : Bytes) (at : Option ℕ) (c d : AgentConfig)
    → IsValid c
    → set_pair n line at c ≡ ok d
    → IsValid d
unfolding set_pair
set_pair-IsValid n line none c d v h = cc
set_pair-IsValid n line (some i) c d v h = set_option-IsValid n _ _ c d v h

apply_line-IsValid :
    (n : ℕ) (line : Bytes) (c d : AgentConfig) → IsValid c → apply_line n line c ≡ ok d → IsValid d
unfolding apply_line
apply_line-IsValid n line c d v =
    if_cases (null (trim line) || front_is b'#' (trim line)) (λ h. subst IsValid (ok_injective h) v)
      (set_pair-IsValid n (trim line) (find_char b'=' (trim line)) c d v)

load_lines-IsValid :
    (ls : List Bytes) (n : ℕ) (c d : AgentConfig) → IsValid c → load_lines n c ls ≡ ok d → IsValid d
unfolding load_lines
load_lines-IsValid [] n c d v h = ground arith
load_lines-IsValid (l ∷ ls) n c d v h =
    let (next, first, rest) = bind-ok (λ q. load_lines (n + 1) q ls) (apply_line (n + 1) l c) h in
    load_lines-IsValid ls (n + 1) next d (apply_line-IsValid (n + 1) l c next v first) rest

default_config-IsValid : IsValid default_config
unfolding is_valid_address is_valid_service_name rfind_char stoul find
default_config-IsValid = record {
  address = is_valid_address-IsAddress default_config.listen_address refl;
  interval_from = omega arith;
  interval_to = omega arith;
  log_absolute = front_is-IsAbsolute default_config.log_file refl;
  directory_absolute = front_is-IsAbsolute default_config.diagnostic_directory refl;
  services = all-IsAccepted default_config.allowed_services refl;
}

finish-none :
    (before : AgentConfig) (r : Result AgentConfig) {after : AgentConfig}
    → finish before r ≡ (after, none)
    → r ≡ ok after
unfolding finish
finish-none before (ok parsed) h = ground arith
finish-none before (err e) h = ground arith

-- A configuration that `Load` returns with no error is valid: the address is a host, a colon and a
-- text that reads whole as a port from 1 to 65535; the interval lies in 100 to 60000; both paths are
-- absolute; and every service name is accepted.
pub load-IsValid :
    (file : Option Bytes) (before after : AgentConfig)
    → load file before ≡ (after, none)
    → IsValid after
unfolding load
load-IsValid none before after h = ground arith
load-IsValid (some contents) before after h =
    load_lines-IsValid (lines contents) 0 default_config after default_config-IsValid
      (finish-none before (load_lines 0 default_config (lines contents)) h)
