-- ===== src/Config.antt =====
-- agent/include/AgentConfig.h and agent/src/AgentConfig.cpp: the agent's configuration file.
-- The file is its bytes, or `none` if it cannot be opened; an error message is a constructor that
-- holds what the text names, the line number and the key.
pub mod Services
pub mod Loaded
pub mod Errors
mod Tests
use mathlib.Core.List.{filter_map}
use edge_scpoe.Base.{
  ℕ, ◌+◌, ◌-◌, ◌%◌, ◌^◌, Bool, true, false, not, ◌&&◌, ◌||◌, List, [], ◌∷◌, Option, none, some, map,
  leb, ltb, ◌==◌, if◌then◌else◌, length, ◌≡◌, ◌⊎◌, inl, inr, refl, null, take, drop, all,
}
use edge_scpoe.Text.{
  Bytes, codes, is_alnum, equal, find_char, find, rfind_char, trim, pieces, lines,
}
use edge_scpoe.Text.Numbers.{stoul}

pub record AgentConfig : Type 0 where
  pub listen_address : Bytes
  pub sample_interval : ℕ
  pub log_file : Bytes
  pub diagnostic_directory : Bytes
  pub allowed_services : List Bytes

abbrev pub default_config : AgentConfig
default_config = record {
  listen_address = codes "127.0.0.1:50051";
  sample_interval = 1000;
  log_file = codes "/tmp/edgescope-agent.log";
  diagnostic_directory = codes "/tmp/edgescope-diagnostics";
  allowed_services = codes "ssh.service" ∷ codes "cron.service" ∷ [];
}

pub data ConfigError : Type 0 where
  open_failed : ConfigError
  invalid_line : ℕ → ConfigError
  invalid_listen_address : ℕ → ConfigError
  bad_sample_interval : ConfigError
  log_file_not_absolute : ConfigError
  diagnostic_directory_not_absolute : ConfigError
  invalid_service_name : ConfigError
  unknown_key : ℕ → Bytes → ConfigError

pub data Result {ℓ} (A : Type ℓ) : Type ℓ where
  ok : A → Result A
  err : ConfigError → Result A

-- A rule for each branch of a test.
pub if_cases {ℓ κ} :
    {A : Type ℓ} {P : Type κ} (b : Bool) {x y z : A}
    → (x ≡ z → P)
    → (y ≡ z → P)
    → (if b then x else y) ≡ z
    → P
if_cases true f g h = f h
if_cases false f g h = g h

-- `return false` ends the loader early.
infixl 5 ◌>>=◌
abbrev pub ◌>>=◌ {ℓ κ} : {A : Type ℓ} {B : Type κ} → Result A → (A → Result B) → Result B
err e >>= next = err e
ok a >>= next = next a

-- A chain that succeeds has a first part that does; a chain that fails, does so in either part.
module _ {ℓ κ} {A : Type ℓ} {B : Type κ} (next : A → Result B) where
  pub bind-ok :
      (first : Result A) {b : B}
      → (first >>= next) ≡ ok b
      → (a : A) × (first ≡ ok a) × (next a ≡ ok b)
  bind-ok (err e) bound = cc
  bind-ok (ok a) bound = (a, refl, bound)

  pub bind-err :
      (first : Result A) {e : ConfigError}
      → (first >>= next) ≡ err e
      → (first ≡ err e) ⊎ ((a : A) × (first ≡ ok a) × (next a ≡ err e))
  bind-err (err x) bound = inl cc
  bind-err (ok a) bound = inr (a, refl, bound)

pub ok_injective : {A : Type 0} {x y : A} → ok x ≡ ok y → x ≡ y
ok_injective h = cc

-- `parsed == size && lo <= value && value <= hi` on what `std::stoul` gives; its exceptions are
-- `none`.
abbrev within : Option (ℕ × ℕ) → ℕ → ℕ → ℕ → Bool
within none size lo hi = false
within (some (v, consumed)) size lo hi = consumed == size && leb lo v && leb v hi

-- The part of `IsValidAddress` behind the test for `npos`.
port_at : Bytes → Option ℕ → Bool
port_at address none = false
port_at address (some i) =
    if i == 0 || i + 1 == length address
    then false
    else within (stoul (drop (i + 1) address)) (length address - i - 1) 1 65535

pub is_valid_address : Bytes → Bool
unfolding port_at
is_valid_address address = port_at address (rfind_char b':' address)

-- A position as a `std::size_t`, `npos` included.
abbrev pub position : Option ℕ → ℕ
position none = 2 ^ 64 - 1
position (some i) = i

pub is_name_char : ℕ → Bool
unfolding is_alnum
is_name_char c = is_alnum c || c == b'-' || c == b'_' || c == b'.' || c == b'@'

-- `name.size() - 8` wraps around below 8.
pub is_valid_service_name : Bytes → Bool
unfolding is_name_char
is_valid_service_name name =
    if null name
      || ltb 128 (length name)
      || not (position (find (codes ".service") name) == (length name + 2 ^ 64 - 8) % 2 ^ 64)
    then false
    else all is_name_char name

keep_named : Bytes → Option Bytes
keep_named s = if null s then none else some s

pub split_services : Bytes → List Bytes
unfolding keep_named filter_map
split_services value = filter_map (λ s. keep_named (trim s)) (pieces b',' value)

-- `!value.empty() && value.front() == c`.
abbrev pub front_is : ℕ → Bytes → Bool
front_is x [] = false
front_is x (c ∷ cs) = c == x

-- `sample_interval_ms`: `std::stoul` and its range.
set_interval : Option (ℕ × ℕ) → Bytes → AgentConfig → Result AgentConfig
set_interval none value parsed = err bad_sample_interval
set_interval (some (v, consumed)) value parsed =
    if not (consumed == length value) || ltb v 100 || ltb 60000 v
    then err bad_sample_interval
    else ok (record parsed { sample_interval = v })

-- The branches that keep a value if it passes its test.
set_address : ℕ → Bytes → AgentConfig → Result AgentConfig
set_address n value parsed =
    if is_valid_address value
    then ok (record parsed { listen_address = value })
    else err (invalid_listen_address n)

set_log_file : Bytes → AgentConfig → Result AgentConfig
set_log_file value parsed =
    if front_is b'/' value
    then ok (record parsed { log_file = value })
    else err log_file_not_absolute

set_directory : Bytes → AgentConfig → Result AgentConfig
set_directory value parsed =
    if front_is b'/' value
    then ok (record parsed { diagnostic_directory = value })
    else err diagnostic_directory_not_absolute

set_services : List Bytes → AgentConfig → Result AgentConfig
set_services services parsed =
    if all is_valid_service_name services
    then ok (record parsed { allowed_services = services })
    else err invalid_service_name

-- The chain of `if (key == …)`.
pub set_option : ℕ → Bytes → Bytes → AgentConfig → Result AgentConfig
unfolding set_interval set_address set_log_file set_directory set_services
set_option n key value parsed =
    if equal key (codes "listen_address")
    then set_address n value parsed
    else if equal key (codes "sample_interval_ms")
    then set_interval (stoul value) value parsed
    else if equal key (codes "log_file")
    then set_log_file value parsed
    else if equal key (codes "diagnostic_directory")
    then set_directory value parsed
    else if equal key (codes "allowed_services")
    then set_services (split_services value) parsed
    else err (unknown_key n key)

-- The line, split at its first `=`.
set_pair : ℕ → Bytes → Option ℕ → AgentConfig → Result AgentConfig
set_pair n line none parsed = err (invalid_line n)
set_pair n line (some i) parsed =
    set_option n (trim (take i line)) (trim (drop (i + 1) line)) parsed

-- One round of the loop in `Load`, on line `n`.
pub apply_line : ℕ → Bytes → AgentConfig → Result AgentConfig
unfolding set_pair
apply_line n text parsed =
    let line = trim text in
    if null line || front_is b'#' line
    then ok parsed
    else set_pair n line (find_char b'=' line) parsed

pub load_lines : ℕ → AgentConfig → List Bytes → Result AgentConfig
load_lines n parsed [] = ok parsed
load_lines n parsed (line ∷ rest) = do
  next ← apply_line (n + 1) line parsed
  load_lines (n + 1) next rest

-- What `Load` leaves in `*config`, and its outcome.
finish : AgentConfig → Result AgentConfig → AgentConfig × Option ConfigError
finish config (ok parsed) = (parsed, none)
finish config (err e) = (config, some e)

unfoldable pub load : Option Bytes → AgentConfig → AgentConfig × Option ConfigError
unfolding finish
load none config = (config, some open_failed)
load (some contents) config = finish config (load_lines 0 default_config (lines contents))
