-- ===== src/Config/Tests.antt =====
-- Tests of the configuration loader, and its theorems at concrete files.
use edge_scpoe.Base.{◌≡◌, ◌≢◌, ◌↔◌, refl, true, [], ◌∷◌, ◌++◌, none, some}
use edge_scpoe.Text.{Bytes, codes, equal, find_char, find, rfind_char, trim, pieces}
use edge_scpoe.Text.Numbers.{stoul}
use edge_scpoe.Config.{
  AgentConfig, default_config, invalid_line, is_valid_address, is_name_char, is_valid_service_name,
  split_services, set_option, apply_line, load_lines, load,
}
use edge_scpoe.Config.Services.{
  suffix, IsAccepted, is_valid_service_name-IsAccepted, seven_characters_pass,
}
use edge_scpoe.Config.Loaded.{IsValid, load-IsValid}
use edge_scpoe.Config.Errors.{StopsAt, load-StopsAt}

abbrev file : Bytes
file =
    codes
      "# agent\nlisten_address = 0.0.0.0:80\nsample_interval_ms=250\n\nallowed_services = a.service , b@1.service,\n"

abbrev loaded : AgentConfig
loaded = record default_config {
  listen_address = codes "0.0.0.0:80";
  sample_interval = 250;
  allowed_services = codes "a.service" ∷ codes "b@1.service" ∷ [];
}

load-file : load (some file) default_config ≡ (loaded, none)
unfolding load load_lines apply_line set_option is_valid_address is_valid_service_name
    split_services equal find_char find rfind_char trim pieces stoul
load-file = refl

load-IsValid_example : IsValid loaded
load-IsValid_example = load-IsValid (some file) default_config loaded load-file

abbrev broken : Bytes
broken = codes "log_file=/tmp/x\n\nno separator\nunknown=1\n"

load-broken : load (some broken) loaded ≡ (loaded, some (invalid_line 3))
unfolding load load_lines apply_line set_option equal find_char trim pieces
load-broken = refl

load-StopsAt_example :
    (loaded ≡ loaded) × StopsAt 0 default_config (pieces b'\n' broken) (invalid_line 3)
load-StopsAt_example = load-StopsAt broken loaded loaded (invalid_line 3) load-broken

-- The unsigned conversion of a port takes a minus sign: this text reads as port 81.
negative_port : is_valid_address (codes "host:-18446744073709551535") ≡ true
unfolding is_valid_address rfind_char stoul
negative_port = refl

seven_characters_pass_example :
    (is_valid_service_name (codes "sshd-01") ≡ true)
    × ((stem : Bytes) → codes "sshd-01" ≢ stem ++ suffix)
unfolding is_name_char
seven_characters_pass_example = seven_characters_pass (codes "sshd-01") refl refl

is_valid_service_name-IsAccepted_example :
    (is_valid_service_name (codes "ssh.service") ≡ true) ↔ IsAccepted (codes "ssh.service")
is_valid_service_name-IsAccepted_example = is_valid_service_name-IsAccepted (codes "ssh.service")
