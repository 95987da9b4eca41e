-- ===== src/Services/Tests.antt =====
-- Tests of the service manager with a runner that answers from a table.
use edge_scpoe.Base.{◌≡◌, refl, List, [], ◌∷◌, none, some}
use edge_scpoe.Text.{Bytes, codes, equal, starts_with, pieces, contains, find}
use edge_scpoe.Services.{
  Runner, ran, start, restart, error, not_allowed, not_found, control_command, value_for,
  list_services, control_service, is_allowed,
}
use edge_scpoe.Services.Whitelist.{Controls, control_service-Controls}
use edge_scpoe.Services.Listing.{Lists, list_services-Lists}

abbrev allowed : List Bytes
allowed = codes "ssh.service" ∷ codes "cron.service" ∷ []

abbrev runs : Runner
runs command = ran (record {
  exit_code = some 0;
  output = codes "Description=Shell\nLoadState=loaded\nActiveState=active\nSubState=running\n";
})

abbrev misses : Runner
misses command = ran (record { exit_code = some 5; output = codes "Unit x.service not found." })

list_services-runs : list_services runs (codes "ssh.service" ∷ []) ≡ record {
  services =
      record {
        name = codes "ssh.service";
        description = codes "Shell";
        load_state = codes "loaded";
        active_state = codes "active";
        sub_state = codes "running";
      }
      ∷ [];
  error = none;
}
unfolding list_services value_for starts_with pieces
list_services-runs = refl

control_service-misses : control_service misses allowed (codes "cron.service") restart ≡ (
  error not_found (codes "Unit x.service not found."),
  control_command restart (codes "cron.service") ∷ [],
)
unfolding control_service is_allowed equal contains find
control_service-misses = refl

control_service-barred :
    control_service runs allowed (codes "sshd.service") start
    ≡ (error not_allowed (codes "service is not in the configured whitelist"), [])
unfolding control_service is_allowed equal
control_service-barred = refl

control_service-Controls_example :
    Controls runs allowed
      (codes "ssh.service")
      start
      (control_service runs allowed (codes "ssh.service") start)
control_service-Controls_example = control_service-Controls runs allowed (codes "ssh.service") start

list_services-Lists_example : Lists runs allowed (list_services runs allowed)
list_services-Lists_example = list_services-Lists runs allowed
