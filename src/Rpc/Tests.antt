-- ===== src/Rpc/Tests.antt =====
-- Tests of the handlers.
use edge_scpoe.Base.{◌≡◌, refl, List, [], ◌∷◌, none, some}
use edge_scpoe.Base.Int.{pos}
use edge_scpoe.Base.System.{esrch}
use edge_scpoe.Text.{Bytes, codes}
use edge_scpoe.Processes.{Kernel, sigterm, control}
use edge_scpoe.Services
use edge_scpoe.Services.{is_allowed, control_service}
use edge_scpoe.Rpc.{
  not_found, status_ok, control_process, control_service_call, process_control_status,
}
use edge_scpoe.Rpc.Control.{
  ControlsProcess, control_process-ControlsProcess, ControlsService,
  control_service_call-ControlsService,
}

abbrev kernel : Kernel
kernel sent = none

abbrev empty_kernel : Kernel
empty_kernel sent = some esrch

terminates :
    control_process kernel 500 (pos 42) 1
    ≡ (status_ok, record { pid = pos 42; signal = sigterm } ∷ [])
unfolding control_process control
terminates = refl

missing : (control_process empty_kernel 500 (pos 42) 1).0.code ≡ not_found
unfolding control_process control process_control_status
missing = refl

control_process-ControlsProcess_example :
    ControlsProcess kernel 500 (pos 42) (control_process kernel 500 (pos 42) 1)
control_process-ControlsProcess_example = control_process-ControlsProcess kernel 500 (pos 42) 1

abbrev runs : Services.Runner
runs command = Services.ran (record { exit_code = some 0; output = [] })

abbrev allowed : List Bytes
allowed = codes "ssh.service" ∷ []

control_service_call-ControlsService_example :
    ControlsService runs allowed
      (codes "ssh.service")
      (control_service_call runs allowed (codes "ssh.service") 3)
control_service_call-ControlsService_example =
    control_service_call-ControlsService runs allowed (codes "ssh.service") 3
