-- ===== src/Rpc/Control.antt =====
-- Who may be controlled, as the callers of `ControlProcess` and `ControlService` see it.
use edge_scpoe.Base.{
  ℕ, ◌≡◌, refl, sym, ap, ◌∙◌, ◌↔◌, ◌≢◌, ◌⊎◌, inl, inr, List, [], ◌∷◌, Option, none, some, arith,
}
use edge_scpoe.Base.Int.{ℤ}
use edge_scpoe.Text.{Bytes}
use edge_scpoe.Processes
use edge_scpoe.Processes.{ProcessControlAction, Kernel, Sent, control}
use edge_scpoe.Processes.Guards
use edge_scpoe.Processes.Guards.{IsTarget, Follows, control-Controls}
use edge_scpoe.Services
use edge_scpoe.Services.{ServiceAction, control_service}
use edge_scpoe.Services.Whitelist.{OneOf, Succeeds, control_service-Controls}
use edge_scpoe.Rpc.{
  Status, ok, process_action, control_known, process_outcome, control_process, service_action,
  service_known, service_outcome, control_service_call, service_status, process_control_status,
}

-- The status is OK only after exactly one signal, which the kernel accepted, to a process above 1
-- that is not the agent.
abbrev pub ControlsProcess : Kernel → ℕ → ℤ → Status × List Sent → Type 0
ControlsProcess kernel own pid (status, signals) =
    ((signals ≡ []) × (status.code ≢ ok))
    ⊎ ((s : Sent) × (signals ≡ s ∷ [])
        × (s.pid ≡ pid)
        × IsTarget own pid
        × ((status.code ≡ ok) ↔ (kernel s ≡ none)))

process_control_status-fails :
    (e : Processes.ProcessControlError) (message : Bytes)
    → (process_control_status e message).code ≢ ok
unfolding process_control_status
process_control_status-fails Processes.invalid_argument message h = ground (arith, h)
process_control_status-fails Processes.not_found message h = ground (arith, h)
process_control_status-fails Processes.permission_denied message h = ground (arith, h)
process_control_status-fails Processes.internal message h = ground (arith, h)

-- A component's outcome is passed on: what was sent, and whether it succeeded.
process_outcome-ok :
    (outcome : Processes.Outcome) (signals : List Sent)
    → ((process_outcome (outcome, signals)).1 ≡ signals)
      × (((process_outcome (outcome, signals)).0.code ≡ ok) ↔ (outcome ≡ Processes.done))
unfolding process_outcome
process_outcome-ok Processes.done signals = (refl, ((λ h. refl), λ h. refl))
process_outcome-ok (Processes.error e message) signals = (
  refl,
  ((λ h. absurd (process_control_status-fails e message h)), λ h. absurd (ground (arith, h))),
)

code_done : (o : Processes.Outcome) → o ≡ Processes.done → Processes.Guards.code_of o ≡ none
code_done o h = ap Processes.Guards.code_of h

known-ControlsProcess :
    (kernel : Kernel) (own : ℕ) (pid : ℤ) (action : Option ProcessControlAction)
    → ControlsProcess kernel own pid (control_known kernel own pid action)
unfolding control_known
known-ControlsProcess kernel own pid none = inl (refl, λ h. ground (arith, h))
known-ControlsProcess kernel own pid (some a) =
    let r = control kernel own pid a in
    let (same, (to_done, from_done)) = process_outcome-ok r.0 r.1 in
    elim (control-Controls kernel own pid a) [
      | inl (none_sent, code, not_target) ↦
          inl (same ∙ none_sent, λ h. ground (arith, sym (code_done r.0 (to_done h)) ∙ code))
      | inr (one_sent, target, follows) ↦ inr (
        _,
        same ∙ one_sent,
        refl,
        target,
        ((λ h. follows.succeeds.0 (to_done h)), λ h. from_done (follows.succeeds.1 h)),
      )
    ]

-- `ControlProcess` answers OK only after it sent exactly one signal, to the process that was asked
-- for, whose pid is above 1 and not the agent's, and the kernel accepted it. Otherwise it either
-- sent nothing, or sent that one signal and the kernel refused it, and the status is an error.
pub control_process-ControlsProcess :
    (kernel : Kernel) (own : ℕ) (pid : ℤ) (action : ℕ)
    → ControlsProcess kernel own pid (control_process kernel own pid action)
unfolding control_process
control_process-ControlsProcess kernel own pid action =
    known-ControlsProcess kernel own pid (process_action action)

-- The status is OK only after exactly one command, for a name of the whitelist, which exited with 0.
abbrev pub ControlsService :
    Services.Runner → List Bytes → Bytes → Status × List Services.Command → Type 0
ControlsService run allowed name (status, commands) =
    ((commands ≡ []) × (status.code ≢ ok))
    ⊎ ((a : ServiceAction) × (commands ≡ Services.control_command a name ∷ [])
        × OneOf name allowed
        × ((status.code ≡ ok) ↔ Succeeds (run (Services.control_command a name))))

service_status-fails :
    (e : Services.ServiceManagerError) (message : Bytes) → (service_status e message).code ≢ ok
unfolding service_status
service_status-fails Services.invalid_argument message h = ground (arith, h)
service_status-fails Services.not_allowed message h = ground (arith, h)
service_status-fails Services.not_found message h = ground (arith, h)
service_status-fails Services.permission_denied message h = ground (arith, h)
service_status-fails Services.command_failed message h = ground (arith, h)

service_outcome-ok :
    (outcome : Services.Outcome) (commands : List Services.Command)
    → ((service_outcome (outcome, commands)).1 ≡ commands)
      × (((service_outcome (outcome, commands)).0.code ≡ ok) ↔ (outcome ≡ Services.done))
unfolding service_outcome
service_outcome-ok Services.done commands = (refl, ((λ h. refl), λ h. refl))
service_outcome-ok (Services.error e message) commands =
    (refl, ((λ h. absurd (service_status-fails e message h)), λ h. absurd (ground (arith, h))))

known-ControlsService :
    (run : Services.Runner) (allowed : List Bytes) (name : Bytes) (action : Option ServiceAction)
    → ControlsService run allowed name (service_known run allowed name action)
unfolding service_known
known-ControlsService run allowed name none = inl (refl, λ h. ground (arith, h))
known-ControlsService run allowed name (some a) =
    let r = control_service run allowed name a in
    let (same, (to_done, from_done)) = service_outcome-ok r.0 r.1 in
    elim (control_service-Controls run allowed name a) [
      | inl (none_run, failed, _) ↦ inl (same ∙ none_run, λ h. failed (to_done h))
      | inr (one_run, one, named, follows) ↦
          inr (a, same ∙ one_run, one, ((λ h. follows.0 (to_done h)), λ h. from_done (follows.1 h)))
    ]

-- `ControlService` answers OK only after it ran exactly one command, a `systemctl` operation on a
-- name of the whitelist, which exited with 0. Otherwise it either ran nothing, or ran that one
-- command and it failed, and the status is an error.
pub control_service_call-ControlsService :
    (run : Services.Runner) (allowed : List Bytes) (name : Bytes) (action : ℕ)
    → ControlsService run allowed name (control_service_call run allowed name action)
unfolding control_service_call
control_service_call-ControlsService run allowed name action =
    known-ControlsService run allowed name (service_action action)
