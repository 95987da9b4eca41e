-- ===== src/CommandLine/Control.antt =====
-- A process control from the command line to the kernel.
use edge_scpoe.Base.{
  ℕ, ◌≡◌, ◌⊎◌, inl, inr, refl, Bool, true, false, List, [], ◌∷◌, Option, none, some,
}
use edge_scpoe.Base.Int.{pos}
use edge_scpoe.Text.{Bytes}
use edge_scpoe.Processes.{Kernel, Sent}
use edge_scpoe.Processes.Guards.{IsTarget}
use edge_scpoe.Rpc.{StatusCode, control_process}
use edge_scpoe.Rpc.Control.{control_process-ControlsProcess}
use edge_scpoe.CommandLine.{parse_pid, parse_control_action}

-- The exit code: 0 after a status OK that arrives, and 1 else.
unfoldable pub exit_code : Bool → StatusCode → ℕ
exit_code true StatusCode.ok = 0
exit_code _ _ = 1

unfoldable pub with_action : Kernel → ℕ → Bool → ℕ → Option ℕ → ℕ × List Sent
unfolding exit_code
with_action kernel own arrives pid none = (1, [])
with_action kernel own arrives pid (some action) =
    let answer = control_process kernel own (pos pid) action in
    (exit_code arrives (answer.0.code), answer.1)

unfoldable pub with_pid : Kernel → ℕ → Bool → Option ℕ → Option ℕ → ℕ × List Sent
unfolding with_action
with_pid kernel own arrives none action = (1, [])
with_pid kernel own arrives (some pid) action = with_action kernel own arrives pid action

-- The branch of `main` with the agent behind it: the exit code, and the signals that the agent sent.
-- `arrives` tells whether gRPC delivers the agent's status.
unfoldable pub run_control : Kernel → ℕ → Bool → Bytes → Bytes → ℕ × List Sent
unfolding with_pid
run_control kernel own arrives pid_text action_text =
    with_pid kernel own arrives (parse_pid pid_text) (parse_control_action action_text)

-- The exit code is 0 only after one signal that the kernel accepted, to the process with that pid.
abbrev pub Reports : Kernel → ℕ → Bytes → ℕ × List Sent → Type 0
Reports kernel own pid_text (code, signals) =
    (code ≡ 1)
    ⊎ ((pid : ℕ) × (s : Sent) × (parse_pid pid_text ≡ some pid)
        × (signals ≡ s ∷ [])
        × (s.pid ≡ pos pid)
        × IsTarget own (pos pid)
        × (kernel s ≡ none))

exit_code-cases :
    (arrives : Bool) (code : StatusCode) → (exit_code arrives code ≡ 1) ⊎ (code ≡ StatusCode.ok)
unfolding exit_code
exit_code-cases false code = inl refl
exit_code-cases true StatusCode.ok = inr refl
exit_code-cases true StatusCode.invalid_argument = inl refl
exit_code-cases true StatusCode.not_found = inl refl
exit_code-cases true StatusCode.permission_denied = inl refl
exit_code-cases true StatusCode.failed_precondition = inl refl
exit_code-cases true StatusCode.internal = inl refl

with_action-Reports :
    (kernel : Kernel) (own : ℕ) (arrives : Bool) (pid_text : Bytes) (pid : ℕ) (action : Option ℕ)
    → parse_pid pid_text ≡ some pid
    → Reports kernel own pid_text (with_action kernel own arrives pid action)
unfolding with_action
with_action-Reports kernel own arrives pid_text pid none e = inl refl
with_action-Reports kernel own arrives pid_text pid (some action) e =
    let answer = control_process kernel own (pos pid) action in
    elim (exit_code-cases arrives (answer.0.code)) [
      | inl failed ↦ inl failed
      | inr good ↦ elim (control_process-ControlsProcess kernel own (pos pid) action) [
        | inl unsent ↦ absurd (unsent.1 good)
        | inr (s, one, to, target, accepts) ↦ inr (pid, s, e, one, to, target, accepts.0 good)
      ]
    ]

by_pid :
    (kernel : Kernel) (own : ℕ) (arrives : Bool) (pid_text : Bytes) (pid action : Option ℕ)
    → parse_pid pid_text ≡ pid
    → Reports kernel own pid_text (with_pid kernel own arrives pid action)
unfolding with_pid
by_pid kernel own arrives pid_text none action e = inl refl
by_pid kernel own arrives pid_text (some pid) action e =
    with_action-Reports kernel own arrives pid_text pid action e

-- From the command line to the kernel: the client exits with 0 only if the agent sent one signal,
-- which the kernel accepted, to the process with the pid that was given, above 1 and not the agent.
pub run_control-Reports :
    (kernel : Kernel) (own : ℕ) (arrives : Bool) (pid_text action_text : Bytes)
    → Reports kernel own pid_text (run_control kernel own arrives pid_text action_text)
unfolding run_control
run_control-Reports kernel own arrives pid_text action_text =
    by_pid kernel own arrives pid_text (parse_pid pid_text) (parse_control_action action_text) refl
