-- ===== src/Processes.antt =====
-- agent/include/ProcessController.h and agent/src/ProcessController.cpp: sending a signal to a
-- process. `kill` of the system is a parameter, and every call of it is recorded.
pub mod Guards
use edge_scpoe.Base.{
  ℕ, Bool, true, false, List, [], ◌∷◌, Option, none, some, leb, ◌==◌, if◌then◌else◌,
}
use edge_scpoe.Base.Int.{ℤ, pos, negsuc}
use edge_scpoe.Base.System.{Errno, eperm, esrch}
use edge_scpoe.Text.{Bytes, codes}

pub data ProcessControlAction : Type 0 where
  terminate kill stop resume : ProcessControlAction

pub data ProcessControlError : Type 0 where
  invalid_argument not_found permission_denied internal : ProcessControlError

pub data Signal : Type 0 where
  sigterm sigkill sigstop sigcont : Signal

-- One call of `kill`.
pub record Sent : Type 0 where
  pub pid : ℤ
  pub signal : Signal

-- What `kill` does: `none` is 0, and an error number is -1.
abbrev pub Kernel : Type 0
Kernel = Sent → Option Errno

pub data Outcome : Type 0 where
  done : Outcome
  error : ProcessControlError → Bytes → Outcome

-- `pid <= 1`.
unfoldable pub at_most_one : ℤ → Bool
at_most_one (pos n) = leb n 1
at_most_one (negsuc n) = true

-- `pid == getpid()`: the agent's own pid is positive.
unfoldable pub is_own : ℕ → ℤ → Bool
is_own own (pos n) = n == own
is_own own (negsuc n) = false

unfoldable pub signal_number : ProcessControlAction → Signal
signal_number terminate = sigterm
signal_number kill = sigkill
signal_number stop = sigstop
signal_number resume = sigcont

-- What the result of `kill` means.
unfoldable pub killed : Option Errno → Outcome
killed none = done
killed (some esrch) = error not_found (codes "process does not exist")
killed (some eperm) = error permission_denied (codes "permission denied while controlling process")
killed (some _) = error internal (codes "failed to control process")

-- `Control`: the outcome, and the signals that were sent.
unfoldable pub control : Kernel → ℕ → ℤ → ProcessControlAction → Outcome × List Sent
unfolding at_most_one is_own signal_number killed
control kernel own pid action =
    let sent : Sent = record { pid = pid; signal = signal_number action } in
    if at_most_one pid
    then (error invalid_argument (codes "pid must be greater than 1"), [])
    else if is_own own pid
    then (error invalid_argument (codes "the agent cannot control itself"), [])
    else (killed (kernel sent), sent ∷ [])
