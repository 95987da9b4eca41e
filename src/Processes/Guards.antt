-- ===== src/Processes/Guards.antt =====
-- What `Control` lets through.
use edge_scpoe.Base.{
  ℕ, ◌<◌, ◌≡◌, refl, subst, ◌↔◌, ◌≢◌, ◌⊎◌, inl, inr, List, [], ◌∷◌, Option, none, some, true, false,
  arith, if_intro,
}
use edge_scpoe.Base.Int.{ℤ, pos, negsuc}
use edge_scpoe.Base.System.{Errno, eacces, eperm, enoent, esrch, eio, other}
use edge_scpoe.Processes.{
  ProcessControlAction, ProcessControlError, invalid_argument, not_found, permission_denied, Kernel,
  Sent, Outcome, done, error, at_most_one, is_own, signal_number, killed, control,
}

-- A pid that may be signalled: above 1, and not the agent's.
pub record IsTarget (own : ℕ) (pid : ℤ) : Type 0 where
  pub number : ℕ
  pub is_number : pid ≡ pos number
  pub above_one : 1 < number
  pub other_process : number ≢ own

-- The error that the caller sees.
abbrev pub code_of : Outcome → Option ProcessControlError
code_of done = none
code_of (error e message) = some e

-- How the outcome follows the result of `kill`.
pub record Follows (result : Option Errno) (outcome : Outcome) : Type 0 where
  pub succeeds : (outcome ≡ done) ↔ (result ≡ none)
  pub missing : (code_of outcome ≡ some not_found) ↔ (result ≡ some esrch)
  pub denied : (code_of outcome ≡ some permission_denied) ↔ (result ≡ some eperm)

killed-Follows : (result : Option Errno) → Follows result (killed result)
unfolding killed
killed-Follows none = ground arith
killed-Follows (some eacces) = ground arith
killed-Follows (some eperm) = ground arith
killed-Follows (some enoent) = ground arith
killed-Follows (some esrch) = ground arith
killed-Follows (some eio) = ground arith
killed-Follows (some (other n)) = ground arith

module _ (kernel : Kernel) (own : ℕ) (pid : ℤ) (action : ProcessControlAction) where
  abbrev pub sent : Sent
  sent = record { pid = pid; signal = signal_number action }

  abbrev pub Controls : Outcome × List Sent → Type 0
  Controls (outcome, signals) =
      ((signals ≡ []) × (code_of outcome ≡ some invalid_argument) × (¬ (IsTarget own pid)))
      ⊎ ((signals ≡ sent ∷ []) × IsTarget own pid × Follows (kernel sent) outcome)

  not_above : at_most_one pid ≡ true → ¬ (IsTarget own pid)
  unfolding at_most_one
  not_above h t =
      let low : at_most_one (pos t.number) ≡ true =
        subst (λ p. at_most_one p ≡ true) t.is_number h in
      ground (arith, low, t.above_one)

  not_other : is_own own pid ≡ true → ¬ (IsTarget own pid)
  unfolding is_own
  not_other h t =
      let same : is_own own (pos t.number) ≡ true =
        subst (λ p. is_own own p ≡ true) t.is_number h in
      t.other_process (ground (arith, same))

target : (own : ℕ) (pid : ℤ) → at_most_one pid ≡ false → is_own own pid ≡ false → IsTarget own pid
unfolding at_most_one is_own
target own (pos n) high other_ = record {
  number = n;
  is_number = refl;
  above_one = ground arith;
  other_process = λ e. ground arith;
}
target own (negsuc n) high other_ = absurd (ground arith)

-- At most one signal is sent, to the process and of the kind that were asked for. None is sent, and
-- the call fails as an invalid argument, exactly if the pid is 1 or less or the agent's own; else
-- the outcome is that of `kill`.
pub control-Controls :
    (kernel : Kernel) (own : ℕ) (pid : ℤ) (action : ProcessControlAction)
    → Controls kernel own pid action (control kernel own pid action)
unfolding control
control-Controls kernel own pid action =
    let P = Controls kernel own pid action in
    if_intro P (at_most_one pid) _ _ (λ low. inl (refl, refl, not_above kernel own pid action low))
      λ high.
        if_intro P (is_own own pid) _ _
          (λ self. inl (refl, refl, not_other kernel own pid action self))
          λ other_.
            inr (
              refl,
              target own pid high other_,
              killed-Follows (kernel (sent kernel own pid action)),
            )
