-- ===== src/Services/Whitelist.antt =====
-- `ControlService` and the whitelist.
use edge_scpoe.Base.{
  ◌≡◌, ◌≢◌, ◌↔◌, ◌⊎◌, inl, inr, refl, ap, true, not, List, [], ◌∷◌, some, arith, null, if_intro,
}
use edge_scpoe.Text.{Bytes}
use edge_scpoe.Text.Laws.{equal_iff}
use edge_scpoe.Services.{
  ServiceAction, Runner, Ran, ran, failed, Command, Outcome, done, is_allowed, control_command,
  exited_zero, judge, control_service,
}

-- The name stands in the list.
abbrev pub OneOf : Bytes → List Bytes → Type 0
OneOf name [] = ⊥
OneOf name (s ∷ services) = (s ≡ name) ⊎ OneOf name services

nil_of_null : (s : Bytes) → null s ≡ true → s ≡ []
nil_of_null [] h = refl
nil_of_null (c ∷ cs) h = cc

pub is_allowed-OneOf :
    (services : List Bytes) (name : Bytes) → (is_allowed services name ≡ true) ↔ OneOf name services
unfolding is_allowed
is_allowed-OneOf [] name = ((λ h. cc), λ h. absurd h)
is_allowed-OneOf (s ∷ services) name =
    let rest = is_allowed-OneOf services name in
    let first = equal_iff s name in (ground arith, ground arith)

-- The command ran and exited with 0.
abbrev pub Succeeds : Ran → Type 0
Succeeds (ran result) = result.exit_code ≡ some 0
Succeeds (failed text) = ⊥

judge-done : (r : Ran) → (judge r ≡ done) ↔ Succeeds r
unfolding judge exited_zero
judge-done (failed text) = ((λ h. absurd (ground (arith, h))), λ h. absurd h)
judge-done (ran result) = (ground arith, ground arith)

module _ (run : Runner) (allowed : List Bytes) (name : Bytes) (action : ServiceAction) where
  abbrev pub command : Command
  command = control_command action name

  -- A call either runs nothing and fails, or it names a service of the whitelist and runs one command.
  abbrev pub Controls : Outcome × List Command → Type 0
  Controls (outcome, commands) =
      ((commands ≡ []) × (outcome ≢ done) × (¬ (OneOf name allowed) ⊎ (name ≡ [])))
      ⊎ ((commands ≡ command ∷ [])
          × OneOf name allowed
          × (name ≢ [])
          × ((outcome ≡ done) ↔ Succeeds (run command)))

  -- The command that is run, if any, is one `systemctl` operation on a service of the whitelist; for
  -- a name that is empty or not on it nothing is run and the call fails; and the call succeeds
  -- exactly if the command ran and exited with 0.
  pub control_service-Controls : Controls (control_service run allowed name action)
  unfolding control_service
  control_service-Controls =
      if_intro Controls (null name) _ _
        (λ empty. inl (refl, (λ h. ground (arith, h)), inr (nil_of_null name empty)))
        λ named.
          if_intro Controls (not (is_allowed allowed name)) _ _
            (λ barred. inl (
              refl,
              (λ h. ground (arith, h)),
              inl (λ o. let h = (is_allowed-OneOf allowed name).1 o in ground arith),
            ))
            λ open_. inr (
              refl,
              (is_allowed-OneOf allowed name).0 (ground arith),
              (λ e. ground (arith, named, ap null e)),
              judge-done (run command),
            )
