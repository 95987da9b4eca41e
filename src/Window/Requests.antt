-- ===== src/Window/Requests.antt =====
-- client/src/MainWindow.cpp: what it is for a control or for details to be asked for.
use edge_scpoe.Base.{
  ℕ, zero, suc, ◌<◌, true, false, List, [], ◌∷◌, Option, none, some, ◌≡◌, refl, ◌⊎◌, inl, inr, All,
  arith, sym, ap, ◌∙◌,
}
use mathlib.Core.Bool.{false≢true}
use edge_scpoe.Base.Int.{ℤ, pos, negsuc}
use edge_scpoe.Client.{ProcessData}
use edge_scpoe.Window.{
  MainWindow, Dialog, confirm_process, confirm_service, Effect, request_process_details,
  request_process_control, request_service_control, Handled,
}
use edge_scpoe.Window.Table.{nth, process_at}
use edge_scpoe.Window.Buttons.{selected_pid, pid_or_zero, not_positive}
use edge_scpoe.Window.Actions.{close_dialog, Event, user}

-- A pid above 0.
abbrev pub IsAbove : ℤ → Type 0
IsAbove (pos n) = 0 < n
IsAbove (negsuc n) = ⊥

-- The pid is one of a row of the model.
abbrev pub IsListed : {D : Type 0} → ℤ → List (ProcessData D) → Type 0
IsListed pid [] = ⊥
IsListed pid (p ∷ rest) = (p.pid ≡ pid) ⊎ IsListed pid rest

-- The event is a Yes in a box that asks for this control.
abbrev pub IsYesTo : {D : Type 0} → Dialog → Event D → List Dialog → Type 0
IsYesTo dialog (user (close_dialog answer)) (box ∷ rest) =
    (answer.yes_button ≡ true) × (box ≡ dialog)
IsYesTo dialog _ _ = ⊥

-- A control is one that the user said Yes to, of a process by a positive pid; details are of a positive
-- pid of the table.
abbrev pub IsAskedFor : {D : Type 0} → Event D → MainWindow D → Effect → Type 0
IsAskedFor e w (request_process_control pid action) =
    IsAbove pid × IsYesTo (confirm_process pid action) e w.dialogs
IsAskedFor e w (request_service_control name action) =
    IsYesTo (confirm_service name action) e w.dialogs
IsAskedFor e w (request_process_details pid) = IsAbove pid × IsListed pid w.process_model
IsAskedFor e w _ = Unit

-- A question about a process names a positive pid.
abbrev pub IsPositive : Dialog → Type 0
IsPositive (confirm_process pid action) = IsAbove pid
IsPositive _ = Unit

-- The effects of an event are asked for, and the boxes behind it name positive pids.
unfoldable pub Asked : {D : Type 0} → Event D → MainWindow D → Handled D → Type 0
Asked e w handled = All (IsAskedFor e w) handled.1 × All IsPositive handled.0.dialogs

nth-IsListed :
    {D : Type 0} (processes : List (ProcessData D)) (n : ℕ)
    → (pid_or_zero (nth processes n) ≡ pos 0) ⊎ IsListed (pid_or_zero (nth processes n)) processes
unfolding nth pid_or_zero
nth-IsListed [] n = inl refl
nth-IsListed (p ∷ rest) zero = inr (inl refl)
nth-IsListed (p ∷ rest) (suc n) = elim (nth-IsListed rest n) [ inl e ↦ inl e | inr h ↦ inr (inr h) ]

positive-IsAbove : (pid : ℤ) → not_positive pid ≡ false → IsAbove pid
unfolding not_positive
positive-IsAbove (pos n) e = ground arith
positive-IsAbove (negsuc n) e = absurd (false≢true (sym e))

zero_pid : (pid : ℤ) → not_positive pid ≡ false → pid ≡ pos 0 → ⊥
unfolding not_positive
zero_pid pid e z = false≢true (sym e ∙ ap not_positive z)

pub selected-IsListed :
    {D : Type 0} (selected : Option ℤ) (w : MainWindow D)
    → not_positive (selected_pid selected w) ≡ false
    → IsAbove (selected_pid selected w) × IsListed (selected_pid selected w) w.process_model
unfolding selected_pid process_at pid_or_zero
selected-IsListed none w e = absurd (zero_pid (pos 0) e refl)
selected-IsListed (some (negsuc n)) w e = absurd (zero_pid (pos 0) e refl)
selected-IsListed (some (pos n)) w e = elim (nth-IsListed w.process_model n) [
  | inl z ↦ absurd (zero_pid _ e z)
  | inr h ↦ (positive-IsAbove _ e, h)
]
