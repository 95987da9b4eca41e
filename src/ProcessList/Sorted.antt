-- ===== src/ProcessList/Sorted.antt =====
-- The order of `ListProcesses`.
use mathlib.Core.List.{Perm}
use mathlib.Core.List.Perm
use edge_scpoe.Base.Int.{pos}
use edge_scpoe.Text.Numbers.{stoll}
use edge_scpoe.Base.{ℕ, ◌≤◌, ◌≡◌, true, List, [], ◌∷◌, some, All}
use edge_scpoe.Base.Floats.{Floats}
use edge_scpoe.Base.Results.{Result, ok, err}
use edge_scpoe.Text.{Bytes}
use edge_scpoe.ProcessList.{ProcessInfo}
use edge_scpoe.ProcessList.Collect.{System, get_process, is_numeric, pid_named}

module _ {ℓ} {D : Type ℓ} where
  -- No process of the list has a smaller pid.
  abbrev pub AtLeast : ℕ → List (ProcessInfo D) → Type 0
  AtLeast n = All (λ (p : ProcessInfo D). n ≤ p.pid)

  abbrev pub IsSorted : List (ProcessInfo D) → Type 0
  IsSorted [] = Unit
  IsSorted (p ∷ ps) = AtLeast p.pid ps × IsSorted ps

module _ {D : Type 0} (floats : Floats D) (system : System D) where
  -- An entry of /proc whose name is the number of a process that can be read, and this process.
  abbrev pub IsRead : Bytes → ProcessInfo D → Type 0
  IsRead filename p =
      (is_numeric filename ≡ true)
      × ((pid : ℕ) × (pid_named floats system (stoll filename) ≡ some pid)
          × (get_process floats system (pos pid) ≡ ok p))

  -- One process for each entry that can be read, and none for any other.
  pub data AreRead : List Bytes → List (ProcessInfo D) → Type 0 where
    none_left : AreRead [] []
    taken :
        {filename : Bytes} {p : ProcessInfo D} {entries : List Bytes} {ps : List (ProcessInfo D)}
        → IsRead filename p
        → AreRead entries ps
        → AreRead (filename ∷ entries) (p ∷ ps)
    passed :
        {filename : Bytes} {entries : List Bytes} {ps : List (ProcessInfo D)}
        → ((p : ProcessInfo D) → ¬ IsRead filename p)
        → AreRead entries ps
        → AreRead (filename ∷ entries) ps

-- The processes of the entries that can be read, by ascending pid; an error only if /proc cannot be
-- read.
abbrev pub Lists :
    {D : Type 0}
    → Floats D
    → System D
    → Result Bytes (List Bytes)
    → Result Bytes (List (ProcessInfo D))
    → Type 0
Lists floats system (err e) (ok ps) = ⊥
Lists floats system (err e) (err message) = Unit
Lists floats system (ok entries) (err message) = ⊥
Lists {D} floats system (ok entries) (ok ps) =
    IsSorted ps
    × ((found : List (ProcessInfo D)) × AreRead floats system entries found × Perm ps found)
