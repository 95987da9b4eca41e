-- ===== src/Window/Table.antt =====
-- client/src/ProcessTableModel.cpp: the model behind the table of processes. A row is signed, as in Qt.
use edge_scpoe.Base.{
  ℕ, suc, zero, List, [], ◌∷◌, Option, none, some, Bool, true, false, length, ◌++◌,
}
use edge_scpoe.Base.Int.{ℤ, pos, negsuc}
use edge_scpoe.Text.{Bytes, codes}
use edge_scpoe.Client.{ProcessData}
use edge_scpoe.Window.{Qt}

pub data Column : Type 0 where
  pid_column name_column cpu_column memory_column state_column threads_column : Column

-- A `QVariant` of the model.
pub data Variant (D : Type 0) : Type 0 where
  empty : Variant D
  number : ℤ → Variant D
  real : D → Variant D
  text : Bytes → Variant D

-- `Qt::UserRole`, `Qt::DisplayRole`, or one of the other roles.
pub data Role : Type 0 where
  user_role display_role other_role : Role

module _ {D : Type 0} where
  unfoldable pub nth : List (ProcessData D) → ℕ → Option (ProcessData D)
  nth [] n = none
  nth (p ∷ rest) zero = some p
  nth (p ∷ rest) (suc n) = nth rest n

  -- `ProcessAt`; `none` is the null pointer.
  unfoldable pub process_at : List (ProcessData D) → ℤ → Option (ProcessData D)
  unfolding nth
  process_at processes (pos row) = nth processes row
  process_at processes (negsuc n) = none

  -- `SetProcesses`.
  abbrev pub set_processes : List (ProcessData D) → List (ProcessData D) → List (ProcessData D)
  set_processes processes old = processes

  -- `rowCount` and `columnCount`, below a valid index or below none.
  unfoldable pub row_count : Bool → List (ProcessData D) → ℕ
  row_count true processes = 0
  row_count false processes = length processes

unfoldable pub column_count : Bool → ℕ
column_count true = 0
column_count false = 6

unfoldable pub header_value : {D : Type 0} → Option Column → Variant D
header_value (some pid_column) = text (codes "PID")
header_value (some name_column) = text (codes "Name")
header_value (some cpu_column) = text (codes "CPU")
header_value (some memory_column) = text (codes "Memory")
header_value (some state_column) = text (codes "State")
header_value (some threads_column) = text (codes "Threads")
header_value none = empty

-- `headerData`, of a horizontal header or not; the base class's answer is a parameter.
unfoldable pub header_data : {D : Type 0} → Variant D → Bool → Role → Option Column → Variant D
unfolding header_value
header_data base false role column = base
header_data base true user_role column = base
header_data base true other_role column = base
header_data base true display_role column = header_value column

unfoldable pub user_value : {D : Type 0} → Option Column → ProcessData D → Variant D
user_value (some pid_column) p = number p.pid
user_value (some name_column) p = text p.name
user_value (some cpu_column) p = real p.cpu_usage_percent
user_value (some memory_column) p = number (pos p.resident_memory_bytes)
user_value (some state_column) p = text p.state
user_value (some threads_column) p = number (pos p.thread_count)
user_value none p = empty

module _ {D : Type 0} (q : Qt D) where
  unfoldable pub display_value : Option Column → ProcessData D → Variant D
  display_value (some pid_column) p = number p.pid
  display_value (some name_column) p = text p.name
  display_value (some cpu_column) p = text (q.number p.cpu_usage_percent 1 ++ codes "%")
  display_value (some memory_column) p =
      let f = q.floats in
      let kibibyte = f.of_nat 1024 in
      text (
        q.number (f.over (f.of_nat p.resident_memory_bytes) (f.times kibibyte kibibyte)) 1
        ++ codes " MiB")
  display_value (some state_column) p = text p.state
  display_value (some threads_column) p = number (pos p.thread_count)
  display_value none p = empty

  unfoldable pub value_of : Role → Option Column → Option (ProcessData D) → Variant D
  unfolding display_value user_value
  value_of role column none = empty
  value_of user_role column (some p) = user_value column p
  value_of display_role column (some p) = display_value column p
  value_of other_role column (some p) = empty

  -- `data`; an index outside the columns has none of them.
  unfoldable pub data_at : Role → Option Column → List (ProcessData D) → ℤ → Variant D
  unfolding value_of process_at
  data_at role column processes row = value_of role column (process_at processes row)
