-- ===== src/Base/System.antt =====
-- What the agent sees of the operating system: error numbers, and files that it opens.
use mathlib.Core.List.{List}
use Prim.Native.Nat.{ℕ}
use mathlib.Core.Option.{Option}

-- `errno` behind a call that failed: the values that the sources tell apart.
pub data Errno : Type 0 where
  eacces eperm enoent esrch eio : Errno
  other : ℕ → Errno

-- An opened file: the size that `seekg` to the end and `tellg` give (`none` if they fail), and the
-- bytes that a read of so many at a position delivers, fewer where the file ends.
pub record OpenFile : Type 0 where
  pub size : Option ℕ
  pub read : ℕ → ℕ → List ℕ

-- What opening a path gives.
pub data Opened : Type 0 where
  refused : Errno → Opened
  opened : OpenFile → Opened
