-- ===== src/Bundles.antt =====
-- agent/include/DiagnosticCollector.h and agent/src/DiagnosticCollector.cpp: diagnostic bundles, which
-- a call collects in a staging directory, packs by tar into an archive, and remembers; the five newest
-- are kept. The mutex makes each call one step. This file has the store of archives: `GetBundlePath`,
-- `RemoveOldBundles` and the destructor. The collecting is in Report, `CreateBundle` in Create.
pub mod Report
pub mod Create
pub mod Names
pub mod Backed
pub mod Stored
pub mod Calls
pub mod Example
mod Tests
use edge_scpoe.Base.{
  ℕ, ◌+◌, Bool, true, false, not, List, [], ◌∷◌, ◌++◌, Option, none, some, ltb, if◌then◌else◌,
  length,
}
use edge_scpoe.Base.Results.{Result, ok, err}
use edge_scpoe.Text.{Bytes, codes, equal}

abbrev pub maximum_bundles : ℕ
maximum_bundles = 5

pub record DiagnosticBundleInfo : Type 0 where
  pub id : Bytes
  pub filename : Bytes
  pub size_bytes : ℕ
  pub created_at_unix_seconds : ℕ

pub record StoredBundle : Type 0 where
  pub info : DiagnosticBundleInfo
  pub path : Bytes

-- What the calls of `std::filesystem` see and change: the staging directories and the archives that
-- are there, by path, an archive with its contents.
pub record Disk : Type 0 where
  pub stagings : List Bytes
  pub archives : List (Bytes × Bytes)

-- The members, and the disk.
pub record DiagnosticCollector : Type 0 where
  pub bundles : List StoredBundle
  pub sequence : ℕ
  pub disk : Disk

-- Removing a path from the staging directories, and from the archives.
unfoldable pub without : Bytes → List Bytes → List Bytes
without path [] = []
without path (p ∷ rest) = if equal path p then without path rest else p ∷ without path rest

unfoldable pub without_archive : Bytes → List (Bytes × Bytes) → List (Bytes × Bytes)
without_archive path [] = []
without_archive path ((p, contents) ∷ rest) =
    if equal path p then without_archive path rest else (p, contents) ∷ without_archive path rest

-- `std::filesystem::remove` and `remove_all`, whose errors are ignored; `removable` tells the paths
-- that can be removed.
unfoldable pub remove_archive : (Bytes → Bool) → Bytes → Disk → Disk
unfolding without_archive
remove_archive removable path disk =
    if removable path then record disk { archives = without_archive path disk.archives } else disk

unfoldable pub remove_staging : (Bytes → Bool) → Bytes → Disk → Disk
unfolding without
remove_staging removable path disk =
    if removable path then record disk { stagings = without path disk.stagings } else disk

-- An archive that tar writes, in place of one with that path.
unfoldable pub write_archive : Bytes → Option Bytes → Disk → Disk
unfolding without_archive
write_archive path none disk = disk
write_archive path (some contents) disk = record disk {
  archives = without_archive path disk.archives ++ (path, contents) ∷ [];
}

unfoldable pub find_archive : Bytes → List (Bytes × Bytes) → Option Bytes
find_archive path [] = none
find_archive path ((p, contents) ∷ rest) =
    if equal path p then some contents else find_archive path rest

-- `GetBundlePath`: the path and the size of the first bundle with the id.
unfoldable pub get_bundle_path : Bytes → List StoredBundle → Result Bytes (Bytes × ℕ)
get_bundle_path id [] = err (codes "diagnostic bundle not found")
get_bundle_path id (bundle ∷ rest) =
    if equal bundle.info.id id
    then ok (bundle.path, bundle.info.size_bytes)
    else get_bundle_path id rest

-- `RemoveOldBundles`: from the front, while there are more than five.
unfoldable pub remove_old_bundles :
    (Bytes → Bool) → List StoredBundle → Disk → List StoredBundle × Disk
unfolding remove_archive
remove_old_bundles removable [] disk = ([], disk)
remove_old_bundles removable (bundle ∷ rest) disk =
    if ltb maximum_bundles (length (bundle ∷ rest))
    then remove_old_bundles removable rest (remove_archive removable bundle.path disk)
    else (bundle ∷ rest, disk)

-- The destructor's loop.
unfoldable pub remove_all_bundles : (Bytes → Bool) → List StoredBundle → Disk → Disk
unfolding remove_archive
remove_all_bundles removable [] disk = disk
remove_all_bundles removable (bundle ∷ rest) disk =
    remove_all_bundles removable rest (remove_archive removable bundle.path disk)
