-- ===== src/Manifest/Disk.antt =====
-- `Manifest::from_disk` and `Manifest::single` of manifest.rs (crates/chorrent/src). `metadata` gives
-- the length of the file at a path, `ingest` is the caller's closure, `lowercase` Unicode's, and
-- `to_str` reads a file name as text. A hashed file has its data, of any type, and its outboard.
use chorrent.Common.{
  ℕ, suc, Option, none, some, List, [], ◌∷◌, map, if◌then◌else◌, contains, nat_eq, list_eq, Result,
  ok, err,
}
use chorrent.Common.Results.{◌>>=◌, ◌>>◌, ok_or}
use chorrent.Manifest.{FileEntry, Manifest}
use chorrent.Manifest.Names.{name_problem}
use chorrent.Manifest.Folder.{
  Node, FilePath, DiskError, io, unsupported_name, unportable, same_but_for_case, Found,
  portable_name, collect,
}

-- The fields of bao's outboard that the program reads.
pub record FileOutboard : Type 0 where
  pub root : List ℕ
  pub size : ℕ
  pub data' : List ℕ

-- The check of a name that the caller gives.
unfoldable pub checked_label : List ℕ → Result DiskError (List ℕ)
checked_label label = elim (name_problem label) [
  | some reason ↦ err (unsupported_name (label ∷ []) (unportable reason))
  | none ↦ ok label
]

-- The entry of a file that was hashed.
abbrev pub hashed_entry : List (List ℕ) → FileOutboard → FileEntry
hashed_entry components outboard = record {
  path = components;
  size = outboard.size;
  root_hash = outboard.root;
}

unfoldable pub single : List ℕ → FileOutboard → Result DiskError Manifest
unfolding checked_label
single name outboard = do
  checked ← checked_label name
  ok (record { name = checked; files = hashed_entry (checked ∷ []) outboard ∷ [] })

module _ (lowercase : List ℕ → List ℕ) where
  -- The loop that looks for names that differ only in case.
  unfoldable pub check_case : List (List (List ℕ)) → List Found → Result DiskError (Unit {0})
  check_case seen [] = ok tt
  check_case seen ((components, path) ∷ found) =
      let rest = check_case (map lowercase components ∷ seen) found in
      if contains seen (map lowercase components)
      then err (unsupported_name path same_but_for_case)
      else rest

  module _ {Data : Type 0} (to_str : List ℕ → Option (List ℕ)) (metadata : FilePath → Option ℕ)
      (ingest : ℕ → FilePath → ℕ → Result DiskError (Data × FileOutboard)) where
    -- The last loop, from file number `index`.
    unfoldable pub ingest_all :
        ℕ → List Found → Result DiskError (List FileEntry × List (Data × FileOutboard))
    ingest_all index [] = ok ([], [])
    ingest_all index ((components, path) ∷ found) = do
      size ← ok_or (metadata path) (io path)
      (file, outboard) ← ingest index path size
      (files, hashed) ← ingest_all (suc index) found
      ok (hashed_entry components outboard ∷ files, (file, outboard) ∷ hashed)

    -- The name of the share: the label, or the root's own file name.
    unfoldable pub share_name :
        FilePath → Option (List ℕ) → Option (List ℕ) → Result DiskError (List ℕ)
    unfolding checked_label
    share_name root file_name none = portable_name to_str root file_name
    share_name root file_name (some label) = checked_label label

    unfoldable pub from_disk :
        FilePath
        → Option (List ℕ)
        → Node
        → Option (List ℕ)
        → Result DiskError (Manifest × List (Data × FileOutboard))
    unfolding share_name check_case ingest_all
    from_disk root file_name node label = do
      name ← share_name root file_name label
      found ← collect to_str node root (name ∷ [])
      check_case [] found
      (files, hashed) ← ingest_all 0 found
      ok (record { name = name; files = files }, hashed)
