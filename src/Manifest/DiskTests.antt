-- ===== src/Manifest/DiskTests.antt =====
-- A folder with a file, a folder of one file and a symbolic link, as `from_disk` of manifest.rs
-- (crates/chorrent/src) reads it.
use chorrent.Common.{
  ℕ, ◌≡◌, refl, Option, none, some, List, [], ◌∷◌, map, Result, ok, err, list_beq,
}
use chorrent.Manifest.{Manifest}
use chorrent.Manifest.Names.{codes, to_ascii_lowercase, name_problem}
use chorrent.Manifest.Folder.{
  Node, file, folder, other, nil, entry, FilePath, DiskError, unsupported_name, same_but_for_case,
  collect,
}
use chorrent.Manifest.Disk.{FileOutboard, from_disk, single, hashed_entry}
use chorrent.Manifest.Built.{Built, from_disk-Built}

abbrev lowercase : List ℕ → List ℕ
lowercase = map to_ascii_lowercase

abbrev root : FilePath
root = codes "home" ∷ codes "show" ∷ []

abbrev disk : Node
disk = folder (
    entry (codes "b.mkv") file
      (entry (codes "link") other (entry (codes "Art") (folder (entry (codes "x") file nil)) nil)))

abbrev outboard_of : ℕ → FileOutboard
outboard_of size = record { root = size ∷ []; size = size; data' = [] }

abbrev ingest : ℕ → FilePath → ℕ → Result DiskError (ℕ × FileOutboard)
ingest index path size = ok (index, outboard_of size)

abbrev length_of : FilePath → Option ℕ
length_of path = some 70000

abbrev built : Manifest
built = record {
  name = codes "show";
  files =
      hashed_entry (codes "show" ∷ codes "Art" ∷ codes "x" ∷ []) (outboard_of 70000)
      ∷ hashed_entry (codes "show" ∷ codes "b.mkv" ∷ []) (outboard_of 70000)
      ∷ [];
}

from_disk-disk :
    from_disk lowercase some length_of ingest root (some (codes "show")) disk none
    ≡ ok (built, (0, outboard_of 70000) ∷ (1, outboard_of 70000) ∷ [])
unfolding from_disk collect name_problem list_beq
from_disk-disk = refl

names_that_differ_only_in_case_are_refused :
    from_disk lowercase some length_of ingest root
      (some (codes "show"))
      (folder (entry (codes "A") file (entry (codes "a") file nil)))
      none
    ≡ err (unsupported_name (codes "home" ∷ codes "show" ∷ codes "a" ∷ []) same_but_for_case)
unfolding from_disk collect name_problem list_beq
names_that_differ_only_in_case_are_refused = refl

from_disk-Built_example :
    Built lowercase some length_of ingest root disk built
      ((0, outboard_of 70000) ∷ (1, outboard_of 70000) ∷ [])
from_disk-Built_example =
    from_disk-Built lowercase some length_of ingest root (some (codes "show")) none disk
      (built, (0, outboard_of 70000) ∷ (1, outboard_of 70000) ∷ []) from_disk-disk

single-clip :
    single (codes "clip") (outboard_of 5)
    ≡ ok (record {
      name = codes "clip";
      files = hashed_entry (codes "clip" ∷ []) (outboard_of 5) ∷ [];
    })
unfolding single name_problem list_beq
single-clip = refl
