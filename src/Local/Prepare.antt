-- ===== src/Local/Prepare.antt =====
-- `for_download`, `verify`, `check_file` with `read_range`, and `outboard_snapshots` of local.rs
-- (crates/chorrent/src). A file is known by its number: its place follows from that, from the folder and
-- from the manifest. What the disk and the hash tree do is a parameter; an outboard is its bytes.
use chorrent.Common.{
  ℕ, suc, ◌-◌, Bool, true, false, not, ◌&&◌, Option, none, some, List, [], ◌∷◌, ◌>>=◌, ◌==◌,
  nat_beq, min, if◌then◌else◌, get_elem?, range, nat_eq, list_eq, Result, ok, err,
}
use chorrent.Manifest.{Manifest, FileEntry}
use chorrent.Layout.{pieces_of}
use chorrent.Local.{LocalShare, LocalError, not_readable, from_parts, mark_have, check_file}

pub data PrepareError : Type 0 where
  not_prepared panicked unhashed : PrepareError
  hash_mismatch : ℕ → PrepareError

-- The length of a regular file that is there, its root hash and outboard, the file made at its final
-- length, an outboard without hashes, the root hash of a finished file, and its bytes.
pub record Files (Disk : Type 0) : Type 0 where
  pub file_len : Disk → ℕ → Option ℕ
  pub hash_file : Disk → ℕ → Option (List ℕ × List ℕ)
  pub preallocate : Disk → ℕ → ℕ → Disk × Bool
  pub empty_outboard : List ℕ → ℕ → List ℕ
  pub hash_data : Disk → ℕ → ℕ → Option (List ℕ)
  pub read_exact : Disk → ℕ → ℕ → ℕ → Option (List ℕ)

-- The disk, the outboards, and the numbers of the files that were complete.
pub record Prepared (Disk : Type 0) : Type 0 where
  pub disk : Disk
  pub outboards : List (List ℕ)
  pub already_complete : List ℕ

abbrev pub has_len : Option ℕ → ℕ → Bool
has_len none size = false
has_len (some len) size = nat_beq len size

module _ {Disk : Type 0} where
  unfoldable pub mark_pieces : List ℕ → LocalShare Disk → Option (LocalShare Disk)
  mark_pieces [] share = some share
  mark_pieces (piece ∷ pieces) share = do share' ← mark_have share piece; mark_pieces pieces share'

  -- The pieces of the files that were complete.
  unfoldable pub mark_files : List ℕ → LocalShare Disk → Option (LocalShare Disk)
  mark_files [] share = some share
  mark_files (index ∷ rest) share = do
    (first, end) ← pieces_of share.layout index
    share' ← mark_pieces (range first (end - first)) share
    mark_files rest share'

  abbrev pub or_panicked : Option (LocalShare Disk) → Result PrepareError (LocalShare Disk)
  or_panicked none = err panicked
  or_panicked (some share) = ok share

module _ {Disk : Type 0} (c : Files Disk) where
  abbrev pub existing : Bool → Disk → ℕ → FileEntry → Bool
  existing is_encrypted disk index entry =
      not is_encrypted && has_len (c.file_len disk index) entry.size

  -- `existing.then(|| chunker::hash_file(&path))`, if it worked.
  abbrev pub found : Bool → Disk → ℕ → Option (List ℕ × List ℕ)
  found false disk index = none
  found true disk index = c.hash_file disk index

  abbrev pub with_file : List ℕ → Prepared Disk → Prepared Disk
  with_file outboard p = record p { outboards = outboard ∷ p.outboards }

  abbrev pub with_complete : ℕ → List ℕ → Prepared Disk → Prepared Disk
  with_complete index outboard p = record p {
    outboards = outboard ∷ p.outboards;
    already_complete = index ∷ p.already_complete;
  }

  abbrev pub and_then :
      (Prepared Disk → Prepared Disk)
      → Result PrepareError (Prepared Disk)
      → Result PrepareError (Prepared Disk)
  and_then f (ok p) = ok (f p)
  and_then f (err e) = err e

  -- The file is new, or not what the manifest says: the rest of the loop goes on with the disk after it.
  abbrev pub started :
      FileEntry
      → (Disk → Result PrepareError (Prepared Disk))
      → Disk × Bool
      → Result PrepareError (Prepared Disk)
  started entry rest (disk, true) =
      and_then (with_file (c.empty_outboard entry.root_hash entry.size)) (rest disk)
  started entry rest (disk, false) = err not_prepared

  -- The match on the hash of what exists.
  abbrev pub prepared_file :
      Disk
      → ℕ
      → FileEntry
      → (Disk → Result PrepareError (Prepared Disk))
      → Option (List ℕ × List ℕ)
      → Result PrepareError (Prepared Disk)
  prepared_file disk index entry rest none =
      started entry rest (c.preallocate disk index entry.size)
  prepared_file disk index entry rest (some (root, full)) =
      if root == entry.root_hash
      then and_then (with_complete index full) (rest disk)
      else started entry rest (c.preallocate disk index entry.size)

  -- The loop over the files.
  unfoldable pub prepare_files :
      Bool → ℕ → List FileEntry → Disk → Result PrepareError (Prepared Disk)
  prepare_files is_encrypted index [] disk =
      ok (record { disk = disk; outboards = []; already_complete = [] })
  prepare_files is_encrypted index (entry ∷ entries) disk =
      prepared_file disk index entry (prepare_files is_encrypted (suc index) entries)
        (found (existing is_encrypted disk index entry) disk index)

  abbrev pub assembled :
      Manifest → Result PrepareError (Prepared Disk) → Result PrepareError (LocalShare Disk)
  assembled manifest (err e) = err e
  assembled manifest (ok p) =
      or_panicked (mark_files p.already_complete (from_parts manifest p.outboards p.disk false))

  unfoldable pub for_download : Manifest → Bool → Disk → Result PrepareError (LocalShare Disk)
  for_download manifest is_encrypted disk =
      assembled manifest (prepare_files is_encrypted 0 manifest.files disk)

  abbrev pub verify_root :
      ℕ
      → FileEntry
      → Result PrepareError (Unit {0})
      → Option (List ℕ)
      → Result PrepareError (Unit {0})
  verify_root index entry rest none = err unhashed
  verify_root index entry rest (some root) =
      if root == entry.root_hash then rest else err (hash_mismatch index)

  -- The loop of `verify`.
  unfoldable pub verify_files : Disk → ℕ → List FileEntry → Result PrepareError (Unit {0})
  verify_files disk index [] = ok tt
  verify_files disk index (entry ∷ entries) =
      verify_root index entry (verify_files disk (suc index) entries)
        (c.hash_data disk index entry.size)

  unfoldable pub verify : Manifest → LocalShare Disk → Result PrepareError (Unit {0})
  verify manifest share = verify_files share.disk 0 manifest.files

  abbrev pub bytes_read : Option (List ℕ) → Result LocalError (List ℕ)
  bytes_read none = err not_readable
  bytes_read (some bytes) = ok bytes

  abbrev pub after_check :
      Manifest → LocalShare Disk → ℕ → ℕ → Result LocalError ℕ → Option (Result LocalError (List ℕ))
  after_check manifest share offset len (err e) = some (err e)
  after_check manifest share offset len (ok index) = do
    entry ← get_elem? manifest.files index
    some (bytes_read (c.read_exact share.disk index offset (min len (entry.size - offset))))

  unfoldable pub read_range :
      Manifest → LocalShare Disk → ℕ → ℕ → ℕ → Option (Result LocalError (List ℕ))
  read_range manifest share index offset len = do
    checked ← check_file share index
    after_check manifest share offset len checked

abbrev pub outboard_snapshots : {Disk : Type 0} → LocalShare Disk → List (List ℕ)
outboard_snapshots share = share.outboards
