-- ===== src/Storage/Files.antt =====
-- `FileData` and `Handle` of storage.rs (crates/chorrent/src): where a file's bytes live, how it is
-- created and opened. The file system is a function of paths. Its operations, the key derivation
-- and the cipher are parameters; the random salt of a new file is an argument.
use chorrent.Common.{
  ℕ, ◌+◌, ◌-◌, ◌*◌, ◌/◌, Bool, true, false, Option, none, some, List, [], ◌∷◌, ◌++◌, leb, Eq, ◌==◌,
  nat_eq, not, list_beq, take, drop, length, range, if◌then◌else◌, Result, ok, err,
}
use chorrent.Common.Results.{◌>>=◌, ◌>>◌, ok_or, fail_if}
use chorrent.Manifest.{block_size}
use chorrent.Manifest.Names.{codes}
use chorrent.Storage.{header, slot, IoError, Encrypted, Device, block_written, read_at}

-- `MAGIC`
abbrev pub magic : List ℕ
magic = codes "CHRENC01"

-- One file's bytes, wherever they live.
pub data FileData (Place Key : Type 0) : Type 0 where
  plain : Place → FileData Place Key
  encrypted : Place → Key → ℕ → FileData Place Key

-- What can go wrong with a file as a whole.
pub data FileError : Type 0 where
  no_such_file not_created no_storage_key not_a_store_file unreachable : FileError
  in_store : IoError → FileError

-- The system's calls. `new_file` makes a file with the given bytes, set to a length.
pub record System (File Key : Type 0) : Type 0 where
  pub file_len : File → ℕ
  pub new_file : List ℕ → ℕ → Option File
  pub read_exact_at : File → ℕ → ℕ → Option (List ℕ)
  pub write_all_at : File → ℕ → List ℕ → Option File
  pub file_key : Key → List ℕ → Key
  pub encrypt : Key → List ℕ → List ℕ → List ℕ → Option (List ℕ)
  pub decrypt : Key → List ℕ → List ℕ → List ℕ → Option (List ℕ)

-- An open file, plain or encrypted.
pub data Handle (File : Type 0) : Type 0 where
  plain_handle : File → Handle File
  encrypted_handle : Device File → Encrypted File → Handle File

unfoldable pub path : {Place Key : Type 0} → FileData Place Key → Place
path (plain p) = p
path (encrypted p key size) = p

unfoldable pub is_encrypted : {Place Key : Type 0} → FileData Place Key → Bool
is_encrypted (plain p) = false
is_encrypted (encrypted p key size) = true

-- `size.div_ceil(block())`
abbrev pub pieces_of : ℕ → ℕ
pieces_of size = (size + (block_size - 1)) / block_size

-- The open files of a disk are by path.
abbrev pub Disk : Type 0 → Type 0 → Type 0
Disk Place File = Place → Option File

abbrev in_file : {A : Type 0} → Result IoError A → Result FileError A
in_file (ok a) = ok a
in_file (err e) = err (in_store e)

module _ {File : Type 0} where
  -- The pieces of an open file that were written.
  abbrev pub written_of : Device File → Encrypted File → List ℕ → Result IoError (List Bool)
  written_of d enc [] = ok []
  written_of d enc (i ∷ rest) = do
    is_here ← block_written d enc i
    others ← written_of d enc rest
    ok (is_here ∷ others)

  abbrev pub written_in : ℕ → Handle File → Result FileError (Option (List Bool))
  written_in size (plain_handle f) = err unreachable
  written_in size (encrypted_handle d enc) = do
    written ← in_file (written_of d enc (range 0 (pieces_of size)))
    ok (some written)

  -- `ReadAt::read_at` of a handle; `read_up_to` is the system's.
  unfoldable pub read_handle :
      (File → ℕ → ℕ → Result IoError (List ℕ)) → Handle File → ℕ → ℕ → Result IoError (List ℕ)
  unfolding read_at
  read_handle read_up_to (plain_handle f) pos len = read_up_to f pos len
  read_handle read_up_to (encrypted_handle d enc) pos len = read_at d enc pos len

  -- `SequentialReader::read`: the bytes, and the position after them.
  unfoldable pub read_next :
      (File → ℕ → ℕ → Result IoError (List ℕ)) → Handle File → ℕ → ℕ → Result IoError (List ℕ × ℕ)
  unfolding read_handle
  read_next read_up_to handle pos len = do
    bytes ← read_handle read_up_to handle pos len
    ok (bytes, pos + length bytes)

module _ {File Key : Type 0} (sys : System File Key) where
  -- The cipher of one file, by its key and salt, on the disk's files.
  abbrev pub device : Key → List ℕ → Device File
  device key salt = record {
    read_exact_at = sys.read_exact_at;
    write_all_at = sys.write_all_at;
    encrypt = sys.encrypt (sys.file_key key salt);
    decrypt = sys.decrypt (sys.file_key key salt);
  }

  -- The first bytes of a file are those of the store.
  abbrev has_magic : Option File → Bool
  has_magic none = false
  has_magic (some f) = starts (sys.read_exact_at f 0 8)
    where
      starts : Option (List ℕ) → Bool
      starts none = false
      starts (some bytes) = list_beq bytes magic

  -- `metadata(path).is_ok_and(|m| m.len() >= HEADER)`
  abbrev pub is_set_up : Option File → Bool
  is_set_up none = false
  is_set_up (some f) = leb header (sys.file_len f)

  -- What is there, or an empty file.
  abbrev or_new : Option File → Option File
  or_new none = sys.new_file [] 0
  or_new (some f) = some f

module _ {Place File : Type 0} ⦃e : Eq Place⦄ where
  abbrev pub save : Disk Place File → Place → File → Disk Place File
  save disk p f q = if p == q then some f else disk q

abbrev detected :
    {Place Key : Type 0} → Place → ℕ → Bool → Option Key → Result FileError (FileData Place Key)
detected p size false key = ok (plain p)
detected p size true (some key) = ok (encrypted p key size)
detected p size true none = err no_storage_key

module _ {Place File Key : Type 0} ⦃e : Eq Place⦄ (sys : System File Key) where
  unfoldable pub detect :
      Disk Place File → Place → Option Key → ℕ → Result FileError (FileData Place Key)
  detect disk p key size = detected p size (has_magic sys (disk p)) key

  unfoldable pub preallocate :
      List ℕ → Disk Place File → FileData Place Key → Result FileError (Disk Place File)
  preallocate salt disk (plain p) = do
    f ← ok_or (or_new sys (disk p)) not_created
    ok (save disk p f)
  preallocate salt disk (encrypted p key size) = if is_set_up sys (disk p) then ok disk else (do
    f ← ok_or (sys.new_file (magic ++ salt) (header + pieces_of size * slot)) not_created
    ok (save disk p f))

  unfoldable pub open_with :
      Disk Place File → FileData Place Key → Bool → Result FileError (Handle File)
  open_with disk (plain p) strict = do f ← ok_or (disk p) no_such_file; ok (plain_handle f)
  open_with disk (encrypted p key size) strict = do
    f ← ok_or (disk p) no_such_file
    bytes ← ok_or (sys.read_exact_at f 0 header) (in_store IoError.missing)
    fail_if (not (list_beq (take 8 bytes) magic)) not_a_store_file
    ok (
        encrypted_handle (device sys key (drop 8 bytes))
          (record { file = f; size = size; strict = strict }))

  unfoldable pub written_pieces :
      Disk Place File → FileData Place Key → Result FileError (Option (List Bool))
  unfolding open_with
  written_pieces disk (plain p) = ok none
  written_pieces disk (encrypted p key size) =
      open_with disk (encrypted p key size) false >>= written_in size
