-- ===== src/Storage.antt =====
-- storage.rs (crates/chorrent/src): the bytes of a file in the encrypted store. `Encrypted` is an open
-- `.enc` file. The disk's file, with `read_exact_at` and `write_all_at` of positioned_io, and the
-- cipher, with its `encrypt` and `decrypt`, are parameters: a nonce, the associated data and a text
-- are lists of bytes, and `none` is a failure. A random nonce is an argument. A panic is the error
-- `panic`.
pub mod Blocks
pub mod Files
pub mod Import
pub mod Imported
pub mod Slots
pub mod Writes
pub mod Modes
pub mod Fresh
pub mod Tests
use chorrent.Common.{
  ℕ, zero, suc, ◌+◌, ◌-◌, ◌*◌, ◌/◌, ◌%◌, min, Bool, true, false, ◌&&◌, ◌||◌, Option, none, some,
  List, [], ◌∷◌, ◌++◌, nat_beq, leb, is_some, if◌then◌else◌, length, take, drop, replicate, Result,
  ok, err,
}
use chorrent.Common.Results.{◌>>=◌, ◌>>◌, ok_or, fail_if}
use chorrent.Manifest.{block_size}

-- `HEADER`, `NONCE` and `TAG`
abbrev pub header : ℕ
header = 24

abbrev pub nonce_len : ℕ
nonce_len = 24

abbrev pub tag_len : ℕ
tag_len = 16

-- `slot()`
abbrev pub slot : ℕ
slot = nonce_len + block_size + tag_len

-- The errors of the operations below.
pub data IoError : Type 0 where
  panic missing never_written not_authentic encryption_failed past_the_end not_written : IoError

-- `index.to_le_bytes()` of a number of `n` bytes.
unfoldable pub le_bytes : ℕ → ℕ → List ℕ
le_bytes zero x = []
le_bytes (suc n) x = x % 256 ∷ le_bytes n (x / 256)

-- `nonce.iter().all(|&b| b == 0)`
abbrev pub is_zero : List ℕ → Bool
is_zero [] = true
is_zero (b ∷ bs) = nat_beq b 0 && is_zero bs

-- An open file of the store: its disk file, the size of the plain file, and the mode.
pub record Encrypted (File : Type 0) : Type 0 where
  pub file : File
  pub size : ℕ
  pub strict : Bool

-- The disk's file and the cipher of one file, with its key.
pub record Device (File : Type 0) : Type 0 where
  pub read_exact_at : File → ℕ → ℕ → Option (List ℕ)
  pub write_all_at : File → ℕ → List ℕ → Option File
  pub encrypt : List ℕ → List ℕ → List ℕ → Option (List ℕ)
  pub decrypt : List ℕ → List ℕ → List ℕ → Option (List ℕ)

unfoldable pub block_len : ℕ → ℕ → Result IoError ℕ
block_len size index =
    if leb (index * block_size) size
    then ok (min (size - index * block_size) block_size)
    else err panic

-- The closure `unreadable`.
abbrev pub unless_strict : Bool → ℕ → Result IoError (List ℕ) → Result IoError (List ℕ)
unless_strict strict len (ok plain) = ok plain
unless_strict true len (err why) = err why
unless_strict false len (err why) = ok (replicate len 0)

-- `plain[within..within + n].copy_from_slice(bytes)`
abbrev pub patch : List ℕ → ℕ → List ℕ → List ℕ
patch plain within bytes = take within plain ++ (bytes ++ drop (within + length bytes) plain)

module _ {File : Type 0} (d : Device File) where
  -- What was read from a slot, decrypted. The nonce comes first.
  unfoldable pub open_slot : ℕ → List ℕ → Result IoError (List ℕ)
  open_slot index sealed =
      if is_zero (take nonce_len sealed)
      then err never_written
      else ok_or (d.decrypt (take nonce_len sealed) (le_bytes 8 index) (drop nonce_len sealed))
          not_authentic

  -- The slot of a piece with `len` bytes.
  unfoldable pub read_slot : File → ℕ → ℕ → Result IoError (List ℕ)
  unfolding open_slot
  read_slot file index len = do
    sealed ←
        ok_or (d.read_exact_at file (header + index * slot) (nonce_len + len + tag_len)) missing
    open_slot index sealed

  unfoldable pub read_block : Encrypted File → ℕ → Result IoError (List ℕ)
  unfolding block_len read_slot
  read_block enc index = do
    len ← block_len enc.size index
    unless_strict enc.strict len (read_slot enc.file index len)

  -- What `block_written` says of the bytes in a slot, if they could be read.
  abbrev pub is_written : ℕ → Option (List ℕ) → Bool
  is_written index none = false
  is_written index (some sealed) =
      if is_zero (take nonce_len sealed)
      then false
      else is_some (d.decrypt (take nonce_len sealed) (le_bytes 8 index) (drop nonce_len sealed))

  unfoldable pub block_written : Encrypted File → ℕ → Result IoError Bool
  unfolding block_len
  block_written enc index = do
    len ← block_len enc.size index
    ok (
        is_written index
          (d.read_exact_at enc.file (header + index * slot) (nonce_len + len + tag_len)))

  unfoldable pub write_block :
      List ℕ → Encrypted File → ℕ → List ℕ → Result IoError (Encrypted File)
  write_block nonce enc index plain = do
    ciphertext ← ok_or (d.encrypt nonce (le_bytes 8 index) plain) encryption_failed
    file ← ok_or (d.write_all_at enc.file (header + index * slot) (nonce ++ ciphertext)) not_written
    ok (record enc { file = file })

  -- `ReadAt::read_at` for a buffer of `len` bytes.
  unfoldable pub read_at : Encrypted File → ℕ → ℕ → Result IoError (List ℕ)
  unfolding read_block
  read_at enc pos len = if leb enc.size pos || nat_beq len 0 then ok [] else (do
    plain ← read_block enc (pos / block_size)
    fail_if (leb (length plain + 1) (pos % block_size)) panic
    ok (take (min len (length plain - pos % block_size)) (drop (pos % block_size) plain)))

  -- A part of a piece: read, patch, seal again.
  unfoldable pub patch_block :
      List ℕ → Encrypted File → ℕ → ℕ → List ℕ → Result IoError (Encrypted File)
  unfolding write_block read_block
  patch_block nonce enc index within bytes = do
    plain ← read_block enc index
    fail_if (leb (length plain + 1) (within + length bytes)) panic
    write_block nonce enc index (patch plain within bytes)

  -- Write `n` bytes of the buffer at an offset of a piece with `len` bytes.
  unfoldable pub write_in_block :
      List ℕ → Encrypted File → ℕ → ℕ → ℕ → ℕ → List ℕ → Result IoError (Encrypted File)
  unfolding patch_block write_block
  write_in_block nonce enc index within len n buf =
      if nat_beq within 0 && nat_beq n len
      then write_block nonce enc index (take n buf)
      else patch_block nonce enc index within (take n buf)

  -- Write what fits of the buffer: the number of bytes taken, and the file after it.
  unfoldable pub write_fitting :
      List ℕ → Encrypted File → ℕ → ℕ → List ℕ → ℕ → Result IoError (ℕ × Encrypted File)
  write_fitting nonce enc index within buf len = do
    let n = min (length buf) (len - within)
    enc' ← write_in_block nonce enc index within len n buf
    ok (n, enc')

  -- `WriteAt::write_at`
  unfoldable pub write_at :
      List ℕ → Encrypted File → ℕ → List ℕ → Result IoError (ℕ × Encrypted File)
  write_at nonce enc pos buf =
      if leb enc.size pos || nat_beq (length buf) 0
      then err past_the_end
      else (block_len enc.size (pos / block_size)
          >>= write_fitting nonce enc (pos / block_size) (pos % block_size) buf)
