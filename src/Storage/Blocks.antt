-- ===== src/Storage/Blocks.antt =====
-- An encrypted file of storage.rs (crates/chorrent/src) is a table of pieces: what `read_at` gives of it.
use chorrent.Common.{
  ℕ, ◌+◌, ◌-◌, ◌*◌, ◌/◌, ◌%◌, ◌<◌, ◌≡◌, refl, ap, false, ◌||◌, Option, some, List, arith, nat_beq,
  if◌then◌else◌, length, take, drop, min, ok, leb,
}
use mathlib.Core.Path.{subst}
use chorrent.Manifest.{block_size}
use chorrent.Storage.{Device, Encrypted, block_len, read_slot, unless_strict, read_block, read_at}
use chorrent.Storage.Slots.{piece_len, IsIn}

-- What the pieces hold; `none` for a piece of which nothing is known.
abbrev pub Contents : Type 0
Contents = ℕ → Option (List ℕ)

abbrev pub store : Contents → ℕ → List ℕ → Contents
store blocks i plain j = if nat_beq i j then some plain else blocks j

pub block_len_ok :
    (size index : ℕ) → index * block_size < size → block_len size index ≡ ok (piece_len size index)
unfolding block_len
block_len_ok size index lt = ground arith

module _ {File : Type 0} (d : Device File) where
  -- Every piece that is known is in its slot, at its length.
  pub record Represents (enc : Encrypted File) (blocks : Contents) : Type 0 where
    pub fits :
        (i : ℕ) (p : List ℕ)
        → blocks i ≡ some p
        → (length p ≡ piece_len enc.size i) × (i * block_size < enc.size)
    pub here : (i : ℕ) (p : List ℕ) → blocks i ≡ some p → IsIn d p i enc.file

  pub read_block-Represents :
      (enc : Encrypted File) (blocks : Contents) (i : ℕ) (p : List ℕ)
      → Represents enc blocks
      → blocks i ≡ some p
      → read_block d enc i ≡ ok p
  unfolding read_block
  read_block-Represents enc blocks i p r h =
      let (long, lt) = r.fits i p h in
      rw (block_len_ok enc.size i lt) (
        ap (unless_strict enc.strict (piece_len enc.size i))
          (subst (λ n. read_slot d enc.file i n ≡ ok p) long (r.here i p h)))

  -- On an encrypted file whose slots hold the known pieces, a read inside the file, at a piece
  -- that is known, gives the bytes of that piece from the position on, up to the end of the
  -- piece.
  pub read_at-Represents :
      (enc : Encrypted File) (blocks : Contents) (pos len : ℕ) (p : List ℕ)
      → Represents enc blocks
      → pos < enc.size
      → 0 < len
      → blocks (pos / block_size) ≡ some p
      → read_at d enc pos len
        ≡ ok (take (min len (length p - pos % block_size)) (drop (pos % block_size) p))
  unfolding read_at
  read_at-Represents enc blocks pos len p r lt some_bytes h =
      let (long, in_range) = r.fits (pos / block_size) p h in
      let inside : (leb enc.size pos || nat_beq len 0) ≡ false = ground arith in
      let room : leb (length p + 1) (pos % block_size) ≡ false = ground (arith, long) in
      rw (inside, read_block-Represents enc blocks (pos / block_size) p r h, room) refl

  -- What a write leaves.
  pub record Written (enc enc' : Encrypted File) (blocks : Contents) : Type 0 where
    pub represents : Represents enc' blocks
    pub same_size : enc'.size ≡ enc.size
    pub same_mode : enc'.strict ≡ enc.strict
