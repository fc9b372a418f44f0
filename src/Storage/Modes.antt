-- ===== src/Storage/Modes.antt =====
-- `block_written` and the two reading modes of an encrypted file of storage.rs (crates/chorrent/src).
use chorrent.Common.{
  ℕ, ◌+◌, ◌*◌, ◌<◌, ◌≡◌, refl, ◌∙◌, sym, Bool, true, false, some, List, ◌⊎◌, inl, inr, arith,
  replicate, take, drop, leb, Bool-cases, Option-cases, some_eq, ok, err,
}
use chorrent.Manifest.{block_size}
use chorrent.Storage.{
  Device, IoError, missing, never_written, not_authentic, Encrypted, is_zero, le_bytes, block_len,
  open_slot, read_slot, read_block, block_written,
}
use chorrent.Storage.Slots.{piece_len}

-- What a file opened in a given mode is.
abbrev pub in_mode : {File : Type 0} → Encrypted File → Bool → Encrypted File
in_mode enc mode = record enc { strict = mode }

module _ {File : Type 0} (d : Device File) (enc : Encrypted File) (index : ℕ) where
  -- The format of a piece on disk: after a header of 24 bytes, slots of a nonce of 24 bytes, a block
  -- and a tag of 16. The nonce is not zero, and the rest decrypts under it with the piece's number.
  pub record HoldsPiece (plain : List ℕ) : Type 0 where
    pub bytes : List ℕ
    pub on_disk :
        d.read_exact_at enc.file
          (24 + index * (24 + block_size + 16))
          (24 + piece_len enc.size index + 16)
        ≡ some bytes
    pub has_nonce : is_zero (take 24 bytes) ≡ false
    pub decrypts : d.decrypt (take 24 bytes) (le_bytes 8 index) (drop 24 bytes) ≡ some plain

  -- The piece is there: both modes read its text.
  abbrev pub IsReadable : Type 0
  IsReadable =
      (plain : List ℕ) × HoldsPiece plain
      × (block_written d enc index ≡ ok true)
      × (read_block d (in_mode enc true) index ≡ ok plain)
      × (read_block d (in_mode enc false) index ≡ ok plain)

  -- The piece is missing, never written or not authentic.
  abbrev pub IsUnreadable : Type 0
  IsUnreadable =
      ((plain : List ℕ) → ¬ (HoldsPiece plain))
      × (block_written d enc index ≡ ok false)
      × ((why : IoError) × (read_block d (in_mode enc true) index ≡ err why))
      × (read_block d (in_mode enc false) index ≡ ok (replicate (piece_len enc.size index) 0))

  -- For a piece inside the file there are two cases. Either its slot, at its place after the
  -- header of 24 bytes, holds a nonce that is not zero and a ciphertext that decrypts under it
  -- with the piece's number, and then the piece counts as written and strict and lenient reads
  -- give that text. Or it holds none, and then the piece does not count as written, the strict
  -- read is an error and the lenient one gives as many zeros as the piece has bytes.
  pub read_block-block_written : index * block_size < enc.size → IsReadable ⊎ IsUnreadable
  unfolding read_block block_written block_len read_slot open_slot
  read_block-block_written lt =
      elim (Option-cases (
        d.read_exact_at enc.file (24 + index * (24 + block_size + 16))
          (24 + piece_len enc.size index + 16))) [
            | inl unread ↦ inr (
              (λ plain h. cc (unread, h.on_disk)),
              rw (inside, unread) refl,
              (missing, rw (inside, unread) refl),
              rw (inside, unread) refl,
            )
            | inr (bytes, got) ↦ by_nonce bytes got
          ]
    where
      inside : leb (index * block_size) enc.size ≡ true
      inside = ground (arith, lt)

      by_nonce :
          (bytes : List ℕ)
          → d.read_exact_at enc.file
              (24 + index * (24 + block_size + 16))
              (24 + piece_len enc.size index + 16)
            ≡ some bytes
          → IsReadable ⊎ IsUnreadable
      by_nonce bytes got = elim (Bool-cases (is_zero (take 24 bytes))) [
        | inl unwritten ↦ inr (
          (λ plain h. cc (unwritten, h.has_nonce, some_eq (sym got ∙ h.on_disk))),
          rw (inside, got) (rw unwritten refl),
          (never_written, rw (inside, got) (rw unwritten refl)),
          rw (inside, got) (rw unwritten refl),
        )
        | inr nonce ↦
            elim (Option-cases (d.decrypt (take 24 bytes) (le_bytes 8 index) (drop 24 bytes))) [
              | inl damaged ↦ inr (
                (λ plain h. cc (damaged, h.decrypts, some_eq (sym got ∙ h.on_disk))),
                rw (inside, got) (rw nonce (rw damaged refl)),
                (not_authentic, rw (inside, got) (rw nonce (rw damaged refl))),
                rw (inside, got) (rw nonce (rw damaged refl)),
              )
              | inr (plain, opened) ↦ inl (
                plain,
                record { bytes = bytes; on_disk = got; has_nonce = nonce; decrypts = opened },
                rw (inside, got) (rw nonce (rw opened refl)),
                rw (inside, got) (rw nonce (rw opened refl)),
                rw (inside, got) (rw nonce (rw opened refl)),
              )
            ]
      ]
