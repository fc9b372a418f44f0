-- ===== src/Storage/Slots.antt =====
-- One slot of an encrypted file of storage.rs (crates/chorrent/src): what is sealed there is read
-- back, whatever is written to the other slots.
use chorrent.Common.{
  ℕ, ◌+◌, ◌-◌, ◌*◌, ◌≤◌, ◌<◌, ◌≡◌, ◌≢◌, refl, ◌∙◌, sym, ap, true, false, Option, none, some, List,
  ◌++◌, ◌⊎◌, inl, inr, arith, Bool-cases, if◌then◌else◌, length, length-append, take, drop, min,
  take-length_append, drop-length_append, ok, err, leb,
}
use mathlib.Core.Path.{subst, ap₂}
use chorrent.Common.Results.{◌>>=◌, ok_or, bind_ok}
use chorrent.Manifest.{block_size}
use chorrent.Storage.{
  Device, header, nonce_len, tag_len, slot, IoError, never_written, not_authentic, le_bytes,
  is_zero, Encrypted, open_slot, read_slot, write_block,
}

-- A nonce that can be told from an unwritten slot.
pub record IsNonce (nonce : List ℕ) : Type 0 where
  pub long : length nonce ≡ nonce_len
  pub nonzero : is_zero nonce ≡ false

-- The number of bytes in piece `index` of a file of `size` bytes.
abbrev pub piece_len : ℕ → ℕ → ℕ
piece_len size index = min (size - index * block_size) block_size

ok_or-some : {A : Type 0} (o : Option A) (e : IoError) {a : A} → ok_or o e ≡ ok a → o ≡ some a
ok_or-some none e h = cc
ok_or-some (some b) e h = cc

-- Two slots do not overlap.
slots_apart :
    (i j n m : ℕ)
    → i ≢ j
    → n ≤ block_size
    → m ≤ slot
    → (header + j * slot + m ≤ header + i * slot)
      ⊎ (header + i * slot + (nonce_len + n + tag_len) ≤ header + j * slot)
slots_apart i j n m ne fits fits' = elim (Bool-cases (leb i j)) [
  | inl below ↦ inr (omega (arith, leb_le i j below, ne))
  | inr above ↦ inl (omega (arith, leb_gt i j above))
]
  where
    leb_le : (a b : ℕ) → leb a b ≡ true → a ≤ b
    leb_le a b h = ground (arith, h)

    leb_gt : (a b : ℕ) → leb a b ≡ false → b < a
    leb_gt a b h = ground (arith, h)

module _ {File : Type 0} (d : Device File) where
  -- A disk that takes every write, reads it back, and keeps what stands elsewhere.
  abbrev pub IsDisk : Type 0
  IsDisk =
      (f : File) (at : ℕ) (bytes : List ℕ)
      → (f' : File) × (d.write_all_at f at bytes ≡ some f')
        × (d.read_exact_at f' at (length bytes) ≡ some bytes)
        × ((start n : ℕ) (old : List ℕ)
            → (at + length bytes ≤ start) ⊎ (start + n ≤ at)
            → d.read_exact_at f start n ≡ some old
            → d.read_exact_at f' start n ≡ some old)

  -- A cipher whose texts are longer by the tag, and decrypt again.
  abbrev pub IsCipher : Type 0
  IsCipher =
      (nonce aad plain : List ℕ)
      → (c : List ℕ) × (d.encrypt nonce aad plain ≡ some c)
        × (d.decrypt nonce aad c ≡ some plain)
        × (length c ≡ length plain + tag_len)

  open_sealed :
      (index : ℕ) (nonce c plain : List ℕ)
      → IsNonce nonce
      → d.decrypt nonce (le_bytes 8 index) c ≡ some plain
      → open_slot d index (nonce ++ c) ≡ ok plain
  unfolding open_slot
  open_sealed index nonce c plain n h =
      let front : take nonce_len (nonce ++ c) ≡ nonce =
        subst (λ k. take k (nonce ++ c) ≡ nonce) n.long (take-length_append nonce c) in
      let back : drop nonce_len (nonce ++ c) ≡ c =
        subst (λ k. drop k (nonce ++ c) ≡ c) n.long (drop-length_append nonce c) in
      ap₂
        (λ x y.
          if is_zero x
          then err never_written
          else ok_or (d.decrypt x (le_bytes 8 index) y) not_authentic)
        front back
      ∙ rw (n.nonzero, h) refl

  -- What is in a slot.
  abbrev pub IsIn : List ℕ → ℕ → File → Type 0
  IsIn plain index file = read_slot d file index (length plain) ≡ ok plain

  -- Writing a piece leaves it in its slot, and the other pieces in theirs.
  pub record Sealed (enc enc' : Encrypted File) (index : ℕ) (plain : List ℕ) : Type 0 where
    pub here : IsIn plain index enc'.file
    pub there :
        (i : ℕ) (p : List ℕ)
        → i ≢ index
        → length p ≤ block_size
        → IsIn p i enc.file
        → IsIn p i enc'.file
    pub same_size : enc'.size ≡ enc.size
    pub same_mode : enc'.strict ≡ enc.strict

  module _ (disk : IsDisk) (cipher : IsCipher) where
    pub write_block-Sealed :
        (nonce : List ℕ) (enc : Encrypted File) (index : ℕ) (plain : List ℕ)
        → IsNonce nonce
        → length plain ≤ block_size
        → (enc' : Encrypted File) × (write_block d nonce enc index plain ≡ ok enc')
          × Sealed enc enc' index plain
    unfolding write_block read_slot
    write_block-Sealed nonce enc index plain n short =
        let (c, sealed, opens, long) = cipher nonce (le_bytes 8 index) plain in
        let (f', written, read_back, apart) = disk enc.file (header + index * slot) (nonce ++ c) in
        let total : length (nonce ++ c) ≡ nonce_len + length plain + tag_len =
          omega (arith, length-append nonce c, n.long, long) in
        (
          record enc { file = f' },
          rw (sealed, written, write_block) refl,
          record {
            here =
                ap (λ x. ok_or x IoError.missing >>= open_slot d index)
                  (subst (λ k. d.read_exact_at f' (header + index * slot) k ≡ some (nonce ++ c))
                    total read_back)
                ∙ open_sealed index nonce c plain n opens;
            there = λ i p ne fits h.
                let (old, got, opened) =
                  bind_ok
                    (ok_or
                      (d.read_exact_at enc.file (header + i * slot)
                        (nonce_len + length p + tag_len))
                      IoError.missing)
                    _ h in
                let read = ok_or-some _ IoError.missing got in
                let kept =
                  apart (header + i * slot) (nonce_len + length p + tag_len) old
                    (slots_apart i index (length p) (length (nonce ++ c)) ne fits
                      (omega (arith, total, short)))
                    read in
                ap (λ x. ok_or x IoError.missing >>= open_slot d i) (kept ∙ sym read) ∙ h;
            same_size = refl;
            same_mode = refl;
          },
        )
