-- ===== src/Storage/Writes.antt =====
-- The writes of an encrypted file of storage.rs (crates/chorrent/src): whole pieces and parts of them.
use chorrent.Common.{
  ℕ, zero, suc, ◌+◌, ◌-◌, ◌*◌, ◌/◌, ◌%◌, ◌≤◌, ◌<◌, ◌≡◌, ◌≢◌, ◌∙◌, sym, ap, true, false, ◌&&◌, ◌||◌,
  some, List, ◌++◌, ◌⊎◌, inl, inr, arith, Bool-cases, nat_beq, nat_beq_iff, length, length-append,
  take, drop, min, length-take, length-drop, take_all, drop_all, append_nil, ok, leb,
  drop-length_append, take-length_append, refl,
}
use mathlib.Core.Path.{subst}
use chorrent.Common.Results.{◌>>=◌}
use chorrent.Manifest.{block_size}
use chorrent.Storage.{
  Device, Encrypted, patch, patch_block, write_in_block, write_fitting, write_block, write_at,
  read_at,
}
use chorrent.Storage.Slots.{IsNonce, piece_len, IsDisk, IsCipher, IsIn, Sealed, write_block-Sealed}
use chorrent.Storage.Blocks.{
  Contents, store, Represents, Written, block_len_ok, read_block-Represents, read_at-Represents,
}

store_cases :
    (blocks : Contents) (index i : ℕ) (plain : List ℕ) {p : List ℕ}
    → store blocks index plain i ≡ some p
    → ((index ≡ i) × (plain ≡ p)) ⊎ ((index ≢ i) × (blocks i ≡ some p))
store_cases blocks index i plain h = elim (Bool-cases (nat_beq index i)) [
  | inl same ↦ inl ((nat_beq_iff index i).0 same, ground (arith, h, same))
  | inr other ↦ inr (ground (arith, other), ground (arith, h, other))
]

-- A patch of the whole piece replaces it.
patch_whole :
    (old bytes : List ℕ) (within : ℕ)
    → within ≡ 0
    → length bytes ≡ length old
    → patch old within bytes ≡ bytes
patch_whole old bytes zero e h =
    ap (λ x. bytes ++ x) (drop_all old (0 + length bytes) (omega arith)) ∙ append_nil bytes
patch_whole old bytes (suc n) e h = absurd (omega arith)

length-patch :
    (old bytes : List ℕ) (within : ℕ)
    → within + length bytes ≤ length old
    → length (patch old within bytes) ≡ length old
length-patch old bytes within h = omega (
  arith,
  length-append (take within old) (bytes ++ drop (within + length bytes) old),
  length-append bytes (drop (within + length bytes) old),
  length-take within old,
  length-drop (within + length bytes) old,
)

-- Reading what was patched in.
read_patch :
    (old bytes : List ℕ) (within n : ℕ)
    → within + length bytes ≤ length old
    → length bytes ≡ n
    → take (min n (length (patch old within bytes) - within)) (drop within (patch old within bytes))
      ≡ bytes
read_patch old bytes within n room taken =
    let rest = drop (within + length bytes) old in
    let front : length (take within old) ≡ within = omega (arith, length-take within old, room) in
    let back : drop within (patch old within bytes) ≡ bytes ++ rest =
      subst (λ k. drop k (patch old within bytes) ≡ bytes ++ rest) front
        (drop-length_append (take within old) (bytes ++ rest)) in
    let all : min n (length (patch old within bytes) - within) ≡ length bytes =
      omega (arith, length-patch old bytes within room, room, taken) in
    rw (all, back) (take-length_append bytes rest)

module _ {File : Type 0} (d : Device File) (disk : IsDisk d) (cipher : IsCipher d) where
  Sealed-Written :
      (enc enc' : Encrypted File) (blocks : Contents) (index : ℕ) (plain : List ℕ)
      → Represents d enc blocks
      → length plain ≡ piece_len enc.size index
      → index * block_size < enc.size
      → Sealed d enc enc' index plain
      → Written d enc enc' (store blocks index plain)
  Sealed-Written enc enc' blocks index plain r long lt s = record {
    represents = record { fits = fits; here = here };
    same_size = s.same_size;
    same_mode = s.same_mode;
  }
    where
      fits :
          (i : ℕ) (p : List ℕ)
          → store blocks index plain i ≡ some p
          → (length p ≡ piece_len enc'.size i) × (i * block_size < enc'.size)
      fits i p h = elim (store_cases blocks index i plain h) [
        | inl (at, it) ↦ (
          ap length (sym it) ∙ omega (arith, at, long, s.same_size),
          omega (arith, at, lt, s.same_size),
        )
        | inr (ne, old) ↦
            let (fit, in_range) = r.fits i p old in
            (omega (arith, fit, s.same_size), omega (arith, in_range, s.same_size))
      ]

      here : (i : ℕ) (p : List ℕ) → store blocks index plain i ≡ some p → IsIn d p i enc'.file
      here i p h = elim (store_cases blocks index i plain h) [
        | inl (at, it) ↦
            subst (λ x. IsIn d x i enc'.file) it (subst (λ j. IsIn d plain j enc'.file) at s.here)
        | inr (ne, old) ↦
            s.there i p (λ e. ne (sym e)) (omega (arith, (r.fits i p old).0)) (r.here i p old)
      ]

  write_block-Written :
      (nonce : List ℕ) (enc : Encrypted File) (blocks : Contents) (index : ℕ) (plain : List ℕ)
      → IsNonce nonce
      → Represents d enc blocks
      → length plain ≡ piece_len enc.size index
      → index * block_size < enc.size
      → (enc' : Encrypted File) × (write_block d nonce enc index plain ≡ ok enc')
        × Written d enc enc' (store blocks index plain)
  write_block-Written nonce enc blocks index plain n r long lt =
      let (enc', done, s) =
        write_block-Sealed d disk cipher nonce enc index plain n (omega arith) in
      (enc', done, Sealed-Written enc enc' blocks index plain r long lt s)

  patch_block-Written :
      (nonce : List ℕ) (enc : Encrypted File) (blocks : Contents) (index within : ℕ)
      (bytes old : List ℕ)
      → IsNonce nonce
      → Represents d enc blocks
      → blocks index ≡ some old
      → within + length bytes ≤ length old
      → (enc' : Encrypted File) × (patch_block d nonce enc index within bytes ≡ ok enc')
        × Written d enc enc' (store blocks index (patch old within bytes))
  unfolding patch_block
  patch_block-Written nonce enc blocks index within bytes old n r known room =
      let (long, lt) = r.fits index old known in
      let fits : leb (length old + 1) (within + length bytes) ≡ false = ground (arith, room) in
      let (enc', done, w) =
        write_block-Written nonce enc blocks index (patch old within bytes) n r
          (length-patch old bytes within room ∙ long) lt in
      (enc', rw (read_block-Represents d enc blocks index old r known, fits) done, w)

  write_in_block-Written :
      (nonce : List ℕ) (enc : Encrypted File) (blocks : Contents) (index within n : ℕ)
      (buf old : List ℕ)
      → IsNonce nonce
      → Represents d enc blocks
      → blocks index ≡ some old
      → n ≤ length buf
      → within + n ≤ length old
      → (enc' : Encrypted File) × (write_in_block d nonce enc index within (length old) n buf
          ≡ ok enc')
        × Written d enc enc' (store blocks index (patch old within (take n buf)))
  unfolding write_in_block
  write_in_block-Written nonce enc blocks index within n buf old nonced r known short room =
      let (long, lt) = r.fits index old known in
      let taken : length (take n buf) ≡ n = omega (arith, length-take n buf) in
      elim (Bool-cases (nat_beq within 0 && nat_beq n (length old))) [
        | inl whole ↦
            let (enc', done, w) =
              write_block-Written nonce enc blocks index (take n buf) nonced r
                (ground (arith, taken, long, whole)) lt in
            let same : patch old within (take n buf) ≡ take n buf =
              patch_whole old (take n buf) within (ground (arith, whole))
                (ground (arith, taken, whole)) in
            (
              enc',
              rw whole done,
              subst (λ x. Written d enc enc' (store blocks index x)) (sym same) w,
            )
        | inr part ↦
            let (enc', done, w) =
              patch_block-Written nonce enc blocks index within (take n buf) old nonced r known
                (omega (arith, taken)) in
            (enc', rw part done, w)
      ]

  fitting :
      (nonce : List ℕ) (enc enc' : Encrypted File) (index within len n : ℕ) (buf : List ℕ)
      → min (length buf) (len - within) ≡ n
      → write_in_block d nonce enc index within len n buf ≡ ok enc'
      → write_fitting d nonce enc index within buf len ≡ ok (n, enc')
  unfolding write_fitting
  fitting nonce enc enc' index within len n buf e h =
      ap
        (λ k.
          ◌>>=◌ {B = ℕ × Encrypted File} (write_in_block d nonce enc index within len k buf)
            (λ x. ok (k, x)))
        e
      ∙ ap (λ m. ◌>>=◌ {B = ℕ × Encrypted File} m (λ x. ok (n, x))) h

  -- On a disk that keeps what is written, and with a cipher that is undone, a write inside the
  -- file, at a piece that is known, takes at least one byte and at most the rest of the piece.
  -- The piece is then patched with these bytes, and every other known piece is as it was.
  pub write_at-Written :
      (nonce : List ℕ) (enc : Encrypted File) (blocks : Contents) (pos : ℕ) (buf old : List ℕ)
      → IsNonce nonce
      → Represents d enc blocks
      → pos < enc.size
      → 0 < length buf
      → blocks (pos / block_size) ≡ some old
      → let n = min (length buf) (length old - pos % block_size) in
        (enc' : Encrypted File) × (write_at d nonce enc pos buf ≡ ok (n, enc'))
        × (0 < n)
        × Written d enc enc'
            (store blocks (pos / block_size) (patch old (pos % block_size) (take n buf)))
  unfolding write_at
  write_at-Written nonce enc blocks pos buf old nonced r lt some_bytes known =
      let index = pos / block_size in
      let within = pos % block_size in
      let n = min (length buf) (length old - within) in
      let (long, in_range) = r.fits index old known in
      let inside : (leb enc.size pos || nat_beq (length buf) 0) ≡ false = ground arith in
      let (enc', done, w) =
        write_in_block-Written nonce enc blocks index within n buf old nonced r known (omega arith)
          (omega (arith, long)) in
      (
        enc',
        rw inside (
            ap (λ m. m >>= write_fitting d nonce enc index within buf)
              (block_len_ok enc.size index in_range)
            ∙ fitting nonce enc enc' index within (piece_len enc.size index) n buf
                (omega (arith, long))
                (subst (λ len. write_in_block d nonce enc index within len n buf ≡ ok enc') long
                  done)),
        omega (arith, long),
        w,
      )

  -- On a disk that keeps what is written, with a cipher that is undone, in a file whose slots
  -- hold the known pieces: a write inside the file, at a piece that is known, works, and a read
  -- at its position of as many bytes as it took gives those bytes. Reads at every other known
  -- piece give what they gave before.
  pub read_at-write_at :
      (nonce : List ℕ) (enc : Encrypted File) (blocks : Contents) (pos : ℕ) (buf old : List ℕ)
      → IsNonce nonce
      → Represents d enc blocks
      → pos < enc.size
      → 0 < length buf
      → blocks (pos / block_size) ≡ some old
      → let n = min (length buf) (length old - pos % block_size) in
        (enc' : Encrypted File) × (write_at d nonce enc pos buf ≡ ok (n, enc'))
        × (read_at d enc' pos n ≡ ok (take n buf))
        × ((at len : ℕ) (p : List ℕ)
            → at < enc.size
            → 0 < len
            → pos / block_size ≢ at / block_size
            → blocks (at / block_size) ≡ some p
            → read_at d enc' at len ≡ read_at d enc at len)
  read_at-write_at nonce enc blocks pos buf old nonced r lt some_bytes known =
      let index = pos / block_size in
      let within = pos % block_size in
      let n = min (length buf) (length old - within) in
      let (enc', done, some_taken, w) =
        write_at-Written nonce enc blocks pos buf old nonced r lt some_bytes known in
      let (long, in_range) = r.fits index old known in
      let taken : length (take n buf) ≡ n = omega (arith, length-take n buf) in
      let new = patch old within (take n buf) in
      let now : store blocks index new index ≡ some new =
        rw ((nat_beq_iff index index).1 refl) refl in
      let room : within + length (take n buf) ≤ length old = omega (arith, taken, long) in
      (
        enc',
        done,
        read_at-Represents d enc' (store blocks index new) pos n new w.represents
              (omega (arith, w.same_size, lt)) some_taken now
            ∙ ap ok (read_patch old (take n buf) within n room taken),
        λ at len p lt' some_len apart held.
            let other : nat_beq index (at / block_size) ≡ false =
              ground (arith, nat_beq_iff index (at / block_size), apart) in
            read_at-Represents d enc' (store blocks index new) at len p w.represents
              (omega (arith, w.same_size, lt')) some_len (rw other held)
            ∙ sym (read_at-Represents d enc blocks at len p r lt' some_len held),
      )

  -- A whole piece, known or not, is written in one go.
  pub write_at_piece :
      (nonce : List ℕ) (enc : Encrypted File) (blocks : Contents) (index : ℕ) (plain : List ℕ)
      → IsNonce nonce
      → Represents d enc blocks
      → index * block_size < enc.size
      → length plain ≡ piece_len enc.size index
      → (enc' : Encrypted File) × (write_at d nonce enc (index * block_size) plain
          ≡ ok (length plain, enc'))
        × Written d enc enc' (store blocks index plain)
  unfolding write_at write_in_block
  write_at_piece nonce enc blocks index plain nonced r lt long =
      let inside : (leb enc.size (index * block_size) || nat_beq (length plain) 0) ≡ false =
        ground (arith, long) in
      let at : index * block_size / block_size ≡ index = omega arith in
      let start : index * block_size % block_size ≡ 0 = omega arith in
      let (enc', done, w) = write_block-Written nonce enc blocks index plain nonced r long lt in
      let whole : nat_beq (length plain) (piece_len enc.size index) ≡ true = ground (arith, long) in
      (
        enc',
        rw (inside, at, start)
            (ap (λ m. m >>= write_fitting d nonce enc index 0 plain)
                (block_len_ok enc.size index lt)
              ∙ fitting nonce enc enc' index 0 (piece_len enc.size index) (length plain) plain
                  (omega (arith, long))
                  (rw (write_in_block, whole, take_all plain (length plain) (omega arith)) done)),
        w,
      )
