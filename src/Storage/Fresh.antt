-- ===== src/Storage/Fresh.antt =====
-- A new encrypted file of storage.rs (crates/chorrent/src): what `preallocate` leaves is opened again
-- with its salt, and has no piece yet.
use chorrent.Common.{
  ℕ, zero, suc, ◌+◌, ◌*◌, ◌≤◌, ◌<◌, ◌≡◌, refl, ◌∙◌, ap, Bool, true, false, some, List, ◌++◌, arith,
  leb, Eq, ◌==◌, nat_eq, list_beq, take, length, length-append, replicate, range, ok,
}
use mathlib.Core.Path.{subst}
use chorrent.Common.Results.{◌>>=◌}
use chorrent.Manifest.{block_size}
use chorrent.Storage.{
  header, slot, nonce_len, tag_len, is_zero, Encrypted, block_len, block_written,
}
use chorrent.Storage.Slots.{piece_len}
use chorrent.Storage.Files.{
  magic, encrypted, System, encrypted_handle, pieces_of, Disk, save, device, is_set_up, preallocate,
  open_with, written_of, written_in, written_pieces,
}

-- A new file: its first bytes, then zeros, up to its length.
pub record IsNew {File Key : Type 0} (sys : System File Key) (h : List ℕ) (n : ℕ) (f : File)
    : Type 0 where
  pub first_bytes : sys.read_exact_at f 0 (length h) ≡ some h
  pub then_zeros :
      (at k : ℕ) → length h ≤ at → at + k ≤ n → sys.read_exact_at f at k ≡ some (replicate k 0)
  pub long : sys.file_len f ≡ n

-- The system makes new files.
abbrev pub MakesFiles : {File Key : Type 0} → System File Key → Type 0
MakesFiles {File} sys =
    (h : List ℕ) (n : ℕ) → length h ≤ n → (f : File) × (sys.new_file h n ≡ some f) × IsNew sys h n f

is_zero-take : (k n : ℕ) → is_zero (take k (replicate n 0)) ≡ true
is_zero-take zero n = refl
is_zero-take (suc k) zero = refl
is_zero-take (suc k) (suc n) = is_zero-take k n

module _ {File Key : Type 0} (sys : System File Key) (key : Key) (salt : List ℕ) (size : ℕ)
    (strict : Bool) (f : File) (salted : length salt ≡ 16)
    (fresh : IsNew sys (magic ++ salt) (header + pieces_of size * slot) f) where
  abbrev enc : Encrypted File
  enc = record { file = f; size = size; strict = strict }

  block_written_fresh :
      (index : ℕ)
      → index < pieces_of size
      → block_written (device sys key salt) enc index ≡ ok false
  unfolding block_written block_len
  block_written_fresh index below =
      let inside : leb (index * block_size) size ≡ true = ground arith in
      let n = nonce_len + piece_len size index + tag_len in
      let zeros =
        fresh.then_zeros (header + index * slot) n (omega (arith, salted, length-append magic salt))
          (omega arith) in
      rw (inside, zeros) (rw (is_zero-take nonce_len n) refl)

  written_of_fresh :
      (start n : ℕ)
      → start + n ≤ pieces_of size
      → written_of (device sys key salt) enc (range start n) ≡ ok (replicate n false)
  written_of_fresh start zero h = refl
  written_of_fresh start (suc n) h =
      rw (block_written_fresh start (omega arith), written_of_fresh (suc start) n (omega arith))
        refl

-- An encrypted file that was made and not written yet.
pub record IsFresh {Place File Key : Type 0} ⦃e : Eq Place⦄ (sys : System File Key)
    (disk : Disk Place File) (p : Place) (key : Key) (salt : List ℕ) (size : ℕ) : Type 0 where
  pub opens :
      (strict : Bool)
      → (f : File) × (open_with sys disk (encrypted p key size) strict
          ≡ ok (
              encrypted_handle
                (device sys key salt)
                (record { file = f; size = size; strict = strict })))
  pub none_written :
      written_pieces sys disk (encrypted p key size) ≡ ok (some (replicate (pieces_of size) false))
  pub is_kept : (salt' : List ℕ) → preallocate sys salt' disk (encrypted p key size) ≡ ok disk

module _ {Place File Key : Type 0} ⦃e : Eq Place⦄ (sys : System File Key) where
  -- Where the system makes new files, `preallocate` of an encrypted file that is not set up
  -- makes it and no other. It opens in both modes with the cipher of its salt, none of its
  -- pieces counts as written, and another `preallocate` leaves the disk as it is.
  preallocate-IsFresh :
      (makes : MakesFiles sys) (disk : Disk Place File) (p : Place) (key : Key) (salt : List ℕ)
      (size : ℕ)
      → length salt ≡ 16
      → is_set_up sys (disk p) ≡ false
      → (disk' : Disk Place File) × (preallocate sys salt disk (encrypted p key size) ≡ ok disk')
        × ((q : Place) → (p == q) ≡ false → disk' q ≡ disk q)
        × IsFresh sys disk' p key salt size
  unfolding preallocate open_with written_pieces list_beq
  preallocate-IsFresh makes disk p key salt size salted absent =
      let (f, new, fresh) =
        makes (magic ++ salt) (header + pieces_of size * slot)
          (omega (arith, salted, length-append magic salt)) in
      let here : save disk p f p ≡ some f = rw (e.same_reflexive p) refl in
      let read : sys.read_exact_at f 0 header ≡ some (magic ++ salt) =
        subst (λ n. sys.read_exact_at f 0 n ≡ some (magic ++ salt))
          (omega (arith, salted, length-append magic salt)) fresh.first_bytes in
      let long : leb header (sys.file_len f) ≡ true = ground (arith, fresh.long) in
      let below : 0 + pieces_of size ≤ pieces_of size = omega arith in
      let opened : (strict : Bool)
          → open_with sys (save disk p f) (encrypted p key size) strict
            ≡ ok (
                encrypted_handle (device sys key salt)
                  (record { file = f; size = size; strict = strict })) =
        λ strict. rw (here, read) refl in
      (
        save disk p f,
        rw (absent, new) refl,
        (λ q other. rw other refl),
        record {
          opens = λ strict. (f, opened strict);
          none_written =
              ap (λ m. m >>= written_in size) (opened false)
              ∙ rw
                  (written_of_fresh sys key salt size false f salted fresh 0 (pieces_of size) below)
                  refl;
          is_kept = λ salt'. rw (here, long) refl;
        },
      )
