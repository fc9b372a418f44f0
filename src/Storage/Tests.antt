-- ===== src/Storage/Tests.antt =====
-- A disk in memory and a cipher that appends a tag, on which the files of storage.rs
-- (crates/chorrent/src) are tried.
use chorrent.Common.{
  ℕ, ◌≢◌, ◌/◌, zero, suc, ◌+◌, ◌-◌, ◌≤◌, ◌<◌, ◌≡◌, refl, ◌∙◌, sym, ap, true, false, none, some,
  List, [], ◌∷◌, ◌++◌, ◌⊎◌, inl, inr, arith, leb, max, nat_eq, if◌then◌else◌, length, length-append,
  get_or, get_or_past_end, take, take-length_append, replicate, Result, ok, err,
}
use mathlib.Core.Path.{ap₂, subst}
use chorrent.Common.Results.{◌>>=◌}
use chorrent.Manifest.{block_size}
use chorrent.Storage.{
  Device, IoError, Encrypted, block_written, read_block, read_at, write_at, patch, tag_len,
}
use chorrent.Storage.Slots.{IsNonce, IsDisk, IsCipher}
use chorrent.Storage.Blocks.{Contents, store, Represents, Written}
use chorrent.Storage.Writes.{write_at-Written, write_at_piece, read_at-write_at}
use chorrent.Storage.Modes.{IsReadable, IsUnreadable, read_block-block_written}
use chorrent.Storage.Files.{System, Disk}
use chorrent.Storage.Fresh.{MakesFiles}
use chorrent.Storage.Import.{import_all, start}
use chorrent.Storage.Imported.{Covers, write_each, import_all-Covers}

-- A file: its length, and a byte for every position.
abbrev File : Type 0
File = ℕ × (ℕ → ℕ)

abbrev bytes_from : (ℕ → ℕ) → ℕ → ℕ → List ℕ
bytes_from f at zero = []
bytes_from f at (suc n) = f at ∷ bytes_from f (suc at) n

abbrev put : (ℕ → ℕ) → ℕ → List ℕ → ℕ → ℕ
put f at bytes i = if leb at i then get_or bytes (i - at) (f i) else f i

length-bytes_from : (f : ℕ → ℕ) (at n : ℕ) → length (bytes_from f at n) ≡ n
length-bytes_from f at zero = refl
length-bytes_from f at (suc n) = ap suc (length-bytes_from f (suc at) n)

bytes_from_same :
    (f g : ℕ → ℕ) (at n : ℕ)
    → ((i : ℕ) → at ≤ i → i < at + n → f i ≡ g i)
    → bytes_from f at n ≡ bytes_from g at n
bytes_from_same f g at zero h = refl
bytes_from_same f g at (suc n) h =
    ap₂ ◌∷◌ (h at (omega arith) (omega arith))
      (bytes_from_same f g (suc at) n (λ i above below. h i (omega arith) (omega arith)))

put_here : (f : ℕ → ℕ) (at : ℕ) (b : ℕ) (bs : List ℕ) → put f at (b ∷ bs) at ≡ b
put_here f at b bs =
    let start : at - at ≡ 0 = omega arith in
    let inside : leb at at ≡ true = ground arith in rw (inside, start) refl

put_after :
    (f : ℕ → ℕ) (at : ℕ) (b : ℕ) (bs : List ℕ) (i : ℕ)
    → suc at ≤ i
    → put f at (b ∷ bs) i ≡ put f (suc at) bs i
put_after f at b bs i h =
    let step : i - at ≡ suc (i - suc at) = omega arith in
    let first : leb at i ≡ true = ground arith in
    let second : leb (suc at) i ≡ true = ground arith in rw (first, second, step) refl

bytes_from-put :
    (f : ℕ → ℕ) (at : ℕ) (bytes : List ℕ) → bytes_from (put f at bytes) at (length bytes) ≡ bytes
bytes_from-put f at [] = refl
bytes_from-put f at (b ∷ bs) = ap₂ ◌∷◌ (put_here f at b bs) (
    bytes_from_same _ _ (suc at) (length bs) (λ i h below. put_after f at b bs i h)
    ∙ bytes_from-put f (suc at) bs)

put_elsewhere :
    (f : ℕ → ℕ) (at : ℕ) (bytes : List ℕ) (i : ℕ)
    → (at + length bytes ≤ i) ⊎ (i < at)
    → put f at bytes i ≡ f i
put_elsewhere f at bytes i (inl after) =
    let inside : leb at i ≡ true = ground arith in
    rw inside (get_or_past_end bytes (i - at) (f i) (omega arith))
put_elsewhere f at bytes i (inr before) =
    let outside : leb at i ≡ false = ground arith in rw outside refl

abbrev tag : List ℕ
tag = replicate tag_len 7

abbrev memory : Device File
memory = record {
  read_exact_at = λ f at n. some (bytes_from f.1 at n);
  write_all_at = λ f at bytes. some (max f.0 (at + length bytes), put f.1 at bytes);
  encrypt = λ nonce aad plain. some (plain ++ tag);
  decrypt = λ nonce aad c. some (take (length c - tag_len) c);
}

memory-IsDisk : IsDisk memory
memory-IsDisk f at bytes = (
  (max f.0 (at + length bytes), put f.1 at bytes),
  refl,
  ap some (bytes_from-put f.1 at bytes),
  λ start n old apart was.
      ap some (
        bytes_from_same _ _ start n
          (λ i above below. put_elsewhere f.1 at bytes i (outside n apart above below)))
      ∙ was,
)
  where
    outside :
        {start i : ℕ} (n : ℕ)
        → (at + length bytes ≤ start) ⊎ (start + n ≤ at)
        → start ≤ i
        → i < start + n
        → (at + length bytes ≤ i) ⊎ (i < at)
    outside n (inl after) above below = inl (omega arith)
    outside n (inr before) above below = inr (omega arith)

memory-IsCipher : IsCipher memory
memory-IsCipher nonce aad plain =
    let n : length (plain ++ tag) - tag_len ≡ length plain =
      omega (arith, length-append plain tag) in
    (
      plain ++ tag,
      refl,
      ap some (ap (λ k. take k (plain ++ tag)) n ∙ take-length_append plain tag),
      omega (arith, length-append plain tag),
    )

abbrev nonce : List ℕ
nonce = replicate 24 5

nonce-IsNonce : IsNonce nonce
nonce-IsNonce = record { long = refl; nonzero = refl }

-- A file of five bytes, of which nothing is known.
abbrev five : Encrypted File
five = record { file = (0, λ i. 0); size = 5; strict = true }

abbrev nothing : Contents
nothing i = none

five-Represents : Represents memory five nothing
five-Represents = record { fits = λ i p h. cc; here = λ i p h. cc }

abbrev text : List ℕ
text = 1 ∷ 2 ∷ 3 ∷ 4 ∷ 5 ∷ []

abbrev written : Encrypted File
written = record { file = put_five; size = 5; strict = true }
  where
    put_five : File
    put_five = (69, put (λ i. 0) 24 (nonce ++ (text ++ tag)))

write_at-five : write_at memory nonce five 0 text ≡ ok (5, written)
unfolding write_at chorrent.Storage.block_len chorrent.Storage.write_fitting
    chorrent.Storage.write_in_block
write_at-five = refl

written-Represents : Represents memory written (store nothing 0 text)
written-Represents =
    let (enc', same, w) =
      write_at_piece memory memory-IsDisk memory-IsCipher nonce five nothing 0 text nonce-IsNonce
        five-Represents (omega arith) refl in
    subst (λ e. Represents memory e (store nothing 0 text)) (ap after (sym same ∙ write_at-five))
      w.represents
  where
    after : Result IoError (ℕ × Encrypted File) → Encrypted File
    after (ok (n, enc)) = enc
    after (err e) = five

read_at-write_at_example :
    (enc' : Encrypted File) × (write_at memory nonce written 3 (8 ∷ 9 ∷ 10 ∷ []) ≡ ok (2, enc'))
    × (read_at memory enc' 3 2 ≡ ok (8 ∷ 9 ∷ []))
    × ((at len : ℕ) (p : List ℕ)
        → at < 5
        → 0 < len
        → 0 ≢ at / block_size
        → store nothing 0 text (at / block_size) ≡ some p
        → read_at memory enc' at len ≡ read_at memory written at len)
read_at-write_at_example =
    read_at-write_at memory memory-IsDisk memory-IsCipher nonce written (store nothing 0 text) 3
      (8 ∷ 9 ∷ 10 ∷ []) text nonce-IsNonce written-Represents (omega arith) (omega arith) refl

write_at-Written_example :
    (enc' : Encrypted File) × (write_at memory nonce written 3 (8 ∷ 9 ∷ 10 ∷ []) ≡ ok (2, enc'))
    × (0 < 2)
    × Written memory written enc' (store (store nothing 0 text) 0 (1 ∷ 2 ∷ 3 ∷ 8 ∷ 9 ∷ []))
write_at-Written_example =
    write_at-Written memory memory-IsDisk memory-IsCipher nonce written (store nothing 0 text) 3
      (8 ∷ 9 ∷ 10 ∷ []) text nonce-IsNonce written-Represents (omega arith) (omega arith) refl

read_block-block_written_example : IsReadable memory written 0 ⊎ IsUnreadable memory written 0
read_block-block_written_example = read_block-block_written memory written 0 (omega arith)

-- The calls of a system with these files, for keys that are numbers.
abbrev memory_system : System File ℕ
memory_system = record {
  file_len = λ f. f.0;
  new_file = λ h n. some (n, put (λ i. 0) 0 h);
  read_exact_at = memory.read_exact_at;
  write_all_at = memory.write_all_at;
  file_key = λ key salt. key + length salt;
  encrypt = λ key. memory.encrypt;
  decrypt = λ key. memory.decrypt;
}

bytes_from_zeros : (at n : ℕ) → bytes_from (λ i. 0) at n ≡ replicate n 0
bytes_from_zeros at zero = refl
bytes_from_zeros at (suc n) = ap (◌∷◌ 0) (bytes_from_zeros (suc at) n)

memory_system-MakesFiles : MakesFiles memory_system
memory_system-MakesFiles h n short = (
  (n, put (λ i. 0) 0 h),
  refl,
  record {
    first_bytes = ap some (bytes_from-put (λ i. 0) 0 h);
    then_zeros = λ at k after inside. ap some (
        bytes_from_same _ _ at k (λ i above below. put_elsewhere (λ i. 0) 0 h i (inl (omega arith)))
        ∙ bytes_from_zeros at k);
    long = refl;
  },
)

abbrev salt : List ℕ
salt = replicate 16 3

abbrev no_files : Disk ℕ File
no_files p = none

abbrev log : List (ℕ × List ℕ) → ℕ → List ℕ → Result IoError (List (ℕ × List ℕ))
log l at bytes = ok ((at, bytes) ∷ l)

import_all-Covers_example :
    (writes : List (ℕ × List ℕ)) × Covers 0 writes (1 ∷ 2 ∷ 3 ∷ [])
    × ((dest : List (ℕ × List ℕ))
        → import_all log (start log dest) ((1 ∷ []) ∷ (2 ∷ 3 ∷ []) ∷ [])
          ≡ (write_each log dest writes >>= λ dest'. ok (3, dest')))
import_all-Covers_example = import_all-Covers log ((1 ∷ []) ∷ (2 ∷ 3 ∷ []) ∷ [])
