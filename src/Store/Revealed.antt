-- ===== src/Store/Revealed.antt =====
-- Sealed values of store.rs (crates/chorrent/src) open again under their own name; hidden names differ.
use chorrent.Common.{
  ℕ, ◌+◌, ◌≡◌, refl, ◌∙◌, sym, ap, true, false, Option, none, some, ◌∷◌, ◌++◌, arith, leb, nat_beq,
  nat_beq_iff, nat_eq, list_eq, if◌then◌else◌, length, length-append, take, drop,
  take-length_append, drop-length_append, ok,
}
use mathlib.Core.Path.{subst, ap₂}
use chorrent.Common.Results.{◌>>=◌, ok_or}
use chorrent.Store.{
  Bytes, Table, meta, seeds, downloads, progress, access, kinds, table_name, unreadable, Crypto,
  Sealer, table_index, same_table, hidden_name, associated, seal, open_sealed, stored_as, reveal,
  sealed_as, checked,
}

-- The hash has no collisions, and the cipher and the encoding of pairs are undone.
pub record IsCrypto (c : Crypto) : Type 0 where
  pub no_collision : (key x y : Bytes) → c.keyed_hash key x ≡ c.keyed_hash key y → x ≡ y
  pub decrypts :
      (key nonce aad plain : Bytes)
      → (sealed : Bytes) × (c.encrypt key nonce aad plain ≡ some sealed)
        × (c.decrypt key nonce aad sealed ≡ some plain)
  pub decodes : (x : Bytes × Bytes) → c.decode_pair (c.encode_pair x) ≡ some x

abbrev table_at : ℕ → Table
table_at n =
    if nat_beq n 0
    then meta
    else if nat_beq n 1
    then seeds
    else if nat_beq n 2
    then downloads
    else if nat_beq n 3
    then progress
    else if nat_beq n 4
    then access
    else kinds

append_cancel : (xs ys zs : Bytes) → xs ++ ys ≡ xs ++ zs → ys ≡ zs
append_cancel xs ys zs h =
    sym (drop-length_append xs ys) ∙ ap (drop (length xs)) h ∙ drop-length_append xs zs

pub same_table_sound : (t u : Table) → same_table t u ≡ true → t ≡ u
same_table_sound t u h = sym (back t) ∙ ap table_at ((nat_beq_iff _ _).0 h) ∙ back u
  where
    back : (t : Table) → table_at (table_index t) ≡ t
    back meta = refl
    back seeds = refl
    back downloads = refl
    back progress = refl
    back access = refl
    back kinds = refl

pub same_table_reflexive : (t : Table) → same_table t t ≡ true
same_table_reflexive t = (nat_beq_iff _ _).1 refl

module _ (c : Crypto) (is_crypto : IsCrypto c) where
  pub stored_as_injective :
      (sealer : Option Sealer) (t : Table) (n m : Bytes)
      → stored_as c sealer t n ≡ stored_as c sealer t m
      → n ≡ m
  unfolding hidden_name
  stored_as_injective none t n m h = h
  stored_as_injective (some sealer) t n m h =
      ap (drop 1)
        (append_cancel (table_name t) (0 ∷ n) (0 ∷ m) (is_crypto.no_collision sealer.names _ _ h))

  pub sealed_as-reveal :
      (sealer : Option Sealer) (nonce : Bytes) (t : Table) (name value : Bytes)
      → length nonce ≡ 24
      → (v : Bytes) × (sealed_as c nonce sealer t (stored_as c sealer t name) name value ≡ ok v)
        × (reveal c sealer t (stored_as c sealer t name, v) ≡ ok (name, value))
  unfolding seal open_sealed
  sealed_as-reveal none nonce t name value long = (value, refl, refl)
  sealed_as-reveal (some sealer) nonce t name value long =
      let stored = hidden_name c sealer t name in
      let (sealed, e, d) =
        is_crypto.decrypts sealer.cipher nonce (associated c t stored)
          (c.encode_pair (name, value)) in
      let front : take 24 (nonce ++ sealed) ≡ nonce =
        subst (λ k. take k (nonce ++ sealed) ≡ nonce) long (take-length_append nonce sealed) in
      let back : drop 24 (nonce ++ sealed) ≡ sealed =
        subst (λ k. drop k (nonce ++ sealed) ≡ sealed) long (drop-length_append nonce sealed) in
      let enough : leb (length (nonce ++ sealed) + 1) 24 ≡ false =
        ground (arith, long, length-append nonce sealed) in
      (
        nonce ++ sealed,
        rw e refl,
        rw (enough) (
            ap₂
              (λ x y.
                ok_or (c.decrypt sealer.cipher x (associated c t stored) y) unreadable >>= λ plain.
                ok_or (c.decode_pair plain) unreadable)
              front back
            ∙ rw (d, is_crypto.decodes (name, value)) refl),
      )

  -- A value that was revealed under its own name passes the check of `get`.
  pub reveal-checked :
      (sealer : Option Sealer) (t : Table) (name stored v value : Bytes)
      → reveal c sealer t (stored, v) ≡ ok (name, value)
      → stored ≡ stored_as c sealer t name
      → checked c sealer t name stored v ≡ ok (some value)
  reveal-checked none t name stored v value h at = ap (λ r. r >>= λ p. ok (some p.1)) h
  reveal-checked (some sealer) t name stored v value h at =
      rw (h, (list_eq {A = ℕ}).same_reflexive name) refl
