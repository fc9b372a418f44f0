-- ===== src/Store.antt =====
-- store.rs (crates/chorrent/src): the tables of the database, plain or sealed. A table is a map from
-- stored names to values, and a name or a value is a list of bytes. A call of the database (redb)
-- always works here. The hash, the cipher and the encoding of a pair (blake3, chacha20poly1305,
-- postcard) are parameters; a random nonce is an argument.
pub mod Format
pub mod Records
pub mod Revealed
pub mod Lookup
pub mod Forgotten
pub mod Kept
pub mod Progress
pub mod Reopened
pub mod Tests
use chorrent.Common.{
  ℕ, ◌+◌, ◌≡◌, Bool, true, false, ◌&&◌, ◌||◌, not, Option, none, some, List, [], ◌∷◌, ◌++◌, leb,
  nat_beq, Eq, ◌==◌, nat_eq, list_eq, list_beq, is_some, if◌then◌else◌, length, take, drop, Result,
  ok, err,
}
use chorrent.Common.HashMap
use chorrent.Common.Results.{◌>>=◌, ◌>>◌, ok_or, fail_if}
use chorrent.Manifest.Names.{codes}

abbrev pub Bytes : Type 0
Bytes = List ℕ

pub data Table : Type 0 where
  meta seeds downloads progress access kinds : Table

-- `TableHandle::name`
unfoldable pub table_name : Table → Bytes
table_name meta = codes "meta"
table_name seeds = codes "seeds"
table_name downloads = codes "downloads"
table_name progress = codes "progress"
table_name access = codes "access"
table_name kinds = codes "kinds"

-- The errors of these operations.
pub data StoreError : Type 0 where
  not_encrypted unreadable misplaced different_key newer_format has_plain_records needs_key :
      StoreError
  not_available bad_record incomplete no_storage_key : StoreError

pub record Crypto : Type 0 where
  pub derive_key : Bytes → Bytes → Bytes
  pub keyed_hash : Bytes → Bytes → Bytes
  pub encrypt : Bytes → Bytes → Bytes → Bytes → Option Bytes
  pub decrypt : Bytes → Bytes → Bytes → Bytes → Option Bytes
  pub encode_pair : Bytes × Bytes → Bytes
  pub decode_pair : Bytes → Option (Bytes × Bytes)

pub record Sealer : Type 0 where
  pub cipher : Bytes
  pub names : Bytes

abbrev pub Tables : Type 0
Tables = Table → List (Bytes × Bytes)

pub record Store : Type 0 where
  pub tables : Tables
  pub sealer : Option Sealer

-- A table by its position, to compare tables.
abbrev pub table_index : Table → ℕ
table_index meta = 0
table_index seeds = 1
table_index downloads = 2
table_index progress = 3
table_index access = 4
table_index kinds = 5

abbrev pub same_table : Table → Table → Bool
same_table t u = nat_beq (table_index t) (table_index u)

abbrev pub with_table : Tables → Table → List (Bytes × Bytes) → Tables
with_table tables t entries u = if same_table t u then entries else tables u

unfoldable pub raw_get : Store → Table → Bytes → Option Bytes
raw_get s t name = HashMap.get name (s.tables t)

unfoldable pub raw_put : Store → Table → Bytes → Bytes → Store
raw_put s t name value = record s {
  tables = with_table s.tables t (HashMap.insert name value (s.tables t));
}

module _ (c : Crypto) where
  -- `Sealer::new`
  unfoldable pub new_sealer : Bytes → Sealer
  new_sealer key = record {
    cipher = c.derive_key (codes "chorrent database values v1") key;
    names = c.derive_key (codes "chorrent database names v1") key;
  }

  -- `Sealer::name`
  unfoldable pub hidden_name : Sealer → Table → Bytes → Bytes
  hidden_name sealer t name = c.keyed_hash sealer.names (table_name t ++ (0 ∷ name))

  abbrev pub associated : Table → Bytes → Bytes
  associated t stored = table_name t ++ (0 ∷ stored)

  unfoldable pub seal : Bytes → Sealer → Table → Bytes → Bytes → Bytes → Result StoreError Bytes
  seal nonce sealer t stored name value = do
    sealed ←
        ok_or (c.encrypt sealer.cipher nonce (associated t stored) (c.encode_pair (name, value)))
          not_encrypted
    ok (nonce ++ sealed)

  -- `Sealer::open`
  unfoldable pub open_sealed : Sealer → Table → Bytes → Bytes → Result StoreError (Bytes × Bytes)
  open_sealed sealer t stored sealed = do
    fail_if (leb (length sealed + 1) 24) unreadable
    plain ←
        ok_or (c.decrypt sealer.cipher (take 24 sealed) (associated t stored) (drop 24 sealed))
          unreadable
    ok_or (c.decode_pair plain) unreadable

  abbrev pub stored_as : Option Sealer → Table → Bytes → Bytes
  stored_as none t name = name
  stored_as (some sealer) t name = hidden_name sealer t name

  unfoldable pub stored_name : Store → Table → Bytes → Bytes
  stored_name s t name = stored_as s.sealer t name

  -- A stored record's real name and value.
  abbrev pub reveal : Option Sealer → Table → Bytes × Bytes → Result StoreError (Bytes × Bytes)
  reveal none t entry = ok entry
  reveal (some sealer) t (stored, value) = open_sealed sealer t stored value

  abbrev pub checked :
      Option Sealer → Table → Bytes → Bytes → Bytes → Result StoreError (Option Bytes)
  checked none t name stored value = ok (some value)
  checked (some sealer) t name stored sealed = do
    (real, value) ← open_sealed sealer t stored sealed
    fail_if (not (real == name)) misplaced
    ok (some value)

  abbrev pub got :
      Option Sealer → Table → Bytes → Bytes → Option Bytes → Result StoreError (Option Bytes)
  got sealer t name stored none = ok none
  got sealer t name stored (some value) = checked sealer t name stored value

  unfoldable pub get : Store → Table → Bytes → Result StoreError (Option Bytes)
  unfolding stored_name raw_get
  get s t name = got s.sealer t name (stored_name s t name) (raw_get s t (stored_name s t name))

  -- The value that `put` stores.
  abbrev pub sealed_as :
      Bytes → Option Sealer → Table → Bytes → Bytes → Bytes → Result StoreError Bytes
  sealed_as nonce none t stored name value = ok value
  sealed_as nonce (some sealer) t stored name value = seal nonce sealer t stored name value

  unfoldable pub put : Bytes → Store → Table → Bytes → Bytes → Result StoreError Store
  unfolding stored_name raw_put
  put nonce s t name value = do
    stored ← sealed_as nonce s.sealer t (stored_name s t name) name value
    ok (raw_put s t (stored_name s t name) stored)

  unfoldable pub remove : Store → List Table → Bytes → Store
  unfolding stored_name
  remove s [] name = s
  remove s (t ∷ ts) name =
      remove
        (record s {
          tables = with_table s.tables t (HashMap.remove (stored_name s t name) (s.tables t));
        })
        ts name

  abbrev pub reveal_all :
      Option Sealer → Table → List (Bytes × Bytes) → Result StoreError (List (Bytes × Bytes))
  reveal_all sealer t [] = ok []
  reveal_all sealer t (entry ∷ rest) = do
    first ← reveal sealer t entry
    others ← reveal_all sealer t rest
    ok (first ∷ others)

  unfoldable pub entries : Store → Table → Result StoreError (List (Bytes × Bytes))
  entries s t = reveal_all s.sealer t (s.tables t)
