-- ===== src/Store/Format.antt =====
-- `Store::open` and `check_format` of store.rs (crates/chorrent/src): a database is sealed exactly when
-- it is opened with its storage key.
use chorrent.Common.{
  Bool, true, false, ◌&&◌, ◌||◌, not, Option, none, some, List, [], ◌∷◌, ◌==◌, nat_eq, list_eq,
  is_some, if◌then◌else◌, Result, ok, err,
}
use chorrent.Common.Results.{◌>>◌, fail_if}
use chorrent.Manifest.Names.{codes}
use chorrent.Store.{
  Bytes, Table, meta, seeds, downloads, progress, access, kinds, StoreError, different_key,
  newer_format, has_plain_records, needs_key, Crypto, Tables, Sealer, Store, raw_get, raw_put,
  new_sealer,
}

abbrev pub format : Bytes
format = codes "format"

abbrev pub sealed_v1 : Bytes
sealed_v1 = codes "sealed-v1"

abbrev pub fingerprint : Bytes
fingerprint = codes "storage_key_fingerprint"

abbrev is_empty : List (Bytes × Bytes) → Bool
is_empty [] = true
is_empty (x ∷ xs) = false

-- A name of the table `meta` is not a format marker.
abbrev other_names : List (Bytes × Bytes) → Bool
other_names [] = false
other_names ((name, value) ∷ rest) =
    (not (name == format) && not (name == fingerprint)) || other_names rest

abbrev any_filled : Tables → List Table → Bool
any_filled tables [] = false
any_filled tables (t ∷ ts) = not (is_empty (tables t)) || any_filled tables ts

unfoldable pub has_records : Store → Bool
has_records s =
    any_filled s.tables (seeds ∷ downloads ∷ progress ∷ access ∷ kinds ∷ [])
    || other_names (s.tables meta)

module _ (c : Crypto) where
  abbrev pub fingerprint_of : Bytes → Bytes
  fingerprint_of key = c.derive_key (codes "chorrent storage key fingerprint v1") key

  abbrev pub differs : Option Bytes → Bytes → Bool
  differs none now = false
  differs (some saved) now = not (saved == now)

  -- With a key: what the format marker says.
  abbrev pub check_marker : Store → Bytes → Option Bytes → Result StoreError Store
  check_marker s key (some marker) = if marker == sealed_v1 then ok s else err newer_format
  check_marker s key none =
      if has_records s
      then err has_plain_records
      else ok (raw_put (raw_put s meta fingerprint (fingerprint_of key)) meta format sealed_v1)

  unfoldable pub check_format : Store → Option Bytes → Result StoreError Store
  unfolding raw_get raw_put has_records
  check_format s (some key) = do
    fail_if (differs (raw_get s meta fingerprint) (fingerprint_of key)) different_key
    check_marker s key (raw_get s meta format)
  check_format s none = do
    fail_if (is_some (raw_get s meta format) || is_some (raw_get s meta fingerprint)) needs_key
    ok s

  abbrev pub sealer_for : Option Bytes → Option Sealer
  sealer_for none = none
  sealer_for (some key) = some (new_sealer c key)

  -- `Store::open` on the tables of a data dir, which are empty when it is new.
  unfoldable pub open_store : Tables → Option Bytes → Result StoreError Store
  unfolding check_format
  open_store tables key = check_format (record { tables = tables; sealer = sealer_for key }) key
