-- ===== src/Store/Records.antt =====
-- The records of store.rs (crates/chorrent/src): the node's key, the shares that are seeded, the
-- downloads with their progress, and the lists of allowed peers. The encodings of the records (postcard)
-- and the texts of ids, share codes and paths are parameters.
use chorrent.Common.{
  ℕ, Bool, true, false, ◌&&◌, Option, none, some, List, [], ◌∷◌, ◌++◌, nat_eq, list_eq, is_some,
  nat_beq, if◌then◌else◌, length, Result, ok, err,
}
use chorrent.Common.Results.{◌>>=◌}
use chorrent.Manifest.Names.{codes}
use chorrent.Store.{
  Bytes, meta, seeds, downloads, progress, access, kinds, StoreError, Crypto, Store, get, put,
  remove, entries,
}

pub record SeedRecord : Type 0 where
  pub root : Bytes
  pub secret : Option Bytes
  pub manifest : Bytes
  -- The path, the size and the time of the last change of each file.
  pub files : List (Bytes × ℕ × ℕ)
  pub outboards : List Bytes

pub record DownloadRecord : Type 0 where
  pub code : Bytes
  pub dest_dir : Bytes

-- What `remember_seed` reads of a share: its files with what the disk says of them.
pub record SharedFiles (Ident : Type 0) : Type 0 where
  pub id : Ident
  pub seed : SeedRecord
  pub encrypted_files : List Bool

pub data SavedTransfer (Ident Code : Type 0) : Type 0 where
  seed : Ident → Bytes → Bool → SavedTransfer Ident Code
  download : Code → Bytes → SavedTransfer Ident Code

pub record Codecs (Ident Code : Type 0) : Type 0 where
  pub id_text : Ident → Bytes
  pub parse_id : Bytes → Option Ident
  pub code_text : Code → Bytes
  pub parse_code : Bytes → Option Code
  pub display : Bytes → Bytes
  pub encode_seed : SeedRecord → Bytes
  pub decode_seed : Bytes → Option SeedRecord
  pub encode_download : DownloadRecord → Bytes
  pub decode_download : Bytes → Option DownloadRecord
  pub encode_lists : List Bytes → Bytes
  pub decode_lists : Bytes → Option (List Bytes)
  pub encode_flags : List Bool → Bytes

abbrev pub starts_with : Bytes → Bytes → Bool
starts_with [] name = true
starts_with (b ∷ bs) [] = false
starts_with (b ∷ bs) (x ∷ xs) = nat_beq b x && starts_with bs xs

-- The value of a look-up that worked.
abbrev pub found : Result StoreError (Option Bytes) → Option Bytes
found (ok o) = o
found (err e) = none

abbrev pub decoded : {A : Type 0} → (Bytes → Option A) → Option Bytes → Option A
decoded decode none = none
decoded decode (some bytes) = decode bytes

module _ (c : Crypto) {Ident Code : Type 0} (k : Codecs Ident Code) where
  -- `format!("{id}|")`
  abbrev pub download_prefix : Ident → Bytes
  download_prefix id = k.id_text id ++ codes "|"

  unfoldable pub download_key : Ident → Bytes → Bytes
  download_key id dest_dir = download_prefix id ++ k.display dest_dir

  -- A saved key of 32 bytes, or the new one, which is saved.
  abbrev kept_key : Bytes → Store → Bytes → Option Bytes → Result StoreError (Bytes × Store)
  kept_key nonce s new (some bytes) =
      if nat_beq (length bytes) 32
      then ok (bytes, s)
      else put c nonce s meta (codes "node_key") new >>= λ s'. ok (new, s')
  kept_key nonce s new none = put c nonce s meta (codes "node_key") new >>= λ s'. ok (new, s')

  unfoldable pub node_key : Bytes → Store → Bytes → Result StoreError (Bytes × Store)
  node_key nonce s new = get c s meta (codes "node_key") >>= kept_key nonce s new

  unfoldable pub remember_seed : Bytes → Bytes → Store → SharedFiles Ident → Result StoreError Store
  remember_seed nonce nonce' s share = do
    s1 ← put c nonce s kinds (k.id_text share.id) (k.encode_flags share.encrypted_files)
    put c nonce' s1 seeds (k.id_text share.id) (k.encode_seed share.seed)

  unfoldable pub seed_root : Store → Ident → Option Bytes
  seed_root s id = root_of (decoded k.decode_seed (found (get c s seeds (k.id_text id))))
    where
      root_of : Option SeedRecord → Option Bytes
      root_of none = none
      root_of (some saved_record) = some saved_record.root

  unfoldable pub remember_allowed :
      Bytes → Store → Ident → Option (List Bytes) → Result StoreError Store
  remember_allowed nonce s id none = ok (remove c s (access ∷ []) (k.id_text id))
  remember_allowed nonce s id (some peers) =
      put c nonce s access (k.id_text id) (k.encode_lists peers)

  -- The peers whose bytes are a valid id.
  abbrev pub valid_ids : (Bytes → Bool) → List Bytes → List Bytes
  valid_ids is_id [] = []
  valid_ids is_id (p ∷ ps) = let rest = valid_ids is_id ps in if is_id p then p ∷ rest else rest

  abbrev pub valid_only : (Bytes → Bool) → Option (List Bytes) → Option (List Bytes)
  valid_only is_id none = none
  valid_only is_id (some raw) = some (valid_ids is_id raw)

  unfoldable pub load_allowed : (Bytes → Bool) → Store → Ident → Option (List Bytes)
  load_allowed is_id s id =
      valid_only is_id (decoded k.decode_lists (found (get c s access (k.id_text id))))

  abbrev pub forget_each : Bytes → Store → List (Bytes × Bytes) → Store
  forget_each prefix s [] = s
  forget_each prefix s ((name, value) ∷ rest) =
      let s' = if starts_with prefix name then remove c s (downloads ∷ progress ∷ []) name else s in
      forget_each prefix s' rest

  unfoldable pub forget : Store → Ident → Result StoreError Store
  forget s id =
      let s1 = remove c s (seeds ∷ access ∷ kinds ∷ []) (k.id_text id) in
      entries c s1 downloads >>= λ l. ok (forget_each (download_prefix id) s1 l)

  unfoldable pub remember_download : Bytes → Store → Ident → Code → Bytes → Result StoreError Store
  unfolding download_key
  remember_download nonce s id code dest_dir =
      put c nonce s downloads (download_key id dest_dir)
        (k.encode_download (record { code = k.code_text code; dest_dir = dest_dir }))

  abbrev pub or_before : Store → Result StoreError Store → Store
  or_before s (ok s') = s'
  or_before s (err e) = s

  unfoldable pub save_progress : Bytes → Store → Ident → Bytes → List Bytes → Store
  unfolding download_key
  save_progress nonce s id dest_dir outboards =
      or_before s (put c nonce s progress (download_key id dest_dir) (k.encode_lists outboards))

  unfoldable pub load_progress : Store → Ident → Bytes → Option (List Bytes)
  unfolding download_key
  load_progress s id dest_dir =
      decoded k.decode_lists (found (get c s progress (download_key id dest_dir)))

  unfoldable pub mark_complete : Store → Ident → Bytes → Store
  unfolding download_key
  mark_complete s id dest_dir = remove c s (downloads ∷ progress ∷ []) (download_key id dest_dir)

  abbrev as_seed : Option Ident → Option SeedRecord → List (SavedTransfer Ident Code)
  as_seed (some id) (some saved_record) =
      seed id saved_record.root (is_some saved_record.secret) ∷ []
  as_seed (some id) none = []
  as_seed none r = []

  abbrev saved_seeds : List (Bytes × Bytes) → List (SavedTransfer Ident Code)
  saved_seeds [] = []
  saved_seeds ((key, bytes) ∷ rest) =
      as_seed (k.parse_id key) (k.decode_seed bytes) ++ saved_seeds rest

  abbrev with_code : Bytes → Option Code → List (SavedTransfer Ident Code)
  with_code dest_dir none = []
  with_code dest_dir (some code) = download code dest_dir ∷ []

  abbrev as_download : Option DownloadRecord → List (SavedTransfer Ident Code)
  as_download none = []
  as_download (some saved_record) = with_code saved_record.dest_dir (k.parse_code saved_record.code)

  abbrev pub saved_downloads : List (Bytes × Bytes) → List (SavedTransfer Ident Code)
  saved_downloads [] = []
  saved_downloads ((key, bytes) ∷ rest) =
      as_download (k.decode_download bytes) ++ saved_downloads rest

  unfoldable pub saved : Store → Result StoreError (List (SavedTransfer Ident Code))
  saved s = do
    shares ← entries c s seeds
    unfinished ← entries c s downloads
    ok (saved_seeds shares ++ saved_downloads unfinished)
