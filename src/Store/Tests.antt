-- ===== src/Store/Tests.antt =====
-- A database of store.rs (crates/chorrent/src) with a concrete hash, cipher and encoding.
use chorrent.Common.{
  ℕ, zero, suc, ◌≡◌, ◌≢◌, refl, ◌∙◌, ap, false, ◌&&◌, Option, none, some, List, [], ◌∷◌, ◌++◌, ◌==◌,
  nat_eq, list_eq, list_beq, if◌then◌else◌, length, take, drop, take-length_append,
  drop-length_append, replicate, ok, err,
}
use mathlib.Core.Path.{ap₂}
use chorrent.Common.HashMap
use chorrent.Manifest.Names.{codes}
use chorrent.Store.{
  Bytes, Table, meta, seeds, downloads, progress, access, kinds, StoreError, different_key,
  needs_key, Crypto, Tables, Store, same_table, raw_put, get, put, remove,
}
use chorrent.Store.Format.{format, sealed_v1, fingerprint, fingerprint_of, open_store}
use chorrent.Store.Records.{
  Codecs, forget, save_progress, load_progress, mark_complete, download_key,
}
use chorrent.Store.Revealed.{IsCrypto}
use chorrent.Store.Lookup.{get-put}
use chorrent.Store.Kept.{Kept, OpensAs}
use chorrent.Store.Forgotten.{forgotten, forget-forgotten}
use chorrent.Store.Progress.{load_progress-save_progress}
use chorrent.Store.Reopened.{IsMarked, open_store-again}

-- A hash that keeps its text, a cipher that shows it, and pairs with the length first.
abbrev pub plain : Crypto
plain = record {
  derive_key = λ context key. key;
  keyed_hash = λ key text. text;
  encrypt = λ key nonce aad text. some text;
  decrypt = λ key nonce aad text. some text;
  encode_pair = λ p. length p.0 ∷ (p.0 ++ p.1);
  decode_pair = split;
}
  where
    split : Bytes → Option (Bytes × Bytes)
    split [] = none
    split (n ∷ bytes) = some (take n bytes, drop n bytes)

pub plain-IsCrypto : IsCrypto plain
plain-IsCrypto = record {
  no_collision = λ key x y h. h;
  decrypts = λ key nonce aad text. (text, refl, refl);
  decodes = λ p. ap₂ (λ a b. some (a, b)) (take-length_append p.0 p.1) (drop-length_append p.0 p.1);
}

abbrev key : Bytes
key = 1 ∷ 2 ∷ []

abbrev no_tables : Tables
no_tables t = []

abbrev sealed_store : Store
sealed_store = record { tables = no_tables; sealer = some (record { cipher = key; names = key }) }

new_store : Store
new_store = raw_put (raw_put sealed_store meta fingerprint key) meta format sealed_v1

open_store-new : open_store plain no_tables (some key) ≡ ok new_store
unfolding open_store new_store chorrent.Store.Format.has_records raw_put
    chorrent.Store.Format.check_format chorrent.Store.raw_get HashMap.get chorrent.Store.new_sealer
open_store-new = refl

-- No marker, so nothing to ask of the fingerprint.
no_tables-IsMarked : IsMarked no_tables
unfolding chorrent.Store.raw_get HashMap.get
no_tables-IsMarked h = cc

open_store-again_example :
    (open_store plain new_store.tables (some key) ≡ ok new_store)
    × ((other : Bytes)
        → key ≢ other
        → open_store plain new_store.tables (some other) ≡ err different_key)
    × (open_store plain new_store.tables none ≡ err needs_key)
open_store-again_example =
    open_store-again plain no_tables key new_store no_tables-IsMarked open_store-new

-- A plain database with a share and two downloads, one of them of the share.
abbrev tables_of_plain : Tables
tables_of_plain seeds = (codes "5", 1 ∷ []) ∷ []
tables_of_plain downloads = (codes "5|x", 2 ∷ []) ∷ (codes "6|x", 3 ∷ []) ∷ []
tables_of_plain t = []

abbrev pub plain_store : Store
plain_store = record { tables = tables_of_plain; sealer = none }

opens : (t : Table) (name value : Bytes) → OpensAs plain none t name value
opens t name value = record { name = name; value = value; opens = refl; at = refl }

plain_store-Kept : Kept plain plain_store
unfolding HashMap.get list_beq
plain_store-Kept meta = tt
plain_store-Kept seeds = (opens seeds (codes "5") (1 ∷ []), refl, tt)
plain_store-Kept downloads = (
  opens downloads (codes "5|x") (2 ∷ []),
  refl,
  (opens downloads (codes "6|x") (3 ∷ []), refl, tt),
)
plain_store-Kept progress = tt
plain_store-Kept access = tt
plain_store-Kept kinds = tt

abbrev pub nonce : Bytes
nonce = replicate 24 9

get-put_example :
    (s' : Store) × (put plain nonce sealed_store seeds key (7 ∷ []) ≡ ok s')
    × ((u : Table) (other : Bytes)
        → get plain s' u other ≡ (
            if same_table seeds u && (key == other)
            then ok (some (7 ∷ []))
            else get plain sealed_store u other))
get-put_example = get-put plain plain-IsCrypto nonce sealed_store seeds key (7 ∷ []) refl

-- Lists of texts: a byte is one more than it was, and 0 ends a text.
abbrev encode_text : Bytes → Bytes → Bytes
encode_text [] rest = 0 ∷ rest
encode_text (b ∷ bs) rest = suc b ∷ encode_text bs rest

abbrev pub encode_lists : List Bytes → Bytes
encode_lists [] = []
encode_lists (x ∷ xs) = encode_text x (encode_lists xs)

abbrev push : ℕ → List Bytes → List Bytes
push b [] = (b ∷ []) ∷ []
push b (x ∷ xs) = (b ∷ x) ∷ xs

abbrev pub decode : Bytes → List Bytes
decode [] = []
decode (zero ∷ bytes) = [] ∷ decode bytes
decode (suc b ∷ bytes) = push b (decode bytes)

decode-encode_text : (x rest : Bytes) → decode (encode_text x rest) ≡ x ∷ decode rest
decode-encode_text [] rest = refl
decode-encode_text (b ∷ bs) rest = ap (push b) (decode-encode_text bs rest)

pub decode-encode_lists :
    (l : List Bytes) → ◌≡◌ {A = Option (List Bytes)} (some (decode (encode_lists l))) (some l)
decode-encode_lists l = ap some (whole l)
  where
    whole : (l : List Bytes) → decode (encode_lists l) ≡ l
    whole [] = refl
    whole (x ∷ xs) = decode-encode_text x (encode_lists xs) ∙ ap (◌∷◌ x) (whole xs)

-- Ids and codes are their own texts.
abbrev texts : Codecs Bytes Bytes
texts = record {
  id_text = λ x. x;
  parse_id = some;
  code_text = λ x. x;
  parse_code = some;
  display = λ x. x;
  encode_seed = λ r. r.root;
  decode_seed = λ b. none;
  encode_download = λ r. r.code;
  decode_download = λ b. none;
  encode_lists = encode_lists;
  decode_lists = λ b. some (decode b);
  encode_flags = λ l. [];
}

forget-forgotten_example :
    (s' : Store) × (forget plain texts plain_store (codes "5") ≡ ok s')
    × Kept plain s'
    × ((t : Table) (name : Bytes)
        → get plain s' t name ≡ (
            if forgotten plain plain-IsCrypto texts plain_store (codes "5") t name
            then ok none
            else get plain plain_store t name))
forget-forgotten_example =
    forget-forgotten plain plain-IsCrypto texts plain_store (codes "5") plain_store-Kept

load_progress-save_progress_example :
    let s' = save_progress plain texts nonce sealed_store (codes "5") (codes "x") ((1 ∷ []) ∷ []) in
    (load_progress plain texts s' (codes "5") (codes "x") ≡ some ((1 ∷ []) ∷ []))
    × ((other : Bytes) (dest : Bytes)
        → (download_key plain texts (codes "5") (codes "x") == download_key plain texts other dest)
          ≡ false
        → load_progress plain texts s' other dest
          ≡ load_progress plain texts sealed_store other dest)
    × (load_progress plain texts
          (mark_complete plain texts s' (codes "5") (codes "x"))
          (codes "5")
          (codes "x")
        ≡ none)
    × (get plain
          (mark_complete plain texts s' (codes "5") (codes "x"))
          downloads
          (download_key plain texts (codes "5") (codes "x"))
        ≡ ok none)
load_progress-save_progress_example =
    load_progress-save_progress plain plain-IsCrypto texts nonce sealed_store (codes "5")
      (codes "x") ((1 ∷ []) ∷ []) decode-encode_lists refl
