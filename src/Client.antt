-- ===== src/Client.antt =====
-- client.rs (crates/chorrent/src): seeding a share, stopping, forgetting and removing it, over the
-- registry and the database. A path is the list of its components, as `Path::components` gives
-- them. What the disk says to the deletion of a folder is an argument, and so is where a share in
-- the registry has its root. `nonces` are the random ones of the records that are written.
pub mod Seeded
pub mod Removed
pub mod Tests
use chorrent.Common.{
  ℕ, Bool, true, false, not, Option, none, some, List, [], ◌∷◌, ◌++◌, ◌==◌, if◌then◌else◌, nat_eq,
  list_eq, Result, ok, err,
}
use mathlib.Core.Option
use chorrent.Common.HashMap
use chorrent.Common.Results.{◌>>=◌}
use chorrent.Registry.{Registry, SharedShare, Refusal, register, unregister}
use chorrent.Share.{ShareCode}
use chorrent.Store.{Bytes, StoreError, Crypto, Store}
use chorrent.Store.Records.{SharedFiles, Codecs, remember_seed, remember_allowed, seed_root, forget}

abbrev pub FilePath : Type 0
FilePath = List (List ℕ)

pub data ClientError : Type 0 where
  different_content already_sharing not_deleted : ClientError
  storage : StoreError → ClientError

-- `blobs` is the folder of the store's files; `deleted` are the folders that were deleted.
pub record Client : Type 0 where
  pub registry : Registry
  pub store : Option Store
  pub blobs : Option FilePath
  pub deleted : List FilePath

-- A share as `from_disk` or `from_reader` made it, with what its record and its code need.
pub record NewShare : Type 0 where
  pub shared : SharedShare
  pub files : SharedFiles Bytes
  pub name : List ℕ
  pub total_size : ℕ

pub record SeedHandle (Addr : Type 0) : Type 0 where
  pub code : ShareCode Addr
  pub known : List Addr
  pub registration : SharedShare

pub record Nonces : Type 0 where
  pub allowed : Bytes
  pub kinds : Bytes
  pub seed : Bytes

-- `set_allowed`
abbrev pub with_allowed : SharedShare → Option (List Bytes) → SharedShare
with_allowed s allowed = record s { share = record s.share { allowed = allowed } }

-- What is done with the database, if there is one.
abbrev pub in_store :
    (Store → Result StoreError Store) → Option Store → Result StoreError (Option Store)
in_store f none = ok none
in_store f (some s) = f s >>= λ s'. ok (some s')

-- Whether `options.join` is a code of another share.
abbrev pub is_for_other : {Addr : Type 0} → Option (ShareCode Addr) → List ℕ → Bool
is_for_other none id = false
is_for_other (some join) id = not (join.id == id)

abbrev pub known_peers : {Addr : Type 0} → Option (ShareCode Addr) → List Addr
known_peers none = []
known_peers (some join) = join.peers

-- `secret_for`, with a new secret at hand.
unfoldable pub secret_for : {Addr : Type 0} → Option (ShareCode Addr) → Bool → Bytes → Option Bytes
secret_for (some join) is_private new = join.secret
secret_for none true new = some new
secret_for none false new = none

-- `Path::strip_prefix`
unfoldable pub strip_prefix : FilePath → FilePath → Option FilePath
strip_prefix [] path = some path
strip_prefix (p ∷ ps) [] = none
strip_prefix (p ∷ ps) (q ∷ qs) = if p == q then strip_prefix ps qs else none

-- The share's own folder in the store.
unfoldable pub store_folder : Option FilePath → Option FilePath → Option FilePath
unfolding strip_prefix
store_folder (some root) (some blobs) = elim (strip_prefix blobs root) [
  | some (first ∷ rest) ↦ some (blobs ++ (first ∷ []))
  | _ ↦ none
]
store_folder root blobs = none

pub data Deletion : Type 0 where
  done not_found failed : Deletion

module _ {Addr : Type 0} (c : Crypto) (k : Codecs Bytes (ShareCode Addr)) where
  abbrev pub handle_of : NewShare → SharedShare → List Addr → SeedHandle Addr
  handle_of new shared known = record {
    code = record {
      id = shared.share.id;
      name = new.name;
      total_size = new.total_size;
      peers = [];
      secret = shared.share.secret;
    };
    known = known;
    registration = shared;
  }

  -- After `remember_seed`: where it failed, the registration is dropped.
  abbrev pub remembered :
      Client
      → Registry
      → SharedShare
      → SeedHandle Addr
      → Result StoreError (Option Store)
      → Client × Result ClientError (SeedHandle Addr)
  remembered client shares shared handle (ok store) =
      (record client { registry = shares; store = store }, ok handle)
  remembered client shares shared handle (err e) =
      (record client { registry = unregister shares shared }, err (storage e))

  abbrev pub registered :
      Nonces
      → Client
      → NewShare
      → SharedShare
      → List Addr
      → Result Refusal Registry
      → Client × Result ClientError (SeedHandle Addr)
  registered n client new shared known (err e) = (client, err already_sharing)
  registered n client new shared known (ok shares) =
      remembered client shares shared (handle_of new shared known)
        (in_store (λ s. remember_seed c k n.kinds n.seed s new.files) client.store)

  unfoldable pub start_seed :
      Nonces
      → Client
      → NewShare
      → SharedShare
      → List Addr
      → Client × Result ClientError (SeedHandle Addr)
  start_seed n client new shared known =
      registered n client new shared known (register client.registry shared)

  -- After `remember_allowed`.
  abbrev pub allowed_kept :
      Nonces
      → Client
      → NewShare
      → SharedShare
      → List Addr
      → Result StoreError (Option Store)
      → Client × Result ClientError (SeedHandle Addr)
  allowed_kept n client new shared known (err e) = (client, err (storage e))
  allowed_kept n client new shared known (ok store) =
      start_seed n (record client { store = store }) new shared known

  unfoldable pub finish_seed :
      Nonces
      → Client
      → NewShare
      → Option (ShareCode Addr)
      → Option (List Bytes)
      → Client × Result ClientError (SeedHandle Addr)
  finish_seed n client new join allowed =
      if is_for_other join new.shared.share.id
      then (client, err different_content)
      else allowed_kept n client new (with_allowed new.shared allowed) (known_peers join) (
          in_store (λ s. remember_allowed c k n.allowed s new.shared.share.id allowed) client.store)

  -- Dropping a handle drops its registration.
  unfoldable pub stop : Client → SeedHandle Addr → Client
  stop client handle = record client { registry = unregister client.registry handle.registration }

  -- The root of a share that is served, or else that of its record.
  abbrev pub root_of :
      (Bytes → FilePath)
      → (ℕ → FilePath)
      → Option Store
      → Bytes
      → Option SharedShare
      → Option FilePath
  root_of components roots store id (some s) = some (roots s.address)
  root_of components roots none id none = none
  root_of components roots (some s) id none = Option.map components (seed_root c k s id)

  abbrev pub delete_folder :
      Deletion → Client → Option FilePath → Client × Result ClientError (Unit {0})
  delete_folder answer client none = (client, ok tt)
  delete_folder done client (some dir) = (record client { deleted = dir ∷ client.deleted }, ok tt)
  delete_folder not_found client (some dir) = (client, ok tt)
  delete_folder failed client (some dir) = (client, err not_deleted)

  -- After `forget`.
  abbrev pub forgotten :
      Deletion
      → Client
      → Option FilePath
      → Result StoreError (Option Store)
      → Client × Result ClientError (Unit {0})
  forgotten answer client root (err e) = (client, err (storage e))
  forgotten answer client root (ok store) =
      delete_folder answer (record client { store = store }) (store_folder root client.blobs)

  unfoldable pub remove :
      (Bytes → FilePath)
      → (ℕ → FilePath)
      → Deletion
      → Client
      → Bytes
      → Client × Result ClientError (Unit {0})
  unfolding store_folder
  remove components roots answer client id =
      forgotten answer (record client { registry = HashMap.remove id client.registry })
        (root_of components roots client.store id (HashMap.get id client.registry))
        (in_store (λ s. forget c k s id) client.store)

  module _ (addr_id : Addr → List ℕ) where
    abbrev pub others : Addr → List Addr → List Addr
    others me [] = []
    others me (p ∷ ps) =
        let rest = others me ps in if addr_id p == addr_id me then rest else p ∷ rest

    -- `SeedHandle::share_code`
    unfoldable pub share_code : SeedHandle Addr → Addr → ShareCode Addr
    share_code handle me = record (handle.code) { peers = me ∷ others me handle.known }
