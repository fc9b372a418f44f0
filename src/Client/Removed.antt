-- ===== src/Client/Removed.antt =====
-- What removing a share takes away: client.rs (crates/chorrent/src).
use chorrent.Common.{
  ℕ, ◌≡◌, refl, ◌∙◌, sym, ap, ◌⊎◌, inl, inr, Option, none, some, List, [], ◌∷◌, ◌++◌, ◌==◌, ==_iff,
  Bool-cases, if◌then◌else◌, some_eq, nat_eq, list_eq, Result, ok, err,
}
use mathlib.Core.Path.{ap₂}
use chorrent.Common.HashMap
use chorrent.Share.{ShareCode}
use chorrent.Store.{Bytes, StoreError, Crypto, Store}
use chorrent.Store.Records.{Codecs, forget}
use chorrent.Client.{
  FilePath, ClientError, Client, in_store, strip_prefix, store_folder, Deletion, done, not_found,
  failed, root_of, delete_folder, forgotten, remove,
}

strip_prefix-append : (p q r : FilePath) → strip_prefix p q ≡ some r → q ≡ p ++ r
unfolding strip_prefix
strip_prefix-append [] q r h = some_eq h
strip_prefix-append (a ∷ p) [] r h = absurd (cc h)
strip_prefix-append (a ∷ p) (b ∷ q) r h = elim (Bool-cases (a == b)) [
  | inl same ↦ ap₂ ◌∷◌ (sym ((==_iff a b).0 same)) (strip_prefix-append p q r (rw same at h))
  | inr other ↦ absurd (cc (rw other at h))
]

-- The folder is the first one below the store's folder on the way to the root.
pub record IsInStore (root blobs : Option FilePath) (dir : FilePath) : Type 0 where
  pub folder : FilePath
  pub first : List ℕ
  pub rest : FilePath
  pub has_folder : blobs ≡ some folder
  pub has_root : root ≡ some (folder ++ (first ∷ rest))
  pub is_below : dir ≡ folder ++ (first ∷ [])

store_folder-IsInStore :
    (root blobs : Option FilePath) (dir : FilePath)
    → store_folder root blobs ≡ some dir
    → IsInStore root blobs dir
unfolding store_folder
store_folder-IsInStore none none dir h = absurd (cc h)
store_folder-IsInStore none (some b) dir h = absurd (cc h)
store_folder-IsInStore (some root) none dir h = absurd (cc h)
store_folder-IsInStore (some root) (some blobs) dir h = by_rest (strip_prefix blobs root) refl h
  where
    by_rest :
        (o : Option FilePath)
        → strip_prefix blobs root ≡ o
        → (elim o as (λ x. Option FilePath) [
          | some (first ∷ rest) ↦ some (blobs ++ (first ∷ []))
          | _ ↦ none
        ])
          ≡ some dir
        → IsInStore (some root) (some blobs) dir
    by_rest none e h = absurd (cc h)
    by_rest (some []) e h = absurd (cc h)
    by_rest (some (first ∷ rest)) e h = record {
      folder = blobs;
      first = first;
      rest = rest;
      has_folder = refl;
      has_root = ap some (strip_prefix-append blobs root (first ∷ rest) e);
      is_below = sym (some_eq h);
    }

module _ {Addr : Type 0} (c : Crypto) (k : Codecs Bytes (ShareCode Addr)) where
  pub record Removed (id : Bytes) (root : Option FilePath) (answer : Deletion)
      (client client' : Client) (r : Result ClientError (Unit {0})) : Type 0 where
    pub unlisted :
        (j : Bytes)
        → HashMap.get j client'.registry ≡ (if id == j then none else HashMap.get j client.registry)
    -- Only a folder of the store that leads to the share's root is deleted.
    pub deleted :
        (client'.deleted ≡ client.deleted)
        ⊎ ((dir : FilePath) × IsInStore root client.blobs dir
            × (client'.deleted ≡ dir ∷ client.deleted))
    -- The records are forgotten, and a folder that is in the store is gone.
    pub complete :
        r ≡ ok tt
        → (in_store (λ s. forget c k s id) client.store ≡ ok client'.store)
          × ((dir : FilePath)
              → store_folder root client.blobs ≡ some dir
              → answer ≡ done
              → client'.deleted ≡ dir ∷ client.deleted)

  -- How the removal of a share with this root ends.
  abbrev Ends :
      Bytes → Option FilePath → Deletion → Client → Client × Result ClientError (Unit {0}) → Type 0
  Ends id root answer client e =
      (client' : Client) × (r : Result ClientError (Unit {0})) × (e ≡ (client', r))
      × Removed id root answer client client' r

  abbrev unlisted : Bytes → Client → Client
  unlisted id client = record client { registry = HashMap.remove id client.registry }

  delete_folder-Ends :
      (id : Bytes) (root : Option FilePath) (client : Client) (store : Option Store)
      → in_store (λ s. forget c k s id) client.store ≡ ok store
      → (answer : Deletion) (o : Option FilePath) → store_folder root client.blobs ≡ o
      → Ends id root answer client
          (delete_folder c k answer (record (unlisted id client) { store = store }) o)
  delete_folder-Ends id root client store e answer none h = (
    _,
    _,
    refl,
    record {
      unlisted = λ j. HashMap.get-remove id j client.registry;
      deleted = inl refl;
      complete = λ fine. (e, λ dir h' d. absurd (cc (h, h')));
    },
  )
  delete_folder-Ends id root client store e done (some dir) h = (
    _,
    _,
    refl,
    record {
      unlisted = λ j. HashMap.get-remove id j client.registry;
      deleted = inr (dir, store_folder-IsInStore root client.blobs dir h, refl);
      complete = λ fine. (e, λ dir' h' d. ap (λ x. x ∷ client.deleted) (some_eq (sym h ∙ h')));
    },
  )
  delete_folder-Ends id root client store e not_found (some dir) h = (
    _,
    _,
    refl,
    record {
      unlisted = λ j. HashMap.get-remove id j client.registry;
      deleted = inl refl;
      complete = λ fine. (e, λ dir' h' d. absurd (cc d));
    },
  )
  delete_folder-Ends id root client store e failed (some dir) h = (
    _,
    _,
    refl,
    record {
      unlisted = λ j. HashMap.get-remove id j client.registry;
      deleted = inl refl;
      complete = λ fine. absurd (cc fine);
    },
  )

  forgotten-Ends :
      (id : Bytes) (root : Option FilePath) (client : Client) (answer : Deletion)
      (r : Result StoreError (Option Store))
      → in_store (λ s. forget c k s id) client.store ≡ r
      → Ends id root answer client (forgotten c k answer (unlisted id client) root r)
  forgotten-Ends id root client answer (err x) e = (
    _,
    _,
    refl,
    record {
      unlisted = λ j. HashMap.get-remove id j client.registry;
      deleted = inl refl;
      complete = λ fine. absurd (cc fine);
    },
  )
  forgotten-Ends id root client answer (ok store) e =
      delete_folder-Ends id root client store e answer (store_folder root client.blobs) refl

  -- `remove` takes the share, and only it, off the registry, whatever else fails. It deletes
  -- nothing, or the one folder whose path is the store's folder and the next component of the
  -- share's root. If it ends well, the share is forgotten in the database, and its folder in the
  -- store is gone if deleting it works.
  pub remove-Removed :
      (components : Bytes → FilePath) (roots : ℕ → FilePath) (answer : Deletion) (client : Client)
      (id : Bytes)
      → (client' : Client) × (r : Result ClientError (Unit {0})) × (remove c k components roots
            answer client id
          ≡ (client', r))
        × Removed id
            (root_of c k components roots client.store id (HashMap.get id client.registry))
            answer
            client
            client'
            r
  unfolding remove
  remove-Removed components roots answer client id =
      forgotten-Ends id
        (root_of c k components roots client.store id (HashMap.get id client.registry)) client
        answer (in_store (λ s. forget c k s id) client.store) refl
