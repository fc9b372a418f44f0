-- ===== src/Client/Seeded.antt =====
-- What seeding a share leaves in the registry and the database: client.rs (crates/chorrent/src).
use chorrent.Common.{
  ℕ, ◌≡◌, refl, ◌∙◌, sym, ap, Bool, false, Option, none, some, List, ◌==◌, if◌then◌else◌, length,
  nat_eq, list_eq, Result, ok, err,
}
use chorrent.Common.HashMap
use chorrent.Registry.{SharedShare, register}
use chorrent.Share.{ShareCode}
use chorrent.Store.{Bytes, seeds, access, kinds, Crypto, Store, get}
use chorrent.Store.Records.{
  Codecs, SharedFiles, remember_seed, load_allowed, valid_only, seed_root, decoded, found,
}
use chorrent.Store.Revealed.{IsCrypto}
use chorrent.Store.Lookup.{get-put}
use chorrent.Store.Progress.{load_allowed-remember_allowed}
use chorrent.Client.{
  ClientError, already_sharing, Client, NewShare, SeedHandle, Nonces, with_allowed, is_for_other,
  known_peers, handle_of, start_seed, finish_seed,
}

-- Nonces of the cipher's length.
pub record AreNonces (n : Nonces) : Type 0 where
  pub allowed : length n.allowed ≡ 24
  pub kinds : length n.kinds ≡ 24
  pub seed : length n.seed ≡ 24

module _ {Addr : Type 0} (c : Crypto) (is_crypto : IsCrypto c)
    (k : Codecs Bytes (ShareCode Addr)) where
  -- What `remember_seed` leaves: the allowlists as they were, and the share's root.
  remember_seed-kept :
      (n n' : Bytes) (s : Store) (files : SharedFiles Bytes)
      → k.decode_seed (k.encode_seed files.seed) ≡ some files.seed
      → length n ≡ 24
      → length n' ≡ 24
      → (s' : Store) × (remember_seed c k n n' s files ≡ ok s')
        × ((name : Bytes) → get c s' access name ≡ get c s access name)
        × (seed_root c k s' files.id ≡ some files.seed.root)
  unfolding remember_seed seed_root
  remember_seed-kept n n' s files decodes long long' =
      let (s1, e1, after1) =
        get-put c is_crypto n s kinds (k.id_text files.id) (k.encode_flags files.encrypted_files)
          long in
      let (s2, e2, after2) =
        get-put c is_crypto n' s1 seeds (k.id_text files.id) (k.encode_seed files.seed) long' in
      let here : get c s2 seeds (k.id_text files.id) ≡ ok (some (k.encode_seed files.seed)) =
        after2 seeds (k.id_text files.id)
        ∙ rw ((list_eq {A = ℕ}).same_reflexive (k.id_text files.id)) refl in
      (s2, rw e1 e2, (λ name. after2 access name ∙ after1 access name), rw here (rw decodes refl))

  module _ (is_id : Bytes → Bool)
      (decodes_lists : (l : List Bytes) → k.decode_lists (k.encode_lists l) ≡ some l) where
    -- The allowlist of the share is saved, and the other shares' are as they were.
    pub record SavedAllowed (s : Store) (id : Bytes) (allowed : Option (List Bytes))
        (client' : Client) : Type 0 where
      pub s' : Store
      pub store : client'.store ≡ some s'
      pub saved : load_allowed c k is_id s' id ≡ valid_only c k is_id allowed
      pub others :
          (other : Bytes)
          → (k.id_text id == k.id_text other) ≡ false
          → load_allowed c k is_id s' other ≡ load_allowed c k is_id s other

    -- How seeding ends, by what the registry has under the id.
    abbrev pub Seeding :
        Client
        → NewShare
        → SharedShare
        → List Addr
        → Option SharedShare
        → Client
        → Result ClientError (SeedHandle Addr)
        → Type 0
    Seeding client new shared known (some t) client' r =
        (r ≡ err already_sharing) × (client'.registry ≡ client.registry)
    Seeding client new shared known none client' r =
        (r ≡ ok (handle_of c k new shared known))
        × ((id : Bytes)
            → HashMap.get id client'.registry
              ≡ (if shared.share.id == id then some shared else HashMap.get id client.registry))
        × ((s' : Store) × (client'.store ≡ some s')
            × (seed_root c k s' shared.share.id ≡ some new.files.seed.root))

    start_seed-Seeding :
        (n : Nonces) (client : Client) (new : NewShare) (shared : SharedShare) (known : List Addr)
        (s : Store)
        → AreNonces n
        → client.store ≡ some s
        → new.files.id ≡ shared.share.id
        → k.decode_seed (k.encode_seed new.files.seed) ≡ some new.files.seed
        → (o : Option SharedShare) → HashMap.get shared.share.id client.registry ≡ o
        → (client' : Client) × (r : Result ClientError (SeedHandle Addr)) × (start_seed c k n client
              new shared known
            ≡ (client', r))
          × Seeding client new shared known o client' r
          × ((s' : Store) × (client'.store ≡ some s')
              × ((name : Bytes) → get c s' access name ≡ get c s access name))
    unfolding start_seed register
    start_seed-Seeding n client new shared known s nonces has_store same decodes (some t) h =
        (client, err already_sharing, rw h refl, (refl, refl), (s, has_store, λ name. refl))
    start_seed-Seeding n client new shared known s nonces has_store same decodes none h =
        let (s', e, kept, root) =
          remember_seed-kept n.kinds n.seed s new.files decodes nonces.kinds nonces.seed in
        (
          record client {
            registry = HashMap.insert shared.share.id shared client.registry;
            store = some s';
          },
          ok (handle_of c k new shared known),
          rw (h, has_store) (rw e refl),
          (
            refl,
            (λ id. HashMap.get-insert shared.share.id id shared client.registry),
            (s', refl, ap (seed_root c k s') (sym same) ∙ root),
          ),
          (s', refl, kept),
        )

    -- With a database without hash collisions, a cipher that is undone and nonces of its length,
    -- where the record and the allowlist are read back as written, seeding a share that is not
    -- of another code ends in one of two ways. If its id is served already, it is refused and
    -- the registry stays. Otherwise the share is listed under its id, and only that changed, and
    -- its record is saved. In both cases the saved allowlist of the share becomes the new one,
    -- and those of other shares stay.
    pub finish_seed-Seeding :
        (n : Nonces) (client : Client) (new : NewShare) (join : Option (ShareCode Addr))
        (allowed : Option (List Bytes)) (s : Store)
        → AreNonces n
        → client.store ≡ some s
        → new.files.id ≡ new.shared.share.id
        → k.decode_seed (k.encode_seed new.files.seed) ≡ some new.files.seed
        → is_for_other join new.shared.share.id ≡ false
        → (client' : Client) × (r : Result ClientError (SeedHandle Addr)) × (finish_seed c k n
              client new join allowed
            ≡ (client', r))
          × Seeding client new
              (with_allowed new.shared allowed)
              (known_peers join)
              (HashMap.get new.shared.share.id client.registry)
              client'
              r
          × SavedAllowed s new.shared.share.id allowed client'
    unfolding finish_seed load_allowed
    finish_seed-Seeding n client new join allowed s nonces has_store same decodes mine =
        let (s1, e, saved, others) =
          load_allowed-remember_allowed c is_crypto k is_id n.allowed s new.shared.share.id allowed
            decodes_lists nonces.allowed in
        let (client', r, started, seeding, (s', store, kept)) =
          start_seed-Seeding n (record client { store = some s1 }) new
            (with_allowed new.shared allowed) (known_peers join) s1 nonces refl same decodes
            (HashMap.get new.shared.share.id client.registry) refl in
        (
          client',
          r,
          rw (mine, has_store) (rw e started),
          seeding,
          record {
            s' = s';
            store = store;
            saved =
                ap (λ x. valid_only c k is_id (decoded k.decode_lists (found x)))
                  (kept (k.id_text new.shared.share.id))
                ∙ saved;
            others = λ other differ.
                ap (λ x. valid_only c k is_id (decoded k.decode_lists (found x)))
                  (kept (k.id_text other))
                ∙ others other differ;
          },
        )
