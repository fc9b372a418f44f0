-- ===== src/Client/Tests.antt =====
-- A client of client.rs (crates/chorrent/src) that seeds a share for one peer, and then again for anyone.
use chorrent.Common.{ℕ, ◌≡◌, refl, true, none, some, [], ◌∷◌, nat_eq, list_eq, list_beq, Result}
use chorrent.Common.HashMap
use chorrent.Manifest.Names.{codes}
use chorrent.Share.{ShareCode}
use chorrent.Store.{Bytes, Store, get}
use chorrent.Store.Records.{Codecs, SeedRecord, load_allowed}
use chorrent.Store.Tests.{
  plain, plain-IsCrypto, plain_store, nonce, encode_lists, decode, decode-encode_lists,
}
use chorrent.Client.{
  FilePath, ClientError, Client, NewShare, SeedHandle, Nonces, with_allowed, done, root_of,
  finish_seed, remove,
}
use chorrent.Client.Seeded.{AreNonces, Seeding, SavedAllowed, finish_seed-Seeding}
use chorrent.Client.Removed.{Removed, remove-Removed}

abbrev seed : SeedRecord
seed = record { root = codes "r"; secret = none; manifest = []; files = []; outboards = [] }

abbrev pub texts : Codecs Bytes (ShareCode Bytes)
texts = record {
  id_text = λ x. x;
  parse_id = some;
  code_text = λ code. code.name;
  parse_code = λ b. none;
  display = λ x. x;
  encode_seed = λ r. r.root;
  decode_seed = λ b. some seed;
  encode_download = λ r. r.code;
  decode_download = λ b. none;
  encode_lists = encode_lists;
  decode_lists = λ b. some (decode b);
  encode_flags = λ l. [];
}

abbrev film : NewShare
film = record {
  shared = record { address = 4; share = record { id = codes "5"; secret = none; allowed = none } };
  files = record { id = codes "5"; seed = seed; encrypted_files = [] };
  name = codes "film";
  total_size = 3;
}

abbrev client : Client
client = record {
  registry = [];
  store = some plain_store;
  blobs = some (codes "d" ∷ codes "blobs" ∷ []);
  deleted = [];
}

abbrev nonces : Nonces
nonces = record { allowed = nonce; kinds = nonce; seed = nonce }

nonces-AreNonces : AreNonces nonces
nonces-AreNonces = record { allowed = refl; kinds = refl; seed = refl }

finish_seed-Seeding_example :
    (client' : Client) × (r : Result ClientError (SeedHandle Bytes)) × (finish_seed plain texts
        nonces client film none
        (some ((4 ∷ []) ∷ []))
      ≡ (client', r))
    × Seeding plain plain-IsCrypto texts
        (λ id. true)
        decode-encode_lists
        client
        film
        (with_allowed film.shared (some ((4 ∷ []) ∷ [])))
        []
        (HashMap.get (codes "5") client.registry)
        client'
        r
    × SavedAllowed plain plain-IsCrypto texts
        (λ id. true)
        decode-encode_lists
        plain_store
        (codes "5")
        (some ((4 ∷ []) ∷ []))
        client'
finish_seed-Seeding_example =
    finish_seed-Seeding plain plain-IsCrypto texts (λ id. true) decode-encode_lists nonces client
      film none (some ((4 ∷ []) ∷ [])) plain_store nonces-AreNonces refl refl refl refl

-- The share is served from elsewhere in the file system.
abbrev served : Client
served = record client { registry = (codes "5", film.shared) ∷ [] }

abbrev roots : ℕ → FilePath
roots address = codes "d" ∷ codes "blobs" ∷ codes "x" ∷ codes "film" ∷ []

remove-Removed_example :
    (client' : Client) × (r : Result ClientError (Unit {0})) × (remove plain texts
        (λ b. b ∷ [])
        roots
        done
        served
        (codes "5")
      ≡ (client', r))
    × Removed plain texts
        (codes "5")
        (root_of plain texts
          (λ b. b ∷ [])
          roots
          served.store
          (codes "5")
          (HashMap.get (codes "5") served.registry))
        done
        served
        client'
        r
remove-Removed_example = remove-Removed plain texts (λ b. b ∷ []) roots done served (codes "5")

-- A root that leaves the store's folder by `..` makes the folder above it go.
a_share_beside_the_store_deletes_all_of_it :
    (remove plain texts
      (λ b. b ∷ [])
      (λ address. codes "d" ∷ codes "blobs" ∷ codes ".." ∷ codes "film" ∷ [])
      done
      served
      (codes "5")).0.deleted
    ≡ (codes "d" ∷ codes "blobs" ∷ codes ".." ∷ []) ∷ []
unfolding remove HashMap.get list_beq chorrent.Store.Records.forget chorrent.Store.entries
    chorrent.Store.remove
a_share_beside_the_store_deletes_all_of_it = refl
