-- ===== src/Registry/Tests.antt =====
-- A registry (registration.rs and handler.rs of crates/chorrent/src) with one private share.
use chorrent.Common.{
  ℕ, ◌≡◌, refl, ◌≢◌, true, some, List, [], ◌∷◌, ◌++◌, ok, err, nat_eq, list_eq, list_beq,
}
use chorrent.Common.HashMap
use chorrent.Registry.{
  SharedShare, Registry, already_sharing, register, still_registered, unregister,
}
use chorrent.Registry.Listed.{unregister-register}

abbrev film : SharedShare
film = record {
  address = 4096;
  share = record { id = 1 ∷ 2 ∷ []; secret = some (9 ∷ []); allowed = some ((7 ∷ []) ∷ []) };
}

-- The same share, opened again.
abbrev reopened : SharedShare
reopened = record { address = 8192; share = film.share }

abbrev listed : Registry
listed = (1 ∷ 2 ∷ [], film) ∷ []

register-film : register [] film ≡ ok listed
unfolding register HashMap.get HashMap.insert
register-film = refl

a_share_is_listed_once : register listed reopened ≡ err already_sharing
unfolding register HashMap.get list_beq
a_share_is_listed_once = refl

an_old_registration_does_not_unlist_a_new_one : unregister listed reopened ≡ listed
unfolding unregister HashMap.get list_beq
an_old_registration_does_not_unlist_a_new_one = refl

unregister-register_example :
    (still_registered listed film ≡ true)
    × ((id : List ℕ) → HashMap.get id (unregister listed film) ≡ HashMap.get id [])
    × ((t : SharedShare)
        → t.address ≢ film.address
        → HashMap.get film.share.id (unregister listed t) ≡ some film)
unregister-register_example = unregister-register [] listed film register-film

-- Hashes that a test can compute.
abbrev join : List ℕ → List ℕ → List ℕ
join key bytes = key ++ bytes

abbrev drop_context : List ℕ → List ℕ → List ℕ
drop_context context key = key
