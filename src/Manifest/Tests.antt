-- ===== src/Manifest/Tests.antt =====
-- Unit tests of manifest.rs, and its theorems at a share of two files, with a hash, a case folding
-- and a serialization that are small enough to compute.
use chorrent.Common.{
  ℕ, ◌≡◌, ◌↔◌, refl, Option, none, some, List, [], ◌∷◌, map, All, ok, err, length, list_beq,
}
use chorrent.Manifest.{FileEntry, Manifest}
use chorrent.Manifest.Names.{
  codes, name_problem, to_ascii_lowercase, forbidden_character, dot_or_space_at_end,
  reserved_device_name, not_a_file_name,
}
use chorrent.Manifest.Validate.{validate, encode, decode_verified, duplicate_path, manifest_version}
use chorrent.Manifest.Safe.{IsSafe, validate_iff}
use chorrent.Manifest.Decode.{
  decode_verified_iff, decode_verified-encode, StaysInShare, decode_verified-StaysInShare,
}

abbrev lowercase : List ℕ → List ℕ
lowercase = map to_ascii_lowercase

abbrev file : List (List ℕ) → ℕ → FileEntry
file path size = record { path = path; size = size; root_hash = [] }

abbrev share : Manifest
share = record {
  name = codes "Show";
  files =
      file (codes "Show" ∷ codes "ep 1.mkv" ∷ []) 65541
      ∷ file (codes "Show" ∷ codes "b" ∷ []) 0
      ∷ [];
}

-- A hash that adds up the bytes, and a serialization that knows one share.
abbrev hash : List ℕ → List ℕ
hash bytes = length bytes ∷ []

abbrev serialize : Manifest → List ℕ
serialize m = 5 ∷ 6 ∷ []

abbrev deserialize : List ℕ → Option Manifest
deserialize [] = none
deserialize (b ∷ bs) = some share

names_other_systems_cannot_store :
    map name_problem
      (codes ".." ∷ codes "a/b" ∷ codes "a " ∷ codes "con.txt" ∷ codes "nul .gz" ∷ codes "a.b" ∷ [])
    ≡ some not_a_file_name
      ∷ some forbidden_character
      ∷ some dot_or_space_at_end
      ∷ some reserved_device_name
      ∷ some reserved_device_name
      ∷ none
      ∷ []
unfolding name_problem list_beq
names_other_systems_cannot_store = refl

names_differing_only_in_case_are_rejected :
    validate lowercase (record {
      name = codes "s";
      files =
          file (codes "s" ∷ codes "Readme" ∷ []) 1 ∷ file (codes "s" ∷ codes "README" ∷ []) 1 ∷ [];
    })
    ≡ err duplicate_path
unfolding validate name_problem list_beq
names_differing_only_in_case_are_rejected = refl

share-validate : validate lowercase share ≡ ok tt
unfolding validate name_problem list_beq
share-validate = refl

share-IsSafe : IsSafe lowercase share
share-IsSafe = (validate_iff lowercase share).0 share-validate

share-decode_verified :
    decode_verified lowercase hash deserialize (1 ∷ 5 ∷ 6 ∷ []) (3 ∷ []) ≡ ok share
unfolding decode_verified validate name_problem list_beq
share-decode_verified = refl

decode_verified_iff_example :
    (decode_verified lowercase hash deserialize (1 ∷ 5 ∷ 6 ∷ []) (3 ∷ []) ≡ ok share) ↔ (
      (hash (1 ∷ 5 ∷ 6 ∷ []) ≡ 3 ∷ [])
      × ((rest : List ℕ) × (1 ∷ 5 ∷ 6 ∷ [] ≡ manifest_version ∷ rest)
          × (deserialize rest ≡ some share)
          × IsSafe lowercase share))
decode_verified_iff_example =
    decode_verified_iff lowercase hash deserialize (1 ∷ 5 ∷ 6 ∷ []) (3 ∷ []) share

decode_verified-encode_example :
    decode_verified lowercase hash deserialize
      (encode serialize share)
      (hash (encode serialize share))
    ≡ ok share
decode_verified-encode_example =
    decode_verified-encode lowercase hash deserialize serialize share refl share-IsSafe

decode_verified-StaysInShare_example : All (StaysInShare share.name) share.files
decode_verified-StaysInShare_example =
    decode_verified-StaysInShare lowercase hash deserialize (1 ∷ 5 ∷ 6 ∷ []) (3 ∷ []) share
      share-decode_verified
