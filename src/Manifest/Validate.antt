-- ===== src/Manifest/Validate.antt =====
-- `encode`, `decode_verified`, `validate` and `total_size` of manifest.rs (crates/chorrent/src).
-- `lowercase` is Unicode's `str::to_lowercase`, `hash` BLAKE3, `serialize` and `deserialize` are
-- postcard's. `total_size` wraps as a release build does.
use chorrent.Common.{
  ℕ, ◌+◌, ◌%◌, ◌^◌, Bool, true, not, Option, none, some, List, [], ◌∷◌, map, ◌==◌, nat_beq,
  if◌then◌else◌, contains, nat_eq, list_eq, Result, ok, err,
}
use chorrent.Common.Results.{◌>>=◌}
use chorrent.Manifest.{FileEntry, Manifest}
use chorrent.Manifest.Names.{Problem, name_problem}

abbrev pub manifest_version : ℕ
manifest_version = 1

-- The reasons of `Error::BadManifest`.
pub data BadManifest : Type 0 where
  wrong_hash empty outside_folder duplicate_path undecodable : BadManifest
  unsupported_version : ℕ → BadManifest
  unsafe_name : List ℕ → Problem → BadManifest

-- `find_map(|c| name_problem(c).map(|why| (c, why)))`
unfoldable pub first_problem : List (List ℕ) → Option (List ℕ × Problem)
first_problem [] = none
first_problem (c ∷ cs) = elim (name_problem c) [
  | some why ↦ some (c, why)
  | none ↦ first_problem cs
]

-- `file.path.is_empty() || file.path[0] != self.name`
abbrev pub is_outside : List ℕ → List (List ℕ) → Bool
is_outside name [] = true
is_outside name (c ∷ cs) = not (c == name)

module _ (lowercase : List ℕ → List ℕ) where
  -- The loop of `validate`, with the paths seen so far.
  unfoldable pub validate_files :
      List ℕ → List (List (List ℕ)) → List FileEntry → Result BadManifest (Unit {0})
  unfolding first_problem
  validate_files name seen [] = ok tt
  validate_files name seen (file ∷ files) =
      let rest = validate_files name (map lowercase file.path ∷ seen) files in
      if is_outside name file.path then err outside_folder else elim (first_problem file.path) [
        | some (component, why) ↦ err (unsafe_name component why)
        | none ↦ if contains seen (map lowercase file.path) then err duplicate_path else rest
      ]

  unfoldable pub validate : Manifest → Result BadManifest (Unit {0})
  unfolding validate_files
  validate m = validate_files m.name [] m.files

  module _ (hash : List ℕ → List ℕ) (deserialize : List ℕ → Option Manifest) where
    abbrev pub decode_body : List ℕ → Result BadManifest Manifest
    decode_body rest = elim (deserialize rest) [
      | none ↦ err undecodable
      | some m ↦ validate m >>= λ _. ok m
    ]

    abbrev pub decode_version : List ℕ → Result BadManifest Manifest
    decode_version [] = err empty
    decode_version (version ∷ rest) =
        if nat_beq version manifest_version
        then decode_body rest
        else err (unsupported_version version)

    unfoldable pub decode_verified : List ℕ → List ℕ → Result BadManifest Manifest
    decode_verified encoded expected =
        if hash encoded == expected then decode_version encoded else err wrong_hash

-- `files.iter().map(|f| f.size).sum()` on `u64`.
unfoldable pub total_size_from : ℕ → List FileEntry → ℕ
total_size_from sum [] = sum
total_size_from sum (file ∷ files) = total_size_from ((sum + file.size) % 2 ^ 64) files

unfoldable pub total_size : Manifest → ℕ
unfolding total_size_from
total_size m = total_size_from 0 m.files

module _ (serialize : Manifest → List ℕ) where
  unfoldable pub encode : Manifest → List ℕ
  encode m = manifest_version ∷ serialize m
