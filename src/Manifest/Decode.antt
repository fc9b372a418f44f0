-- ===== src/Manifest/Decode.antt =====
-- `encode` and `decode_verified` of manifest.rs: what a downloader accepts, and that it accepts what
-- a seeder encodes.
use chorrent.Common.{
  ℕ, ◌≡◌, ◌↔◌, refl, ◌∙◌, sym, ap, true, false, Option, none, some, List, [], ◌∷◌, ◌==◌, arith, All,
  nat_eq, list_eq, ==_iff, Result, ok, err, nat_beq, nat_beq_iff,
}
use chorrent.Manifest.{FileEntry, Manifest}
use chorrent.Manifest.Names.{name_problem}
use chorrent.Manifest.Validate.{
  BadManifest, is_outside, validate, decode_verified, decode_body, manifest_version, encode,
}
use chorrent.Manifest.Safe.{
  StaysInFolder, name_problem-StaysInFolder, IsSafeFile, IsSafe, validate_iff,
}

-- A path inside the share's folder, as no component of it leads out of the folder it stands in.
abbrev pub StaysInShare : List ℕ → FileEntry → Type 0
StaysInShare name file =
    ((rest : List (List ℕ)) × (file.path ≡ name ∷ rest)) × All StaysInFolder file.path

All-map : (cs : List (List ℕ)) → All (λ c. name_problem c ≡ none) cs → All StaysInFolder cs
All-map [] h = tt
All-map (c ∷ cs) h = (name_problem-StaysInFolder c h.0, All-map cs h.1)

inside_path :
    (name : List ℕ) (path : List (List ℕ))
    → is_outside name path ≡ false
    → (rest : List (List ℕ)) × (path ≡ name ∷ rest)
inside_path name [] h = cc
inside_path name (c ∷ cs) h = (cs, ap (λ (x : List ℕ). x ∷ cs) ((==_iff c name).0 (ground arith)))

safe_files :
    (name : List ℕ) (files : List FileEntry)
    → All (IsSafeFile name) files
    → All (StaysInShare name) files
safe_files name [] h = tt
safe_files name (file ∷ files) h = (
  (inside_path name file.path h.0.inside, All-map file.path h.0.names),
  safe_files name files h.1,
)

module _ (lowercase : List ℕ → List ℕ) (hash : List ℕ → List ℕ)
    (deserialize : List ℕ → Option Manifest) where
  decode_body_iff :
      (rest : List ℕ) (m : Manifest)
      → (decode_body lowercase hash deserialize rest ≡ ok m)
        ↔ ((deserialize rest ≡ some m) × (validate lowercase m ≡ ok tt))
  decode_body_iff rest m = by_read (deserialize rest) refl
    where
      by_check :
          (n : Manifest) (r : Result BadManifest (Unit {0}))
          → deserialize rest ≡ some n
          → validate lowercase n ≡ r
          → (decode_body lowercase hash deserialize rest ≡ ok m)
            ↔ ((deserialize rest ≡ some m) × (validate lowercase m ≡ ok tt))
      by_check n (ok u) h v = (
        (λ e.
            let same : n ≡ m = ground (arith, h, v, e) in
            (h ∙ ap some same, ap (validate lowercase) (sym same) ∙ v)),
        (λ p. let same : n ≡ m = ground (arith, h, p.0) in ground (arith, h, v, same)),
      )
      by_check n (err x) h v = (
        (λ e. absurd (ground (arith, h, v, e))),
        (λ p.
            let same : m ≡ n = ground (arith, h, p.0) in
            absurd (cc (v, p.1, ap (validate lowercase) same))),
      )

      by_read :
          (o : Option Manifest)
          → deserialize rest ≡ o
          → (decode_body lowercase hash deserialize rest ≡ ok m)
            ↔ ((deserialize rest ≡ some m) × (validate lowercase m ≡ ok tt))
      by_read none h = (λ e. absurd (ground (arith, h, e)), λ p. absurd (cc (h, p.0)))
      by_read (some n) h = by_check n (validate lowercase n) h refl

  -- A downloader accepts the bytes as a manifest exactly when they have the hash that it asked
  -- for, start with the version, and the rest reads as that manifest, which is safe.
  pub decode_verified_iff :
      (encoded expected : List ℕ) (m : Manifest)
      → (decode_verified lowercase hash deserialize encoded expected ≡ ok m) ↔ (
          (hash encoded ≡ expected)
          × ((rest : List ℕ) × (encoded ≡ manifest_version ∷ rest)
              × (deserialize rest ≡ some m)
              × IsSafe lowercase m))
  unfolding decode_verified
  decode_verified_iff [] expected m =
      ((λ h. absurd (ground (arith, h))), (λ p. absurd (cc (p.1.1))))
  decode_verified_iff (version ∷ rest) expected m = (
    (λ h.
        let same_hash : (hash (version ∷ rest) == expected) ≡ true = ground (arith, h) in
        let same_version : nat_beq version manifest_version ≡ true = ground (arith, h) in
        let body = (decode_body_iff rest m).0 (ground (arith, h)) in
        (
          (==_iff (hash (version ∷ rest)) expected).0 same_hash,
          (
            rest,
            ap (λ (v : ℕ). v ∷ rest) ((nat_beq_iff version manifest_version).0 same_version),
            body.0,
            (validate_iff lowercase m).0 body.1,
          ),
        )),
    (λ p.
        let same_rest : rest ≡ p.1.0 = ground (arith, p.1.1) in
        let same_version : version ≡ manifest_version = ground (arith, p.1.1) in
        let body =
          (decode_body_iff rest m).1
            (ap deserialize same_rest ∙ p.1.2, (validate_iff lowercase m).1 p.1.3) in
        rw
          (
            (==_iff (hash (version ∷ rest)) expected).1 p.0,
            (nat_beq_iff version manifest_version).1 same_version,
          )
          body),
  )

  -- Where postcard reads back the manifest that it wrote, and the manifest is safe, the
  -- downloader accepts what the seeder encodes, under its hash, as that manifest.
  pub decode_verified-encode :
      (serialize : Manifest → List ℕ)
      → (m : Manifest) → deserialize (serialize m) ≡ some m
      → IsSafe lowercase m
      → decode_verified lowercase hash deserialize (encode serialize m) (hash (encode serialize m))
        ≡ ok m
  unfolding encode
  decode_verified-encode serialize m reads_back safe =
      (decode_verified_iff (encode serialize m) (hash (encode serialize m)) m).1
        (refl, (serialize m, refl, reads_back, safe))

  -- The path of every file of an accepted manifest starts with the share's name, and no
  -- component of it is empty, `.` or `..`, or holds a slash or a backslash.
  pub decode_verified-StaysInShare :
      (encoded expected : List ℕ) (m : Manifest)
      → decode_verified lowercase hash deserialize encoded expected ≡ ok m
      → All (StaysInShare m.name) m.files
  decode_verified-StaysInShare encoded expected m h =
      safe_files m.name m.files ((decode_verified_iff encoded expected m).0 h).1.3.files
