-- ===== src/Download/Fetch.antt =====
-- `fetch_manifest`, `requests_for` and the pace of attempts of download.rs (crates/chorrent/src). What
-- a request came to is an argument. A span of time is its number of nanoseconds, and the product of
-- floats in `requests_for` is taken without rounding.
use chorrent.Common.{
  ℕ, ◌+◌, ◌%◌, ◌∙◌, [], ◌*◌, ◌/◌, ◌^◌, ◌≤◌, ◌≡◌, ◌↔◌, sym, ap, not, ◌||◌, Option, none, some, List,
  ◌∷◌, arith, ◌==◌, ==_iff, nat_beq, nat_beq_iff, leb, min, max, if◌then◌else◌, length, Bool-cases,
  inl, inr, nat_eq, list_eq, Result, ok, err,
}
use mathlib.Core.Path.{subst}
use chorrent.Common.Results.{◌>>=◌, ok_eq}
use chorrent.Manifest.{Manifest, FileEntry}
use chorrent.Manifest.Validate.{
  BadManifest, decode_verified, total_size, total_size_from, manifest_version,
}
use chorrent.Manifest.Safe.{IsSafe}
use chorrent.Manifest.Decode.{decode_verified_iff}
use chorrent.Protocol.Messages.{Response}
use chorrent.Share.{ShareCode}

-- The true sum of the sizes, which has no bound.
abbrev pub sum_of_sizes : List FileEntry → ℕ
sum_of_sizes [] = 0
sum_of_sizes (file ∷ files) = file.size + sum_of_sizes files

total_size_from-sum :
    (files : List FileEntry) (sum : ℕ)
    → total_size_from (sum % 2 ^ 64) files ≡ (sum + sum_of_sizes files) % 2 ^ 64
unfolding total_size_from
total_size_from-sum [] sum = omega arith
total_size_from-sum (file ∷ files) sum =
    ap (λ (n : ℕ). total_size_from n files) (omega arith)
    ∙ total_size_from-sum files (sum + file.size)
    ∙ omega arith

total_size-sum : (m : Manifest) → total_size m ≡ sum_of_sizes m.files % 2 ^ 64
unfolding total_size
total_size-sum m = total_size_from-sum m.files 0 ∙ ap (λ (n : ℕ). n % 2 ^ 64) (omega arith)

-- `MAX_MANIFEST_BYTES`
abbrev pub max_manifest_bytes : ℕ
max_manifest_bytes = 8 * 1024 * 1024

pub data FetchError : Type 0 where
  request_failed not_sent mismatch : FetchError
  bad_manifest : BadManifest → FetchError

abbrev pub as_fetch_error : {A : Type 0} → Result BadManifest A → Result FetchError A
as_fetch_error (ok a) = ok a
as_fetch_error (err e) = err (bad_manifest e)

same_bytes :
    {a b : List ℕ}
    → ◌≡◌ {A = Option Response} (some (Response.manifest a)) (some (Response.manifest b))
    → a ≡ b
same_bytes {a} h = ap bytes_of h
  where
    bytes_of : Option Response → List ℕ
    bytes_of none = a
    bytes_of (some (Response.manifest b)) = b
    bytes_of (some other) = a

module _ {Addr : Type 0} (lowercase : List ℕ → List ℕ) (hash : List ℕ → List ℕ)
    (deserialize : List ℕ → Option Manifest) where
  -- The manifest has the name and the size that the code promises.
  abbrev pub promised : ShareCode Addr → List ℕ → Manifest → Result FetchError (Manifest × List ℕ)
  promised code bytes m =
      if not (nat_beq (total_size m) code.total_size) || not (m.name == code.name)
      then err mismatch
      else ok (m, bytes)

  unfoldable pub fetch_manifest :
      ShareCode Addr → Option Response → Result FetchError (Manifest × List ℕ)
  fetch_manifest code none = err request_failed
  fetch_manifest code (some (Response.manifest bytes)) =
      if leb (length bytes) max_manifest_bytes
      then as_fetch_error (decode_verified lowercase hash deserialize bytes code.id)
        >>= promised code bytes
      else err not_sent
  fetch_manifest code (some (Response.bitfield bytes)) = err not_sent
  fetch_manifest code (some (Response.have index)) = err not_sent
  fetch_manifest code (some (Response.piece bytes)) = err not_sent
  fetch_manifest code (some Response.dont_have) = err not_sent
  fetch_manifest code (some Response.not_found) = err not_sent
  fetch_manifest code (some Response.busy) = err not_sent

  -- What a downloader takes for the manifest of a code.
  abbrev pub IsPromised : ShareCode Addr → List ℕ → Manifest → Type 0
  IsPromised code bytes m =
      (length bytes ≤ max_manifest_bytes)
      × (hash bytes ≡ code.id)
      × ((rest : List ℕ) × (bytes ≡ manifest_version ∷ rest)
          × (deserialize rest ≡ some m)
          × IsSafe lowercase m)
      × (sum_of_sizes m.files % 2 ^ 64 ≡ code.total_size)
      × (m.name ≡ code.name)

  promised_iff :
      (code : ShareCode Addr) (bytes bytes' : List ℕ) (m m' : Manifest)
      → (promised code bytes m ≡ ok (m', bytes'))
        ↔ ((m ≡ m') × (bytes ≡ bytes') × (total_size m ≡ code.total_size) × (m.name ≡ code.name))
  promised_iff code bytes bytes' m m' =
      ground (arith, nat_beq_iff (total_size m) code.total_size, ==_iff m.name code.name)

  decoded_iff :
      (code : ShareCode Addr) (bytes bytes' : List ℕ) (m : Manifest)
      → ((as_fetch_error (decode_verified lowercase hash deserialize bytes code.id)
            >>= promised code bytes)
          ≡ ok (m, bytes'))
        ↔ ((decode_verified lowercase hash deserialize bytes code.id ≡ ok m)
            × (bytes ≡ bytes')
            × (total_size m ≡ code.total_size)
            × (m.name ≡ code.name))
  decoded_iff code bytes bytes' m =
      by_result (decode_verified lowercase hash deserialize bytes code.id)
    where
      by_result :
          (r : Result BadManifest Manifest)
          → ((as_fetch_error r >>= promised code bytes) ≡ ok (m, bytes')) ↔ (
              (r ≡ ok m)
              × (bytes ≡ bytes')
              × (total_size m ≡ code.total_size)
              × (m.name ≡ code.name))
      by_result (err x) = ((λ h. absurd (cc h)), (λ h. absurd (cc (h.0))))
      by_result (ok n) = (
        (λ h.
            let (same, same', size, name) = (promised_iff code bytes bytes' n m).0 h in
            (
              ap ok same,
              same',
              subst (λ x. total_size x ≡ code.total_size) same size,
              subst (λ (x : Manifest). x.name ≡ code.name) same name,
            )),
        (λ h.
            let same : n ≡ m = ok_eq (h.0) in
            (promised_iff code bytes bytes' n m).1 (
              same,
              h.1,
              subst (λ x. total_size x ≡ code.total_size) (sym same) h.2,
              subst (λ (x : Manifest). x.name ≡ code.name) (sym same) h.3,
            )),
      )

  -- A downloader takes a manifest exactly when the peer answered with these bytes, they are at
  -- most the largest manifest, have the hash of the code, hold the version and this safe
  -- manifest, the true sum of its sizes is the size in the code modulo 2 ^ 64, and its name is
  -- the one in the code.
  pub fetch_manifest_iff :
      (code : ShareCode Addr) (r : Option Response) (m : Manifest) (bytes : List ℕ)
      → (fetch_manifest code r ≡ ok (m, bytes))
        ↔ ((r ≡ some (Response.manifest bytes)) × IsPromised code bytes m)
  unfolding fetch_manifest
  fetch_manifest_iff code none m bytes = ((λ h. absurd (cc h)), (λ h. absurd (cc (h.0))))
  fetch_manifest_iff code (some (Response.manifest sent)) m bytes =
      let d = decoded_iff code sent bytes m in
      let v = decode_verified_iff lowercase hash deserialize sent code.id m in
      elim (Bool-cases (leb (length sent) max_manifest_bytes)) [
        | inl small ↦ rw small (
          (λ h.
              let (decoded, same, size, name) = d.0 h in
              let (hashed, rest) = v.0 decoded in
              (
                ap (λ b. some (Response.manifest b)) same,
                subst (λ b. IsPromised code b m) same
                    (ground (arith, small), hashed, rest, sym (total_size-sum m) ∙ size, name),
              )),
          (λ h.
              let same = same_bytes h.0 in
              let (short, hashed, rest, size, name) =
                subst (λ b. IsPromised code b m) (sym same) h.1 in
              d.1 (v.1 (hashed, rest), same, total_size-sum m ∙ size, name)),
        )
        | inr large ↦ rw large (
          (λ h. absurd (cc h)),
          (λ h.
              let short = (subst (λ b. IsPromised code b m) (sym (same_bytes h.0)) h.1).0 in
              absurd (ground (arith, large, short))),
        )
      ]
  fetch_manifest_iff code (some (Response.bitfield bits)) m bytes =
      ((λ h. absurd (cc h)), (λ h. absurd (cc (h.0))))
  fetch_manifest_iff code (some (Response.have index)) m bytes =
      ((λ h. absurd (cc h)), (λ h. absurd (cc (h.0))))
  fetch_manifest_iff code (some (Response.piece encoded)) m bytes =
      ((λ h. absurd (cc h)), (λ h. absurd (cc (h.0))))
  fetch_manifest_iff code (some Response.dont_have) m bytes =
      ((λ h. absurd (cc h)), (λ h. absurd (cc (h.0))))
  fetch_manifest_iff code (some Response.not_found) m bytes =
      ((λ h. absurd (cc h)), (λ h. absurd (cc (h.0))))
  fetch_manifest_iff code (some Response.busy) m bytes =
      ((λ h. absurd (cc h)), (λ h. absurd (cc (h.0))))

-- `requests_for`
unfoldable pub requests_for : Option ℕ → ℕ
requests_for none = 8
requests_for (some rtt) = max 8 (min 48 ((192 * rtt + 999999999) / 1000000000))

-- How long an attempt to reach a peer may take: `FIRST_ATTEMPT`, doubled for each attempt before,
-- `CONNECT_TIMEOUT` at most.
unfoldable pub attempt_limit : ℕ → ℕ → ℕ
attempt_limit tries remaining = min (min (4000000000 * 2 ^ min tries 4) 15000000000) remaining
