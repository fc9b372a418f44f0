-- ===== src/Registry.antt =====
-- The shares that a node serves: registration.rs, `lookup` and `still_registered` of handler.rs, and
-- `authorized` of local.rs, with `access_token` of share.rs (crates/chorrent/src). Keys, tokens and
-- ids are lists of bytes. `keyed_hash` and `derive_key` are BLAKE3's. `Arc::ptr_eq` compares addresses.
pub mod Listed
pub mod Tests
use chorrent.Common.{
  ℕ, Bool, true, false, not, ◌&&◌, Option, none, some, List, ◌==◌, nat_eq, list_eq, nat_beq,
  is_some, if◌then◌else◌, contains, Result, ok, err,
}
use chorrent.Common.HashMap
use chorrent.Manifest.Names.{codes}

-- The fields of `LocalShare` that the registry reads.
pub record LocalShare : Type 0 where
  pub id : List ℕ
  pub secret : Option (List ℕ)
  pub allowed : Option (List (List ℕ))

-- An `Arc` of a share: where it points, and what is there.
pub record SharedShare : Type 0 where
  pub address : ℕ
  pub share : LocalShare

abbrev pub Registry : Type 0
Registry = List (List ℕ × SharedShare)

-- `Arc::ptr_eq`
abbrev pub ptr_eq : SharedShare → SharedShare → Bool
ptr_eq a b = nat_beq a.address b.address

-- `Error::AlreadySharing`
pub data Refusal : Type 0 where
  already_sharing : Refusal

-- `Registration::new`: the registry after it.
unfoldable pub register : Registry → SharedShare → Result Refusal Registry
register shares s =
    if is_some (HashMap.get s.share.id shares)
    then err already_sharing
    else ok (HashMap.insert s.share.id s shares)

-- The closure of `is_some_and`.
abbrev pub is_this : SharedShare → Option SharedShare → Bool
is_this s none = false
is_this s (some t) = ptr_eq t s

unfoldable pub still_registered : Registry → SharedShare → Bool
still_registered shares s = is_this s (HashMap.get s.share.id shares)

-- `Registration::drop`
unfoldable pub unregister : Registry → SharedShare → Registry
unregister shares s =
    if is_this s (HashMap.get s.share.id shares) then HashMap.remove s.share.id shares else shares

-- Whether the allowlist keeps a requester out.
abbrev pub is_excluded : Option (List (List ℕ)) → List ℕ → Bool
is_excluded none requester = false
is_excluded (some allowed) requester = not (contains allowed requester)

-- `token == Some(&expected)`
abbrev pub is_token : Option (List ℕ) → List ℕ → Bool
is_token none expected = false
is_token (some token) expected = token == expected

module _ (keyed_hash derive_key : List ℕ → List ℕ → List ℕ) where
  unfoldable pub access_token : List ℕ → List ℕ → List ℕ
  access_token secret requester =
      keyed_hash (derive_key (codes "chorrent v2 access") secret) requester

  -- The match on the secret.
  abbrev pub has_secret : Option (List ℕ) → List ℕ → Option (List ℕ) → Bool
  has_secret none requester token = true
  has_secret (some secret) requester token = is_token token (access_token secret requester)

  unfoldable pub authorized : LocalShare → List ℕ → Option (List ℕ) → Bool
  authorized s requester token =
      if is_excluded s.allowed requester then false else has_secret s.secret requester token

  -- `filter(|s| s.authorized(remote, auth))`
  abbrev pub filter_authorized : List ℕ → Option (List ℕ) → Option SharedShare → Option SharedShare
  filter_authorized remote auth none = none
  filter_authorized remote auth (some s) = if authorized s.share remote auth then some s else none

  unfoldable pub lookup : Registry → List ℕ → List ℕ → Option (List ℕ) → Option SharedShare
  lookup shares id remote auth = filter_authorized remote auth (HashMap.get id shares)
