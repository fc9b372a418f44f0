-- ===== src/Share.antt =====
-- share.rs (crates/chorrent/src): share codes, their text form, and the topics of a share. A text is
-- the list of its code points. `Addr` is iroh's address of an endpoint, with the endpoint's id. The
-- parameters `serialize` and `deserialize` are postcard's, `encode` and `decode` base64's, and
-- `keyed_hash` and `derive_key` BLAKE3's.
pub mod Merge
pub mod Text
pub mod Tests
use chorrent.Common.{
  ℕ, Bool, true, false, not, ◌||◌, Option, none, some, List, [], ◌∷◌, ◌++◌, ◌==◌, nat_beq,
  if◌then◌else◌, nat_eq, list_eq, Result, ok, err,
}
use chorrent.Common.Results.{◌>>=◌, ok_or}
use chorrent.Manifest.Names.{codes, any, is_whitespace, trim_end}

pub record ShareCode (Addr : Type 0) : Type 0 where
  pub id : List ℕ
  pub name : List ℕ
  pub total_size : ℕ
  pub peers : List Addr
  pub secret : Option (List ℕ)

-- The reasons of `Error::InvalidShareCode`.
pub data InvalidShareCode : Type 0 where
  different_shares not_a_share_code not_base64 corrupted : InvalidShareCode

-- `SHARE_CODE_PREFIX`
abbrev pub share_code_prefix : List ℕ
share_code_prefix = codes "chr2"

-- Equality of optional secrets.
abbrev pub same_secret : Option (List ℕ) → Option (List ℕ) → Bool
same_secret none none = true
same_secret (some a) (some b) = a == b
same_secret _ _ = false

-- `str::trim_start`
unfoldable pub trim_start : List ℕ → List ℕ
trim_start [] = []
trim_start (c ∷ cs) = if is_whitespace c then trim_start cs else c ∷ cs

-- `str::strip_prefix`
unfoldable pub strip_prefix : List ℕ → List ℕ → Option (List ℕ)
strip_prefix [] s = some s
strip_prefix (p ∷ ps) [] = none
strip_prefix (p ∷ ps) (c ∷ cs) = if nat_beq p c then strip_prefix ps cs else none

module _ {Addr : Type 0} (addr_id : Addr → List ℕ) where
  -- The closure of `any`.
  abbrev pub is_listed : List Addr → Addr → Bool
  is_listed peers peer = any (λ p. addr_id p == addr_id peer) peers

  -- The loop of `merge`.
  unfoldable pub add_peers : List Addr → List Addr → List Addr
  unfolding any
  add_peers peers [] = peers
  add_peers peers (p ∷ ps) = add_peers (if is_listed peers p then peers else peers ++ p ∷ []) ps

  unfoldable pub merge : ShareCode Addr → ShareCode Addr → Result InvalidShareCode (ShareCode Addr)
  unfolding add_peers
  merge self other =
      if not (other.id == self.id) || not (same_secret other.secret self.secret)
      then err different_shares
      else ok (record self { peers = add_peers self.peers other.peers })

module _ {Addr : Type 0} (serialize : ShareCode Addr → Option (List ℕ))
    (deserialize : List ℕ → Option (ShareCode Addr)) (encode : List ℕ → List ℕ)
    (decode : List ℕ → Option (List ℕ)) where
  -- `Display`: `none` is `fmt::Error`.
  unfoldable pub display : ShareCode Addr → Option (List ℕ)
  display code = elim (serialize code) [
    | none ↦ none
    | some bytes ↦ some (share_code_prefix ++ encode bytes)
  ]

  -- `FromStr`
  unfoldable pub from_str : List ℕ → Result InvalidShareCode (ShareCode Addr)
  unfolding strip_prefix trim_start trim_end
  from_str s = do
    body ← ok_or (strip_prefix share_code_prefix (trim_end (trim_start s))) not_a_share_code
    bytes ← ok_or (decode body) not_base64
    ok_or (deserialize bytes) corrupted

module _ (keyed_hash derive_key : List ℕ → List ℕ → List ℕ) where
  unfoldable pub topic_for : List ℕ → Option (List ℕ) → List ℕ
  topic_for id none = keyed_hash (derive_key (codes "chorrent v2 public topic") []) id
  topic_for id (some secret) = keyed_hash (derive_key (codes "chorrent v2 private topic") secret) id

  unfoldable pub topic : {Addr : Type 0} → ShareCode Addr → List ℕ
  unfolding topic_for
  topic code = topic_for code.id code.secret
