-- ===== src/Registry/Listed.antt =====
-- What registration.rs and handler.rs (crates/chorrent/src) serve.
use chorrent.Common.{
  ℕ, ◌≡◌, ◌↔◌, refl, true, false, Option, none, some, List, ◌==◌, ==_iff, nat_eq, list_eq, inl, inr,
  arith, Bool-cases, if◌then◌else◌, contains, ok, ap, ◌≢◌, nat_beq, nat_beq_iff, ◌∙◌, sym, ◌&&◌,
}
use mathlib.Core.Option.{some-injective}
use chorrent.Common.HashMap
use chorrent.Registry.{
  LocalShare, SharedShare, Registry, register, still_registered, unregister, authorized,
  access_token, lookup, is_this, is_excluded, is_token, has_secret, filter_authorized,
}

-- Dropping a registration takes its share's id off the registry if that share itself, and not
-- another with its id, is listed there, and leaves every other id as it was.
unregister_lem :
    (shares : Registry) (s : SharedShare) (id : List ℕ)
    → HashMap.get id (unregister shares s)
      ≡ (if (s.share.id == id) && still_registered shares s then none else HashMap.get id shares)
unfolding unregister still_registered
unregister_lem shares s id = elim (Bool-cases (is_this s (HashMap.get s.share.id shares))) [
  | inl mine ↦ rw mine (ground (arith, HashMap.get-remove s.share.id id shares))
  | inr other ↦ rw other (ground arith)
]

-- Dropping another registration, also one with the same id, keeps a share listed.
other_stays :
    (shares : Registry) (s t : SharedShare)
    → HashMap.get s.share.id shares ≡ some s
    → t.address ≢ s.address
    → HashMap.get s.share.id (unregister shares t) ≡ some s
unfolding still_registered
other_stays shares s t here apart =
    unregister_lem shares t s.share.id ∙ elim (Bool-cases (t.share.id == s.share.id)) [
      | inl same ↦
          let found : HashMap.get t.share.id shares ≡ some s =
            ap (λ x. HashMap.get x shares) ((==_iff t.share.id s.share.id).0 same) ∙ here in
          let differ : nat_beq s.address t.address ≡ false =
            ground (arith, nat_beq_iff s.address t.address, apart) in
          rw (same, found, differ) here
      | inr other ↦ rw other here
    ]

-- After a registration succeeded, the share is registered, and dropping the registration gives
-- every id the share that it had before. Dropping instead the registration of a share at another
-- address, also one with the same id, keeps the share listed.
pub unregister-register :
    (shares after : Registry) (s : SharedShare)
    → register shares s ≡ ok after
    → (still_registered after s ≡ true)
      × ((id : List ℕ) → HashMap.get id (unregister after s) ≡ HashMap.get id shares)
      × ((t : SharedShare)
          → t.address ≢ s.address
          → HashMap.get s.share.id (unregister after t) ≡ some s)
unfolding register still_registered
unregister-register shares after s h = by_listed (HashMap.get s.share.id shares) refl
  where
    by_listed :
        (o : Option SharedShare)
        → HashMap.get s.share.id shares ≡ o
        → (is_this s (HashMap.get s.share.id after) ≡ true)
          × ((id : List ℕ) → HashMap.get id (unregister after s) ≡ HashMap.get id shares)
          × ((t : SharedShare)
              → t.address ≢ s.address
              → HashMap.get s.share.id (unregister after t) ≡ some s)
    by_listed (some t) listed = absurd (ground (arith, h, listed))
    by_listed none listed =
        let now : after ≡ HashMap.insert s.share.id s shares = ground (arith, h, listed) in
        let here : HashMap.get s.share.id after ≡ some s =
          ap (HashMap.get s.share.id) now
          ∙ ground (
            arith,
            HashMap.get-insert s.share.id s.share.id s shares,
            ==_iff s.share.id s.share.id,
          ) in
        let listed_now : is_this s (HashMap.get s.share.id after) ≡ true = rw here (ground arith) in
        (
          listed_now,
          λ id. unregister_lem after s id ∙ elim (Bool-cases (s.share.id == id)) [
            | inl same ↦
                let absent : HashMap.get id shares ≡ none =
                  ap (λ x. HashMap.get x shares) (sym ((==_iff s.share.id id).0 same)) ∙ listed in
                rw (same, listed_now, absent) refl
            | inr other ↦ rw other (
                ap (HashMap.get id) now
                ∙ ground (arith, other, HashMap.get-insert s.share.id id s shares))
          ],
          λ t apart. other_stays after s t here apart,
        )

-- On the allowlist, if there is one.
abbrev pub IsListed : Option (List (List ℕ)) → List ℕ → Type 0
IsListed none requester = Unit
IsListed (some allowed) requester = contains allowed requester ≡ true

is_excluded_iff :
    (allowed : Option (List (List ℕ))) (requester : List ℕ)
    → (is_excluded allowed requester ≡ false) ↔ IsListed allowed requester
is_excluded_iff none requester = (λ h. tt, λ h. refl)
is_excluded_iff (some allowed) requester = ground arith

is_token_iff :
    (token : Option (List ℕ)) (expected : List ℕ)
    → (is_token token expected ≡ true) ↔ (token ≡ some expected)
is_token_iff none expected = ground arith
is_token_iff (some t) expected =
    (λ h. ap some ((==_iff t expected).0 h), λ h. (==_iff t expected).1 (ground (arith, h)))

module _ (keyed_hash derive_key : List ℕ → List ℕ → List ℕ) where
  -- With the token that the secret gives, if the share is private.
  abbrev pub HoldsSecret : Option (List ℕ) → List ℕ → Option (List ℕ) → Type 0
  HoldsSecret none requester token = Unit
  HoldsSecret (some secret) requester token =
      token ≡ some (access_token keyed_hash derive_key secret requester)

  has_secret_iff :
      (secret : Option (List ℕ)) (requester : List ℕ) (token : Option (List ℕ))
      → (has_secret keyed_hash derive_key secret requester token ≡ true)
        ↔ HoldsSecret secret requester token
  has_secret_iff none requester token = (λ h. tt, λ h. refl)
  has_secret_iff (some secret) requester token =
      is_token_iff token (access_token keyed_hash derive_key secret requester)

  authorized_iff :
      (s : LocalShare) (requester : List ℕ) (token : Option (List ℕ))
      → (authorized keyed_hash derive_key s requester token ≡ true)
        ↔ (IsListed s.allowed requester × HoldsSecret s.secret requester token)
  unfolding authorized
  authorized_iff s requester token =
      let a = is_excluded_iff s.allowed requester in
      let b = has_secret_iff s.secret requester token in
      ((λ h. (a.0 (ground (arith, h)), b.0 (ground (arith, h)))), (λ h. rw (a.1 h.0) (b.1 h.1)))

  filter_authorized_iff :
      (o : Option SharedShare) (requester : List ℕ) (token : Option (List ℕ)) (s : SharedShare)
      → (filter_authorized keyed_hash derive_key requester token o ≡ some s)
        ↔ ((o ≡ some s) × (authorized keyed_hash derive_key s.share requester token ≡ true))
  filter_authorized_iff none requester token s = ground arith
  filter_authorized_iff (some t) requester token s =
      elim (Bool-cases (authorized keyed_hash derive_key t.share requester token)) [
        | inl may ↦ (
          (λ h.
              let e : some t ≡ some s = rw may at h in
              (
                e,
                ap (λ (x : SharedShare). authorized keyed_hash derive_key x.share requester token)
                      (sym (some-injective t s e))
                    ∙ may,
              )),
          (λ h. rw may h.0),
        )
        | inr may_not ↦ (
          (λ h. absurd (cc (rw may_not at h))),
          (λ h. absurd (
              cc (
                may_not,
                h.1,
                ap (λ (x : SharedShare). authorized keyed_hash derive_key x.share requester token)
                    (some-injective t s h.0),
              ))),
        )
      ]

  -- A request finds a share exactly when the share is listed under the id that was asked for,
  -- the requester is on the share's allowlist if it has one, and, if the share is private, the
  -- request has the token that the secret gives to this requester.
  pub lookup_iff :
      (shares : Registry) (id requester : List ℕ) (token : Option (List ℕ)) (s : SharedShare)
      → (lookup keyed_hash derive_key shares id requester token ≡ some s) ↔ (
          (HashMap.get id shares ≡ some s)
          × (IsListed s.share.allowed requester × HoldsSecret s.share.secret requester token))
  unfolding lookup
  lookup_iff shares id requester token s =
      let f = filter_authorized_iff (HashMap.get id shares) requester token s in
      let a = authorized_iff s.share requester token in
      ((λ h. ((f.0 h).0, a.0 (f.0 h).1)), (λ h. f.1 (h.0, a.1 h.1)))
