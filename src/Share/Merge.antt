-- ===== src/Share/Merge.antt =====
-- `ShareCode::merge` of share.rs (crates/chorrent/src) joins two lists of peers.
use chorrent.Common.{
  ℕ, ◌≡◌, refl, ◌∙◌, sym, ap, Bool, true, false, ◌||◌, Option, none, some, List, [], ◌∷◌, ◌++◌,
  ◌==◌, ==_iff, ==_symm, inl, inr, arith, Bool-cases, nat_eq, list_eq, ok,
}
use mathlib.Core.Path.{subst}
use chorrent.Manifest.Names.{any}
use chorrent.Share.{ShareCode, same_secret, is_listed, add_peers, merge}

any-append :
    {A : Type 0} (p : A → Bool) (xs ys : List A) → any p (xs ++ ys) ≡ (any p xs || any p ys)
unfolding any
any-append p [] ys = refl
any-append p (x ∷ xs) ys = ground (arith, any-append p xs ys)

append_one-append :
    {A : Type 0} (xs : List A) (p : A) (ps : List A) → (xs ++ p ∷ []) ++ ps ≡ xs ++ (p ∷ ps)
append_one-append [] p ps = refl
append_one-append (x ∷ xs) p ps = ap (◌∷◌ x) (append_one-append xs p ps)

append-nil' : {A : Type 0} (xs : List A) → xs ++ [] ≡ xs
append-nil' [] = refl
append-nil' (x ∷ xs) = ap (◌∷◌ x) (append-nil' xs)

same_secret_iff : (a b : Option (List ℕ)) → same_secret a b ≡ true → a ≡ b
same_secret_iff none none h = refl
same_secret_iff none (some b) h = cc
same_secret_iff (some a) none h = cc
same_secret_iff (some a) (some b) h = ap some ((==_iff a b).0 h)

module _ {Addr : Type 0} (addr_id : Addr → List ℕ) where
  -- Whether an endpoint is among the peers.
  abbrev pub has_id : List Addr → List ℕ → Bool
  has_id peers id = any (λ p. addr_id p == id) peers

  -- No endpoint is listed twice.
  abbrev pub Once : List Addr → Type 0
  Once [] = Unit
  Once (p ∷ ps) = (has_id ps (addr_id p) ≡ false) × Once ps

  Once-append :
      (peers : List Addr) (p : Addr)
      → Once peers
      → has_id peers (addr_id p) ≡ false
      → Once (peers ++ p ∷ [])
  unfolding any
  Once-append [] p h new = (refl, tt)
  Once-append (q ∷ qs) p h new = (
    ground (
      arith,
      any-append (λ x. addr_id x == addr_id q) qs (p ∷ []),
      ==_symm (addr_id q) (addr_id p),
      h.0,
      new,
    ),
    Once-append qs p h.1 (ground (arith, new)),
  )

  -- What the loop of `merge` leaves.
  record Joined (peers others result : List Addr) : Type 0 where
    added : (more : List Addr) × (result ≡ peers ++ more)
    all : (id : List ℕ) → has_id result id ≡ (has_id peers id || has_id others id)
    once : Once peers → Once result

  add_peers-Joined :
      (peers others : List Addr) → Joined peers others (add_peers addr_id peers others)
  unfolding add_peers any
  add_peers-Joined peers [] = record {
    added = ([], sym (append-nil' peers));
    all = λ id. ground arith;
    once = λ h. h;
  }
  add_peers-Joined peers (p ∷ ps) = elim (Bool-cases (is_listed addr_id peers p)) [
    | inl known ↦
        let j = add_peers-Joined peers ps in
        rw known
          (record { added = j.added; all = λ id. j.all id ∙ already id known; once = j.once })
    | inr fresh ↦
        let j = add_peers-Joined (peers ++ p ∷ []) ps in
        rw fresh (record {
          added = (p ∷ j.added.0, j.added.1 ∙ append_one-append peers p j.added.0);
          all = λ id. ground (arith, j.all id, any-append (λ x. addr_id x == id) peers (p ∷ []));
          once = λ h. j.once (Once-append peers p h fresh);
        })
  ]
    where
      already :
          (id : List ℕ)
          → is_listed addr_id peers p ≡ true
          → (has_id peers id || has_id ps id) ≡ (has_id peers id || has_id (p ∷ ps) id)
      already id known = elim (Bool-cases (addr_id p == id)) [
        | inl same ↦
            let here : has_id peers id ≡ true =
              ap (has_id peers) (sym ((==_iff (addr_id p) id).0 same)) ∙ known in
            rw here refl
        | inr other ↦ rw other refl
      ]

  -- What `merge` gives for two codes of the same share.
  pub record Merged (a b result : ShareCode Addr) : Type 0 where
    pub same_share : (b.id ≡ a.id) × (b.secret ≡ a.secret)
    pub kept :
        (result.id ≡ a.id)
        × (result.name ≡ a.name)
        × (result.total_size ≡ a.total_size)
        × (result.secret ≡ a.secret)
    pub in_order : (more : List Addr) × (result.peers ≡ a.peers ++ more)
    pub all : (id : List ℕ) → has_id result.peers id ≡ (has_id a.peers id || has_id b.peers id)
    pub once : Once a.peers → Once result.peers

  -- If `merge` accepts a second code, both codes are for one share with one secret. The merged
  -- code keeps the name and the size of the first, starts with its peers, lists the peers of
  -- both, and lists none twice if the first listed none twice.
  pub merge-Merged :
      (a b result : ShareCode Addr) → merge addr_id a b ≡ ok result → Merged a b result
  unfolding merge
  merge-Merged a b result h =
      let same_id : (b.id == a.id) ≡ true = ground arith in
      let same : same_secret b.secret a.secret ≡ true = ground arith in
      let j = add_peers-Joined a.peers b.peers in
      let done : record a { peers = add_peers addr_id a.peers b.peers } ≡ result = ground arith in
      subst (Merged a b) done (record {
        same_share = ((==_iff b.id a.id).0 same_id, same_secret_iff b.secret a.secret same);
        kept = (refl, refl, refl, refl);
        in_order = j.added;
        all = j.all;
        once = j.once;
      })
