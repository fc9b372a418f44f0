-- ===== src/Store/Kept.antt =====
-- The invariant of a database of store.rs (crates/chorrent/src): every record opens under the name
-- that it is stored for. Then the records are a map from real names to values.
use chorrent.Common.{
  ℕ, inl, inr, ◌≡◌, refl, ◌∙◌, ap, Bool, true, false, Option, none, some, List, [], ◌∷◌, ◌==◌,
  ==_iff, nat_eq, list_eq, Bool-cases, if◌then◌else◌, length, ok,
}
use mathlib.Core.Path.{subst}
use chorrent.Common.HashMap
use chorrent.Store.{
  Bytes, Table, Crypto, Sealer, Store, same_table, with_table, raw_get, raw_put, stored_as,
  stored_name, reveal, reveal_all, checked, got, get, put, remove, entries,
}
use chorrent.Store.Revealed.{IsCrypto, same_table_sound, sealed_as-reveal, reveal-checked}
use chorrent.Store.Lookup.{same_stored}

module _ (c : Crypto) where
  -- A record opens under the name that it is stored for.
  pub record OpensAs (sealer : Option Sealer) (t : Table) (stored v : Bytes) : Type 0 where
    pub name : Bytes
    pub value : Bytes
    pub opens : reveal c sealer t (stored, v) ≡ ok (name, value)
    pub at : stored ≡ stored_as c sealer t name

  abbrev pub KeptIn : Option Sealer → Table → List (Bytes × Bytes) → Type 0
  KeptIn sealer t [] = Unit
  KeptIn sealer t ((stored, v) ∷ rest) =
      OpensAs sealer t stored v × (HashMap.get stored rest ≡ none) × KeptIn sealer t rest

  -- The invariant.
  abbrev pub Kept : Store → Type 0
  Kept s = (t : Table) → KeptIn s.sealer t (s.tables t)

  remove-KeptIn :
      (sealer : Option Sealer) (t : Table) (k : Bytes) (m : List (Bytes × Bytes))
      → KeptIn sealer t m
      → KeptIn sealer t (HashMap.remove k m)
  unfolding HashMap.remove
  remove-KeptIn sealer t k [] h = tt
  remove-KeptIn sealer t k ((stored, v) ∷ rest) (o, fresh, h) = elim (Bool-cases (stored == k)) [
    | inl same ↦ rw same (remove-KeptIn sealer t k rest h)
    | inr other ↦ rw other (
      o,
      HashMap.get-remove k stored rest ∙ absent (k == stored) fresh,
      remove-KeptIn sealer t k rest h,
    )
  ]
    where
      absent : {x : Option Bytes} (b : Bool) → x ≡ none → (if b then none else x) ≡ none
      absent true e = refl
      absent false e = e

  with_table-Kept :
      (s : Store) (t : Table) (m : List (Bytes × Bytes))
      → Kept s
      → KeptIn s.sealer t m
      → Kept (record s { tables = with_table s.tables t m })
  with_table-Kept s t m h k u = elim (Bool-cases (same_table t u)) [
    | inl same ↦ rw same (subst (λ w. KeptIn s.sealer w m) (same_table_sound t u same) k)
    | inr other ↦ rw other (h u)
  ]

  module _ (is_crypto : IsCrypto c) where
    pub put-Kept :
        (nonce : Bytes) (s : Store) (t : Table) (name value : Bytes)
        → length nonce ≡ 24
        → Kept s
        → (s' : Store) × (put c nonce s t name value ≡ ok s') × Kept s'
    unfolding put stored_name raw_put HashMap.insert
    put-Kept nonce s t name value long h =
        let stored = stored_as c s.sealer t name in
        let (v, e, r) = sealed_as-reveal c is_crypto s.sealer nonce t name value long in
        (
          raw_put s t stored v,
          rw e refl,
          with_table-Kept s t ((stored, v) ∷ HashMap.remove stored (s.tables t)) h (
            record { name = name; value = value; opens = r; at = refl },
            HashMap.get-remove stored stored (s.tables t)
                ∙ rw ((list_eq {A = ℕ}).same_reflexive stored) refl,
            remove-KeptIn s.sealer t stored (s.tables t) (h t),
          ),
        )

    pub remove-Kept :
        (ts : List Table) (s : Store) (name : Bytes) → Kept s → Kept (remove c s ts name)
    unfolding remove stored_name
    remove-Kept [] s name h = h
    remove-Kept (t ∷ ts) s name h = remove-Kept ts _ name (
        with_table-Kept s t _ h
          (remove-KeptIn s.sealer t (stored_as c s.sealer t name) (s.tables t) (h t)))

    reveal_all-got :
        (sealer : Option Sealer) (t : Table) (m : List (Bytes × Bytes))
        → KeptIn sealer t m
        → (l : List (Bytes × Bytes)) × (reveal_all c sealer t m ≡ ok l)
          × ((name : Bytes)
              → got c sealer t name
                  (stored_as c sealer t name)
                  (HashMap.get (stored_as c sealer t name) m)
                ≡ ok (HashMap.get name l))
    unfolding HashMap.get
    reveal_all-got sealer t [] h = ([], refl, λ name. refl)
    reveal_all-got sealer t ((stored, v) ∷ rest) (o, fresh, h) =
        let (l, e, lookup) = reveal_all-got sealer t rest h in
        (
          (o.name, o.value) ∷ l,
          rw (o.opens, e) refl,
          λ name.
              let same : (stored == stored_as c sealer t name) ≡ (o.name == name) =
                ap (λ x. x == stored_as c sealer t name) o.at
                ∙ same_stored c is_crypto sealer t o.name name in
              elim (Bool-cases (o.name == name)) [
                | inl here ↦
                    rw (same, here)
                      (subst
                        (λ k. checked c sealer t k (stored_as c sealer t k) v ≡ ok (some o.value))
                        ((==_iff o.name name).0 here)
                        (reveal-checked c is_crypto sealer t o.name (stored_as c sealer t o.name) v
                          o.value
                          (subst (λ x. reveal c sealer t (x, v) ≡ ok (o.name, o.value)) o.at
                            o.opens)
                          refl))
                | inr other ↦ rw (same, other) (lookup name)
              ],
        )

    pub entries-get :
        (s : Store) (t : Table)
        → Kept s
        → (l : List (Bytes × Bytes)) × (entries c s t ≡ ok l)
          × ((name : Bytes) → get c s t name ≡ ok (HashMap.get name l))
    unfolding entries get stored_name raw_get
    entries-get s t h = reveal_all-got s.sealer t (s.tables t) (h t)
