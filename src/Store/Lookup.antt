-- ===== src/Store/Lookup.antt =====
-- `get`, `put` and `remove` of store.rs (crates/chorrent/src) on all names of all tables.
use chorrent.Common.{
  inl, inr, ◌≡◌, ◌≢◌, refl, ◌∙◌, sym, ap, Bool, true, false, ◌&&◌, ◌||◌, Option, none, some, List,
  [], ◌∷◌, ◌==◌, ==_iff, nat_eq, list_eq, Bool-cases, if◌then◌else◌, length, ok,
}
use mathlib.Core.Path.{subst}
use chorrent.Common.HashMap
use chorrent.Store.{
  Bytes, Table, Crypto, Sealer, Store, same_table, with_table, raw_get, raw_put, stored_as,
  stored_name, reveal, checked, got, get, put, remove,
}
use chorrent.Store.Revealed.{
  IsCrypto, same_table_sound, stored_as_injective, sealed_as-reveal, reveal-checked,
}

true_ne_false : true ≢ false
true_ne_false = λ e. cc

-- A table is one of these.
abbrev pub any_table : List Table → Table → Bool
any_table [] u = false
any_table (t ∷ ts) u = same_table t u || any_table ts u

module _ (c : Crypto) (is_crypto : IsCrypto c) where
  pub same_stored :
      (sealer : Option Sealer) (t : Table) (n m : Bytes)
      → (stored_as c sealer t n == stored_as c sealer t m) ≡ (n == m)
  same_stored sealer t n m =
      let a = stored_as c sealer t n in
      let b = stored_as c sealer t m in
      elim (Bool-cases (n == m)) [
        | inl same ↦ (==_iff a b).1 (ap (stored_as c sealer t) ((==_iff n m).0 same)) ∙ sym same
        | inr other ↦ elim (Bool-cases (a == b)) [
          | inl same ↦ absurd (
              true_ne_false (
                sym (
                  (==_iff n m).1
                    (stored_as_injective c is_crypto sealer t n m ((==_iff a b).0 same)))
                ∙ other))
          | inr differ ↦ differ ∙ sym other
        ]
      ]

  pub get-with_table :
      (s : Store) (t u : Table) (entries : List (Bytes × Bytes)) (name : Bytes)
      → get c (record s { tables = with_table s.tables t entries }) u name ≡ (
          if same_table t u
          then got c s.sealer u name
              (stored_as c s.sealer u name)
              (HashMap.get (stored_as c s.sealer u name) entries)
          else get c s u name)
  unfolding get stored_name raw_get
  get-with_table s t u entries name = elim (Bool-cases (same_table t u)) [
    | inl same ↦ rw same refl
    | inr other ↦ rw other refl
  ]

  -- The record just put, under its name and under another.
  got-insert :
      (sealer : Option Sealer) (t : Table) (name other v value : Bytes) (m : List (Bytes × Bytes))
      → reveal c sealer t (stored_as c sealer t name, v) ≡ ok (name, value)
      → got c sealer t other (stored_as c sealer t other) (
          HashMap.get (stored_as c sealer t other) (HashMap.insert (stored_as c sealer t name) v m))
        ≡ (if name == other
            then ok (some value)
            else got c sealer t other
                (stored_as c sealer t other)
                (HashMap.get (stored_as c sealer t other) m))
  got-insert sealer t name other v value m r =
      ap (got c sealer t other (stored_as c sealer t other)) (
        HashMap.get-insert (stored_as c sealer t name) (stored_as c sealer t other) v m
        ∙ ap (λ b. if b then some v else HashMap.get (stored_as c sealer t other) m)
            (same_stored sealer t name other))
      ∙ elim (Bool-cases (name == other)) [
        | inl same ↦ rw same (
            subst (λ k. checked c sealer t k (stored_as c sealer t k) v ≡ ok (some value))
              ((==_iff name other).0 same)
              (reveal-checked c is_crypto sealer t name (stored_as c sealer t name) v value r refl))
        | inr differ ↦ rw differ refl
      ]

  -- With a hash without collisions, and a cipher and an encoding that are undone, `put` of a
  -- value works on a plain or a sealed database. `get` then gives that value under that name of
  -- that table, and every other name of any table gives what it gave before.
  pub get-put :
      (nonce : Bytes) (s : Store) (t : Table) (name value : Bytes)
      → length nonce ≡ 24
      → (s' : Store) × (put c nonce s t name value ≡ ok s')
        × ((u : Table) (other : Bytes)
            → get c s' u other
              ≡ (if same_table t u && (name == other) then ok (some value) else get c s u other))
  unfolding put get stored_name raw_get raw_put
  get-put nonce s t name value long =
      let stored = stored_as c s.sealer t name in
      let (v, e, r) = sealed_as-reveal c is_crypto s.sealer nonce t name value long in
      (
        raw_put s t stored v,
        rw e refl,
        λ u other.
            get-with_table s t u (HashMap.insert stored v (s.tables t)) other
            ∙ elim (Bool-cases (same_table t u)) [
              | inl same ↦ rw same (
                  subst
                    (λ w.
                      got c s.sealer w other (stored_as c s.sealer w other) (
                        HashMap.get (stored_as c s.sealer w other)
                          (HashMap.insert stored v (s.tables t)))
                      ≡ (if name == other then ok (some value) else get c s w other))
                    (same_table_sound t u same)
                    (got-insert s.sealer t name other v value (s.tables t) r))
              | inr differ ↦ rw differ refl
            ],
      )

  got-remove :
      (sealer : Option Sealer) (t : Table) (name other : Bytes) (m : List (Bytes × Bytes))
      → got c sealer t other
          (stored_as c sealer t other)
          (HashMap.get (stored_as c sealer t other) (HashMap.remove (stored_as c sealer t name) m))
        ≡ (if name == other
            then ok none
            else got c sealer t other
                (stored_as c sealer t other)
                (HashMap.get (stored_as c sealer t other) m))
  got-remove sealer t name other m =
      ap (got c sealer t other (stored_as c sealer t other)) (
        HashMap.get-remove (stored_as c sealer t name) (stored_as c sealer t other) m
        ∙ ap (λ b. if b then none else HashMap.get (stored_as c sealer t other) m)
            (same_stored sealer t name other))
      ∙ elim (Bool-cases (name == other)) [ inl same ↦ rw same refl | inr differ ↦ rw differ refl ]

  remove_one :
      (s : Store) (t u : Table) (name other : Bytes)
      → get c
          (record s {
            tables =
                with_table s.tables t (HashMap.remove (stored_as c s.sealer t name) (s.tables t));
          })
          u
          other
        ≡ (if same_table t u && (name == other) then ok none else get c s u other)
  unfolding get stored_name raw_get
  remove_one s t u name other =
      get-with_table s t u (HashMap.remove (stored_as c s.sealer t name) (s.tables t)) other
      ∙ elim (Bool-cases (same_table t u)) [
        | inl same ↦ rw same (
            subst
              (λ w.
                got c s.sealer w other (stored_as c s.sealer w other) (
                  HashMap.get (stored_as c s.sealer w other)
                    (HashMap.remove (stored_as c s.sealer t name) (s.tables t)))
                ≡ (if name == other then ok none else get c s w other))
              (same_table_sound t u same) (got-remove s.sealer t name other (s.tables t)))
        | inr differ ↦ rw differ refl
      ]

  -- With a hash without collisions, after `remove` of a name from some tables, `get` of that
  -- name in these tables finds nothing, and every other name of any table gives what it gave
  -- before.
  pub get-remove :
      (ts : List Table) (s : Store) (name : Bytes) (u : Table) (other : Bytes)
      → get c (remove c s ts name) u other
        ≡ (if any_table ts u && (name == other) then ok none else get c s u other)
  unfolding remove stored_name
  get-remove [] s name u other = refl
  get-remove (t ∷ ts) s name u other =
      get-remove ts _ name u other
      ∙ ap (λ x. if any_table ts u && (name == other) then ok none else x)
          (remove_one s t u name other)
      ∙ both _ _ (same_table t u) (any_table ts u) (name == other)
    where
      both :
          {A : Type 0} (x y : A) (p q r : Bool)
          → (if q && r then x else (if p && r then x else y)) ≡ (if (p || q) && r then x else y)
      both x y true true true = refl
      both x y true true false = refl
      both x y true false r = refl
      both x y false q r = refl
