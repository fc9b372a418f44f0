-- ===== src/Store/Forgotten.antt =====
-- `forget` and the records of a download of store.rs (crates/chorrent/src): what is left of them.
use chorrent.Common.{
  ◌≡◌, ◌≢◌, refl, ◌∙◌, sym, ap, Bool, true, false, ◌&&◌, ◌||◌, Option, none, some, List, [], ◌∷◌,
  arith, ◌==◌, ==_iff, nat_eq, list_eq, is_some, if◌then◌else◌, ok,
}
use mathlib.Core.Path.{ap₂}
use chorrent.Common.HashMap
use chorrent.Store.{
  Bytes, Table, downloads, progress, seeds, access, kinds, Crypto, Store, get, remove,
}
use chorrent.Store.Revealed.{IsCrypto}
use chorrent.Store.Lookup.{any_table, get-remove}
use chorrent.Store.Kept.{Kept, remove-Kept, entries-get}
use chorrent.Store.Records.{Codecs, starts_with, found, download_prefix, forget_each, forget}

-- What a step of the loop does to the look-up of one name, in the truth values of its tests.
one_step :
    {A V : Type 0} (x y : A) (a p q same : Bool) (value : V) (o : Option V)
    → (same ≡ true → p ≡ q)
    → (if a && (q && is_some o) then x else (if p then (if a && same then x else y) else y))
      ≡ (if a && (q && is_some (if same then some value else o)) then x else y)
one_step x y false p q same value o h = ground arith
one_step x y true true true true value none h = refl
one_step x y true true true true value (some w) h = refl
one_step x y true true true false value none h = refl
one_step x y true true true false value (some w) h = refl
one_step x y true p false true value o h = rw (h refl) refl
one_step x y true true false false value o h = refl
one_step x y true false true true value o h = absurd (false_ne_true (h refl))
  where
    false_ne_true : false ≢ true
    false_ne_true = λ e. cc
one_step x y true false true false value none h = refl
one_step x y true false true false value (some w) h = refl
one_step x y true false false false value o h = refl

none_recorded : {A : Type 0} (x y : A) (a q : Bool) → (if a && (q && false) then x else y) ≡ y
none_recorded x y true true = refl
none_recorded x y true false = refl
none_recorded x y false q = refl

either :
    {A : Type 0} (x y : A) (p q : Bool)
    → (if p then x else (if q then x else y)) ≡ (if q || p then x else y)
either x y true true = refl
either x y true false = refl
either x y false true = refl
either x y false false = refl

module _ (c : Crypto) (is_crypto : IsCrypto c) {Ident Code : Type 0} (k : Codecs Ident Code) where
  -- Under the name `other`, the table `u` loses its record.
  abbrev of_download : Bytes → Table → Bytes → Option Bytes → Bool
  of_download prefix u other recorded =
      any_table (downloads ∷ progress ∷ []) u && (starts_with prefix other && is_some recorded)

  get-forget_each :
      (prefix : Bytes) (l : List (Bytes × Bytes)) (s : Store) (u : Table) (other : Bytes)
      → get c (forget_each c k prefix s l) u other
        ≡ (if of_download prefix u other (HashMap.get other l) then ok none else get c s u other)
  unfolding HashMap.get
  get-forget_each prefix [] s u other = sym (
      none_recorded (ok none) (get c s u other) (any_table (downloads ∷ progress ∷ []) u)
        (starts_with prefix other))
  get-forget_each prefix ((name, value) ∷ rest) s u other =
      get-forget_each prefix rest _ u other
      ∙ ap (λ x. if of_download prefix u other (HashMap.get other rest) then ok none else x)
          (choose (starts_with prefix name))
      ∙ one_step (ok none) (get c s u other) (any_table (downloads ∷ progress ∷ []) u)
          (starts_with prefix name) (starts_with prefix other) (name == other) value
          (HashMap.get other rest) (λ same. ap (starts_with prefix) ((==_iff name other).0 same))
    where
      choose :
          (p : Bool)
          → get c (if p then remove c s (downloads ∷ progress ∷ []) name else s) u other ≡ (
              if p
              then (if any_table (downloads ∷ progress ∷ []) u && (name == other)
                  then ok none
                  else get c s u other)
              else get c s u other)
      choose true = get-remove c is_crypto (downloads ∷ progress ∷ []) s name u other
      choose false = refl

  forget_each-Kept :
      (prefix : Bytes) (l : List (Bytes × Bytes)) (s : Store)
      → Kept c s
      → Kept c (forget_each c k prefix s l)
  forget_each-Kept prefix [] s h = h
  forget_each-Kept prefix ((name, value) ∷ rest) s h =
      forget_each-Kept prefix rest _ (step (starts_with prefix name))
    where
      step : (p : Bool) → Kept c (if p then remove c s (downloads ∷ progress ∷ []) name else s)
      step true = remove-Kept c is_crypto (downloads ∷ progress ∷ []) s name h
      step false = h

  -- The records that go with a share.
  abbrev pub forgotten : Store → Ident → Table → Bytes → Bool
  forgotten s id t name =
      (any_table (seeds ∷ access ∷ kinds ∷ []) t && (k.id_text id == name))
      || of_download (download_prefix c k id) t name (found (get c s downloads name))

  -- In a database where each record opens under the name that it is stored for, `forget` of a
  -- share works and keeps that. Gone are its records of seeds, allowlists and kinds, and for
  -- every recorded download whose name starts with the share's id its download and its progress;
  -- every other name of any table gives what it gave before.
  pub forget-forgotten :
      (s : Store) (id : Ident)
      → Kept c s
      → (s' : Store) × (forget c k s id ≡ ok s')
        × Kept c s'
        × ((t : Table) (name : Bytes)
            → get c s' t name ≡ (if forgotten s id t name then ok none else get c s t name))
  unfolding forget
  forget-forgotten s id h =
      let s1 = remove c s (seeds ∷ access ∷ kinds ∷ []) (k.id_text id) in
      let h1 : Kept c s1 =
        remove-Kept c is_crypto (seeds ∷ access ∷ kinds ∷ []) s (k.id_text id) h in
      let removed : (t : Table) (name : Bytes)
          → get c s1 t name ≡ (
              if any_table (seeds ∷ access ∷ kinds ∷ []) t && (k.id_text id == name)
              then ok none
              else get c s t name) =
        get-remove c is_crypto (seeds ∷ access ∷ kinds ∷ []) s (k.id_text id) in
      let (l, e, lookup) = entries-get c is_crypto s1 downloads h1 in
      (
        forget_each c k (download_prefix c k id) s1 l,
        rw e refl,
        forget_each-Kept (download_prefix c k id) l s1 h1,
        λ t name.
            let gone = k.id_text id == name in
            let shares = any_table (seeds ∷ access ∷ kinds ∷ []) t in
            get-forget_each (download_prefix c k id) l s1 t name
            ∙ ap₂ (λ o x. if of_download (download_prefix c k id) t name o then ok none else x)
                (sym (ap found (lookup name)) ∙ ap found (removed downloads name)) (removed t name)
            ∙ either (ok none) (get c s t name)
                (of_download (download_prefix c k id) t name (found (get c s downloads name)))
                (shares && gone),
      )
