-- ===== src/Store/Reopened.antt =====
-- What holds of a database of store.rs (crates/chorrent/src) that was opened with a storage key.
use chorrent.Common.{
  ℕ, ◌≡◌, ◌≢◌, refl, ◌∙◌, sym, ap, Bool, true, false, not, ◌⊎◌, Option, none, some, inl, inr,
  Bool-cases, ◌==◌, ==_iff, nat_eq, list_eq, list_beq, if◌then◌else◌, Result, ok, err,
}
use mathlib.Core.Path.{subst}
use chorrent.Common.HashMap
use chorrent.Common.Results.{fail_if, bind_ok}
use chorrent.Store.{
  Bytes, meta, StoreError, different_key, needs_key, has_plain_records, newer_format, Crypto,
  Tables, Store, raw_get, raw_put, new_sealer,
}
use chorrent.Store.Format.{
  format, sealed_v1, fingerprint, has_records, fingerprint_of, differs, check_marker, check_format,
  open_store,
}

-- The marker of the format is only written after the fingerprint.
abbrev pub IsMarked : Tables → Type 0
IsMarked tables =
    raw_get (record { tables = tables; sealer = none }) meta format ≡ some sealed_v1
    → (saved : Bytes) × (raw_get (record { tables = tables; sealer = none }) meta fingerprint
        ≡ some saved)

true_ne_false : true ≢ false
true_ne_false = λ e. cc

from_ok : {s s' : Store} → ◌≡◌ {A = Result StoreError Store} (ok s) (ok s') → s ≡ s'
from_ok {s} h = ap store h
  where
    store : Result StoreError Store → Store
    store (ok x) = x
    store (err e) = s

unfilled :
    (b : Bool) (new s : Store) → (if b then err has_plain_records else ok new) ≡ ok s → new ≡ s
unfilled true new s h = cc
unfilled false new s h = from_ok h

is_sealed :
    (b : Bool) (st s : Store)
    → (if b then ok st else err newer_format) ≡ ok s
    → (b ≡ true) × (st ≡ s)
is_sealed true st s h = (refl, from_ok h)
is_sealed false st s h = cc

distinct : (a b : Bytes) → a ≢ b → (a == b) ≡ false
distinct a b ne = elim (Bool-cases (a == b)) [
  | inl same ↦ absurd (ne ((==_iff a b).0 same))
  | inr other ↦ other
]

module _ (c : Crypto) where
  -- A database sealed with this key.
  pub record IsSealedBy (key : Bytes) (s : Store) : Type 0 where
    pub marker : raw_get s meta format ≡ some sealed_v1
    pub saved : raw_get s meta fingerprint ≡ some (fingerprint_of c key)
    pub sealer : s.sealer ≡ some (new_sealer c key)

  fresh-IsSealedBy :
      (tables : Tables) (key : Bytes)
      → IsSealedBy key (
          raw_put
            (raw_put
              (record { tables = tables; sealer = some (new_sealer c key) })
              meta
              fingerprint
              (fingerprint_of c key))
            meta
            format
            sealed_v1)
  unfolding raw_put raw_get list_beq
  fresh-IsSealedBy tables key = record {
    marker = HashMap.get-insert format format sealed_v1 _;
    saved =
        HashMap.get-insert format fingerprint sealed_v1 _
        ∙ HashMap.get-insert fingerprint fingerprint (fingerprint_of c key) (tables meta);
    sealer = refl;
  }

  passed : (b : Bool) (e : StoreError) (u : Unit {0}) → fail_if b e ≡ ok u → b ≡ false
  passed true e u h = cc
  passed false e u h = refl

  same_fingerprint :
      (o : Option Bytes) (saved now : Bytes)
      → o ≡ some saved
      → differs c o now ≡ false
      → o ≡ some now
  same_fingerprint o saved now e h = elim (Bool-cases (saved == now)) [
    | inl same ↦ e ∙ ap some ((==_iff saved now).0 same)
    | inr other ↦
        absurd (true_ne_false (sym (ap not other) ∙ sym (ap (λ x. differs c x now) e) ∙ h))
  ]

  -- The marker was there, or it has just been written.
  check_marker_ok :
      (st : Store) (key : Bytes) (o : Option Bytes) (s : Store)
      → check_marker c st key o ≡ ok s
      → ((o ≡ some sealed_v1) × (st ≡ s))
        ⊎ ((o ≡ none)
            × (raw_put (raw_put st meta fingerprint (fingerprint_of c key)) meta format sealed_v1
                ≡ s))
  check_marker_ok st key none s h = inr (refl, unfilled (has_records st) _ s h)
  check_marker_ok st key (some marker) s h =
      let (same, kept) = is_sealed (marker == sealed_v1) st s h in
      inl (ap some ((==_iff marker sealed_v1).0 same), kept)

  open_store-IsSealedBy :
      (tables : Tables) (key : Bytes) (s : Store)
      → IsMarked tables
      → open_store c tables (some key) ≡ ok s
      → IsSealedBy key s
  unfolding open_store check_format
  open_store-IsSealedBy tables key s marked h =
      let st : Store = record { tables = tables; sealer = some (new_sealer c key) } in
      let (u, before, after) =
        bind_ok
          (fail_if (differs c (raw_get st meta fingerprint) (fingerprint_of c key)) different_key) _
          h in
      let same = passed _ different_key u before in
      elim (check_marker_ok st key (raw_get st meta format) s after) [
        | inl (sealed, kept) ↦
            let (saved, has) = marked sealed in
            subst (IsSealedBy key) kept (record {
              marker = sealed;
              saved =
                  same_fingerprint (raw_get st meta fingerprint) saved (fingerprint_of c key) has
                    same;
              sealer = refl;
            })
        | inr (new, made) ↦ subst (IsSealedBy key) made (fresh-IsSealedBy tables key)
      ]

  -- If a database, in which the format is marked only beside a fingerprint, was opened with a
  -- storage key, it opens with that key again and is unchanged. A key with another fingerprint
  -- and no key at all are refused.
  pub open_store-again :
      (tables : Tables) (key : Bytes) (s : Store)
      → IsMarked tables
      → open_store c tables (some key) ≡ ok s
      → (open_store c s.tables (some key) ≡ ok s)
        × ((other : Bytes)
            → fingerprint_of c key ≢ fingerprint_of c other
            → open_store c s.tables (some other) ≡ err different_key)
        × (open_store c s.tables none ≡ err needs_key)
  unfolding open_store check_format raw_get
  open_store-again tables key s marked h =
      let i = open_store-IsSealedBy tables key s marked h in
      let marker : HashMap.get format (s.tables meta) ≡ some sealed_v1 = i.marker in
      let saved : HashMap.get fingerprint (s.tables meta) ≡ some (fingerprint_of c key) = i.saved in
      let same : (fingerprint_of c key == fingerprint_of c key) ≡ true =
        (list_eq {A = ℕ}).same_reflexive (fingerprint_of c key) in
      (
        rw (saved, same, marker, (list_eq {A = ℕ}).same_reflexive sealed_v1)
            (ap (λ x. ok (record s { sealer = x })) (sym i.sealer)),
        (λ other ne.
            let differ : (fingerprint_of c key == fingerprint_of c other) ≡ false =
              distinct (fingerprint_of c key) (fingerprint_of c other) ne in
            rw (saved, differ) refl),
        rw (marker) refl,
      )
