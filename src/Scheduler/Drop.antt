-- ===== src/Scheduler/Drop.antt =====
-- `drop_request` of scheduler.rs, and its loop over all the pieces.
use chorrent.Common.{
  ==_iff, ℕ, ◌+◌, ◌<◌, ◌≡◌, ◌≢◌, refl, Bool, true, false, Option, some, ◌==◌, if◌then◌else◌, ◌⊎◌,
  some_eq, List, [], ◌∷◌, Eq, inl, inr, arith, Bool-cases, length, get_elem?, set, nat_beq, ap, sym,
  ◌∙◌, contains, length-set, get_elem?_in_range, lt-length_of_get_elem?, get_elem?-set,
  get_elem?-set_ne, nat_beq_iff, get_elem?-set_self,
}
use mathlib.Core.Path.{subst}
use chorrent.Scheduler.{Piece, Scheduler, drop_request, put_back, retain_others}
use chorrent.Scheduler.Counts.{is_missing_weight, is_done_weight, total-set, set-IsPlayhead}
use chorrent.Scheduler.Requests.{
  IsRequested, IsConsistent, Requests-set, retain_others-IsRequested, contains-retain_others,
}

module _ {K : Type 0} ⦃e : Eq K⦄ where
  -- A piece that is not done becomes another one that is not done.
  pub set-IsConsistent :
      (peers : List (K × List Bool)) (s : Scheduler K) (i m : ℕ) (p q : Piece K)
      → get_elem? s.pieces i ≡ some p
      → is_done_weight p ≡ 0
      → is_done_weight q ≡ 0
      → m + is_missing_weight p ≡ s.missing + is_missing_weight q
      → ((by : List K) → q ≡ Piece.in_flight by → IsRequested peers by)
      → IsConsistent peers s
      → IsConsistent peers (record s { pieces = set s.pieces i q; missing = m })
  set-IsConsistent peers s i m p q h np nq count fits c = record {
    missing_counted = omega (arith, total-set is_missing_weight s.pieces i q h, c.missing_counted);
    done_counted = omega (arith, total-set is_done_weight s.pieces i q h, c.done_counted);
    at_playhead =
        set-IsPlayhead s.pieces i q (lt-length_of_get_elem? s.pieces i h) (ground arith)
          c.at_playhead;
    requests =
        Requests-set peers s.pieces i q (lt-length_of_get_elem? s.pieces i h) fits c.requests;
  }

  abbrev pub Unasked : K → Option (Piece K) → Type 0
  Unasked k p = (by : List K) → p ≡ some (Piece.in_flight by) → contains by k ≡ false

  -- What becomes of a piece when `k` goes: a request list loses `k`, and a piece that nobody else was
  -- asked for is missing again.
  abbrev pub Released : K → Piece K → Piece K → Type 0
  Released k (Piece.in_flight by) q =
      ((q ≡ Piece.missing) × ((j : K) → contains by j ≡ true → k ≡ j))
      ⊎ ((left : List K) × (q ≡ Piece.in_flight left)
          × (0 < length left)
          × ((j : K) → contains left j ≡ (if k == j then false else contains by j)))
  Released k Piece.missing q = q ≡ Piece.missing
  Released k Piece.done q = q ≡ Piece.done

  pub Released-same :
      (peers : List (K × List Bool)) (k : K) (s : Scheduler K) (i : ℕ) (p : Piece K)
      → IsConsistent peers s
      → get_elem? s.pieces i ≡ some p
      → Unasked k (some p)
      → Released k p p
  Released-same peers k s i Piece.missing c h free = refl
  Released-same peers k s i Piece.done c h free = refl
  Released-same peers k s i (Piece.in_flight by) c h free =
      inr (by, refl, (c.requests i by h).nonempty, λ j. ground (arith, free by refl, ==_iff k j))

  pub Released-trans : (k : K) (p q r : Piece K) → Released k p q → Released k q r → Released k p r
  Released-trans k Piece.missing q r e h = subst (λ x. Released k x r) e h
  Released-trans k Piece.done q r e h = subst (λ x. Released k x r) e h
  Released-trans k (Piece.in_flight by) q r (inl (e, only)) h =
      inl (subst (λ x. Released k x r) e h, only)
  Released-trans k (Piece.in_flight by) q r (inr (left, e, some_left, same)) h =
      elim (subst (λ x. Released k x r) e h) [
        | inl (gone, only) ↦ absurd (nobody left some_left same only)
        | inr (left', e', some_left', same') ↦ inr (
          left',
          e',
          some_left',
          λ j.
              same' j
              ∙ ap (λ (b : Bool). if k == j then false else b) (same j)
              ∙ twice (k == j) (contains by j),
        )
      ]
    where
      twice :
          (b c : Bool) → (if b then false else (if b then false else c)) ≡ (if b then false else c)
      twice true c = refl
      twice false c = refl

      nobody :
          (left : List K)
          → 0 < length left
          → ((j : K) → contains left j ≡ (if k == j then false else contains by j))
          → ((j : K) → contains left j ≡ true → k ≡ j)
          → ⊥
      nobody [] some_left same only = omega arith
      nobody (x ∷ xs) some_left same only =
          let here : contains (x ∷ xs) x ≡ true = ground (arith, ==_iff x x) in
          let me : (k == x) ≡ true = (==_iff k x).1 (only x here) in
          cc (sym here ∙ same x, ap (λ (b : Bool). if b then false else contains by x) me)

  -- After `drop_request i k`: nothing else changes than piece `i`, which `k` is not asked for.
  pub record Drops (peers : List (K × List Bool)) (i : ℕ) (k : K) (s s' : Scheduler K)
      : Type 0 where
    pub consistent : IsConsistent peers s'
    pub same_length : length s'.pieces ≡ length s.pieces
    pub clear : Unasked k (get_elem? s'.pieces i)
    pub released :
        (p : Piece K)
        → get_elem? s.pieces i ≡ some p
        → (q : Piece K) × (get_elem? s'.pieces i ≡ some q) × Released k p q
    pub others : (j : ℕ) → i ≢ j → get_elem? s'.pieces j ≡ get_elem? s.pieces j
    pub kept_done :
        (j : ℕ) → get_elem? s.pieces j ≡ some Piece.done → get_elem? s'.pieces j ≡ some Piece.done
    pub no_new_done :
        (j : ℕ) → get_elem? s'.pieces j ≡ some Piece.done → get_elem? s.pieces j ≡ some Piece.done
    pub same_availability : s'.availability ≡ s.availability
    pub same_peers : s'.peers ≡ s.peers

  module _ (peers : List (K × List Bool)) (i : ℕ) (k : K) (s : Scheduler K)
      (c : IsConsistent peers s) where
    set_keeps_done :
        (q : Piece K) (j : ℕ) {by : List K}
        → get_elem? s.pieces j ≡ some Piece.done
        → get_elem? s.pieces i ≡ some (Piece.in_flight by)
        → get_elem? (set s.pieces i q) j ≡ some Piece.done
    set_keeps_done q j fixed h = elim (Bool-cases (nat_beq i j)) [
      | inl same ↦ absurd (cc (fixed, h, ap (get_elem? s.pieces) ((nat_beq_iff i j).0 same)))
      | inr other ↦
          ground (arith, get_elem?-set s.pieces i j q (lt-length_of_get_elem? s.pieces i h))
    ]

    set_adds_no_done :
        (q : Piece K) (j : ℕ) {by : List K}
        → some q ≢ some Piece.done
        → get_elem? (set s.pieces i q) j ≡ some Piece.done
        → get_elem? s.pieces i ≡ some (Piece.in_flight by)
        → get_elem? s.pieces j ≡ some Piece.done
    set_adds_no_done q j undone fixed h = elim (Bool-cases (nat_beq i j)) [
      | inl same ↦ absurd (
          undone (
            sym (get_elem?-set_self s.pieces i q (lt-length_of_get_elem? s.pieces i h))
            ∙ ap (get_elem? (set s.pieces i q)) ((nat_beq_iff i j).0 same)
            ∙ fixed))
      | inr other ↦ sym (get_elem?-set_ne s.pieces i j q (ground arith)) ∙ fixed
    ]

    put_back-Drops :
        (by left : List K)
        → get_elem? s.pieces i ≡ some (Piece.in_flight by)
        → retain_others k by ≡ left
        → Drops peers i k s (put_back i left s)
    put_back-Drops by [] h kept = record {
      consistent =
          set-IsConsistent peers s i _ (Piece.in_flight by) Piece.missing h refl refl (omega arith)
            (λ by' q. cc) c;
      same_length = length-set s.pieces i _;
      clear = λ by' q.
          cc (get_elem?-set_self s.pieces i Piece.missing (lt-length_of_get_elem? s.pieces i h));
      released = λ p at. (
        Piece.missing,
        get_elem?-set_self s.pieces i Piece.missing (lt-length_of_get_elem? s.pieces i h),
        subst (λ x. Released k x Piece.missing) (some_eq (sym h ∙ at))
            (inl (
              refl,
              λ j held. (==_iff k j).0 (
                  ground (arith, contains-retain_others k j by, ap (λ l. contains l j) kept, held)),
            )),
      );
      others = λ j ne. get_elem?-set_ne s.pieces i j _ ne;
      kept_done = λ j fixed. set_keeps_done _ j fixed h;
      no_new_done = λ j fixed. set_adds_no_done _ j (λ q. cc) fixed h;
      same_availability = refl;
      same_peers = refl;
    }
    put_back-Drops by (p ∷ ps) h kept = record {
      consistent =
          set-IsConsistent peers s i _ (Piece.in_flight by) (Piece.in_flight (p ∷ ps)) h refl refl
            refl
            (λ by' q.
              retain_others-IsRequested peers k by by' (ground arith) (ground arith)
                (c.requests i by h))
            c;
      same_length = length-set s.pieces i _;
      clear = λ by' q. ground (
        arith,
        get_elem?-set_self s.pieces i (Piece.in_flight (p ∷ ps))
            (lt-length_of_get_elem? s.pieces i h),
        contains-retain_others k k by,
        ==_iff k k,
      );
      released = λ x at. (
        Piece.in_flight (p ∷ ps),
        get_elem?-set_self s.pieces i (Piece.in_flight (p ∷ ps))
            (lt-length_of_get_elem? s.pieces i h),
        subst (λ x. Released k x (Piece.in_flight (p ∷ ps))) (some_eq (sym h ∙ at))
            (inr (
              p ∷ ps,
              refl,
              omega arith,
              λ j. ap (λ l. contains l j) (sym kept) ∙ contains-retain_others k j by,
            )),
      );
      others = λ j ne. get_elem?-set_ne s.pieces i j _ ne;
      kept_done = λ j fixed. set_keeps_done _ j fixed h;
      no_new_done = λ j fixed. set_adds_no_done _ j (λ q. cc) fixed h;
      same_availability = refl;
      same_peers = refl;
    }

    unchanged-Drops : Unasked k (get_elem? s.pieces i) → Drops peers i k s s
    unchanged-Drops h = record {
      consistent = c;
      same_length = refl;
      clear = h;
      released = λ p at. (p, at, Released-same peers k s i p c at (subst (Unasked k) at h));
      others = λ j ne. refl;
      kept_done = λ j fixed. fixed;
      no_new_done = λ j fixed. fixed;
      same_availability = refl;
      same_peers = refl;
    }

    pub drop_request-Drops :
        i < length s.pieces
        → (s' : Scheduler K) × (drop_request i k s ≡ some s') × Drops peers i k s s'
    unfolding drop_request
    drop_request-Drops lt = let (p, h) = get_elem?_in_range s.pieces i lt in by_piece p h
      where
        by_piece :
            (p : Piece K)
            → get_elem? s.pieces i ≡ some p
            → (s' : Scheduler K) × (drop_request i k s ≡ some s') × Drops peers i k s s'
        by_piece Piece.missing h = (s, rw (h, drop_request), unchanged-Drops (λ by q. cc))
        by_piece Piece.done h = (s, rw (h, drop_request), unchanged-Drops (λ by q. cc))
        by_piece (Piece.in_flight by) h = (
          put_back i (retain_others k by) s,
          rw (h, drop_request),
          put_back-Drops by (retain_others k by) h refl,
        )
