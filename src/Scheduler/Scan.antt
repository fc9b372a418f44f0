-- ===== src/Scheduler/Scan.antt =====
-- The loops of `pick` in scheduler.rs against reference searches.
use chorrent.Common.{
  ℕ, zero, suc, ◌+◌, ◌≤◌, ◌<◌, ◌≡◌, refl, Bool, true, false, Option, none, some, List, [], ◌∷◌, Eq,
  inl, inr, arith, Bool-cases, length, get_elem?, get_or, nat_beq, if◌then◌else◌, contains,
  get_elem?_in_range, nat_beq_iff, ◌&&◌, ◌||◌, ◌++◌, get_elem?-get_or, range, ltb, leb, nat_eq, ap,
}
use chorrent.Scheduler.{Piece, Scheduler, is_missing_piece}
use chorrent.Scheduler.Pick.{
  wanted, find_wanted, rarest, rarest_sample, offer, least_asked, spare, better, consider,
}
use chorrent.Scheduler.Least.{least_of, Ascends}

-- Every index of a list is below `n`.
abbrev pub Below : ℕ → List ℕ → Type 0
Below n [] = Unit
Below n (i ∷ is) = (i < n) × Below n is

pub Below-range : (a m n : ℕ) → a + m ≤ n → Below n (range a m)
Below-range a zero n h = tt
Below-range a (suc m) n h = (omega arith, Below-range (suc a) m n (omega arith))

pub Below-append : (n : ℕ) (is js : List ℕ) → Below n is → Below n js → Below n (is ++ js)
Below-append n [] js h k = k
Below-append n (i ∷ is) js h k = (h.0, Below-append n is js h.1 k)

-- The first `k` members of a list that pass a test.
pub sample : (ℕ → Bool) → ℕ → List ℕ → List ℕ
sample p k [] = []
sample p zero (i ∷ is) = []
sample p (suc k) (i ∷ is) = if p i then i ∷ sample p k is else sample p (suc k) is

-- The result of a search over the `n` indices from `a`.
abbrev pub FirstIn : (ℕ → Bool) → ℕ → ℕ → Option ℕ → Type 0
FirstIn p a n none = (j : ℕ) → a ≤ j → j < a + n → p j ≡ false
FirstIn p a n (some i) =
    (a ≤ i) × (i < a + n) × (p i ≡ true) × ((j : ℕ) → a ≤ j → j < i → p j ≡ false)

module _ {K : Type 0} where
  abbrev pub missing_at : List (Piece K) → ℕ → Bool
  missing_at ps i = elim (get_elem? ps i) [ none ↦ false | some p ↦ is_missing_piece p ]

  -- The peer holds piece `i`, which nobody was asked for.
  abbrev pub wants : Scheduler K → List Bool → ℕ → Bool
  wants s bits i = get_or bits i false && missing_at s.pieces i

  -- How many peers hold piece `i`, as an offer.
  abbrev pub scarcity : Scheduler K → ℕ → Option (ℕ × ℕ)
  scarcity s i = some (i, get_or s.availability i 0)

  module _ (s : Scheduler K) (bits : List Bool) (fits : length bits ≡ length s.pieces) where
    pub wanted-wants : (i : ℕ) → i < length s.pieces → wanted s bits i ≡ some (wants s bits i)
    unfolding wanted
    wanted-wants i lt =
        let (p, h) = get_elem?_in_range s.pieces i lt in
        rw (h, get_elem?-get_or bits i false (omega arith)) (ground arith)

    pub find_wanted-range :
        (n a : ℕ)
        → a + n ≤ length s.pieces
        → (r : Option ℕ) × (find_wanted s bits (range a n) ≡ some r) × FirstIn (wants s bits) a n r
    unfolding find_wanted
    find_wanted-range zero a h = (none, refl, λ j le lt. absurd (omega arith))
    find_wanted-range (suc n) a h = elim (Bool-cases (wants s bits a)) [
      | inl yes_here ↦ (
        some a,
        rw (wanted-wants a (omega arith), yes_here, find_wanted),
        (omega arith, omega arith, yes_here, λ j le lt. absurd (omega arith)),
      )
      | inr not_here ↦
          let (r, e, f) = find_wanted-range n (suc a) (omega arith) in
          (r, rw (wanted-wants a (omega arith), not_here, find_wanted) e, later r not_here f)
    ]
      where
        later :
            (r : Option ℕ)
            → wants s bits a ≡ false
            → FirstIn (wants s bits) (suc a) n r
            → FirstIn (wants s bits) a (suc n) r
        later none no_a f = λ j le lt. elim (Bool-cases (nat_beq a j)) [
          | inl same ↦ rw (← (nat_beq_iff a j).0 same) no_a
          | inr other ↦ f j (ground arith) (omega arith)
        ]
        later (some i) no_a f = (
          omega arith,
          omega arith,
          f.2,
          λ j le lt. elim (Bool-cases (nat_beq a j)) [
            | inl same ↦ rw (← (nat_beq_iff a j).0 same) no_a
            | inr other ↦ f.3 j (ground arith) lt
          ],
        )

    module _ (counted : length s.availability ≡ length s.pieces)
        (held : (i : ℕ) → wants s bits i ≡ true → 0 < get_or s.availability i 0) where
      -- Nothing is scarcer than a piece with one holder, so that the loop may stop there.
      one_holder_stays :
          (k : ℕ) (is : List ℕ) (j m : ℕ)
          → m ≤ 1
          → least_of (scarcity s) (sample (wants s bits) k is) (some (j, m)) ≡ some (j, m)
      unfolding sample least_of
      one_holder_stays k [] j m h = refl
      one_holder_stays zero (i ∷ is) j m h = refl
      one_holder_stays (suc k) (i ∷ is) j m h =
          ground (arith, held i, one_holder_stays k is j m h, one_holder_stays (suc k) is j m h)

      better_one_holder_stays :
          (k : ℕ) (is : List ℕ) (i n : ℕ) (best : Option (ℕ × ℕ))
          → n ≤ 1
          → least_of (scarcity s) (sample (wants s bits) k is) (better (i, n) best)
            ≡ better (i, n) best
      better_one_holder_stays k is i n none h = one_holder_stays k is i n h
      better_one_holder_stays k is i n (some (j, m)) h = elim (Bool-cases (ltb n m)) [
        | inl less ↦ rw less (one_holder_stays k is i n h)
        | inr more ↦ rw more (one_holder_stays k is j m (ground arith))
      ]

      sample_none : (p : ℕ → Bool) (is : List ℕ) → sample p 0 is ≡ []
      unfolding sample
      sample_none p [] = refl
      sample_none p (i ∷ is) = refl

      -- The loop of step 2, with its two ways out, finds the least of the first candidates.
      pub rarest-least_of :
          (is : List ℕ) (seen k : ℕ) (best : Option (ℕ × ℕ))
          → seen + suc k ≡ rarest_sample
          → Below (length s.pieces) is
          → rarest s bits is seen best
            ≡ some (least_of (scarcity s) (sample (wants s bits) (suc k) is) best)
      unfolding rarest sample least_of
      rarest-least_of [] seen k best h b = refl
      rarest-least_of (i ∷ is) seen k best h b = elim (Bool-cases (wants s bits i)) [
        | inr skip ↦ rw (wanted-wants i b.0, skip, rarest) (rarest-least_of is seen k best h b.1)
        | inl take ↦
            rw
              (
                wanted-wants i b.0,
                rarest,
                take,
                get_elem?-get_or s.availability i 0 (omega (arith, counted, b.0)),
              )
              (by_stop k h (λ k' h'. rarest-least_of is (seen + 1) k' best' h' b.1))
      ]
        where
          best' : Option (ℕ × ℕ)
          best' = better (i, get_or s.availability i 0) best

          by_stop :
              (k : ℕ)
              → seen + suc k ≡ rarest_sample
              → ((k' : ℕ)
                  → seen + 1 + suc k' ≡ rarest_sample
                  → rarest s bits is (seen + 1) best'
                    ≡ some (least_of (scarcity s) (sample (wants s bits) (suc k') is) best'))
              → (if leb rarest_sample (seen + 1) || leb (get_or s.availability i 0) 1
                  then some best'
                  else rarest s bits is (seen + 1) best')
                ≡ some (least_of (scarcity s) (sample (wants s bits) k is) best')
          by_stop zero h rec = rw sample_none (ground arith)
          by_stop (suc k) h rec = elim (Bool-cases (leb (get_or s.availability i 0) 1)) [
            | inl one ↦ ground (
              arith,
              better_one_holder_stays (suc k) is i (get_or s.availability i 0) best (ground arith),
            )
            | inr more ↦ ground (arith, rec k (omega arith))
          ]

-- What the reference search of step 2 looks at.
pub contains-append :
    (is js : List ℕ) (j : ℕ) → contains (is ++ js) j ≡ (contains is j || contains js j)
contains-append [] js j = refl
contains-append (i ∷ is) js j = ground (arith, contains-append is js j)

pub contains-range : (n a j : ℕ) → a ≤ j → j < a + n → contains (range a n) j ≡ true
contains-range zero a j h k = absurd (omega arith)
contains-range (suc n) a j h k = ground (arith, contains-range n (suc a) j, nat_beq_iff a j)

pub contains-sample :
    (p : ℕ → Bool) (k : ℕ) (is : List ℕ) (j : ℕ) → contains (sample p k is) j ≡ true → p j ≡ true
unfolding sample
contains-sample p k [] j h = cc
contains-sample p zero (i ∷ is) j h = cc
contains-sample p (suc k) (i ∷ is) j h =
    ground (arith, contains-sample p k is j, contains-sample p (suc k) is j, nat_beq_iff i j)

-- A candidate anywhere in the list gives the sample a member.
pub sample_nonempty :
    (p : ℕ → Bool) (k : ℕ) (is : List ℕ) (j : ℕ)
    → contains is j ≡ true
    → p j ≡ true
    → (i : ℕ) × (contains (sample p (suc k) is) i ≡ true)
unfolding sample
sample_nonempty p k [] j h pj = cc
sample_nonempty p k (i ∷ is) j h pj = elim (Bool-cases (p i)) [
  | inl passes ↦ (i, ground (arith, nat_beq_iff i i))
  | inr fails ↦
      let (x, held) = sample_nonempty p k is j (ground (arith, nat_beq_iff i j)) pj in
      (x, ground arith)
]

Ascends-weaken : (a b : ℕ) (is : List ℕ) → a ≤ b → Ascends b is → Ascends a is
Ascends-weaken a b [] le h = tt
Ascends-weaken a b (i ∷ is) le (ge, up) = (omega arith, up)

pub range-Ascends : (n a : ℕ) → Ascends a (range a n)
range-Ascends zero a = tt
range-Ascends (suc n) a = (omega arith, range-Ascends n (suc a))

pub sample-Ascends :
    (p : ℕ → Bool) (k : ℕ) (is : List ℕ) (a : ℕ) → Ascends a is → Ascends a (sample p k is)
unfolding sample
sample-Ascends p k [] a h = tt
sample-Ascends p zero (i ∷ is) a h = tt
sample-Ascends p (suc k) (i ∷ is) a (le, up) = elim (Bool-cases (p i)) [
  | inl take ↦ rw take (le, sample-Ascends p k is (suc i) up)
  | inr skip ↦ rw skip (
      Ascends-weaken a (suc i) (sample p (suc k) is) (omega arith)
        (sample-Ascends p (suc k) is (suc i) up))
]

sample_nobody :
    (p : ℕ → Bool) (k : ℕ) (is : List ℕ)
    → ((j : ℕ) → contains is j ≡ true → p j ≡ false)
    → sample p k is ≡ []
unfolding sample
sample_nobody p k [] h = refl
sample_nobody p zero (i ∷ is) h = refl
sample_nobody p (suc k) (i ∷ is) h =
    rw (h i (ground (arith, nat_beq_iff i i)))
      (sample_nobody p (suc k) is (λ j held. h j (ground arith)))

-- What passes no test adds nothing to a sample.
pub sample-append :
    (p : ℕ → Bool) (k : ℕ) (is js : List ℕ)
    → ((j : ℕ) → contains js j ≡ true → p j ≡ false)
    → sample p k (is ++ js) ≡ sample p k is
unfolding sample
sample-append p k [] js h = sample_nobody p k js h
sample-append p zero (i ∷ is) js h = refl
sample-append p (suc k) (i ∷ is) js h = elim (Bool-cases (p i)) [
  | inl take ↦ rw take (ap (◌∷◌ i) (sample-append p k is js h))
  | inr skip ↦ rw skip (sample-append p (suc k) is js h)
]

pub range_below : (n a j : ℕ) → contains (range a n) j ≡ true → j < a + n
range_below zero a j h = cc
range_below (suc n) a j h = elim (Bool-cases (nat_beq a j)) [
  | inl same ↦ omega (arith, (nat_beq_iff a j).0 same)
  | inr other ↦ omega (arith, range_below n (suc a) j (ground arith))
]

module _ {K : Type 0} ⦃e : Eq K⦄ where
  -- The offer that piece `i` makes in the endgame.
  abbrev pub asks : Scheduler K → List Bool → K → ℕ → Option (ℕ × ℕ)
  asks s bits k i =
      if get_or bits i false
      then elim (get_elem? s.pieces i) [ none ↦ none | some p ↦ spare k i p ]
      else none

  module _ (s : Scheduler K) (bits : List Bool) (fits : length bits ≡ length s.pieces) (k : K) where
    offer-asks : (i : ℕ) → i < length s.pieces → offer s bits k i ≡ some (asks s bits k i)
    unfolding offer
    offer-asks i lt =
        let (p, h) = get_elem?_in_range s.pieces i lt in
        elim (Bool-cases (get_or bits i false)) [
          | inl yes_here ↦ rw (h, get_elem?-get_or bits i false (omega arith), yes_here)
          | inr not_here ↦ rw (h, get_elem?-get_or bits i false (omega arith), not_here)
        ]

    -- The search of step 3.
    pub least_asked-least_of :
        (is : List ℕ) (best : Option (ℕ × ℕ))
        → Below (length s.pieces) is
        → least_asked s bits k is best ≡ some (least_of (asks s bits k) is best)
    unfolding least_asked least_of
    least_asked-least_of [] best b = refl
    least_asked-least_of (i ∷ is) best b =
        rw (offer-asks i b.0, least_asked)
          (least_asked-least_of is (consider (asks s bits k i) best) b.1)
