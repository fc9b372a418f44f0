-- ===== src/Scheduler/Least.antt =====
-- The first candidate with the least number, over a list of indices: the reference for the two
-- searches of `pick` in scheduler.rs.
use chorrent.Common.{
  ℕ, suc, ◌≤◌, ◌<◌, ◌≡◌, refl, true, false, Option, none, some, List, [], ◌∷◌, ◌∙◌, inl, inr, arith,
  Bool-cases, nat_beq, contains, nat_beq_iff, ◌⊎◌, ltb, nat_eq,
}
use mathlib.Core.Path.{subst}
use chorrent.Scheduler.Pick.{consider}

-- The candidates are the indices for which `o` makes an offer.
unfoldable pub least_of : (ℕ → Option (ℕ × ℕ)) → List ℕ → Option (ℕ × ℕ) → Option (ℕ × ℕ)
least_of o [] best = best
least_of o (i ∷ is) best = least_of o is (consider (o i) best)

-- No offer is below the result.
abbrev pub AtMost : Option (ℕ × ℕ) → Option (ℕ × ℕ) → Type 0
AtMost r none = Unit
AtMost none (some c) = ⊥
AtMost (some (i, n)) (some (j, m)) = n ≤ m

pub AtMost-trans : (a b c : Option (ℕ × ℕ)) → AtMost a b → AtMost b c → AtMost a c
AtMost-trans a b none h k = tt
AtMost-trans a none (some c) h k = absurd k
AtMost-trans none (some b) (some c) h k = absurd h
AtMost-trans (some a) (some b) (some c) h k = omega arith

AtMost-refl : (a : Option (ℕ × ℕ)) → AtMost a a
AtMost-refl none = tt
AtMost-refl (some a) = omega arith

consider-AtMost :
    (o best : Option (ℕ × ℕ)) → AtMost (consider o best) o × AtMost (consider o best) best
consider-AtMost none best = (tt, AtMost-refl best)
consider-AtMost (some (i, n)) none = (omega arith, tt)
consider-AtMost (some (i, n)) (some (j, m)) = ground arith

-- The result is at most every offer, and at most what the search started from.
pub least_of-AtMost :
    (o : ℕ → Option (ℕ × ℕ)) (is : List ℕ) (best : Option (ℕ × ℕ))
    → AtMost (least_of o is best) best
      × ((j : ℕ) → contains is j ≡ true → AtMost (least_of o is best) (o j))
unfolding least_of
least_of-AtMost o [] best = (AtMost-refl best, λ j h. cc)
least_of-AtMost o (i ∷ is) best =
    let rest = least_of-AtMost o is (consider (o i) best) in
    let here = consider-AtMost (o i) best in
    (
      AtMost-trans _ (consider (o i) best) best rest.0 here.1,
      λ j h. elim (Bool-cases (nat_beq i j)) [
        | inl same ↦
            rw (← (nat_beq_iff i j).0 same)
              (AtMost-trans _ (consider (o i) best) (o i) rest.0 here.0)
        | inr other ↦ rest.1 j (ground arith)
      ],
    )

-- Numbers from `a` on, in increasing order.
abbrev pub Ascends : ℕ → List ℕ → Type 0
Ascends a [] = Unit
Ascends a (i ∷ is) = (a ≤ i) × Ascends (suc i) is

-- The result has less than an offer that comes before it.
abbrev pub Beats : Option (ℕ × ℕ) → Option (ℕ × ℕ) → Type 0
Beats r none = Unit
Beats none (some c) = Unit
Beats (some (i, n)) (some (j, m)) = j < i → n < m

Beats-refl : (a : Option (ℕ × ℕ)) → Beats a a
Beats-refl none = tt
Beats-refl (some a) = λ h. omega arith

abbrev pub IsBefore : ℕ → Option (ℕ × ℕ) → Type 0
IsBefore a none = Unit
IsBefore a (some (b, m)) = b < a

consider-IsBefore :
    (p best : Option (ℕ × ℕ)) (a i : ℕ)
    → a ≤ i
    → IsBefore (suc i) p
    → IsBefore a best
    → IsBefore (suc i) (consider p best)
consider-IsBefore none none a i le h before = tt
consider-IsBefore none (some b) a i le h before = omega arith
consider-IsBefore (some c) none a i le h before = h
consider-IsBefore (some (j, n)) (some (b, m)) a i le h before = ground arith

consider-Beats :
    (p best r : Option (ℕ × ℕ)) (i : ℕ)
    → ((c : ℕ × ℕ) → p ≡ some c → i ≡ c.0)
    → IsBefore i best
    → AtMost r (consider p best)
    → Beats r (consider p best)
    → Beats r best × Beats r p
consider-Beats none best r i named before least h = (h, tt)
consider-Beats (some (j, n)) none r i named before least h = (tt, h)
consider-Beats (some (j, n)) (some (b, m)) none i named before least h = (tt, tt)
consider-Beats (some (j, n)) (some (b, m)) (some (r, x)) i named before least h =
    let same : i ≡ j = named (j, n) refl in
    elim (Bool-cases (ltb n m)) [
      | inl less ↦
          let least' : x ≤ n = rw less at least in
          let h' : j < r → x < n = rw less at h in ((λ lt. ground (arith, less, least')), h')
      | inr more ↦
          let least' : x ≤ m = rw more at least in
          let h' : b < r → x < m = rw more at h in
          (h', λ lt. omega (arith, h' (omega (arith, before, same, lt)), not_less n m more))
    ]
  where
    not_less : (n m : ℕ) → ltb n m ≡ false → m ≤ n
    not_less n m h = ground (arith, h)

-- Of the offers with the least number, the first is the result.
pub least_of-Beats :
    (o : ℕ → Option (ℕ × ℕ))
    → ((j : ℕ) (c : ℕ × ℕ) → o j ≡ some c → j ≡ c.0)
    → (is : List ℕ) (best : Option (ℕ × ℕ)) (a : ℕ) → Ascends a is
    → IsBefore a best
    → Beats (least_of o is best) best
      × ((j : ℕ) → contains is j ≡ true → Beats (least_of o is best) (o j))
unfolding least_of
least_of-Beats o named [] best a up before = (Beats-refl best, λ j h. cc)
least_of-Beats o named (i ∷ is) best a (le, up) before =
    let rest =
      least_of-Beats o named is (consider (o i) best) (suc i) up
        (consider-IsBefore (o i) best a i le (here (o i) refl) before) in
    let both =
      consider-Beats (o i) best (least_of o is (consider (o i) best)) i (named i)
        (sooner best before) (least_of-AtMost o is (consider (o i) best)).0 rest.0 in
    (
      both.0,
      λ j h. elim (Bool-cases (nat_beq i j)) [
        | inl same ↦
            subst (λ x. Beats (least_of o is (consider (o i) best)) (o x))
              ((nat_beq_iff i j).0 same) both.1
        | inr other ↦ rest.1 j (ground arith)
      ],
    )
  where
    here : (p : Option (ℕ × ℕ)) → o i ≡ p → IsBefore (suc i) p
    here none e = tt
    here (some c) e = omega (arith, named i c e)

    sooner : (b : Option (ℕ × ℕ)) → IsBefore a b → IsBefore i b
    sooner none h = tt
    sooner (some c) h = omega (arith, le, h)

-- Nothing but an offer, or what the search started from, is the result.
pub least_of-source :
    (o : ℕ → Option (ℕ × ℕ)) (is : List ℕ) (best : Option (ℕ × ℕ)) {c : ℕ × ℕ}
    → least_of o is best ≡ some c
    → (best ≡ some c) ⊎ ((j : ℕ) × (contains is j ≡ true) × (o j ≡ some c))
unfolding least_of
least_of-source o [] best h = inl h
least_of-source o (i ∷ is) best {c} h = elim (least_of-source o is (consider (o i) best) h) [
  | inr (j, held, offered) ↦ inr (j, ground arith, offered)
  | inl e ↦ from (o i) best e refl
]
  where
    from :
        (p b : Option (ℕ × ℕ))
        → consider p b ≡ some c
        → o i ≡ p
        → (b ≡ some c) ⊎ ((j : ℕ) × (contains (i ∷ is) j ≡ true) × (o j ≡ some c))
    from none b e eq = inl e
    from (some p) none e eq = inr (i, ground (arith, nat_beq_iff i i), eq ∙ e)
    from (some (p, n)) (some (q, m)) e eq = elim (Bool-cases (ltb n m)) [
      | inl less ↦ inr (i, ground (arith, nat_beq_iff i i), eq ∙ (rw less at e))
      | inr more ↦ inl (rw more at e)
    ]
