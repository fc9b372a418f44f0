-- ===== src/Scheduler/Chosen.antt =====
-- Which piece `pick` of scheduler.rs chooses.
use chorrent.Common.{
  ℕ, ◌+◌, ◌-◌, ◌≤◌, ◌<◌, ◌≡◌, refl, Bool, true, false, Option, none, some, List, ◌∙◌, Eq, inl, inr,
  arith, Bool-cases, length, get_elem?, get_or, nat_beq, sym, ap, contains, get_elem?_in_range,
  ◌>>=◌, get_elem?-eq-none, ◌&&◌, ◌++◌, range, min, ltb, nat_eq,
}
use mathlib.Core.Path.{subst}
use chorrent.Common.HashMap
use chorrent.Scheduler.{Piece, Scheduler}
use chorrent.Scheduler.Pick.{
  choose, rarest, rarest_first, endgame, rarest_sample, or_else, index_of,
}
use chorrent.Scheduler.Counts.{le-total, is_missing_weight}
use chorrent.Scheduler.Invariant.{Inv}
use chorrent.Scheduler.Remove.{bit_at-le-availability}
use chorrent.Scheduler.Least.{
  least_of, AtMost, Ascends, Beats, least_of-Beats, least_of-AtMost, least_of-source,
}
use chorrent.Scheduler.Scan.{
  wants, asks, FirstIn, scarcity, sample, Below-range, Below-append, find_wanted-range,
  rarest-least_of, least_asked-least_of, contains-append, contains-range, contains-sample,
  sample_nonempty, range-Ascends, sample-Ascends, sample-append, range_below,
}

abbrev first_of : Option (ℕ × ℕ) → ℕ
first_of none = 0
first_of (some c) = c.0

module _ {K : Type 0} ⦃e : Eq K⦄ (s : Scheduler K) (bits : List Bool) (k : K) where
  -- How many pieces the urgent window has.
  abbrev pub window : ℕ
  window = min (s.first_not_done + s.urgent_window) (length s.pieces) - s.first_not_done

  -- The pieces from the first missing one, and then those before it.
  abbrev pub scan_order : List ℕ
  scan_order =
      range s.first_not_done (length s.pieces - s.first_not_done) ++ range 0 s.first_not_done

  -- The pieces that step 2 may compare: the first 64 in scan order that the peer has and nobody
  -- was asked for.
  abbrev pub candidates : List ℕ
  candidates = sample (wants s bits) rarest_sample scan_order

  -- The choice of `pick`, whichever step makes it.
  pub data Chosen (r : Option ℕ) : Type 0 where
    urgent :
        (i : ℕ) → FirstIn (wants s bits) s.first_not_done window (some i) → r ≡ some i → Chosen r
    rare :
        (i : ℕ)
        → FirstIn (wants s bits) s.first_not_done window none
        → contains candidates i ≡ true
        → wants s bits i ≡ true
        → ((j : ℕ)
            → contains candidates j ≡ true
            → get_or s.availability i 0 ≤ get_or s.availability j 0)
        → ((j : ℕ)
            → contains candidates j ≡ true
            → j < i
            → get_or s.availability i 0 < get_or s.availability j 0)
        → r ≡ some i
        → Chosen r
    shared :
        (i n : ℕ)
        → s.missing ≡ 0
        → asks s bits k i ≡ some (i, n)
        → ((j : ℕ) → j < length s.pieces → AtMost (some (i, n)) (asks s bits k j))
        → ((j : ℕ) → j < length s.pieces → Beats (some (i, n)) (asks s bits k j))
        → r ≡ some i
        → Chosen r
    nothing :
        ((i : ℕ) → i < length s.pieces → wants s bits i ≡ false)
        → (s.missing ≡ 0 → (i : ℕ) → i < length s.pieces → asks s bits k i ≡ none)
        → r ≡ none
        → Chosen r

  module _ (v : Inv s) (known : HashMap.get k s.peers ≡ some bits) where
    fits : length bits ≡ length s.pieces
    fits = v.bits_fit k bits known

    counted_bit : (i : ℕ) → wants s bits i ≡ true → 0 < get_or s.availability i 0
    counted_bit i h = ground (arith, bit_at-le-availability k s v bits known i)

    at-le-length : s.first_not_done ≤ length s.pieces
    at-le-length = by_length (length s.pieces) refl
      where
        by_length : (n : ℕ) → length s.pieces ≡ n → s.first_not_done ≤ length s.pieces
        by_length n h = elim (Bool-cases (ltb (length s.pieces) s.first_not_done)) [
          | inl past ↦ cc (
            v.consistent.at_playhead.before (length s.pieces) (ground arith),
            get_elem?-eq-none s.pieces (length s.pieces) (omega arith),
          )
          | inr within ↦ ground arith
        ]

    in_scan_order : (i : ℕ) → i < length s.pieces → contains scan_order i ≡ true
    in_scan_order i lt =
        let total = length s.pieces in
        elim (Bool-cases (ltb i s.first_not_done)) [
          | inl before ↦ ground (
            arith,
            contains-append (range s.first_not_done (total - s.first_not_done))
                (range 0 s.first_not_done) i,
            contains-range s.first_not_done 0 i (omega arith) (ground arith),
          )
          | inr after ↦ ground (
            arith,
            contains-append (range s.first_not_done (total - s.first_not_done))
                (range 0 s.first_not_done) i,
            contains-range (total - s.first_not_done) s.first_not_done i (ground arith)
                (omega (arith, at-le-length)),
          )
        ]

    none_missing : s.missing ≡ 0 → (i : ℕ) → i < length s.pieces → wants s bits i ≡ false
    none_missing h i lt = let (p, at_i) = get_elem?_in_range s.pieces i lt in by_piece p at_i
      where
        by_piece : (p : Piece K) → get_elem? s.pieces i ≡ some p → wants s bits i ≡ false
        by_piece Piece.missing at_i = absurd (
            omega (arith, le-total is_missing_weight s.pieces i at_i, v.consistent.missing_counted))
        by_piece (Piece.in_flight by) at_i = ground (arith, at_i)
        by_piece Piece.done at_i = ground (arith, at_i)

    -- A done piece makes no offer, so that the search from the playhead misses none.
    asks_before : (i : ℕ) → i < s.first_not_done → asks s bits k i ≡ none
    asks_before i lt = ground (arith, v.consistent.at_playhead.before i lt)

    abbrev Rarest : Option ℕ → Type 0
    Rarest none = (i : ℕ) → i < length s.pieces → wants s bits i ≡ false
    Rarest (some i) =
        (contains candidates i ≡ true)
        × (wants s bits i ≡ true)
        × ((j : ℕ)
            → contains candidates j ≡ true
            → get_or s.availability i 0 ≤ get_or s.availability j 0)
        × ((j : ℕ)
            → contains candidates j ≡ true
            → j < i
            → get_or s.availability i 0 < get_or s.availability j 0)

    -- The pieces before the playhead are done, so that the candidates are in increasing order.
    candidates-Ascends : Ascends s.first_not_done candidates
    candidates-Ascends =
        let ahead = range s.first_not_done (length s.pieces - s.first_not_done) in
        subst (Ascends s.first_not_done)
          (sym (
            sample-append (wants s bits) rarest_sample ahead (range 0 s.first_not_done) (λ j held.
              ground (
                arith,
                v.consistent.at_playhead.before j
                    (omega (arith, range_below s.first_not_done 0 j held)),
              ))))
          (sample-Ascends (wants s bits) rarest_sample ahead s.first_not_done
            (range-Ascends (length s.pieces - s.first_not_done) s.first_not_done))

    least_candidate-Rarest :
        (o : Option (ℕ × ℕ)) → least_of (scarcity s) candidates none ≡ o → Rarest (index_of o)
    least_candidate-Rarest none h = λ i lt. elim (Bool-cases (wants s bits i)) [
      | inr unwanted ↦ unwanted
      | inl wanted_i ↦
          let (x, held) =
            sample_nonempty (wants s bits) 63 scan_order i (in_scan_order i lt) wanted_i in
          absurd (rw h at ((least_of-AtMost (scarcity s) candidates none).1 x held))
    ]
    least_candidate-Rarest (some (i, n)) h = elim (least_of-source (scarcity s) candidates none h) [
      | inl e ↦ absurd (cc)
      | inr (j, held, offered) ↦
          let same : j ≡ i = ground arith in
          let fewest : get_or s.availability j 0 ≡ n = ground arith in
          (
            rw (← same) held,
            rw (← same) (contains-sample (wants s bits) rarest_sample scan_order j held),
            λ l in_sample. omega (
              arith,
              rw h at ((least_of-AtMost (scarcity s) candidates none).1 l in_sample),
              fewest,
              ap (λ (x : ℕ). get_or s.availability x 0) same,
            ),
            λ l in_sample sooner.
                let beats =
                  (least_of-Beats (scarcity s) (λ x c e. ap first_of e) candidates none
                      s.first_not_done candidates-Ascends tt).1
                    l in_sample in
                omega (
                  arith,
                  (subst (λ r. Beats r (scarcity s l)) h beats) sooner,
                  fewest,
                  ap (λ (x : ℕ). get_or s.availability x 0) same,
                ),
          )
    ]

    rarest_first-Rarest : (r : Option ℕ) × (rarest_first s bits ≡ some r) × Rarest r
    unfolding rarest_first
    rarest_first-Rarest = elim (Bool-cases (ltb 0 s.missing && ltb 0 (length s.pieces))) [
      | inl some_missing ↦ (
        index_of (least_of (scarcity s) candidates none),
        rw (some_missing, searched),
        least_candidate-Rarest _ refl,
      )
      | inr none_there ↦ (none, rw none_there, λ i lt. none_missing (ground arith) i lt)
    ]
      where
        searched : rarest s bits scan_order 0 none ≡ some (least_of (scarcity s) candidates none)
        searched = rarest-least_of s bits fits v.counted counted_bit scan_order 0 63 none refl (
            Below-append (length s.pieces)
              (range s.first_not_done (length s.pieces - s.first_not_done))
              (range 0 s.first_not_done)
              (Below-range s.first_not_done (length s.pieces - s.first_not_done) (length s.pieces)
                (omega (arith, at-le-length)))
              (Below-range 0 s.first_not_done (length s.pieces) (omega (arith, at-le-length))))

    abbrev Shared : Option ℕ → Type 0
    Shared none = s.missing ≡ 0 → (i : ℕ) → i < length s.pieces → asks s bits k i ≡ none
    Shared (some i) =
        (s.missing ≡ 0)
        × ((n : ℕ) × (asks s bits k i ≡ some (i, n))
            × ((j : ℕ) → j < length s.pieces → AtMost (some (i, n)) (asks s bits k j))
            × ((j : ℕ) → j < length s.pieces → Beats (some (i, n)) (asks s bits k j)))

    Beats-all :
        (r : Option (ℕ × ℕ))
        → ((j : ℕ)
            → contains (range s.first_not_done (length s.pieces - s.first_not_done)) j ≡ true
            → Beats r (asks s bits k j))
        → (j : ℕ) → j < length s.pieces
        → Beats r (asks s bits k j)
    Beats-all r h j lt = elim (Bool-cases (ltb j s.first_not_done)) [
      | inl before ↦ rw (asks_before j (ground arith)) tt
      | inr after ↦ h j (
          contains-range (length s.pieces - s.first_not_done) s.first_not_done j (ground arith)
            (omega (arith, at-le-length)))
    ]

    -- The search starts at the playhead; what lies before makes no offer.
    AtMost-all :
        (r : Option (ℕ × ℕ))
        → ((j : ℕ)
            → contains (range s.first_not_done (length s.pieces - s.first_not_done)) j ≡ true
            → AtMost r (asks s bits k j))
        → (j : ℕ) → j < length s.pieces
        → AtMost r (asks s bits k j)
    AtMost-all r h j lt = elim (Bool-cases (ltb j s.first_not_done)) [
      | inl before ↦ rw (asks_before j (ground arith)) tt
      | inr after ↦ h j (
          contains-range (length s.pieces - s.first_not_done) s.first_not_done j (ground arith)
            (omega (arith, at-le-length)))
    ]

    -- An offer of a piece names that piece.
    asks_names : (j : ℕ) {c : ℕ × ℕ} → asks s bits k j ≡ some c → j ≡ c.0
    asks_names j h = ground arith

    AtMost-none : (o : Option (ℕ × ℕ)) → AtMost none o → o ≡ none
    AtMost-none none h = refl
    AtMost-none (some c) h = absurd h

    least_asked-Shared :
        (o : Option (ℕ × ℕ))
        → least_of
            (asks s bits k)
            (range s.first_not_done (length s.pieces - s.first_not_done))
            none
          ≡ o
        → s.missing ≡ 0
        → Shared (index_of o)
    least_asked-Shared none h m = λ _ j lt. AtMost-none (asks s bits k j) (
        AtMost-all none (λ l held. rw h at ((least_of-AtMost (asks s bits k) _ none).1 l held)) j
          lt)
    least_asked-Shared (some (i, n)) h m = elim (least_of-source (asks s bits k) _ none h) [
      | inl e ↦ absurd (cc)
      | inr (j, held, offered) ↦ (
        m,
        (
          n,
          ap (asks s bits k) (sym (asks_names j offered)) ∙ offered,
          AtMost-all (some (i, n))
              (λ l within. rw h at ((least_of-AtMost (asks s bits k) _ none).1 l within)),
          Beats-all (some (i, n)) (λ l within.
              subst (λ r. Beats r (asks s bits k l)) h
                ((least_of-Beats (asks s bits k) (λ x c e. asks_names x e) _ none s.first_not_done
                    (range-Ascends (length s.pieces - s.first_not_done) s.first_not_done) tt).1
                  l within)),
        ),
      )
    ]

    endgame-Shared : (r : Option ℕ) × (endgame s bits k ≡ some r) × Shared r
    unfolding endgame
    endgame-Shared = elim (Bool-cases (nat_beq s.missing 0)) [
      | inl all_asked ↦ (
        index_of (
            least_of (asks s bits k) (range s.first_not_done (length s.pieces - s.first_not_done))
              none),
        rw (
          all_asked,
          least_asked-least_of s bits fits k
              (range s.first_not_done (length s.pieces - s.first_not_done)) none
              (Below-range s.first_not_done (length s.pieces - s.first_not_done) (length s.pieces)
                (omega (arith, at-le-length))),
        ),
        least_asked-Shared _ refl (ground arith),
      )
      | inr some_left ↦ (none, rw some_left, λ m. absurd (ground arith))
    ]

    -- What step 3 makes of the choice of step 2, and step 2 of that of step 1.
    after_rare :
        (rare shared_one : Option ℕ)
        → FirstIn (wants s bits) s.first_not_done window none
        → Rarest rare
        → Shared shared_one
        → (r : Option ℕ) × (or_else rare (some shared_one) ≡ some r) × Chosen r
    after_rare (some i) other f q h = (some i, refl, rare i f q.0 q.1 q.2 q.3 refl)
    after_rare none (some i) f q h = (some i, refl, shared i h.1.0 h.0 h.1.1 h.1.2 h.1.3 refl)
    after_rare none none f q h = (none, refl, nothing q h refl)

    after_urgent :
        (u : Option ℕ)
        → FirstIn (wants s bits) s.first_not_done window u
        → (r : Option ℕ) × ((or_else u (rarest_first s bits) >>= λ rare.
              or_else rare (endgame s bits k))
            ≡ some r)
          × Chosen r
    after_urgent (some i) f = (some i, refl, urgent i f refl)
    after_urgent none f =
        let (rare_one, searched, q) = rarest_first-Rarest in
        let (shared_one, ended, h) = endgame-Shared in
        let (r, e', c) = after_rare rare_one shared_one f q h in (r, rw (searched, ended) e', c)

    -- `pick` always reaches a decision, by the rules of its three steps.
    pub choose-Chosen : (r : Option ℕ) × (choose s bits k ≡ some r) × Chosen r
    unfolding choose
    choose-Chosen =
        let (u, found, f) =
          find_wanted-range s bits fits window s.first_not_done (omega (arith, at-le-length)) in
        let (r, e', c) = after_urgent u f in (r, rw found e', c)
