-- ===== src/Scheduler/Counts.antt =====
-- Counting pieces, and where the playhead stops.
use chorrent.Common.{
  ℕ, zero, suc, ◌+◌, ◌≤◌, ◌<◌, ◌≡◌, refl, Bool, true, false, some, List, [], ◌∷◌, inl, inr, arith,
  Bool-cases, length, get_elem?, set, nat_beq, if◌then◌else◌, get_elem?-eq-none,
}
use chorrent.Scheduler.{Piece, is_done_piece, done_at, playhead, start_pieces, count_true}

module _ {K : Type 0} where
  abbrev pub is_missing_weight : Piece K → ℕ
  is_missing_weight Piece.missing = 1
  is_missing_weight _ = 0

  abbrev pub is_done_weight : Piece K → ℕ
  is_done_weight Piece.done = 1
  is_done_weight _ = 0

  pub total : (Piece K → ℕ) → List (Piece K) → ℕ
  total w [] = 0
  total w (p ∷ ps) = w p + total w ps

  abbrev pub total_missing : List (Piece K) → ℕ
  total_missing = total is_missing_weight

  abbrev pub total_done : List (Piece K) → ℕ
  total_done = total is_done_weight

  pub total-set :
      (w : Piece K → ℕ) (ps : List (Piece K)) (i : ℕ) (q : Piece K) {p : Piece K}
      → get_elem? ps i ≡ some p
      → total w (set ps i q) + w p ≡ total w ps + w q
  unfolding total
  total-set w [] i q h = cc
  total-set w (x ∷ ps) zero q h = ground arith
  total-set w (x ∷ ps) (suc i) q h = omega (arith, total-set w ps i q h)

  pub le-total :
      (w : Piece K → ℕ) (ps : List (Piece K)) (i : ℕ) {p : Piece K}
      → get_elem? ps i ≡ some p
      → w p ≤ total w ps
  unfolding total
  le-total w [] i h = cc
  le-total w (x ∷ ps) zero h = ground arith
  le-total w (x ∷ ps) (suc i) h = omega (arith, le-total w ps i h)

  pub total_done-le-length : (ps : List (Piece K)) → total_done ps ≤ length ps
  unfolding total
  total_done-le-length [] = omega arith
  total_done-le-length (p ∷ ps) = ground (arith, total_done-le-length ps)

  -- When as many pieces are done as there are, each is done.
  pub all_done :
      (ps : List (Piece K)) (i : ℕ)
      → total_done ps ≡ length ps
      → i < length ps
      → get_elem? ps i ≡ some Piece.done
  unfolding total
  all_done [] i h lt = elim lt [ ]
  all_done (p ∷ ps) zero h lt = ground (arith, total_done-le-length ps)
  all_done (p ∷ ps) (suc i) h lt =
      all_done ps i (ground (arith, total_done-le-length ps)) (omega arith)

  pub all-total_done :
      (ps : List (Piece K))
      → ((i : ℕ) → i < length ps → get_elem? ps i ≡ some Piece.done)
      → total_done ps ≡ length ps
  unfolding total
  all-total_done [] all = refl
  all-total_done (p ∷ ps) all =
      ground (arith, all 0 (omega arith), all-total_done ps (λ i lt. all (suc i) (omega arith)))

  pub done_at-set :
      (ps : List (Piece K)) (i j : ℕ) (q : Piece K)
      → i < length ps
      → done_at (set ps i q) j ≡ (if nat_beq i j then is_done_piece (some q) else done_at ps j)
  done_at-set [] i j q h = elim h [ ]
  done_at-set (p ∷ ps) zero zero q h = refl
  done_at-set (p ∷ ps) zero (suc j) q h = ground arith
  done_at-set (p ∷ ps) (suc i) zero q h = ground arith
  done_at-set (p ∷ ps) (suc i) (suc j) q h = ground (arith, done_at-set ps i j q (omega arith))

  -- Everything before `at` is done, and `at` is the end or a piece that is not.
  pub record IsPlayhead (ps : List (Piece K)) (at : ℕ) : Type 0 where
    pub before : (j : ℕ) → j < at → done_at ps j ≡ true
    pub stops : done_at ps at ≡ false

  -- A change that turns no piece done or undone leaves the playhead where it is.
  pub set-IsPlayhead :
      (ps : List (Piece K)) (i : ℕ) (q : Piece K) {at : ℕ}
      → i < length ps
      → done_at ps i ≡ is_done_piece (some q)
      → IsPlayhead ps at
      → IsPlayhead (set ps i q) at
  set-IsPlayhead ps i q {at} lt same h = record {
    before = λ j less. ground (arith, done_at-set ps i j q lt, h.before j less);
    stops = ground (arith, done_at-set ps i at q lt, h.stops);
  }

  -- With enough rounds the loop stops at a playhead, from any point that it could have reached.
  pub playhead-IsPlayhead :
      (rounds : ℕ) (ps : List (Piece K)) (i : ℕ)
      → length ps ≤ i + rounds
      → ((j : ℕ) → j < i → done_at ps j ≡ true)
      → IsPlayhead ps (playhead rounds ps i)
  unfolding playhead
  playhead-IsPlayhead zero ps i enough h = record {
    before = h;
    stops = rw (get_elem?-eq-none ps i (omega arith));
  }
  playhead-IsPlayhead (suc rounds) ps i enough h = elim (Bool-cases (done_at ps i)) [
    | inl more ↦
        rw (more, playhead)
          (playhead-IsPlayhead rounds ps (suc i) (omega arith) (λ j less.
            elim (Bool-cases (nat_beq j i)) [
              | inl e ↦ rw (same j i e) more
              | inr ne ↦ h j (ground arith)
            ]))
    | inr stop ↦ rw (stop, playhead) (record { before = h; stops = stop })
  ]
    where
      same : (a b : ℕ) → nat_beq a b ≡ true → a ≡ b
      same a b h = ground arith

pub total_start_pieces :
    (K : Type 0) (have : List Bool)
    → (total_done (start_pieces {K = K} have) ≡ count_true have)
      × (total_missing (start_pieces {K = K} have) + count_true have
          ≡ length (start_pieces {K = K} have))
unfolding total start_pieces count_true
total_start_pieces K [] = (refl, refl)
total_start_pieces K (h ∷ hs) =
    let rest = total_start_pieces K hs in (ground (arith, rest), ground (arith, rest))
