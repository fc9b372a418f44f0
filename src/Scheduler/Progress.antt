-- ===== src/Scheduler/Progress.antt =====
-- `new`, `complete` and `is_done` of scheduler.rs: progress towards the whole share.
use chorrent.Common.{
  ℕ, zero, suc, ◌+◌, ◌<◌, ◌≡◌, ◌≢◌, refl, Bool, true, false, some, List, [], ◌∷◌, ◌∙◌, Eq, arith,
  length, get_elem?, set, sym, ap, length-set, get_elem?_in_range, lt-length_of_get_elem?,
  get_elem?-set_ne, nat_beq_iff, get_elem?-set_self, not, get_or-replicate, length-replicate, ◌↔◌,
}
use mathlib.Core.Path.{subst}
use chorrent.Common.{set-eq_self}
use chorrent.Common.HashMap
use chorrent.Scheduler.{
  Piece, Scheduler, done_at, advance_playhead, new, is_done, complete, start_pieces,
}
use chorrent.Scheduler.Counts.{
  is_missing_weight, is_done_weight, total-set, le-total, all_done, all-total_done, done_at-set,
  playhead-IsPlayhead, total_start_pieces,
}
use chorrent.Scheduler.Requests.{Requests-set}
use chorrent.Scheduler.Invariant.{Inv}

pub length-start_pieces :
    (K : Type 0) (have : List Bool) → length (start_pieces {K = K} have) ≡ length have
unfolding start_pieces
length-start_pieces K [] = refl
length-start_pieces K (h ∷ hs) = ap suc (length-start_pieces K hs)

module _ {K : Type 0} where
  pub get_elem?-start_pieces :
      (have : List Bool) (i : ℕ) (by : List K)
      → get_elem? (start_pieces have) i ≢ some (Piece.in_flight by)
  unfolding start_pieces
  get_elem?-start_pieces [] i by h = cc
  get_elem?-start_pieces (true ∷ hs) zero by h = cc
  get_elem?-start_pieces (false ∷ hs) zero by h = cc
  get_elem?-start_pieces (b ∷ hs) (suc i) by h = get_elem?-start_pieces hs i by h

module _ {K : Type 0} ⦃e : Eq K⦄ where
  -- A fresh scheduler is well formed, whatever is on disk already.
  pub new-Inv : (have : List Bool) (urgent_window : ℕ) → Inv (new {K = K} have urgent_window)
  unfolding new HashMap.get HashMap.tally HashMap.Unique
  new-Inv have window = record {
    consistent = record {
      missing_counted = omega (arith, total_start_pieces K have, length-start_pieces K have);
      done_counted = sym (total_start_pieces K have).0;
      at_playhead =
          playhead-IsPlayhead (length (start_pieces have)) (start_pieces have) 0 (omega arith)
            (λ j less. absurd (omega arith));
      requests = λ i by h. absurd (get_elem?-start_pieces have i by h);
    };
    counted = length-replicate (length (start_pieces {K = K} have)) 0;
    bits_fit = λ k bits h. cc;
    unique = tt;
    held = λ i. get_or-replicate (length (start_pieces {K = K} have)) 0 i;
  }

  -- `is_done` holds of a well-formed scheduler exactly when every piece is done.
  pub is_done_iff :
      (s : Scheduler K)
      → Inv s
      → (is_done s ≡ true)
        ↔ ((i : ℕ) → i < length s.pieces → get_elem? s.pieces i ≡ some Piece.done)
  unfolding is_done
  is_done_iff s v = (
    (λ h i lt.
        all_done s.pieces i
          (ground (arith, v.consistent.done_counted, nat_beq_iff s.done (length s.pieces))) lt),
    (λ all.
        (nat_beq_iff s.done (length s.pieces)).1
          (v.consistent.done_counted ∙ all-total_done s.pieces all)),
  )

  -- What `complete` leaves: the piece is done, nothing else changed, and the counters and the
  -- playhead have moved on.
  pub record Completed (piece : ℕ) (s s' : Scheduler K) : Type 0 where
    pub inv : Inv s'
    pub now_done : get_elem? s'.pieces piece ≡ some Piece.done
    pub others : (j : ℕ) → piece ≢ j → get_elem? s'.pieces j ≡ get_elem? s.pieces j
    pub same_length : length s'.pieces ≡ length s.pieces
    pub same_peers : s'.peers ≡ s.peers
    pub same_availability : s'.availability ≡ s.availability

  module _ (piece : ℕ) (s : Scheduler K) (v : Inv s) where
    finished : ℕ → Scheduler K
    finished m =
        advance_playhead
          (record s { pieces = set s.pieces piece Piece.done; missing = m; done = s.done + 1 })

    finished-Completed :
        (p : Piece K) (m : ℕ)
        → get_elem? s.pieces piece ≡ some p
        → is_done_weight p ≡ 0
        → m + is_missing_weight p ≡ s.missing
        → Completed piece s (finished m)
    unfolding finished advance_playhead
    finished-Completed p m h undone fewer =
        let lt = lt-length_of_get_elem? s.pieces piece h in
        let c = v.consistent in
        record {
          inv = record {
            consistent = record {
              missing_counted = omega (
                arith,
                total-set is_missing_weight s.pieces piece Piece.done h,
                c.missing_counted,
              );
              done_counted =
                  omega
                    (arith, total-set is_done_weight s.pieces piece Piece.done h, c.done_counted);
              at_playhead =
                  playhead-IsPlayhead _ (set s.pieces piece Piece.done) s.first_not_done
                    (omega arith)
                    (λ j less. ground (
                      arith,
                      done_at-set s.pieces piece j Piece.done lt,
                      c.at_playhead.before j less,
                    ));
              requests = Requests-set s.peers s.pieces piece Piece.done lt (λ by q. cc) c.requests;
            };
            counted = omega (arith, v.counted, length-set s.pieces piece Piece.done);
            bits_fit = λ k b held. v.bits_fit k b held ∙ sym (length-set s.pieces piece Piece.done);
            unique = v.unique;
            held = v.held;
          };
          now_done = get_elem?-set_self s.pieces piece Piece.done lt;
          others = λ j ne. get_elem?-set_ne s.pieces piece j Piece.done ne;
          same_length = length-set s.pieces piece Piece.done;
          same_peers = refl;
          same_availability = refl;
        }

    unchanged-Completed :
        get_elem? s.pieces piece ≡ some Piece.done
        → Completed piece s (record s { pieces = set s.pieces piece Piece.done })
    unchanged-Completed h =
        subst (λ ps. Completed piece s (record s { pieces = ps }))
          (sym (set-eq_self s.pieces piece Piece.done h))
          (record {
            inv = v;
            now_done = h;
            others = λ j ne. refl;
            same_length = refl;
            same_peers = refl;
            same_availability = refl;
          })

    -- `complete` of a well-formed scheduler never panics on a piece of the share and answers
    -- true exactly when the piece was not done. The piece is then done, the other pieces, the
    -- peers and the availability are as they were, and the scheduler stays well formed.
    pub complete-Completed :
        piece < length s.pieces
        → (s' : Scheduler K) × (complete piece s ≡ some (not (done_at s.pieces piece), s'))
          × Completed piece s s'
    complete-Completed lt = let (p, h) = get_elem?_in_range s.pieces piece lt in by_piece p h
      where
        by_missing :
            (m : ℕ)
            → s.missing ≡ m
            → get_elem? s.pieces piece ≡ some Piece.missing
            → (s' : Scheduler K) × (complete piece s ≡ some (not (done_at s.pieces piece), s'))
              × Completed piece s s'
        by_missing zero few h = absurd (
            omega
              (arith, le-total is_missing_weight s.pieces piece h, v.consistent.missing_counted))
        by_missing (suc m) few h = (
          finished m,
          unfold complete finished in rw (h, complete) (rw few),
          finished-Completed Piece.missing m h refl (omega arith),
        )

        by_piece :
            (p : Piece K)
            → get_elem? s.pieces piece ≡ some p
            → (s' : Scheduler K) × (complete piece s ≡ some (not (done_at s.pieces piece), s'))
              × Completed piece s s'
        by_piece Piece.missing h = by_missing s.missing refl h
        by_piece (Piece.in_flight by) h = (
          finished s.missing,
          unfold complete finished in rw (h, complete),
          finished-Completed (Piece.in_flight by) s.missing h refl (omega arith),
        )
        by_piece Piece.done h = (
          record s { pieces = set s.pieces piece Piece.done },
          unfold complete in rw (h, complete),
          unchanged-Completed h,
        )
