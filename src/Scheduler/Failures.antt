-- ===== src/Scheduler/Failures.antt =====
-- `failed` of scheduler.rs gives a piece back, keeps the invariant and does not panic.
use chorrent.Common.{
  ℕ, ◌<◌, ◌≡◌, ◌≢◌, Bool, true, false, some, ◌∙◌, Eq, ◌==◌, arith, length, get_elem?, sym, ap,
  if◌then◌else◌,
}
use mathlib.Core.Path.{subst}
use chorrent.Common.HashMap
use chorrent.Scheduler.{Piece, Scheduler, failed}
use chorrent.Scheduler.Requests.{IsConsistent}
use chorrent.Scheduler.Invariant.{Inv}
use chorrent.Scheduler.Drop.{Unasked, Drops, drop_request-Drops}
use chorrent.Scheduler.Bits.{with_bit, clear_bit-BitWritten}

module _ {K : Type 0} ⦃e : Eq K⦄ where
  -- What `failed` leaves: the peer is not asked for the piece any more, the other pieces are as
  -- they were, and its bit is cleared if it lacks the piece.
  pub record GivenBack (k : K) (piece : ℕ) (lacks : Bool) (s s' : Scheduler K) : Type 0 where
    pub inv : Inv s'
    pub clear : Unasked k (get_elem? s'.pieces piece)
    pub others : (j : ℕ) → piece ≢ j → get_elem? s'.pieces j ≡ get_elem? s.pieces j
    pub kept_done :
        (j : ℕ) → get_elem? s.pieces j ≡ some Piece.done → get_elem? s'.pieces j ≡ some Piece.done
    pub no_new_done :
        (j : ℕ) → get_elem? s'.pieces j ≡ some Piece.done → get_elem? s.pieces j ≡ some Piece.done
    pub same_length : length s'.pieces ≡ length s.pieces
    pub peers :
        (j : K)
        → HashMap.get j s'.peers ≡ (
            if k == j
            then (if lacks
                then with_bit piece false (HashMap.get j s.peers)
                else HashMap.get j s.peers)
            else HashMap.get j s.peers)

  drop_request-Inv :
      (piece : ℕ) (k : K) (s s' : Scheduler K) → Inv s → Drops s.peers piece k s s' → Inv s'
  drop_request-Inv piece k s s' v d = record {
    consistent = subst (λ ps. IsConsistent ps s') (sym d.same_peers) d.consistent;
    counted = omega (arith, ap length d.same_availability, v.counted, d.same_length);
    bits_fit =
        λ j b h. v.bits_fit j b (sym (ap (HashMap.get j) d.same_peers) ∙ h) ∙ sym d.same_length;
    unique = rw d.same_peers v.unique;
    held = λ i. rw (d.same_peers, d.same_availability) (v.held i);
  }

  -- `failed` of a well-formed scheduler never panics on a piece of the share. The peer is not
  -- asked for that piece any more, its bit for the piece is cleared if it lacks the piece, other
  -- pieces and peers are as they were, done pieces stay done, and the scheduler stays well
  -- formed.
  pub failed-GivenBack :
      (piece : ℕ) (k : K) (lacks : Bool) (s : Scheduler K)
      → Inv s
      → piece < length s.pieces
      → (s' : Scheduler K) × (failed piece k lacks s ≡ some s') × GivenBack k piece lacks s s'
  unfolding failed
  failed-GivenBack piece k false s v lt =
      let (t, dropped, d) = drop_request-Drops s.peers piece k s v.consistent lt in
      (
        t,
        rw dropped,
        record {
          inv = drop_request-Inv piece k s t v d;
          clear = d.clear;
          others = d.others;
          kept_done = d.kept_done;
          no_new_done = d.no_new_done;
          same_length = d.same_length;
          peers = λ j. ground (arith, ap (HashMap.get j) d.same_peers);
        },
      )
  failed-GivenBack piece k true s v lt =
      let (t, dropped, d) = drop_request-Drops s.peers piece k s v.consistent lt in
      let (s', cleared, w) =
        clear_bit-BitWritten k piece t (drop_request-Inv piece k s t v d)
          (omega (arith, d.same_length)) in
      (
        s',
        rw dropped cleared,
        record {
          inv = w.inv;
          clear = rw w.same_pieces d.clear;
          others = λ j ne. rw w.same_pieces (d.others j ne);
          kept_done = λ j fixed. rw w.same_pieces (d.kept_done j fixed);
          no_new_done =
              λ j fixed. d.no_new_done j (sym (ap (λ ps. get_elem? ps j) w.same_pieces) ∙ fixed);
          same_length = ap length w.same_pieces ∙ d.same_length;
          peers = λ j. ground (arith, w.peers j, ap (HashMap.get j) d.same_peers);
        },
      )
