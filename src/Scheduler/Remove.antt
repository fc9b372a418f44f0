-- ===== src/Scheduler/Remove.antt =====
-- `Scheduler::remove_peer` of scheduler.rs keeps the invariant and does not panic.
use chorrent.Common.{
  ==_iff, ℕ, zero, suc, ◌+◌, ◌≤◌, ◌<◌, ◌≡◌, refl, Bool, true, false, none, some, List, [], ◌∷◌, ◌∙◌,
  Eq, inl, inr, arith, Bool-cases, Option-cases, length, get_elem?, get_or, nat_beq, sym, ap,
  contains, lt-length_of_get_elem?, nat_beq_iff,
}
use mathlib.Core.Path.{subst}
use chorrent.Common.HashMap
use chorrent.Scheduler.{Piece, Scheduler, drop_requests, lower, remove_peer}
use chorrent.Scheduler.Requests.{IsConsistent, other_peers-IsConsistent}
use chorrent.Scheduler.Invariant.{Inv, bit_at}
use chorrent.Scheduler.Drop.{Unasked, Released, Released-same, Released-trans, drop_request-Drops}

-- The loop over the bits: it succeeds where every bit set is counted, and takes each off once.
pub lower_lem :
    (bits : List Bool) (counts : List ℕ)
    → ((i : ℕ) → bit_at i bits ≤ get_or counts i 0)
    → (c : List ℕ) × (lower bits counts ≡ some c)
      × (length c ≡ length counts)
      × ((i : ℕ) → get_or c i 0 + bit_at i bits ≡ get_or counts i 0)
unfolding lower
lower_lem [] counts h = (counts, refl, refl, λ i. omega arith)
lower_lem (false ∷ hs) [] h =
    let (c, e, l, eq) = lower_lem hs [] (λ i. h (suc i)) in (c, e, l, λ i. past c hs l eq i)
  where
    past :
        (c : List ℕ) (hs : List Bool)
        → length c ≡ 0
        → ((i : ℕ) → get_or c i 0 + bit_at i hs ≡ 0)
        → (i : ℕ) → get_or c i 0 + bit_at i (false ∷ hs) ≡ 0
    past [] hs l eq zero = refl
    past [] hs l eq (suc i) = eq i
    past (x ∷ c) hs l eq i = absurd (omega arith)
lower_lem (true ∷ hs) [] h = absurd (omega (arith, h 0))
lower_lem (false ∷ hs) (n ∷ counts) h =
    let (c, e, l, eq) = lower_lem hs counts (λ i. h (suc i)) in
    (n ∷ c, rw e, ap suc l, each n c counts hs eq)
  where
    each :
        (n : ℕ) (c counts : List ℕ) (hs : List Bool)
        → ((i : ℕ) → get_or c i 0 + bit_at i hs ≡ get_or counts i 0)
        → (i : ℕ) → get_or (n ∷ c) i 0 + bit_at i (false ∷ hs) ≡ get_or (n ∷ counts) i 0
    each n c counts hs eq zero = omega arith
    each n c counts hs eq (suc i) = eq i
lower_lem (true ∷ hs) (zero ∷ counts) h = absurd (omega (arith, h 0))
lower_lem (true ∷ hs) (suc n ∷ counts) h =
    let (c, e, l, eq) = lower_lem hs counts (λ i. h (suc i)) in
    (n ∷ c, rw e, ap suc l, each n c counts hs eq)
  where
    each :
        (n : ℕ) (c counts : List ℕ) (hs : List Bool)
        → ((i : ℕ) → get_or c i 0 + bit_at i hs ≡ get_or counts i 0)
        → (i : ℕ) → get_or (n ∷ c) i 0 + bit_at i (true ∷ hs) ≡ get_or (suc n ∷ counts) i 0
    each n c counts hs eq zero = omega arith
    each n c counts hs eq (suc i) = eq i

module _ {K : Type 0} ⦃e : Eq K⦄ where
  -- After the loop: no piece is asked of `k` any more.
  pub record Dropped (peers : List (K × List Bool)) (k : K) (s s' : Scheduler K) : Type 0 where
    pub consistent : IsConsistent peers s'
    pub same_length : length s'.pieces ≡ length s.pieces
    pub clear : (j : ℕ) → Unasked k (get_elem? s'.pieces j)
    pub released :
        (j : ℕ) (p : Piece K)
        → get_elem? s.pieces j ≡ some p
        → (q : Piece K) × (get_elem? s'.pieces j ≡ some q) × Released k p q
    pub kept_done :
        (j : ℕ) → get_elem? s.pieces j ≡ some Piece.done → get_elem? s'.pieces j ≡ some Piece.done
    pub no_new_done :
        (j : ℕ) → get_elem? s'.pieces j ≡ some Piece.done → get_elem? s.pieces j ≡ some Piece.done
    pub same_availability : s'.availability ≡ s.availability
    pub same_peers : s'.peers ≡ s.peers

  drop_requests-Dropped :
      (peers : List (K × List Bool)) (rounds i : ℕ) (k : K) (s : Scheduler K)
      → i + rounds ≡ length s.pieces
      → IsConsistent peers s
      → ((j : ℕ) → j < i → Unasked k (get_elem? s.pieces j))
      → (s' : Scheduler K) × (drop_requests rounds i k s ≡ some s') × Dropped peers k s s'
  unfolding drop_requests
  drop_requests-Dropped peers zero i k s n c before = (
    s,
    refl,
    record {
      consistent = c;
      same_length = refl;
      clear = λ j by h. before j (omega (arith, lt-length_of_get_elem? s.pieces j h)) by h;
      released = λ j p at. (
        p,
        at,
        Released-same peers k s j p c at
            (subst (Unasked k) at (before j (omega (arith, lt-length_of_get_elem? s.pieces j at)))),
      );
      kept_done = λ j fixed. fixed;
      no_new_done = λ j fixed. fixed;
      same_availability = refl;
      same_peers = refl;
    },
  )
  drop_requests-Dropped peers (suc rounds) i k s n c before =
      let (s', e', d) = drop_request-Drops peers i k s c (omega arith) in
      let rest =
        drop_requests-Dropped peers rounds (suc i) k s' (omega (arith, d.same_length)) d.consistent
          (λ j less. elim (Bool-cases (nat_beq i j)) [
            | inl same ↦
                λ by h. d.clear by (ap (get_elem? s'.pieces) ((nat_beq_iff i j).0 same) ∙ h)
            | inr other ↦ λ by h. before j (ground arith) by (sym (d.others j (ground arith)) ∙ h)
          ]) in
      (
        rest.0,
        rw e' rest.1,
        record {
          consistent = rest.2.consistent;
          same_length = rest.2.same_length ∙ d.same_length;
          clear = rest.2.clear;
          released = λ j p at. elim (Bool-cases (nat_beq i j)) [
            | inl same ↦
                let at_i : get_elem? s.pieces i ≡ some p =
                  ap (get_elem? s.pieces) ((nat_beq_iff i j).0 same) ∙ at in
                let (q, here, first) = d.released p at_i in
                let (r, there, second) =
                  rest.2.released j q
                    (ap (get_elem? s'.pieces) (sym ((nat_beq_iff i j).0 same)) ∙ here) in
                (r, there, Released-trans k p q r first second)
            | inr other ↦ rest.2.released j p (d.others j (ground arith) ∙ at)
          ];
          kept_done = λ j fixed. rest.2.kept_done j (d.kept_done j fixed);
          no_new_done = λ j fixed. d.no_new_done j (rest.2.no_new_done j fixed);
          same_availability = rest.2.same_availability ∙ d.same_availability;
          same_peers = rest.2.same_peers ∙ d.same_peers;
        },
      )

  -- What `remove_peer k` leaves: a well-formed scheduler of the other peers, in which no piece
  -- waits for `k`.
  pub record Removed (k : K) (s s' : Scheduler K) : Type 0 where
    pub inv : Inv s'
    pub gone : s'.peers ≡ HashMap.remove k s.peers
    pub same_length : length s'.pieces ≡ length s.pieces
    pub clear : (j : ℕ) → Unasked k (get_elem? s'.pieces j)
    pub released :
        (j : ℕ) (p : Piece K)
        → get_elem? s.pieces j ≡ some p
        → (q : Piece K) × (get_elem? s'.pieces j ≡ some q) × Released k p q
    pub kept_done :
        (j : ℕ) → get_elem? s.pieces j ≡ some Piece.done → get_elem? s'.pieces j ≡ some Piece.done
    pub no_new_done :
        (j : ℕ) → get_elem? s'.pieces j ≡ some Piece.done → get_elem? s.pieces j ≡ some Piece.done

  module _ (k : K) (s : Scheduler K) (v : Inv s) where
    absent-Removed : HashMap.get k s.peers ≡ none → Removed k s s
    absent-Removed h = record {
      inv = v;
      gone = sym (HashMap.remove-eq_self k s.peers h);
      same_length = refl;
      clear = λ j by asked. elim (Bool-cases (contains by k)) [
        | inl held ↦ cc (h, (v.consistent.requests j by asked).connected k held)
        | inr free ↦ free
      ];
      released = λ j p at. (
        p,
        at,
        Released-same s.peers k s j p v.consistent at (λ by asked.
            elim (Bool-cases (contains by k)) [
              | inl held ↦ cc (h, (v.consistent.requests j by (at ∙ asked)).connected k held)
              | inr free ↦ free
            ]),
      );
      kept_done = λ j fixed. fixed;
      no_new_done = λ j fixed. fixed;
    }

    Dropped-Removed :
        (bits : List Bool) (counts : List ℕ) (s' : Scheduler K)
        → HashMap.get k s.peers ≡ some bits
        → length counts ≡ length s.availability
        → ((i : ℕ) → get_or counts i 0 + bit_at i bits ≡ get_or s.availability i 0)
        → Dropped s.peers k
            (record s { peers = HashMap.remove k s.peers; availability = counts })
            s'
        → Removed k s s'
    Dropped-Removed bits counts s' h long fewer d = record {
      inv = record {
        consistent =
            other_peers-IsConsistent s.peers s'.peers s'
              (λ i by asked j held here.
                rw (d.same_peers, HashMap.get-remove k j s.peers)
                  (ground (arith, d.clear i by asked, ==_iff k j)))
              d.consistent;
        counted = omega (arith, ap length d.same_availability, long, v.counted, d.same_length);
        bits_fit = λ j b held. ground (
          arith,
          v.bits_fit j b,
          HashMap.get-remove k j s.peers,
          ap (HashMap.get j) d.same_peers,
          d.same_length,
        );
        unique = rw d.same_peers (HashMap.remove-Unique k s.peers v.unique);
        held = λ i.
            rw (d.same_peers, d.same_availability)
              (ground
                (arith, HashMap.tally-remove (bit_at i) k s.peers v.unique, fewer i, v.held i, h));
      };
      gone = d.same_peers;
      same_length = d.same_length;
      clear = d.clear;
      released = d.released;
      kept_done = d.kept_done;
      no_new_done = d.no_new_done;
    }

    pub bit_at-le-availability :
        (bits : List Bool)
        → HashMap.get k s.peers ≡ some bits
        → (i : ℕ) → bit_at i bits ≤ get_or s.availability i 0
    bit_at-le-availability bits h i =
        ground (arith, HashMap.tally-remove (bit_at i) k s.peers v.unique, v.held i)

    present-Removed :
        (bits : List Bool)
        → HashMap.get k s.peers ≡ some bits
        → (s' : Scheduler K) × (remove_peer k s ≡ some s') × Removed k s s'
    unfolding remove_peer
    present-Removed bits h =
        let (counts, lowered, long, fewer) =
          lower_lem bits s.availability (bit_at-le-availability bits h) in
        let (s', dropped, d) =
          drop_requests-Dropped s.peers (length s.pieces) 0 k
            (record s { peers = HashMap.remove k s.peers; availability = counts }) (omega arith)
            (record {
              missing_counted = v.consistent.missing_counted;
              done_counted = v.consistent.done_counted;
              at_playhead = v.consistent.at_playhead;
              requests = v.consistent.requests;
            })
            (λ j less. absurd (omega arith)) in
        (
          s',
          rw (h, remove_peer) (rw lowered dropped),
          Dropped-Removed bits counts s' h long fewer d,
        )

    -- `remove_peer` of a well-formed scheduler never panics. It forgets the peer and only the
    -- peer. Every request list loses the peer and keeps the others; a piece that nobody else was
    -- asked for is missing again, and all other pieces are as they were. The scheduler stays
    -- well formed.
    pub remove_peer-Removed : (s' : Scheduler K) × (remove_peer k s ≡ some s') × Removed k s s'
    unfolding remove_peer
    remove_peer-Removed = elim (Option-cases (HashMap.get k s.peers)) [
      | inl none_there ↦ (s, rw (none_there, remove_peer), absent-Removed none_there)
      | inr (bits, h) ↦ present-Removed bits h
    ]
