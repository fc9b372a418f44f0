-- ===== src/Scheduler/Peers.antt =====
-- `add_peer` of scheduler.rs keeps the invariant and does not panic.
use chorrent.Common.{
  ==_iff, ℕ, zero, suc, ◌+◌, ◌≤◌, ◌≡◌, ◌≢◌, refl, Bool, none, some, List, [], ◌∷◌, ◌∙◌, Eq, arith,
  length, get_elem?, get_or, sym, ap,
}
use chorrent.Common.HashMap
use chorrent.Scheduler.{Piece, Scheduler, raise, add_peer}
use chorrent.Scheduler.Requests.{IsConsistent, other_peers-IsConsistent}
use chorrent.Scheduler.Invariant.{Inv, bit_at}
use chorrent.Scheduler.Remove.{remove_peer-Removed}

pub length-raise : (have : List Bool) (counts : List ℕ) → length (raise have counts) ≡ length counts
unfolding raise
length-raise [] counts = refl
length-raise (h ∷ hs) [] = refl
length-raise (h ∷ hs) (n ∷ counts) = ap suc (length-raise hs counts)

pub raise_lem :
    (have : List Bool) (counts : List ℕ) (i : ℕ)
    → length have ≤ length counts
    → get_or (raise have counts) i 0 ≡ bit_at i have + get_or counts i 0
unfolding raise
raise_lem [] counts i h = omega arith
raise_lem (b ∷ hs) [] i h = elim h [ ]
raise_lem (b ∷ hs) (n ∷ counts) zero h = ground arith
raise_lem (b ∷ hs) (n ∷ counts) (suc i) h = raise_lem hs counts i (omega arith)

module _ {K : Type 0} ⦃e : Eq K⦄ where
  pub insert-IsConsistent :
      (k : K) (bits : List Bool) (s : Scheduler K)
      → IsConsistent s.peers s
      → IsConsistent (HashMap.insert k bits s.peers) s
  insert-IsConsistent k bits s =
      other_peers-IsConsistent s.peers (HashMap.insert k bits s.peers) s
        (λ i by asked j held here. ground (arith, HashMap.get-insert k j bits s.peers))

  pub insert-bits_fit :
      (k : K) (bits : List Bool) (s : Scheduler K)
      → Inv s
      → length bits ≡ length s.pieces
      → (j : K) (b : List Bool) → HashMap.get j (HashMap.insert k bits s.peers) ≡ some b
      → length b ≡ length s.pieces
  insert-bits_fit k bits s v fits j b h =
      ground (arith, HashMap.get-insert k j bits s.peers, v.bits_fit j b)

  -- What `add_peer` leaves: the peer is connected with its bits, and nothing else was lost.
  pub record Added (k : K) (have : List Bool) (s s' : Scheduler K) : Type 0 where
    pub inv : Inv s'
    pub known : HashMap.get k s'.peers ≡ some have
    pub others : (j : K) → j ≢ k → HashMap.get j s'.peers ≡ HashMap.get j s.peers
    pub kept_done :
        (j : ℕ) → get_elem? s.pieces j ≡ some Piece.done → get_elem? s'.pieces j ≡ some Piece.done
    pub no_new_done :
        (j : ℕ) → get_elem? s'.pieces j ≡ some Piece.done → get_elem? s.pieces j ≡ some Piece.done
    pub same_length : length s'.pieces ≡ length s.pieces

  module _ (k : K) (have : List Bool) (s : Scheduler K) (v : Inv s) where
    -- `add_peer` of a well-formed scheduler, with a bit for each piece, never panics. The peer
    -- is connected with these bits, the other peers are as they were, done pieces stay done, and
    -- the scheduler stays well formed.
    pub add_peer-Added :
        length have ≡ length s.pieces
        → (s' : Scheduler K) × (add_peer k have s ≡ some s') × Added k have s s'
    unfolding add_peer
    add_peer-Added fits =
        let (t, removed, r) = remove_peer-Removed k s v in
        let w = r.inv in
        let absent : HashMap.get k t.peers ≡ none =
          ground (arith, ap (HashMap.get k) r.gone, HashMap.get-remove k k s.peers, ==_iff k k) in
        let fits' : length have ≡ length t.pieces = fits ∙ sym r.same_length in
        let s' : Scheduler K = record t {
          availability = raise have t.availability;
          peers = HashMap.insert k have t.peers;
        } in
        (
          s',
          rw removed,
          record {
            inv = record {
              consistent =
                  let c = insert-IsConsistent k have t w.consistent in
                  record {
                    missing_counted = c.missing_counted;
                    done_counted = c.done_counted;
                    at_playhead = c.at_playhead;
                    requests = c.requests;
                  };
              counted = length-raise have t.availability ∙ w.counted;
              bits_fit = insert-bits_fit k have t w fits';
              unique = HashMap.insert-Unique k have t.peers w.unique;
              held = λ i. ground (
                arith,
                raise_lem have t.availability i (omega (arith, w.counted)),
                HashMap.tally-insert (bit_at i) k have t.peers w.unique,
                w.held i,
                absent,
              );
            };
            known = ground (arith, HashMap.get-insert k k have t.peers, ==_iff k k);
            others = λ j ne. ground (
              arith,
              HashMap.get-insert k j have t.peers,
              ap (HashMap.get j) r.gone,
              HashMap.get-remove k j s.peers,
              ==_iff k j,
            );
            kept_done = r.kept_done;
            no_new_done = r.no_new_done;
            same_length = r.same_length;
          },
        )
