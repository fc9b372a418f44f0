-- ===== src/Scheduler/Assign.antt =====
-- `pick` of scheduler.rs as a whole: what it chooses, and the request that it records.
use chorrent.Common.{
  ==_iff, ℕ, zero, suc, ◌+◌, ◌<◌, ◌≡◌, ◌≢◌, refl, Bool, true, false, Option, none, some, List, [],
  ◌∷◌, ◌∙◌, Eq, inl, inr, arith, length, get_elem?, set, sym, contains, is_some, length-set,
  lt-length_of_get_elem?, get_elem?-set_ne, get_elem?-set_self, ◌⊎◌, ◌++◌, nat_eq,
}
use mathlib.Core.Path.{subst}
use chorrent.Common.HashMap
use chorrent.Scheduler.{Piece, Scheduler}
use chorrent.Scheduler.Pick.{pick, choose, assign, endgame_duplicates}
use chorrent.Scheduler.Counts.{le-total, is_missing_weight, is_done_weight}
use chorrent.Scheduler.Requests.{IsRequested, append_one-IsRequested}
use chorrent.Scheduler.Invariant.{Inv}
use chorrent.Scheduler.Drop.{set-IsConsistent}
use chorrent.Scheduler.Scan.{wants, asks}
use chorrent.Scheduler.Chosen.{Chosen, urgent, rare, shared, nothing, choose-Chosen}

module _ {K : Type 0} ⦃e : Eq K⦄ where
  -- The piece goes from `before` to a request list that ends with the peer.
  pub record Assigned (k : K) (i : ℕ) (before : List K) (s s' : Scheduler K) : Type 0 where
    pub inv : Inv s'
    pub asked : get_elem? s'.pieces i ≡ some (Piece.in_flight (before ++ k ∷ []))
    pub others : (j : ℕ) → i ≢ j → get_elem? s'.pieces j ≡ get_elem? s.pieces j
    pub same_peers : s'.peers ≡ s.peers
    pub same_length : length s'.pieces ≡ length s.pieces

  module _ (k : K) (i : ℕ) (s : Scheduler K) (v : Inv s)
      (here : is_some (HashMap.get k s.peers) ≡ true) where
    abbrev requested : ℕ → List K → Scheduler K
    requested m by = record s { pieces = set s.pieces i (Piece.in_flight by); missing = m }

    requested-Assigned :
        (p : Piece K) (m : ℕ) (before : List K)
        → get_elem? s.pieces i ≡ some p
        → is_done_weight p ≡ 0
        → m + is_missing_weight p ≡ s.missing
        → IsRequested s.peers (before ++ k ∷ [])
        → Assigned k i before s (requested m (before ++ k ∷ []))
    requested-Assigned p m before h undone fewer fine =
        let by = before ++ k ∷ [] in
        record {
          inv = record {
            consistent =
                set-IsConsistent s.peers s i m p (Piece.in_flight by) h undone refl (omega arith)
                  (λ by' q. subst (IsRequested s.peers) (ground arith) fine) v.consistent;
            counted = v.counted ∙ sym (length-set s.pieces i (Piece.in_flight by));
            bits_fit =
                λ j b held. v.bits_fit j b held ∙ sym (length-set s.pieces i (Piece.in_flight by));
            unique = v.unique;
            held = v.held;
          };
          asked = get_elem?-set_self s.pieces i _ (lt-length_of_get_elem? s.pieces i h);
          others = λ j ne. get_elem?-set_ne s.pieces i j _ ne;
          same_peers = refl;
          same_length = length-set s.pieces i _;
        }

    first_request : IsRequested s.peers (k ∷ [])
    first_request = record {
      nonempty = omega arith;
      few = omega arith;
      distinct = (refl, tt);
      connected = λ j held. rw (← (==_iff k j).0 (ground arith)) here;
    }

    abbrev Assigns : List K → Type 0
    Assigns before = (s' : Scheduler K) × (assign i k s ≡ some s') × Assigned k i before s s'

    -- A missing piece is now asked of this peer alone.
    pub assign_missing : get_elem? s.pieces i ≡ some Piece.missing → Assigns []
    assign_missing h = by_count s.missing refl
      where
        by_count : (m : ℕ) → s.missing ≡ m → Assigns []
        by_count zero few =
            absurd
              (omega (arith, le-total is_missing_weight s.pieces i h, v.consistent.missing_counted))
        by_count (suc m) few = (
          requested m (k ∷ []),
          unfold assign in rw (h, assign) (rw few),
          requested-Assigned Piece.missing m [] h refl (omega arith) first_request,
        )

    -- A piece in flight is asked of one more peer.
    pub assign_in_flight :
        (by : List K)
        → get_elem? s.pieces i ≡ some (Piece.in_flight by)
        → length by < endgame_duplicates
        → contains by k ≡ false
        → Assigns by
    assign_in_flight by h room new = (
      requested s.missing (by ++ k ∷ []),
      unfold assign in rw (h, assign),
      requested-Assigned (Piece.in_flight by) s.missing by h refl (omega arith)
          (append_one-IsRequested s.peers k by (v.consistent.requests i by h) room new here),
    )

  -- The request list of a piece before `pick`: none for a missing piece; one in flight is picked
  -- only when no piece is missing.
  abbrev pub WasAsked : List K → ℕ → Scheduler K → Type 0
  WasAsked before i s =
      ((get_elem? s.pieces i ≡ some Piece.missing) × (before ≡ []))
      ⊎ ((get_elem? s.pieces i ≡ some (Piece.in_flight before)) × (s.missing ≡ 0))

  abbrev pub Assignment : K → Option ℕ → Scheduler K → Scheduler K → Type 0
  Assignment k none s s' = s' ≡ s
  Assignment k (some i) s s' = (before : List K) × WasAsked before i s × Assigned k i before s s'

  module _ (k : K) (s : Scheduler K) (v : Inv s) (bits : List Bool)
      (known : HashMap.get k s.peers ≡ some bits) where
    here : is_some (HashMap.get k s.peers) ≡ true
    here = rw known

    abbrev AssignedTo : Option ℕ → Type 0
    AssignedTo none = (s' : Scheduler K) × (s' ≡ s)
    AssignedTo (some i) = (s' : Scheduler K) × (assign i k s ≡ some s') × Assignment k (some i) s s'

    wanted-Assigned : (i : ℕ) → wants s bits i ≡ true → AssignedTo (some i)
    wanted-Assigned i h =
        let missing_here : get_elem? s.pieces i ≡ some Piece.missing = ground arith in
        let (s', done_it, a) = assign_missing k i s v here missing_here in
        (s', done_it, ([], inl (missing_here, refl), a))

    asked-Assigned : (i n : ℕ) → s.missing ≡ 0 → asks s bits k i ≡ some (i, n) → AssignedTo (some i)
    asked-Assigned i n m h = by_piece (get_elem? s.pieces i) refl
      where
        by_piece : (p : Option (Piece K)) → get_elem? s.pieces i ≡ p → AssignedTo (some i)
        by_piece none at_i = absurd (ground (arith, at_i))
        by_piece (some Piece.missing) at_i = absurd (ground (arith, at_i))
        by_piece (some Piece.done) at_i = absurd (ground (arith, at_i))
        by_piece (some (Piece.in_flight by)) at_i =
            let (s', done_it, a) =
              assign_in_flight k i s v here by at_i (ground (arith, at_i)) (ground (arith, at_i)) in
            (s', done_it, (by, inr (at_i, m), a))

    Chosen-Assigned : (r : Option ℕ) → Chosen s bits k r → AssignedTo r
    Chosen-Assigned r (urgent i f e') = rw e' (wanted-Assigned i f.2)
    Chosen-Assigned r (rare i f held w least first e') = rw e' (wanted-Assigned i w)
    Chosen-Assigned r (shared i n m a least first e') = rw e' (asked-Assigned i n m a)
    Chosen-Assigned r (nothing none_wanted none_asked e') = rw e' (s, refl)

    -- For a connected peer of a well-formed scheduler `pick` never panics. It takes the first
    -- wanted piece of the urgent window; or else, of the first 64 wanted pieces from the
    -- playhead on, one with the fewest holders; or else, if no piece is missing, one that the
    -- fewest peers were asked for, of those that may be shared with this peer; and nothing only
    -- if there is none of these. Of equals it takes the one with the lowest index. It records
    -- the request, and only it.
    pub pick-Chosen :
        (r : Option ℕ) × ((s' : Scheduler K) × (pick k s ≡ some (r, s'))
          × Chosen s bits k r
          × Assignment k r s s')
    unfolding pick
    pick-Chosen =
        let (r, chose, c) = choose-Chosen s bits k v known in
        (r, by_choice r chose c (Chosen-Assigned r c))
      where
        by_choice :
            (r : Option ℕ)
            → choose s bits k ≡ some r
            → Chosen s bits k r
            → AssignedTo r
            → (s' : Scheduler K) × (pick k s ≡ some (r, s'))
              × Chosen s bits k r
              × Assignment k r s s'
        by_choice none chose c a = (s, rw (known, pick) (rw chose), c, refl)
        by_choice (some i) chose c (s', done_it, a) =
            (s', rw (known, pick) (rw (chose, done_it)), c, a)

  -- A peer that is not connected is asked for nothing.
  pub pick_unknown :
      (k : K) (s : Scheduler K) → HashMap.get k s.peers ≡ none → pick k s ≡ some (none, s)
  unfolding pick
  pick_unknown k s h = rw (h, pick)
