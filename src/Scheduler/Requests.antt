-- ===== src/Scheduler/Requests.antt =====
-- The request lists of the pieces in flight, and what a scheduler keeps of them.
use chorrent.Common.{
  ==_iff, ℕ, ◌≤◌, ◌<◌, ◌≡◌, refl, Bool, true, false, ◌||◌, some, List, [], ◌∷◌, ◌++◌, Eq, ◌==◌, inl,
  inr, arith, Bool-cases, length, get_elem?, set, nat_beq, if◌then◌else◌, contains, Distinct,
  is_some, get_elem?-set, length-append,
}
use chorrent.Common.HashMap
use chorrent.Scheduler.{Piece, Scheduler, retain_others}
use chorrent.Scheduler.Pick.{endgame_duplicates}
use chorrent.Scheduler.Counts.{total_missing, total_done, IsPlayhead}

module _ {K : Type 0} ⦃e : Eq K⦄ where
  -- A request list: somebody was asked, at most `endgame_duplicates` peers were, none of them
  -- twice, and all of them are connected.
  pub record IsRequested (peers : List (K × List Bool)) (by : List K) : Type 0 where
    pub nonempty : 0 < length by
    pub few : length by ≤ endgame_duplicates
    pub distinct : Distinct by
    pub connected : (k : K) → contains by k ≡ true → is_some (HashMap.get k peers) ≡ true

  abbrev pub Requests : List (K × List Bool) → List (Piece K) → Type 0
  Requests peers ps =
      (i : ℕ) (by : List K) → get_elem? ps i ≡ some (Piece.in_flight by) → IsRequested peers by

  -- The counters, the playhead and the request lists agree with the pieces.
  pub record IsConsistent (peers : List (K × List Bool)) (s : Scheduler K) : Type 0 where
    pub missing_counted : s.missing ≡ total_missing s.pieces
    pub done_counted : s.done ≡ total_done s.pieces
    pub at_playhead : IsPlayhead s.pieces s.first_not_done
    pub requests : Requests peers s.pieces

  pub contains-retain_others :
      (peer k : K) (by : List K)
      → contains (retain_others peer by) k ≡ (if peer == k then false else contains by k)
  unfolding retain_others
  contains-retain_others peer k [] = ground arith
  contains-retain_others peer k (p ∷ ps) =
      ground (arith, contains-retain_others peer k ps, ==_iff p peer, ==_iff p k, ==_iff peer k)

  pub retain_others-Distinct :
      (peer : K) (by : List K) → Distinct by → Distinct (retain_others peer by)
  unfolding retain_others
  retain_others-Distinct peer [] d = tt
  retain_others-Distinct peer (p ∷ ps) d =
      ground (arith, retain_others-Distinct peer ps d.1, contains-retain_others peer p ps)

  pub length-retain_others : (peer : K) (by : List K) → length (retain_others peer by) ≤ length by
  unfolding retain_others
  length-retain_others peer [] = omega arith
  length-retain_others peer (p ∷ ps) = ground (arith, length-retain_others peer ps)

  pub contains-append_one :
      (by : List K) (peer k : K) → contains (by ++ peer ∷ []) k ≡ (contains by k || (peer == k))
  contains-append_one [] peer k = ground arith
  contains-append_one (p ∷ ps) peer k = ground (arith, contains-append_one ps peer k)

  pub Distinct-append_one :
      (by : List K) (peer : K) → contains by peer ≡ false → Distinct by → Distinct (by ++ peer ∷ [])
  Distinct-append_one [] peer h d = (refl, tt)
  Distinct-append_one (p ∷ ps) peer h d = (
    ground (arith, contains-append_one ps peer p, ==_iff p peer, ==_iff peer p, d.0),
    Distinct-append_one ps peer (ground arith) d.1,
  )

  -- What stays of a request list when one peer is dropped.
  pub retain_others-IsRequested :
      (peers : List (K × List Bool)) (peer : K) (by left : List K)
      → retain_others peer by ≡ left
      → 0 < length left
      → IsRequested peers by
      → IsRequested peers left
  retain_others-IsRequested peers peer by left e' some_left r = record {
    nonempty = some_left;
    few = rw (← e') (omega (arith, length-retain_others peer by, r.few));
    distinct = rw (← e') (retain_others-Distinct peer by r.distinct);
    connected = λ k held. r.connected k (ground (arith, contains-retain_others peer k by, e'));
  }

  pub append_one-IsRequested :
      (peers : List (K × List Bool)) (peer : K) (by : List K)
      → IsRequested peers by
      → length by < endgame_duplicates
      → contains by peer ≡ false
      → is_some (HashMap.get peer peers) ≡ true
      → IsRequested peers (by ++ peer ∷ [])
  append_one-IsRequested peers peer by r room new here = record {
    nonempty = omega (arith, length-append {0} by (peer ∷ []));
    few = omega (arith, length-append {0} by (peer ∷ []));
    distinct = Distinct-append_one by peer new r.distinct;
    connected = λ k held. elim (Bool-cases (contains by k)) [
      | inl old ↦ r.connected k old
      | inr fresh ↦ rw (← (==_iff peer k).0 (ground (arith, contains-append_one by peer k))) here
    ];
  }

  pub Requests-set :
      (peers : List (K × List Bool)) (ps : List (Piece K)) (i : ℕ) (q : Piece K)
      → i < length ps
      → ((by : List K) → q ≡ Piece.in_flight by → IsRequested peers by)
      → Requests peers ps
      → Requests peers (set ps i q)
  Requests-set peers ps i q lt fits r j by h = elim (Bool-cases (nat_beq i j)) [
    | inl same ↦ fits by (ground (arith, get_elem?-set ps i j q lt))
    | inr other ↦ r j by (ground (arith, get_elem?-set ps i j q lt))
  ]

  -- Who is connected matters only for the peers that a piece is asked of.
  pub other_peers-IsConsistent :
      (peers peers' : List (K × List Bool)) (s : Scheduler K)
      → ((i : ℕ) (by : List K)
          → get_elem? s.pieces i ≡ some (Piece.in_flight by)
          → (j : K) → contains by j ≡ true
          → is_some (HashMap.get j peers) ≡ true
          → is_some (HashMap.get j peers') ≡ true)
      → IsConsistent peers s
      → IsConsistent peers' s
  other_peers-IsConsistent peers peers' s keeps c = record {
    missing_counted = c.missing_counted;
    done_counted = c.done_counted;
    at_playhead = c.at_playhead;
    requests = λ i by h.
        let r = c.requests i by h in
        record {
          nonempty = r.nonempty;
          few = r.few;
          distinct = r.distinct;
          connected = λ j held. keeps i by h j held (r.connected j held);
        };
  }
