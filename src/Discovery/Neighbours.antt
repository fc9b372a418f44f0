-- ===== src/Discovery/Neighbours.antt =====
-- What holds of a swarm at all times: discovery.rs (crates/chorrent/src).
use chorrent.Common.{
  ℕ, ◌-◌, ◌≡◌, ◌≢◌, refl, ◌∙◌, sym, ap, Bool, true, false, not, ◌&&◌, inl, inr, Option, none, some,
  List, [], ◌∷◌, ◌++◌, Eq, ◌==◌, ==_iff, arith, leb, nat_beq, nat_beq_iff, if◌then◌else◌, length,
  contains, Distinct, All, Bool-cases,
}
use mathlib.Core.Path.{subst}
use chorrent.Common.HashMap
use chorrent.Discovery.{
  rejoin_every, Addr, Happening, neighbor_up, neighbor_down, received, other, tick, Swarm, is_empty,
  insert_id, remove_id, bootstrap_known, start, heard, gossip, report, announce_to, rejoin, step,
  keep,
}

-- The newest count.
abbrev pub latest : List ℕ → ℕ
latest [] = 0
latest (n ∷ ns) = n

module _ {K : Type 0} ⦃e : Eq K⦄ where
  pub record IsSound (me : K) (s : Swarm K) : Type 0 where
    pub same_me : s.me ≡ me
    pub counted : latest s.peers ≡ length s.neighbours
    pub distinct : Distinct s.neighbours
    pub not_known : HashMap.get me s.known ≡ none
    pub not_found : All (λ (p : Addr K). p.0 ≢ me) s.found

  bootstrap_known-none :
      (me : K) (known : List (K × Addr K)) (ps : List (Addr K))
      → HashMap.get me known ≡ none
      → HashMap.get me (bootstrap_known me known ps) ≡ none
  unfolding bootstrap_known
  bootstrap_known-none me known [] h = h
  bootstrap_known-none me known (p ∷ ps) h = elim (Bool-cases (p.0 == me)) [
    | inl mine ↦ rw mine (bootstrap_known-none me known ps h)
    | inr differ ↦ rw differ (
        bootstrap_known-none me (HashMap.insert p.0 p known) ps
          (HashMap.get-insert p.0 me p known ∙ rw differ h))
  ]

  start-IsSound :
      (me : K) (announce wants_found : Bool) (bootstrap : List (Addr K)) (warm : List K) (now : ℕ)
      → IsSound me (start me announce wants_found bootstrap warm now)
  unfolding start HashMap.get
  start-IsSound me announce wants_found bootstrap warm now = record {
    same_me = refl;
    counted = refl;
    distinct = tt;
    not_known = bootstrap_known-none me [] bootstrap refl;
    not_found = tt;
  }

  contains-remove_id :
      (id x : K) (ids : List K) → contains ids x ≡ false → contains (remove_id id ids) x ≡ false
  contains-remove_id id x [] h = refl
  contains-remove_id id x (j ∷ ids) h = elim (Bool-cases (j == id)) [
    | inl same ↦ rw same (contains-remove_id id x ids (ground (arith, h)))
    | inr differ ↦ rw differ (ground (arith, h, contains-remove_id id x ids))
  ]

  remove_id-Distinct : (id : K) (ids : List K) → Distinct ids → Distinct (remove_id id ids)
  remove_id-Distinct id [] d = tt
  remove_id-Distinct id (j ∷ ids) (new, d) = elim (Bool-cases (j == id)) [
    | inl same ↦ rw same (remove_id-Distinct id ids d)
    | inr differ ↦ rw differ (contains-remove_id id j ids new, remove_id-Distinct id ids d)
  ]

  insert_id-Distinct : (id : K) (ids : List K) → Distinct ids → Distinct (insert_id id ids)
  insert_id-Distinct id ids d = elim (Bool-cases (contains ids id)) [
    | inl old ↦ rw old d
    | inr new ↦ rw new (new, d)
  ]

  -- The count before the event was right, so a report makes it right again.
  report-IsSound :
      (me : K) (before : ℕ) (s : Swarm K)
      → latest s.peers ≡ before
      → s.me ≡ me
      → Distinct s.neighbours
      → HashMap.get me s.known ≡ none
      → All (λ (p : Addr K). p.0 ≢ me) s.found
      → IsSound me (report before s)
  report-IsSound me before s counted same d unknown others =
      elim (Bool-cases (nat_beq (length s.neighbours) before)) [
        | inl stays ↦ rw stays (record {
          same_me = same;
          counted = counted ∙ sym ((nat_beq_iff (length s.neighbours) before).0 stays);
          distinct = d;
          not_known = unknown;
          not_found = others;
        })
        | inr changed ↦ rw changed (record {
          same_me = same;
          counted = refl;
          distinct = d;
          not_known = unknown;
          not_found = others;
        })
      ]

  All-append :
      (me : K) (l : List (Addr K)) (p : Addr K)
      → All (λ (q : Addr K). q.0 ≢ me) l
      → p.0 ≢ me
      → All (λ (q : Addr K). q.0 ≢ me) (l ++ (p ∷ []))
  All-append me [] p h n = (n, tt)
  All-append me (q ∷ l) p (h, hs) n = (h, All-append me l p hs n)

  gossip-IsSound :
      (me : K) (h : Happening K) (s : Swarm K)
      → IsSound me s
      → IsSound me (report (length s.neighbours) (gossip h s))
  gossip-IsSound me (neighbor_up id) s v =
      report-IsSound me (length s.neighbours) (gossip (neighbor_up id) s) v.counted v.same_me
        (insert_id-Distinct id s.neighbours v.distinct) v.not_known v.not_found
  gossip-IsSound me (neighbor_down id) s v =
      report-IsSound me (length s.neighbours) (gossip (neighbor_down id) s) v.counted v.same_me
        (remove_id-Distinct id s.neighbours v.distinct) v.not_known v.not_found
  gossip-IsSound me (received none) s v =
      report-IsSound me (length s.neighbours) s v.counted v.same_me v.distinct v.not_known
        v.not_found
  gossip-IsSound me (received (some addr)) s v = elim (Bool-cases (addr.0 == s.me)) [
    | inl mine ↦ rw mine (
        report-IsSound me (length s.neighbours) s v.counted v.same_me v.distinct v.not_known
          v.not_found)
    | inr differ ↦
        let not_me : addr.0 ≢ me =
          λ same. cc (differ, (==_iff addr.0 s.me).1 (same ∙ sym v.same_me)) in
        let not_same : (addr.0 == me) ≡ false =
          subst (λ m. (addr.0 == m) ≡ false) v.same_me differ in
        rw differ (
          report-IsSound me (length s.neighbours) (heard addr s) v.counted v.same_me v.distinct
            (HashMap.get-insert addr.0 me addr s.known ∙ rw not_same v.not_known)
            (sent s.wants_found not_me v))
  ]
    where
      sent :
          (b : Bool)
          → addr.0 ≢ me
          → IsSound me s
          → All (λ (p : Addr K). p.0 ≢ me) (if b then s.found ++ (addr ∷ []) else s.found)
      sent true n v = All-append me s.found addr v.not_found n
      sent false n v = v.not_found
  gossip-IsSound me other s v =
      report-IsSound me (length s.neighbours) s v.counted v.same_me v.distinct v.not_known
        v.not_found
  gossip-IsSound me (tick now own dialed) s v =
      report-IsSound me (length s.neighbours) s v.counted v.same_me v.distinct v.not_known
        v.not_found

  tick-IsSound :
      (me : K) (now : ℕ) (own : Addr K) (dialed : List K) (s : Swarm K)
      → IsSound me s
      → IsSound me (rejoin now dialed (announce_to own s))
  tick-IsSound me now own dialed s v = after_announce s.announce
    where
      again : (t : Swarm K) → IsSound me t → IsSound me (rejoin now dialed t)
      again t w =
          elim (Bool-cases (
            is_empty t.neighbours
            && (not (is_empty t.known) && leb rejoin_every (now - t.last_rejoin)))) [
              | inl go ↦ rw go (record {
                same_me = w.same_me;
                counted = w.counted;
                distinct = w.distinct;
                not_known = w.not_known;
                not_found = w.not_found;
              })
              | inr wait ↦ rw wait w
            ]

      after_announce :
          (b : Bool)
          → IsSound me (
              rejoin now dialed
                (if b then record s { announced = s.announced ++ (own ∷ []) } else s))
      after_announce true =
          again (record s { announced = s.announced ++ (own ∷ []) })
            (record {
              same_me = v.same_me;
              counted = v.counted;
              distinct = v.distinct;
              not_known = v.not_known;
              not_found = v.not_found;
            })
      after_announce false = again s v

  step-IsSound : (me : K) (h : Happening K) (s : Swarm K) → IsSound me s → IsSound me (step h s)
  unfolding step
  step-IsSound me (neighbor_up id) s v = gossip-IsSound me (neighbor_up id) s v
  step-IsSound me (neighbor_down id) s v = gossip-IsSound me (neighbor_down id) s v
  step-IsSound me (received o) s v = gossip-IsSound me (received o) s v
  step-IsSound me other s v = gossip-IsSound me other s v
  step-IsSound me (tick now own dialed) s v = tick-IsSound me now own dialed s v

  -- Whether the last thing that gossip said of a peer is that it is up; `before` if it said nothing.
  abbrev pub is_up : K → List (Happening K) → Bool → Bool
  is_up x [] before = before
  is_up x (neighbor_up id ∷ hs) before = is_up x hs (if id == x then true else before)
  is_up x (neighbor_down id ∷ hs) before = is_up x hs (if id == x then false else before)
  is_up x (received o ∷ hs) before = is_up x hs before
  is_up x (other ∷ hs) before = is_up x hs before
  is_up x (tick now own dialed ∷ hs) before = is_up x hs before

  contains-insert_id :
      (id x : K) (ids : List K)
      → contains (insert_id id ids) x ≡ (if id == x then true else contains ids x)
  contains-insert_id id x ids = ground (arith, ==_iff id x)

  contains-removed :
      (id x : K) (ids : List K)
      → contains (remove_id id ids) x ≡ (if id == x then false else contains ids x)
  contains-removed id x [] = ground arith
  contains-removed id x (j ∷ ids) =
      ground (arith, contains-removed id x ids, ==_iff j id, ==_iff j x, ==_iff id x)

  report-neighbours : (n : ℕ) (s : Swarm K) → (report n s).neighbours ≡ s.neighbours
  report-neighbours n s = elim (Bool-cases (nat_beq (length s.neighbours) n)) [
    | inl same ↦ rw same refl
    | inr differ ↦ rw differ refl
  ]

  heard-neighbours :
      (o : Option (Addr K)) (s : Swarm K) → (gossip (received o) s).neighbours ≡ s.neighbours
  heard-neighbours none s = refl
  heard-neighbours (some addr) s = elim (Bool-cases (addr.0 == s.me)) [
    | inl mine ↦ rw mine refl
    | inr differ ↦ rw differ refl
  ]

  tick-neighbours :
      (now : ℕ) (own : Addr K) (dialed : List K) (s : Swarm K)
      → (rejoin now dialed (announce_to own s)).neighbours ≡ s.neighbours
  tick-neighbours now own dialed s = again (announce_to own s) ∙ announced s.announce
    where
      again : (t : Swarm K) → (rejoin now dialed t).neighbours ≡ t.neighbours
      again t =
          elim (Bool-cases (
            is_empty t.neighbours
            && (not (is_empty t.known) && leb rejoin_every (now - t.last_rejoin)))) [
              | inl go ↦ rw go refl
              | inr wait ↦ rw wait refl
            ]

      announced :
          (b : Bool)
          → (if b then record s { announced = s.announced ++ (own ∷ []) } else s).neighbours
            ≡ s.neighbours
      announced true = refl
      announced false = refl

  -- The neighbours are the peers that are up.
  keep-neighbours :
      (x : K) (hs : List (Happening K)) (s : Swarm K)
      → contains (keep hs s).neighbours x ≡ is_up x hs (contains s.neighbours x)
  unfolding keep step
  keep-neighbours x [] s = refl
  keep-neighbours x (neighbor_up id ∷ hs) s =
      keep-neighbours x hs (step (neighbor_up id) s)
      ∙ ap (is_up x hs) (
          ap (λ l. contains l x) (report-neighbours (length s.neighbours) _)
          ∙ contains-insert_id id x s.neighbours)
  keep-neighbours x (neighbor_down id ∷ hs) s =
      keep-neighbours x hs (step (neighbor_down id) s)
      ∙ ap (is_up x hs) (
          ap (λ l. contains l x) (report-neighbours (length s.neighbours) _)
          ∙ contains-removed id x s.neighbours)
  keep-neighbours x (received o ∷ hs) s =
      keep-neighbours x hs (step (received o) s)
      ∙ ap (λ l. is_up x hs (contains l x))
          (report-neighbours (length s.neighbours) _ ∙ heard-neighbours o s)
  keep-neighbours x (other ∷ hs) s =
      keep-neighbours x hs (step other s)
      ∙ ap (λ l. is_up x hs (contains l x)) (report-neighbours (length s.neighbours) _)
  keep-neighbours x (tick now own dialed ∷ hs) s =
      keep-neighbours x hs (step (tick now own dialed) s)
      ∙ ap (λ l. is_up x hs (contains l x)) (tick-neighbours now own dialed s)

  keep-IsSound_from :
      (me : K) (hs : List (Happening K)) (s : Swarm K) → IsSound me s → IsSound me (keep hs s)
  unfolding keep
  keep-IsSound_from me [] s v = v
  keep-IsSound_from me (h ∷ hs) s v = keep-IsSound_from me hs (step h s) (step-IsSound me h s v)

  -- After any events of gossip and ticks, the neighbours are exactly the peers of which gossip
  -- last said that they are up. None is listed twice, the last count that was reported is their
  -- number, and we are neither among the peers to join again through nor among those that were
  -- passed to the download.
  pub keep-IsSound :
      (me : K) (announce wants_found : Bool) (bootstrap : List (Addr K)) (warm : List K) (now : ℕ)
      (hs : List (Happening K))
      → IsSound me (keep hs (start me announce wants_found bootstrap warm now))
        × ((x : K)
            → contains (keep hs (start me announce wants_found bootstrap warm now)).neighbours x
              ≡ is_up x hs false)
  unfolding start
  keep-IsSound me announce wants_found bootstrap warm now hs = (
    keep-IsSound_from me hs (start me announce wants_found bootstrap warm now)
        (start-IsSound me announce wants_found bootstrap warm now),
    λ x. keep-neighbours x hs (start me announce wants_found bootstrap warm now),
  )
