-- ===== src/Discovery.antt =====
-- discovery.rs (crates/chorrent/src): staying in a share's swarm. `keep` is a loop over what gossip says
-- and over the ticks of a timer: a step for each. Decoding an announcement (postcard), dialing and
-- gossip itself (iroh) are arguments: what came of them. A moment is its number of nanoseconds.
pub mod Neighbours
pub mod Tests
use chorrent.Common.{
  ℕ, ◌-◌, ◌*◌, Bool, true, false, not, ◌&&◌, Option, none, some, List, [], ◌∷◌, ◌++◌, map, Eq, ◌==◌,
  leb, nat_beq, if◌then◌else◌, length, contains,
}
use chorrent.Common.HashMap

-- `REJOIN_EVERY`
abbrev pub rejoin_every : ℕ
rejoin_every = 15 * 1000000000

-- A peer's id, and its paths; there may be none.
abbrev pub Addr : Type 0 → Type 0
Addr K = K × List ℕ

-- What gossip says, and the ticks: the moment, our own address, and the connections that dialing gives.
pub data Happening (K : Type 0) : Type 0 where
  neighbor_up neighbor_down : K → Happening K
  received : Option (Addr K) → Happening K
  other : Happening K
  tick : ℕ → Addr K → List K → Happening K

-- `peers` are the counts of the events `SwarmPeers`, the newest first; `found` is what was sent to the
-- download, if it wants peers; `announced` and `joined` are what was told to gossip.
pub record Swarm (K : Type 0) : Type 0 where
  pub me : K
  pub announce : Bool
  pub wants_found : Bool
  pub neighbours : List K
  pub known : List (K × Addr K)
  pub warm : List K
  pub last_rejoin : ℕ
  pub peers : List ℕ
  pub found : List (Addr K)
  pub announced : List (Addr K)
  pub joined : List (List K)

abbrev pub is_empty : {A : Type 0} → List A → Bool
is_empty [] = true
is_empty (x ∷ xs) = false

module _ {K : Type 0} ⦃e : Eq K⦄ where
  -- The peers that are dialed: `predial`.
  unfoldable pub to_dial : K → List (Addr K) → List (Addr K)
  to_dial me [] = []
  to_dial me ((id, paths) ∷ peers) =
      let rest = to_dial me peers in
      if not (id == me) && not (is_empty paths) then (id, paths) ∷ rest else rest

  -- `HashSet::insert` and `remove`
  abbrev pub insert_id : K → List K → List K
  insert_id id ids = if contains ids id then ids else id ∷ ids

  abbrev pub remove_id : K → List K → List K
  remove_id id [] = []
  remove_id id (j ∷ ids) = let rest = remove_id id ids in if j == id then rest else j ∷ rest

  -- The peers of the share code, without ourselves.
  unfoldable pub bootstrap_known : K → List (K × Addr K) → List (Addr K) → List (K × Addr K)
  bootstrap_known me known [] = known
  bootstrap_known me known (p ∷ ps) =
      bootstrap_known me (if p.0 == me then known else HashMap.insert p.0 p known) ps

  unfoldable pub start : K → Bool → Bool → List (Addr K) → List K → ℕ → Swarm K
  unfolding bootstrap_known
  start me announce wants_found bootstrap warm now = record {
    me = me;
    announce = announce;
    wants_found = wants_found;
    neighbours = [];
    known = bootstrap_known me [] bootstrap;
    warm = warm;
    last_rejoin = now;
    peers = 0 ∷ [];
    found = [];
    announced = [];
    joined = [];
  }

  abbrev pub heard : Addr K → Swarm K → Swarm K
  heard addr s = record s {
    known = HashMap.insert addr.0 addr s.known;
    found = if s.wants_found then s.found ++ (addr ∷ []) else s.found;
  }

  -- The match on an event of gossip.
  abbrev pub gossip : Happening K → Swarm K → Swarm K
  gossip (neighbor_up id) s = record s { neighbours = insert_id id s.neighbours }
  gossip (neighbor_down id) s = record s { neighbours = remove_id id s.neighbours }
  gossip (received none) s = s
  gossip (received (some addr)) s = if addr.0 == s.me then s else heard addr s
  gossip happening s = s

  -- After an event, with the number of neighbours before it.
  abbrev pub report : ℕ → Swarm K → Swarm K
  report before s = if nat_beq (length s.neighbours) before then s else record s {
    peers = length s.neighbours ∷ s.peers;
    warm = if is_empty s.neighbours then s.warm else [];
  }

  abbrev pub announce_to : Addr K → Swarm K → Swarm K
  announce_to own s = if s.announce then record s { announced = s.announced ++ (own ∷ []) } else s

  abbrev pub rejoin : ℕ → List K → Swarm K → Swarm K
  rejoin now dialed s =
      if is_empty s.neighbours && (not (is_empty s.known) && leb rejoin_every (now - s.last_rejoin))
      then record s {
        last_rejoin = now;
        warm = dialed;
        joined = s.joined ++ (map (λ (p : K × Addr K). p.0) s.known ∷ []);
      }
      else s

  -- One round of the loop.
  unfoldable pub step : Happening K → Swarm K → Swarm K
  step (tick now own dialed) s = rejoin now dialed (announce_to own s)
  step (neighbor_up id) s = report (length s.neighbours) (gossip (neighbor_up id) s)
  step (neighbor_down id) s = report (length s.neighbours) (gossip (neighbor_down id) s)
  step (received o) s = report (length s.neighbours) (gossip (received o) s)
  step other s = report (length s.neighbours) (gossip other s)

  -- `keep`, for what happens until gossip ends.
  unfoldable pub keep : List (Happening K) → Swarm K → Swarm K
  keep [] s = s
  keep (h ∷ hs) s = keep hs (step h s)
