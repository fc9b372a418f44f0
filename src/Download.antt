-- ===== src/Download.antt =====
-- download.rs (crates/chorrent/src): the download engine, which fetches a share from many peers at
-- once. `Engine` is the state that its tasks share; the connections, the clock and the network are not
-- in it. A move is what one task does while it holds the state: an interleaving of the tasks is a list
-- of moves. `none` is a panic.
pub mod Agreed
pub mod History
pub mod Subscribed
pub mod Fetch
pub mod Tracker
pub mod Finish
pub mod FetchTests
pub mod FinishTests
pub mod Started
pub mod Tests
use chorrent.Common.{
  ℕ, ◌+◌, ◌-◌, Bool, true, false, not, ◌&&◌, ◌||◌, Option, none, some, List, [], ◌∷◌, ◌++◌, ◌>>=◌,
  Eq, ◌==◌, leb, nat_beq, if◌then◌else◌, length, contains, Result, ok, err,
}
use chorrent.Common.HashMap
use chorrent.Layout.{Layout, PieceLocation, locate}
use chorrent.Local.{LocalShare, LocalError, Calls, has, store_piece, have_count}
use chorrent.Protocol.Bits.{unpack_bits}
use chorrent.Protocol.Messages.{Response}
use chorrent.Protocol.Messages.Response.{
  manifest, bitfield, have, piece, dont_have, not_found, busy,
}
use chorrent.Scheduler.{
  Scheduler, new, count_true, retain_others, add_peer, set_peer_has, remove_peer, complete, failed,
  is_done,
}
use chorrent.Scheduler.Pick.{pick}

abbrev pub max_strikes : ℕ
max_strikes = 3

-- Why a piece could not be had.
pub data Reason : Type 0 where
  not_stored : LocalError → Reason
  task_failed request_failed : Reason

pub data Event (K : Type 0) : Type 0 where
  peer_discovered : K → Event K
  peer_connected : K → ℕ → ℕ → Event K
  peer_disconnected : K → Event K
  piece_verified : ℕ → ℕ → Event K
  piece_failed : ℕ → Reason → Event K

-- `strikes` are the counters of the peers' tasks; `finished` is a notice that waits.
pub record Engine (K Disk : Type 0) : Type 0 where
  pub share : LocalShare Disk
  pub sched : Scheduler K
  pub connected : List K
  pub strikes : List (K × ℕ)
  pub finished : Bool
  pub events : List (Event K)

abbrev or_zero : Option ℕ → ℕ
or_zero none = 0
or_zero (some n) = n

module _ {K Disk : Type 0} ⦃e : Eq K⦄ where
  abbrev pub say : Event K → Engine K Disk → Engine K Disk
  say event engine = record engine { events = engine.events ++ (event ∷ []) }

  abbrev pub strikes_of : Engine K Disk → K → ℕ
  strikes_of engine peer = or_zero (HashMap.get peer engine.strikes)

  abbrev pub set_strikes : K → ℕ → Engine K Disk → Engine K Disk
  set_strikes peer n engine = record engine { strikes = HashMap.insert peer n engine.strikes }

  unfoldable pub give_back : ℕ → K → Bool → Engine K Disk → Option (Engine K Disk)
  give_back index peer lacks engine = do
    sched ← failed index peer lacks engine.sched
    some (record engine { sched = sched })

  -- `self.share.piece_len(piece)`, in an event.
  abbrev pub verified : ℕ → Bool → Engine K Disk → Option (Engine K Disk)
  verified index false engine = some engine
  verified index true engine = do
    loc ← locate engine.share.layout index
    some (say (piece_verified index (loc.end - loc.start)) engine)

  -- The piece is stored: the scheduler is told, and everyone if it was the last one.
  unfoldable pub completed : ℕ → Engine K Disk → Option (Engine K Disk)
  completed index engine = do
    (newly, sched) ← complete index engine.sched
    engine' ← verified index newly (record engine { sched = sched })
    some (record engine' { finished = engine'.finished || is_done sched })

  -- After the blocking task that stores the piece; `none` if it panicked.
  unfoldable pub after_store :
      ℕ
      → K
      → Engine K Disk
      → Option (LocalShare Disk × Result LocalError Bool)
      → Option (Engine K Disk)
  unfolding give_back completed
  after_store index peer engine none = do
    engine' ← give_back index peer false engine
    some (say (piece_failed index task_failed) engine')
  after_store index peer engine (some (share, ok newly)) =
      completed index (set_strikes peer 0 (record engine { share = share }))
  after_store index peer engine (some (share, err why)) = do
    engine' ←
        give_back index peer true
          (set_strikes peer (strikes_of engine peer + 1) (record engine { share = share }))
    some (say (piece_failed index (not_stored why)) engine')

  -- Another answer, or none.
  abbrev pub no_use : ℕ → K → Engine K Disk → Option (Engine K Disk)
  no_use index peer engine = do
    engine' ← give_back index peer false (set_strikes peer (strikes_of engine peer + 1) engine)
    some (say (piece_failed index request_failed) engine')

  -- The first half: whether to go on, and the next piece.
  unfoldable pub asked : K → Engine K Disk → Option (Option ℕ × Engine K Disk)
  asked peer engine =
      if is_done engine.sched || leb max_strikes (strikes_of engine peer)
      then some (none, engine)
      else (do
        (picked, sched) ← pick peer engine.sched
        some (picked, record engine { sched = sched }))

  -- The engine with a new peer.
  abbrev pub arrived : K → List Bool → Scheduler K → Engine K Disk → Engine K Disk
  arrived peer bits sched engine =
      say (peer_connected peer (count_true bits) (length engine.share.have))
        (set_strikes peer 0 (record engine { sched = sched; connected = peer ∷ engine.connected }))

  -- The start of `run_peer` and `drive_peer`, with the peer's first bitfield.
  unfoldable pub joined : K → List ℕ → Engine K Disk → Option (Engine K Disk)
  joined peer bytes engine = if contains engine.connected peer then some engine else (do
    sched ← add_peer peer (unpack_bits bytes (length engine.share.have)) engine.sched
    some (arrived peer (unpack_bits bytes (length engine.share.have)) sched engine))

  -- The loop `updates` of `drive_peer`.
  unfoldable pub updated : K → Response → Engine K Disk → Option (Engine K Disk)
  updated peer (have index) engine = do
    sched ← set_peer_has peer index engine.sched
    some (record engine { sched = sched })
  updated peer (bitfield bytes) engine = do
    sched ← add_peer peer (unpack_bits bytes (length engine.share.have)) engine.sched
    some (record engine { sched = sched })
  updated peer other engine = some engine

  -- The engine without a peer that was used.
  abbrev pub departed : K → Scheduler K → Engine K Disk → Engine K Disk
  departed peer sched engine =
      let engine' = record engine {
        sched = sched;
        connected = retain_others peer engine.connected;
      } in
      if is_done sched then engine' else say (peer_disconnected peer) engine'

  -- The end of `run_peer`, when the peer was used.
  unfoldable pub left : K → Engine K Disk → Option (Engine K Disk)
  left peer engine = do sched ← remove_peer peer engine.sched; some (departed peer sched engine)

  module _ {Nodes : Type 0} (c : Calls Disk Nodes) where
    -- The second half of a round of `worker`: what a request for a piece came to.
    unfoldable pub answered : ℕ → K → Option Response → Engine K Disk → Option (Engine K Disk)
    unfolding after_store give_back
    answered index peer (some (piece encoded)) engine =
        after_store index peer engine (store_piece c engine.share index encoded)
    answered index peer (some dont_have) engine = give_back index peer true engine
    answered index peer (some busy) engine = give_back index peer false engine
    answered index peer (some not_found) engine =
        give_back index peer false (set_strikes peer max_strikes engine)
    answered index peer (some (manifest bytes)) engine = no_use index peer engine
    answered index peer (some (bitfield bytes)) engine = no_use index peer engine
    answered index peer (some (have index')) engine = no_use index peer engine
    answered index peer none engine = no_use index peer engine

-- What a task does while it holds the engine.
pub data Move (K : Type 0) : Type 0 where
  joins : K → List ℕ → Move K
  updates : K → Response → Move K
  asks : K → Move K
  answers : ℕ → K → Option Response → Move K
  leaves : K → Move K

module _ {K Disk Nodes : Type 0} ⦃e : Eq K⦄ (c : Calls Disk Nodes) where
  abbrev pub move : Move K → Engine K Disk → Option (Engine K Disk)
  move (joins peer bytes) engine = joined peer bytes engine
  move (updates peer r) engine = updated peer r engine
  move (asks peer) engine = do (picked, engine') ← asked peer engine; some engine'
  move (answers index peer r) engine = answered c index peer r engine
  move (leaves peer) engine = left peer engine

  -- The moves in their order.
  unfoldable pub run : List (Move K) → Engine K Disk → Option (Engine K Disk)
  run [] engine = some engine
  run (m ∷ ms) engine = do engine' ← move m engine; run ms engine'

-- `URGENT_WINDOW`
abbrev pub urgent_window : ℕ
urgent_window = 3

-- The engine at the start of `run`'s third part.
unfoldable pub new_engine : {K Disk : Type 0} → LocalShare Disk → Engine K Disk
new_engine share = record {
  share = share;
  sched = new share.have urgent_window;
  connected = [];
  strikes = [];
  finished = false;
  events = [];
}
