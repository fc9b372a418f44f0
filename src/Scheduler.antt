-- ===== src/Scheduler.antt =====
-- scheduler.rs (crates/chorrent/src): which piece to ask which peer for next.
-- `none` where the source panics: an index out of range, a counter that would fall below zero
-- (a build with overflow checks), `unreachable!`. A `u32` count of peers is not bounded here.
pub mod Pick
pub mod Counts
pub mod Invariant
pub mod Requests
pub mod Drop
pub mod Remove
pub mod Peers
pub mod Bits
pub mod Failures
pub mod Progress
pub mod Least
pub mod Scan
pub mod Chosen
pub mod Assign
pub mod Run
pub mod Tests
use chorrent.Common.{
  ℕ, zero, suc, ◌+◌, ◌-◌, Bool, true, false, Option, none, some, List, [], ◌∷◌, Eq, ◌==◌, nat_beq,
  if◌then◌else◌, ◌>>=◌, length, get_elem?, set, replicate,
}
use chorrent.Common.HashMap

pub data Piece (K : Type 0) : Type 0 where
  missing : Piece K
  in_flight : List K → Piece K
  done : Piece K

pub record Scheduler (K : Type 0) : Type 0 where
  pub pieces : List (Piece K)
  pub availability : List ℕ
  pub peers : List (K × List Bool)
  pub urgent_window : ℕ
  pub first_not_done : ℕ
  pub missing : ℕ
  pub done : ℕ

-- `x -= 1` on an unsigned counter.
abbrev pub decrement : ℕ → Option ℕ
decrement zero = none
decrement (suc n) = some n

-- `have.iter().filter(|&&h| h).count()`
unfoldable pub count_true : List Bool → ℕ
count_true [] = 0
count_true (h ∷ hs) = (if h then 1 else 0) + count_true hs

-- The loop of `add_peer`, over the pieces that there are.
unfoldable pub raise : List Bool → List ℕ → List ℕ
raise [] counts = counts
raise (h ∷ hs) [] = []
raise (h ∷ hs) (n ∷ counts) = (if h then n + 1 else n) ∷ raise hs counts

-- The loop of `remove_peer` over the peer's bits.
unfoldable pub lower : List Bool → List ℕ → Option (List ℕ)
lower [] counts = some counts
lower (false ∷ hs) [] = lower hs []
lower (true ∷ hs) [] = none
lower (false ∷ hs) (n ∷ counts) = do rest ← lower hs counts; some (n ∷ rest)
lower (true ∷ hs) (n ∷ counts) = do m ← decrement n; rest ← lower hs counts; some (m ∷ rest)

module _ {K : Type 0} where
  -- The initial state of each piece.
  unfoldable pub start_pieces : List Bool → List (Piece K)
  start_pieces [] = []
  start_pieces (h ∷ hs) = (if h then Piece.done else Piece.missing) ∷ start_pieces hs

  abbrev pub is_done_piece : Option (Piece K) → Bool
  is_done_piece (some Piece.done) = true
  is_done_piece _ = false

  abbrev pub is_missing_piece : Piece K → Bool
  is_missing_piece Piece.missing = true
  is_missing_piece _ = false

  -- The loop condition of `advance_playhead`: past the end there is no piece to skip.
  abbrev pub done_at : List (Piece K) → ℕ → Bool
  done_at ps i = is_done_piece (get_elem? ps i)

  -- The loop itself, with the rounds that it may take.
  unfoldable pub playhead : ℕ → List (Piece K) → ℕ → ℕ
  playhead zero ps i = i
  playhead (suc rounds) ps i = elim (done_at ps i) [ true ↦ playhead rounds ps (suc i) | false ↦ i ]

  unfoldable pub advance_playhead : Scheduler K → Scheduler K
  unfolding playhead
  advance_playhead s = record s {
    first_not_done = playhead (length s.pieces) s.pieces s.first_not_done;
  }

  unfoldable pub new : List Bool → ℕ → Scheduler K
  unfolding advance_playhead start_pieces count_true
  new have urgent_window =
      let pieces = start_pieces have in
      let total_done = count_true have in
      advance_playhead (record {
        pieces = pieces;
        availability = replicate (length pieces) 0;
        peers = [];
        urgent_window = urgent_window;
        first_not_done = 0;
        missing = length pieces - total_done;
        done = total_done;
      })

  unfoldable pub is_done : Scheduler K → Bool
  is_done s = nat_beq s.done (length s.pieces)

  unfoldable pub complete : ℕ → Scheduler K → Option (Bool × Scheduler K)
  unfolding advance_playhead
  complete piece s = elim (get_elem? s.pieces piece) [
    | none ↦ none
    | some Piece.done ↦ some (false, record s { pieces = set s.pieces piece Piece.done })
    | some Piece.missing ↦ do
      fewer ← decrement s.missing
      some (
        true,
        advance_playhead (record s {
          pieces = set s.pieces piece Piece.done;
          missing = fewer;
          done = s.done + 1;
        }),
      )
    | some (Piece.in_flight by) ↦ some (
      true,
      advance_playhead (record s { pieces = set s.pieces piece Piece.done; done = s.done + 1 }),
    )
  ]

module _ {K : Type 0} ⦃e : Eq K⦄ where
  -- `by.retain(|p| p != peer)`
  unfoldable pub retain_others : K → List K → List K
  retain_others peer [] = []
  retain_others peer (p ∷ ps) =
      let rest = retain_others peer ps in if p == peer then rest else p ∷ rest

  -- What is left of a request list: an empty one puts the piece back.
  abbrev pub put_back : ℕ → List K → Scheduler K → Scheduler K
  put_back i [] s = record s { pieces = set s.pieces i Piece.missing; missing = s.missing + 1 }
  put_back i (p ∷ ps) s = record s { pieces = set s.pieces i (Piece.in_flight (p ∷ ps)) }

  unfoldable pub drop_request : ℕ → K → Scheduler K → Option (Scheduler K)
  unfolding retain_others
  drop_request i peer s = elim (get_elem? s.pieces i) [
    | none ↦ none
    | some (Piece.in_flight by) ↦ some (put_back i (retain_others peer by) s)
    | some _ ↦ some s
  ]

  -- `for i in 0..self.pieces.len()`, with the rounds that are left.
  unfoldable pub drop_requests : ℕ → ℕ → K → Scheduler K → Option (Scheduler K)
  drop_requests zero i peer s = some s
  drop_requests (suc rounds) i peer s = do
    s' ← drop_request i peer s
    drop_requests rounds (suc i) peer s'

  unfoldable pub remove_peer : K → Scheduler K → Option (Scheduler K)
  remove_peer peer s = elim (HashMap.get peer s.peers) [
    | none ↦ some s
    | some bits ↦ do
      counts ← lower bits s.availability
      drop_requests (length s.pieces) 0 peer
          (record s { peers = HashMap.remove peer s.peers; availability = counts })
  ]

  unfoldable pub add_peer : K → List Bool → Scheduler K → Option (Scheduler K)
  add_peer peer have s = do
    s' ← remove_peer peer s
    some (record s' {
      availability = raise have s'.availability;
      peers = HashMap.insert peer have s'.peers;
    })

  unfoldable pub set_peer_has : K → ℕ → Scheduler K → Option (Scheduler K)
  set_peer_has peer piece s = elim (HashMap.get peer s.peers) [
    | none ↦ some s
    | some bits ↦ elim (get_elem? bits piece) [
      | some false ↦ do
        count ← get_elem? s.availability piece
        some (record s {
          peers = HashMap.insert peer (set bits piece true) s.peers;
          availability = set s.availability piece (count + 1);
        })
      | _ ↦ some s
    ]
  ]

  -- The second half of `failed`: the peer turned out not to have the piece.
  unfoldable pub clear_bit : ℕ → K → Scheduler K → Option (Scheduler K)
  clear_bit piece peer s = elim (HashMap.get peer s.peers) [
    | none ↦ some s
    | some bits ↦ elim (get_elem? bits piece) [
      | none ↦ none
      | some false ↦ some s
      | some true ↦ do
        count ← get_elem? s.availability piece
        fewer ← decrement count
        some (record s {
          peers = HashMap.insert peer (set bits piece false) s.peers;
          availability = set s.availability piece fewer;
        })
    ]
  ]

  unfoldable pub failed : ℕ → K → Bool → Scheduler K → Option (Scheduler K)
  unfolding clear_bit
  failed piece peer peer_lacks_it s = do
    s' ← drop_request piece peer s
    if peer_lacks_it then clear_bit piece peer s' else some s'
