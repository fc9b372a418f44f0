-- ===== src/Scheduler/Pick.antt =====
-- `Scheduler::pick` of scheduler.rs: the urgent window, then rarest first, then the endgame.
use chorrent.Common.{
  ℕ, ◌+◌, ◌-◌, min, Bool, true, false, ◌&&◌, ◌||◌, not, Option, none, some, List, [], ◌∷◌, ◌++◌, Eq,
  nat_beq, ltb, leb, if◌then◌else◌, ◌>>=◌, length, get_elem?, set, contains, range,
}
use chorrent.Common.HashMap
use chorrent.Scheduler.{Piece, Scheduler, is_missing_piece, decrement}

abbrev pub endgame_duplicates : ℕ
endgame_duplicates = 3

abbrev pub rarest_sample : ℕ
rarest_sample = 64

-- Keep the first of the candidates with the least number.
abbrev pub better : ℕ × ℕ → Option (ℕ × ℕ) → Option (ℕ × ℕ)
better c none = some c
better (i, n) (some (j, m)) = if ltb n m then some (i, n) else some (j, m)

abbrev pub index_of : Option (ℕ × ℕ) → Option ℕ
index_of none = none
index_of (some (i, n)) = some i

abbrev pub consider : Option (ℕ × ℕ) → Option (ℕ × ℕ) → Option (ℕ × ℕ)
consider none best = best
consider (some c) best = better c best

abbrev pub or_else : Option ℕ → Option (Option ℕ) → Option (Option ℕ)
or_else (some i) next = some (some i)
or_else none next = next

module _ {K : Type 0} where
  -- The closure `wanted`.
  unfoldable pub wanted : Scheduler K → List Bool → ℕ → Option Bool
  wanted s bits i = do
    has ← get_elem? bits i
    if has then (do p ← get_elem? s.pieces i; some (is_missing_piece p)) else some false

  -- `window.find(wanted)`
  unfoldable pub find_wanted : Scheduler K → List Bool → List ℕ → Option (Option ℕ)
  find_wanted s bits [] = some none
  find_wanted s bits (i ∷ is) = elim (wanted s bits i) [
    | none ↦ none
    | some true ↦ some (some i)
    | some false ↦ find_wanted s bits is
  ]

  -- The loop of step 2, with `seen` and `best`.
  unfoldable pub rarest :
      Scheduler K → List Bool → List ℕ → ℕ → Option (ℕ × ℕ) → Option (Option (ℕ × ℕ))
  rarest s bits [] seen best = some best
  rarest s bits (i ∷ is) seen best = elim (wanted s bits i) [
    | none ↦ none
    | some false ↦ rarest s bits is seen best
    | some true ↦ do
      rarity ← get_elem? s.availability i
      let rest = rarest s bits is (seen + 1) (better (i, rarity) best)
      if leb rarest_sample (seen + 1) || leb rarity 1 then some (better (i, rarity) best) else rest
  ]

  unfoldable pub rarest_first : Scheduler K → List Bool → Option (Option ℕ)
  unfolding rarest
  rarest_first s bits =
      let start = s.first_not_done in
      let total = length s.pieces in
      if ltb 0 s.missing && ltb 0 total
      then (do
        best ← rarest s bits (range start (total - start) ++ range 0 start) 0 none
        some (index_of best))
      else some none

module _ {K : Type 0} ⦃e : Eq K⦄ where
  -- The closure of step 3: a piece that others fetch already.
  abbrev pub spare : K → ℕ → Piece K → Option (ℕ × ℕ)
  spare peer i (Piece.in_flight by) =
      if ltb (length by) endgame_duplicates && not (contains by peer)
      then some (i, length by)
      else none
  spare peer i _ = none

  unfoldable pub offer : Scheduler K → List Bool → K → ℕ → Option (Option (ℕ × ℕ))
  offer s bits peer i = do
    has ← get_elem? bits i
    if has then (do p ← get_elem? s.pieces i; some (spare peer i p)) else some none

  -- `min_by_key` over the candidates.
  unfoldable pub least_asked :
      Scheduler K → List Bool → K → List ℕ → Option (ℕ × ℕ) → Option (Option (ℕ × ℕ))
  least_asked s bits peer [] best = some best
  least_asked s bits peer (i ∷ is) best = do
    o ← offer s bits peer i
    least_asked s bits peer is (consider o best)

  unfoldable pub endgame : Scheduler K → List Bool → K → Option (Option ℕ)
  unfolding least_asked
  endgame s bits peer =
      let start = s.first_not_done in
      if nat_beq s.missing 0
      then (do
        best ← least_asked s bits peer (range start (length s.pieces - start)) none
        some (index_of best))
      else some none

  -- Steps 1 to 3.
  unfoldable pub choose : Scheduler K → List Bool → K → Option (Option ℕ)
  unfolding find_wanted rarest_first endgame
  choose s bits peer = do
    let start = s.first_not_done
    urgent ←
        find_wanted s bits (range start (min (start + s.urgent_window) (length s.pieces) - start))
    rare ← or_else urgent (rarest_first s bits)
    or_else rare (endgame s bits peer)

  -- The match that ends `pick`: the piece is now asked for.
  unfoldable pub assign : ℕ → K → Scheduler K → Option (Scheduler K)
  assign i peer s = elim (get_elem? s.pieces i) [
    | none ↦ none
    | some Piece.missing ↦ do
      fewer ← decrement s.missing
      some (record s { pieces = set s.pieces i (Piece.in_flight (peer ∷ [])); missing = fewer })
    | some (Piece.in_flight by) ↦
        some (record s { pieces = set s.pieces i (Piece.in_flight (by ++ peer ∷ [])) })
    | some Piece.done ↦ none
  ]

  unfoldable pub pick : K → Scheduler K → Option (Option ℕ × Scheduler K)
  unfolding choose assign
  pick peer s = elim (HashMap.get peer s.peers) [
    | none ↦ some (none, s)
    | some bits ↦ do
      choice ← choose s bits peer
      elim choice [ none ↦ some (none, s) | some i ↦ do s' ← assign i peer s; some (some i, s') ]
  ]
