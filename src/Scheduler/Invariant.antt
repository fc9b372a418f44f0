-- ===== src/Scheduler/Invariant.antt =====
-- The invariant of a scheduler: the operations of scheduler.rs keep it, and from a state in
-- which it holds none of them panics.
use chorrent.Common.{ℕ, ◌≡◌, Bool, false, some, List, Eq, length, get_or, if◌then◌else◌}
use chorrent.Common.HashMap
use chorrent.Scheduler.{Scheduler}
use chorrent.Scheduler.Requests.{IsConsistent}

abbrev pub bit_at : ℕ → List Bool → ℕ
bit_at i bits = if get_or bits i false then 1 else 0

module _ {K : Type 0} ⦃e : Eq K⦄ where
  -- Besides: every peer has a bit for each piece, and the availability of a piece is the number
  -- of connected peers that hold it.
  pub record Inv (s : Scheduler K) : Type 0 where
    pub consistent : IsConsistent s.peers s
    pub counted : length s.availability ≡ length s.pieces
    pub bits_fit :
        (k : K) (bits : List Bool)
        → HashMap.get k s.peers ≡ some bits
        → length bits ≡ length s.pieces
    pub unique : HashMap.Unique s.peers
    pub held : (i : ℕ) → get_or s.availability i 0 ≡ HashMap.tally (bit_at i) s.peers
