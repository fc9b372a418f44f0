-- ===== src/Protocol/Messages.antt =====
-- The messages of protocol.rs (crates/chorrent/src).
use chorrent.Common.{ℕ, Option, List}

-- A share's id, the token, and for a piece its number.
pub data Request : Type 0 where
  manifest subscribe : List ℕ → Option (List ℕ) → Request
  piece : List ℕ → Option (List ℕ) → ℕ → Request

-- What a peer answers.
pub data Response : Type 0 where
  manifest bitfield : List ℕ → Response
  have : ℕ → Response
  piece : List ℕ → Response
  dont_have not_found busy : Response
