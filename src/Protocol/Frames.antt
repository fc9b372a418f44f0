-- ===== src/Protocol/Frames.antt =====
-- The frames of protocol.rs (crates/chorrent/src): `write_frame`, `read_frame` and `expect_frame`.
-- The streams are iroh's, with `write_all` and `read_exact`; `serialize` and `deserialize` are
-- postcard's. An error keeps its reason in place of a message.
use chorrent.Common.{
  ℕ, zero, suc, ◌+◌, ◌*◌, ◌/◌, ◌%◌, Option, none, some, List, [], ◌∷◌, ◌++◌, length, ltb,
  if◌then◌else◌, Result, ok, err,
}

-- `MAX_FRAME`
abbrev pub max_frame : ℕ
max_frame = 16 * 1024 * 1024

-- What iroh's `read_exact` fails with: how much came before the end, or another error.
pub data ReadExactError : Type 0 where
  finished_early : ℕ → ReadExactError
  read_failed : ReadExactError

-- The reasons of `ProtocolError`.
pub data ProtocolError : Type 0 where
  unserializable not_sent not_received undecodable closed : ProtocolError
  too_large : ℕ → ProtocolError

-- `(n as u32).to_le_bytes()`
abbrev pub to_le_bytes : ℕ → List ℕ
to_le_bytes n = n % 256 ∷ n / 256 % 256 ∷ n / 65536 % 256 ∷ n / 16777216 % 256 ∷ []

-- `u32::from_le_bytes`
abbrev pub from_le_bytes : List ℕ → ℕ
from_le_bytes [] = 0
from_le_bytes (b ∷ bs) = b + 256 * from_le_bytes bs

-- The length, then the body.
abbrev pub frame : List ℕ → List ℕ
frame body = to_le_bytes (length body) ++ body

module _ {T SendStream : Type 0} (serialize : T → Option (List ℕ))
    (write_all : SendStream → List ℕ → Option SendStream) where
  unfoldable pub write_frame : SendStream → T → Result ProtocolError SendStream
  write_frame send msg = elim (serialize msg) [
    | none ↦ err unserializable
    | some body ↦ elim (write_all send (frame body)) [ none ↦ err not_sent | some send' ↦ ok send' ]
  ]

module _ {T RecvStream : Type 0} (deserialize : List ℕ → Option T)
    (read_exact : RecvStream → ℕ → Result ReadExactError (List ℕ × RecvStream)) where
  -- After the body came.
  unfoldable pub read_body :
      Result ReadExactError (List ℕ × RecvStream) → Result ProtocolError (Option T × RecvStream)
  read_body (err e) = err not_received
  read_body (ok (body, recv)) = elim (deserialize body) [
    | none ↦ err undecodable
    | some msg ↦ ok (some msg, recv)
  ]

  -- After the length came.
  unfoldable pub read_rest :
      Result ReadExactError (List ℕ × RecvStream)
      → RecvStream
      → Result ProtocolError (Option T × RecvStream)
  unfolding read_body
  read_rest (err (finished_early zero)) recv = ok (none, recv)
  read_rest (err (finished_early (suc n))) recv = err not_received
  read_rest (err read_failed) recv = err not_received
  read_rest (ok (bytes, recv)) _ =
      let len = from_le_bytes bytes in
      if ltb max_frame len then err (too_large len) else read_body (read_exact recv len)

  unfoldable pub read_frame : RecvStream → Result ProtocolError (Option T × RecvStream)
  unfolding read_rest
  read_frame recv = read_rest (read_exact recv 4) recv

  unfoldable pub expect_frame : RecvStream → Result ProtocolError (T × RecvStream)
  unfolding read_frame
  expect_frame recv = elim (read_frame recv) [
    | err e ↦ err e
    | ok (none, recv') ↦ err closed
    | ok (some msg, recv') ↦ ok (msg, recv')
  ]
