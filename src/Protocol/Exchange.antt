-- ===== src/Protocol/Exchange.antt =====
-- A frame of protocol.rs (crates/chorrent/src) that is written and read again.
use chorrent.Common.{
  ℕ, ◌^◌, ◌≤◌, ◌<◌, ◌≡◌, refl, Bool, true, false, Option, some, List, ◌++◌, arith, length, leb, ltb,
  Result, ok, err,
}
use chorrent.Protocol.Frames.{
  max_frame, ReadExactError, too_large, to_le_bytes, from_le_bytes, frame, write_frame, read_body,
  read_rest, read_frame, expect_frame,
}

from_le_bytes-to_le_bytes : (n : ℕ) → n < 2 ^ 32 → from_le_bytes (to_le_bytes n) ≡ n
from_le_bytes-to_le_bytes n lt = omega arith

module _ {T SendStream RecvStream : Type 0} (serialize : T → Option (List ℕ))
    (deserialize : List ℕ → Option T) (write_all : SendStream → List ℕ → Option SendStream)
    (read_exact : RecvStream → ℕ → Result ReadExactError (List ℕ × RecvStream))
    (Sent : SendStream → List ℕ → Type 0) (Holds : RecvStream → List ℕ → Type 0)
    (writes : (s : SendStream) (sent bytes : List ℕ)
      → Sent s sent
      → (s' : SendStream) × (write_all s bytes ≡ some s') × Sent s' (sent ++ bytes))
    (reads : (r : RecvStream) (bytes rest : List ℕ)
      → Holds r (bytes ++ rest)
      → (r' : RecvStream) × (read_exact r (length bytes) ≡ ok (bytes, r')) × Holds r' rest) where
  -- What the reader of the frame gets.
  pub record Received (msg : T) (rest : List ℕ) (r : RecvStream) : Type 0 where
    pub after : RecvStream
    pub received : expect_frame deserialize read_exact r ≡ ok (msg, after)
    pub left : Holds after rest

  written :
      (msg : T) (body sent : List ℕ) (s : SendStream)
      → serialize msg ≡ some body
      → Sent s sent
      → (s' : SendStream) × (write_frame serialize write_all s msg ≡ ok s')
        × Sent s' (sent ++ frame body)
  unfolding write_frame
  written msg body sent s h open_stream =
      let (s', wrote, now) = writes s sent (frame body) open_stream in
      (s', rw (h, write_frame, wrote) refl, now)

  small_frame :
      (msg : T) (body rest : List ℕ) (r : RecvStream)
      → deserialize body ≡ some msg
      → length body ≤ max_frame
      → Holds r (frame body ++ rest)
      → Received msg rest r
  unfolding read_frame expect_frame
  small_frame msg body rest r h small holds =
      let (r1, got_length, more) = reads r (to_le_bytes (length body)) (body ++ rest) holds in
      let (r2, got_body, left) = reads r1 body rest more in
      let fits : ltb max_frame (length body) ≡ false = ground arith in
      record {
        after = r2;
        received =
            rw
              (
                expect_frame,
                read_frame,
                got_length,
                read_rest,
                from_le_bytes-to_le_bytes (length body) (omega arith),
                fits,
                got_body,
                read_body,
                h,
              )
              refl;
        left = left;
      }

  large_frame :
      (body rest : List ℕ) (r : RecvStream)
      → max_frame < length body
      → length body < 2 ^ 32
      → Holds r (frame body ++ rest)
      → expect_frame deserialize read_exact r ≡ err (too_large (length body))
  unfolding read_frame expect_frame
  large_frame body rest r large lt holds =
      let (r1, got_length, more) = reads r (to_le_bytes (length body)) (body ++ rest) holds in
      let over : ltb max_frame (length body) ≡ true = ground arith in
      rw
        (
          expect_frame,
          read_frame,
          got_length,
          read_rest,
          from_le_bytes-to_le_bytes (length body) lt,
          over,
        )
        refl

  -- What the reader answers to a frame that is small enough, or not.
  abbrev pub Answer : Bool → T → List ℕ → List ℕ → RecvStream → Type 0
  Answer true msg body rest r = Received msg rest r
  Answer false msg body rest r =
      expect_frame deserialize read_exact r ≡ err (too_large (length body))

  -- On streams that deliver what was written, `write_frame` of a message that postcard writes
  -- and reads back, in less than 2 ^ 32 bytes, sends one frame. `expect_frame` then gives the
  -- message and leaves what follows the frame if the body has at most `MAX_FRAME` bytes, and
  -- otherwise refuses it as too large.
  pub expect_frame-write_frame :
      (msg : T) (body sent rest : List ℕ) (s : SendStream) (r : RecvStream)
      → serialize msg ≡ some body
      → deserialize body ≡ some msg
      → length body < 2 ^ 32
      → Sent s sent
      → Holds r (frame body ++ rest)
      → ((s' : SendStream) × (write_frame serialize write_all s msg ≡ ok s')
          × Sent s' (sent ++ frame body))
        × Answer (leb (length body) max_frame) msg body rest r
  expect_frame-write_frame msg body sent rest s r h reads_back lt open_stream holds =
      (written msg body sent s h open_stream, by_size (leb (length body) max_frame) refl)
    where
      by_size : (small : Bool) → leb (length body) max_frame ≡ small → Answer small msg body rest r
      by_size true e = small_frame msg body rest r reads_back (ground arith) holds
      by_size false e = large_frame body rest r (ground arith) lt holds
