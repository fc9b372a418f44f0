-- ===== src/Handler/Subscription.antt =====
-- A subscription: `serve_subscription` of handler.rs beside the tasks that mark pieces (`mark_have` of
-- local.rs), and the peer that reads the frames (`updates` in download.rs, crates/chorrent/src). The
-- channel is tokio's broadcast: its messages in order, and how far the subscription has read. A reader
-- that is too slow is told so once, and goes on at some later message.
use chorrent.Common.{
  ℕ, zero, suc, ◌+◌, ◌≤◌, ◌%◌, ◌^◌, ◌≡◌, Bool, true, false, Option, none, some, List, [], ◌∷◌, ◌++◌,
  length, get_elem?, set, if◌then◌else◌,
}
use chorrent.Protocol.Bits.{pack_bits, unpack_bits}
use chorrent.Protocol.Messages.{Response}

-- What `updates.recv()` gives.
pub data Update : Type 0 where
  received : ℕ → Update
  lagged closed : Update

-- The match on an update; `none` leaves the loop.
abbrev pub message : List Bool → Update → Option Response
message have (received index) = some (Response.have index)
message have lagged = some (Response.bitfield (pack_bits have))
message have closed = none

-- `untold` are pieces that are marked and not yet sent, by tasks in the midst of `mark_have`. `behind`
-- says that the next frame is a snapshot: at the start, and after `lagged`.
pub record Subscription : Type 0 where
  pub have : List Bool
  pub untold : List ℕ
  pub sent : List ℕ
  pub cursor : ℕ
  pub behind : Bool
  pub frames : List Response

-- After `subscribe`, before the snapshot.
abbrev pub subscribe : List Bool → List ℕ → List ℕ → Subscription
subscribe have untold sent = record {
  have = have;
  untold = untold;
  sent = sent;
  cursor = length sent;
  behind = true;
  frames = [];
}

abbrev pub remove_at : ℕ → List ℕ → List ℕ
remove_at i [] = []
remove_at zero (x ∷ xs) = xs
remove_at (suc i) (x ∷ xs) = x ∷ remove_at i xs

abbrev pub write : Subscription → Option Response → Subscription
write s none = s
write s (some r) = record s { frames = s.frames ++ (r ∷ []) }

-- What one task does: it marks a piece, it sends a piece's number on the channel, or, in the loop of the
-- subscription, it writes the next message, finds that it fell behind, or writes a snapshot.
pub data Step : Subscription → Subscription → Type 0 where
  mark :
      (s : Subscription) (index : ℕ)
      → get_elem? s.have index ≡ some false
      → Step s (record s { have = set s.have index true; untold = index ∷ s.untold })
  tell :
      (s : Subscription) (i index : ℕ)
      → get_elem? s.untold i ≡ some index
      → Step s
          (record s { untold = remove_at i s.untold; sent = s.sent ++ ((index % 2 ^ 32) ∷ []) })
  next :
      (s : Subscription) (index : ℕ)
      → s.behind ≡ false
      → get_elem? s.sent s.cursor ≡ some index
      → Step s (write (record s { cursor = s.cursor + 1 }) (message s.have (received index)))
  lag :
      (s : Subscription) (cursor : ℕ)
      → s.behind ≡ false
      → s.cursor ≤ cursor
      → cursor ≤ length s.sent
      → Step s (record s { cursor = cursor; behind = true })
  snapshot :
      (s : Subscription)
      → s.behind ≡ true
      → Step s (write (record s { behind = false }) (message s.have lagged))

pub data Steps (s : Subscription) : Subscription → Type 0 where
  here : Steps s s
  then_step : {t u : Subscription} → Steps s t → Step t u → Steps s u

-- What the peer makes of a frame: `set_peer_has` or, for a bitfield, `add_peer`.
abbrev pub follow : ℕ → List Bool → Response → List Bool
follow total bits (Response.have index) = set bits index true
follow total bits (Response.bitfield bytes) = unpack_bits bytes total
follow total bits other = bits

-- The peer's bits after some frames.
unfoldable pub view : ℕ → List Bool → List Response → List Bool
view total bits [] = bits
view total bits (r ∷ rs) = view total (follow total bits r) rs

abbrev with_update : Subscription → Option ℕ → Subscription
with_update s none = s
with_update s (some index) =
    write (record s { cursor = s.cursor + 1 }) (message s.have (received index))

-- One round of the loop, when it is in time: nothing happens if there is no update.
abbrev pub round : Subscription → Subscription
round s =
    if s.behind
    then write (record s { behind = false }) (message s.have lagged)
    else with_update s (get_elem? s.sent s.cursor)

unfoldable pub drain : ℕ → Subscription → Subscription
drain zero s = s
drain (suc n) s = drain n (round s)
