-- ===== src/Handler.antt =====
-- handler.rs (crates/chorrent/src): the answers to a peer's requests, with what `encode_piece`,
-- `piece_len` and `note_serve_failure` of local.rs do for them. A share is found by its address in
-- the heap. The reading and proving of a range (chunker.rs over bao-tree) and the stamps of files
-- are parameters; whether an upload slot got free in time is an argument. `none` is a panic.
pub mod Changes
pub mod Reported
pub mod Stored
pub mod Answers
pub mod Exchange
pub mod Subscription
pub mod Followed
pub mod Written
pub mod CaughtUp
pub mod Tests
use chorrent.Common.{
  ℕ, ◌-◌, Bool, true, false, not, ◌&&◌, ◌||◌, Option, none, some, List, [], ◌∷◌, ◌++◌, ◌>>=◌, Eq,
  ◌==◌, nat_eq, nat_beq, leb, if◌then◌else◌, length, get_elem?, set,
}
use chorrent.Layout.{locate}
use chorrent.Local.{LocalShare, has}
use chorrent.Registry.{Registry, SharedShare, lookup}
use chorrent.Protocol.Messages.{Request, Response}
use chorrent.Protocol.Messages.Request.{manifest, subscribe, piece}

-- A file's size and the time of its last change.
abbrev pub Stamp : Type 0
Stamp = ℕ × ℕ

abbrev pub same_stamp : Option Stamp → Stamp → Bool
same_stamp none stamp = false
same_stamp (some (size, time)) stamp = nat_beq size stamp.0 && nat_beq time stamp.1

-- The fields of `LocalFile` that tell a changed file.
pub record Watched : Type 0 where
  pub path : List ℕ
  pub source_stamp : Option Stamp
  pub reported_change : Bool

pub data Event : Type 0 where
  uploaded : ℕ → Event
  shared_file_changed : List ℕ → Event

-- What a handler reads and changes of a share.
pub record Serving (Disk : Type 0) : Type 0 where
  pub manifest_bytes : List ℕ
  pub local : LocalShare Disk
  pub files : List Watched
  pub events : List Event

-- The answer of a request that is not a subscription, or the share that is subscribed to.
pub data Outcome : Type 0 where
  answered : Response → Outcome
  subscribed : SharedShare → Outcome

-- `file_stamp` of a path, and `encode_range` of the bytes of a file with its outboard.
pub record Reads (Disk : Type 0) : Type 0 where
  pub file_stamp : List ℕ → Option Stamp
  pub encode_range : Disk → ℕ → List ℕ → ℕ → ℕ → Option (List ℕ)

abbrev pub share_id : Request → List ℕ
share_id (manifest id auth) = id
share_id (subscribe id auth) = id
share_id (piece id auth index) = id

abbrev pub auth_of : Request → Option (List ℕ)
auth_of (manifest id auth) = auth
auth_of (subscribe id auth) = auth
auth_of (piece id auth index) = auth

abbrev pub Heap : Type 0 → Type 0
Heap Disk = ℕ → Serving Disk

module _ {Disk : Type 0} where
  abbrev pub put_at : Heap Disk → ℕ → Serving Disk → Heap Disk
  put_at heap address share a = if nat_beq address a then share else heap a

  abbrev pub put_answer :
      Heap Disk → ℕ → Option (Serving Disk × Response) → Option (Heap Disk × Outcome)
  put_answer heap address none = none
  put_answer heap address (some (share, r)) = some (put_at heap address share, answered r)

module _ {Disk : Type 0} (c : Reads Disk) where
  abbrev pub report : Serving Disk → ℕ → Watched → Serving Disk
  report share index file = record share {
    files = set share.files index (record file { reported_change = true });
    events =
        if file.reported_change
        then share.events
        else share.events ++ (shared_file_changed file.path ∷ []);
  }

  -- With the stamp that the file had, if it is shared in place.
  abbrev pub noted : Serving Disk → ℕ → Watched → Option Stamp → Serving Disk
  noted share index file none = share
  noted share index file (some stamp) =
      if same_stamp (c.file_stamp file.path) stamp then share else report share index file

  unfoldable pub note_serve_failure : Serving Disk → ℕ → Option (Serving Disk)
  note_serve_failure share index = do
    loc ← locate share.local.layout index
    file ← get_elem? share.files loc.file
    some (noted share loc.file file file.source_stamp)

  -- The outer `none` is a panic, the inner one an error.
  unfoldable pub encode_piece : LocalShare Disk → ℕ → Option (Option (List ℕ))
  encode_piece share index = do
    loc ← locate share.layout index
    outboard ← get_elem? share.outboards loc.file
    some (c.encode_range share.disk loc.file outboard loc.start loc.end)

  unfoldable pub piece_len : LocalShare Disk → ℕ → Option ℕ
  piece_len share index = do loc ← locate share.layout index; some (loc.end - loc.start)

  -- The call of the rate limiter, if there is one: what it is asked for.
  abbrev pub paced : Bool → LocalShare Disk → ℕ → Option ℕ
  paced false share index = some 0
  paced true share index = piece_len share index

  abbrev pub refused : Option (Serving Disk) → Option (Serving Disk × Response)
  refused none = none
  refused (some share) = some (share, Response.dont_have)

  -- After the blocking task that encodes the piece, also if it panicked.
  abbrev pub encoded :
      Serving Disk → ℕ → Option (Option (List ℕ)) → Option (Serving Disk × Response)
  encoded share index (some (some bytes)) = some (
    record share { events = share.events ++ (uploaded (length bytes) ∷ []) },
    Response.piece bytes,
  )
  encoded share index (some none) = refused (note_serve_failure share index)
  encoded share index none = refused (note_serve_failure share index)

  unfoldable pub serve_piece : Bool → Bool → Serving Disk → ℕ → Option (Serving Disk × Response)
  unfolding encode_piece has
  serve_piece is_limited slot share index =
      if leb share.local.layout.total_pieces index || not (has share.local index)
      then some (share, Response.dont_have)
      else if not slot
      then some (share, Response.busy)
      else (do
        len ← paced is_limited share.local index
        encoded share index (encode_piece share.local index))

  -- The match on a request, with the share that `lookup` gave.
  abbrev pub respond :
      Bool → Bool → Heap Disk → Request → Option SharedShare → Option (Heap Disk × Outcome)
  respond is_limited slot heap request none = some (heap, answered Response.not_found)
  respond is_limited slot heap (manifest id auth) (some s) =
      some (heap, answered (Response.manifest (heap s.address).manifest_bytes))
  respond is_limited slot heap (subscribe id auth) (some s) = some (heap, subscribed s)
  respond is_limited slot heap (piece id auth index) (some s) =
      put_answer heap s.address (serve_piece is_limited slot (heap s.address) index)

  -- `serve_stream`, from the request on.
  unfoldable pub serve_stream :
      (List ℕ → List ℕ → List ℕ)
      → (List ℕ → List ℕ → List ℕ)
      → Bool
      → Bool
      → Registry
      → List ℕ
      → Heap Disk
      → Request
      → Option (Heap Disk × Outcome)
  unfolding lookup
  serve_stream keyed_hash derive_key is_limited slot shares remote heap request =
      respond is_limited slot heap request
        (lookup keyed_hash derive_key shares (share_id request) remote (auth_of request))
