-- ===== src/Local.antt =====
-- local.rs (crates/chorrent/src): the pieces of a share that are on disk, as a download stores them and
-- as a restart finds them. An outboard is its bytes. The disk, the hash tree (bao-tree) with the
-- decoding and the checking of its proofs, and the writing of files are parameters. `none` is a panic.
pub mod Resume
pub mod Prepare
pub mod Started
pub mod Verified
pub mod Gained
pub mod Resumed
pub mod Tests
pub mod Stored
use chorrent.Common.{
  ℕ, zero, suc, ◌+◌, ◌-◌, Bool, true, false, not, ◌&&◌, ◌||◌, Option, none, some, List, [], ◌∷◌,
  ◌++◌, ◌>>=◌, leb, nat_beq, min, if◌then◌else◌, length, get_elem?, get_or, set, replicate, range,
  Result, ok, err,
}
use chorrent.Manifest.{Manifest, FileEntry}
use chorrent.Layout.{Layout, PieceLocation, new, locate, pieces_of}
use chorrent.Protocol.Bits.{pack_bits}

-- The errors of these operations.
pub data LocalError : Type 0 where
  not_opened receive not_readable no_such_file not_finished : LocalError

-- The fields of `LocalShare` that change with its pieces. `sent` are the messages on `have_tx`.
pub record LocalShare (Disk : Type 0) : Type 0 where
  pub layout : Layout
  pub outboards : List (List ℕ)
  pub disk : Disk
  pub have : List Bool
  pub sent : List ℕ

-- What the code calls: a file's handle for writing, the one that is open or a new one; the decoder
-- with its proof; the outboard with a proof in it; the valid ranges of a file; the pieces of an
-- encrypted file that were written.
pub record Calls (Disk Nodes : Type 0) : Type 0 where
  pub writer : Disk → ℕ → Disk × Bool
  pub decode_range : Disk → ℕ → ℕ → ℕ → List ℕ → Disk × Option Nodes
  pub apply_proof : List ℕ → Nodes → Option (List ℕ)
  pub valid_byte_ranges : Disk → ℕ → List ℕ → Option (List (ℕ × ℕ))
  pub written_pieces : Disk → ℕ → Option (Option (List Bool))

-- `filter(|&&h| h).count()`
abbrev pub count : List Bool → ℕ
count [] = 0
count (h ∷ hs) = (if h then 1 else 0) + count hs

module _ {Disk : Type 0} where
  unfoldable pub has : LocalShare Disk → ℕ → Bool
  has share piece = get_or share.have piece false

  unfoldable pub have_count : LocalShare Disk → ℕ
  have_count share = count share.have

  unfoldable pub packed_bitfield : LocalShare Disk → List ℕ
  packed_bitfield share = pack_bits share.have

  -- `from_parts`, with nothing sent yet.
  unfoldable pub from_parts : Manifest → List (List ℕ) → Disk → Bool → LocalShare Disk
  from_parts manifest outboards disk is_complete = record {
    layout = new manifest;
    outboards = outboards;
    disk = disk;
    have = replicate (new manifest).total_pieces is_complete;
    sent = [];
  }

  -- Mark a piece, and say so if it is new.
  abbrev pub marked : LocalShare Disk → ℕ → Bool → LocalShare Disk
  marked share piece true = share
  marked share piece false = record share {
    have = set share.have piece true;
    sent = share.sent ++ (piece ∷ []);
  }

  unfoldable pub mark_have : LocalShare Disk → ℕ → Option (LocalShare Disk)
  mark_have share piece = do had ← get_elem? share.have piece; some (marked share piece had)

  abbrev pub all_had : LocalShare Disk → List ℕ → Bool
  all_had share [] = true
  all_had share (p ∷ ps) = has share p && all_had share ps

  -- `self.layout.pieces_of(index).all(|p| self.has(p))`
  unfoldable pub is_complete_file : LocalShare Disk → ℕ → Option Bool
  is_complete_file share index = do
    (first, end) ← pieces_of share.layout index
    some (all_had share (range first (end - first)))

  -- The file is there and is complete: its number.
  unfoldable pub check_file : LocalShare Disk → ℕ → Option (Result LocalError ℕ)
  unfolding is_complete_file
  check_file share index =
      if leb (length share.outboards) index then some (err no_such_file) else (do
        is_whole ← is_complete_file share index
        some (if is_whole then ok index else err not_finished))

  module _ {Nodes : Type 0} (c : Calls Disk Nodes) where
    -- The proof goes into the outboard, and the piece counts.
    abbrev pub record_proof :
        LocalShare Disk
        → ℕ
        → ℕ
        → List ℕ
        → Option (List ℕ)
        → Option (LocalShare Disk × Result LocalError Bool)
    record_proof share piece file outboard none = some (share, err receive)
    record_proof share piece file outboard (some proved) = do
      share' ← mark_have (record share { outboards = set share.outboards file proved }) piece
      some (share', ok true)

    -- After the decoder.
    abbrev pub received :
        LocalShare Disk → ℕ → ℕ → Option Nodes → Option (LocalShare Disk × Result LocalError Bool)
    received share piece file none = some (share, err receive)
    received share piece file (some nodes) = do
      outboard ← get_elem? share.outboards file
      record_proof share piece file outboard (c.apply_proof outboard nodes)

    -- With the file's handle, if there is one.
    abbrev pub decoded :
        LocalShare Disk
        → ℕ
        → PieceLocation
        → List ℕ
        → Bool
        → Option (LocalShare Disk × Result LocalError Bool)
    decoded share piece loc encoded false = some (share, err not_opened)
    decoded share piece loc encoded true =
        let (disk, nodes) = c.decode_range share.disk loc.file loc.start loc.end encoded in
        received (record share { disk = disk }) piece loc.file nodes

    -- The share is changed also where an error is returned.
    unfoldable pub store_piece :
        LocalShare Disk → ℕ → List ℕ → Option (LocalShare Disk × Result LocalError Bool)
    unfolding has mark_have
    store_piece share piece encoded = if has share piece then some (share, ok false) else (do
      loc ← locate share.layout piece
      let (disk, is_open) = c.writer share.disk loc.file
      decoded (record share { disk = disk }) piece loc encoded is_open)
