-- ===== src/Local/Resume.antt =====
-- `restore_progress` of local.rs (crates/chorrent/src): after a restart, which pieces are really there.
-- A share for which it fails is given up, so an error carries no share.
use chorrent.Common.{
  ℕ, ◌-◌, suc, Bool, true, false, ◌&&◌, ◌||◌, Option, none, some, List, [], ◌∷◌, ◌>>=◌, leb,
  nat_beq, min, if◌then◌else◌, length, get_elem?, get_or, set, range, Result, ok, err,
}
use chorrent.Common.Results.{ok_or}
use chorrent.Common.Results
use chorrent.Layout.{Layout, PieceLocation, locate, pieces_of}
use chorrent.Local.{LocalShare, Calls, mark_have, is_complete_file}

pub data ResumeError : Type 0 where
  panicked unreadable : ResumeError

-- A verified range has all bytes of a piece of a file with `size` bytes.
unfoldable pub is_verified : ℕ → PieceLocation → List (ℕ × ℕ) → Bool
is_verified size loc [] = false
is_verified size loc ((start, end) ∷ ranges) =
    (leb start loc.start && leb (min loc.end size) (min end size)) || is_verified size loc ranges

-- `is_none_or`
abbrev pub on_disk : Option (List Bool) → ℕ → Bool
on_disk none i = true
on_disk (some written) i = get_or written i false

-- The two tests of a piece.
unfoldable pub is_there : Layout → ℕ → List (ℕ × ℕ) → Option (List Bool) → ℕ → ℕ → Option Bool
is_there layout size ranges written first piece = do
  loc ← locate layout piece
  some (is_verified size loc ranges && on_disk written (piece - first))

module _ {Disk : Type 0} where
  abbrev pub keep : LocalShare Disk → ℕ → Bool → Option (LocalShare Disk)
  keep share piece false = some share
  keep share piece true = mark_have share piece

  -- The loop over the pieces of a file.
  abbrev pub restore_pieces :
      (ℕ → Option Bool) → List ℕ → LocalShare Disk → Option (LocalShare Disk)
  restore_pieces test [] share = some share
  restore_pieces test (piece ∷ pieces) share = do
    there ← test piece
    share' ← keep share piece there
    restore_pieces test pieces share'

  module _ {Nodes : Type 0} (c : Calls Disk Nodes) where
    -- The pieces of a file with its saved outboard, from what is valid and what was written.
    abbrev pub restore_found :
        LocalShare Disk
        → ℕ
        → Option (List (ℕ × ℕ))
        → Option (Option (List Bool))
        → Result ResumeError (LocalShare Disk)
    restore_found share index none w = err unreadable
    restore_found share index (some ranges) none = err unreadable
    restore_found share index (some ranges) (some written) =
        ok_or
          (do
            size ← get_elem? share.layout.sizes index
            (first, end) ← pieces_of share.layout index
            restore_pieces (is_there share.layout size ranges written first)
                (range first (end - first)) share)
          panicked

    abbrev pub restore_incomplete :
        LocalShare Disk → ℕ → List ℕ → Option (List ℕ) → Result ResumeError (LocalShare Disk)
    restore_incomplete share index saved none = err panicked
    restore_incomplete share index saved (some outboard) =
        if nat_beq (length saved) (length outboard)
        then restore_found (record share { outboards = set share.outboards index saved }) index
            (c.valid_byte_ranges share.disk index saved) (c.written_pieces share.disk index)
        else ok share

    -- One round of the loop over the files.
    abbrev pub restore_file :
        LocalShare Disk → ℕ → List ℕ → Option Bool → Result ResumeError (LocalShare Disk)
    restore_file share index saved none = err panicked
    restore_file share index saved (some true) = ok share
    restore_file share index saved (some false) =
        restore_incomplete share index saved (get_elem? share.outboards index)

    -- The loop, with the files that have a saved outboard.
    unfoldable pub restore_from :
        ℕ → List (List ℕ) → LocalShare Disk → Result ResumeError (LocalShare Disk)
    restore_from index [] share = ok share
    restore_from index (saved ∷ rest) share =
        if leb (length share.outboards) index
        then ok share
        else Results.◌>>=◌ (restore_file share index saved (is_complete_file share index))
            (restore_from (suc index) rest)

    unfoldable pub restore_progress :
        LocalShare Disk → List (List ℕ) → Result ResumeError (LocalShare Disk)
    restore_progress share saved = restore_from 0 saved share
