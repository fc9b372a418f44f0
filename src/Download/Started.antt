-- ===== src/Download/Started.antt =====
-- The engine of download.rs (crates/chorrent/src) as it starts, with what is on disk already.
use chorrent.Common.{
  ℕ, zero, suc, ◌≡◌, refl, ap, Bool, true, false, some, List, [], ◌∷◌, map, Eq, arith, length,
  length-replicate, get_elem?, lt-length_of_get_elem?,
}
use chorrent.Manifest.{Manifest, FileEntry}
use chorrent.Layout
use chorrent.Layout.Locate.{locate_total, location}
use chorrent.Local.{LocalShare, from_parts}
use chorrent.Scheduler.{Piece, start_pieces}
use chorrent.Scheduler.Progress.{length-start_pieces, new-Inv}
use chorrent.Download.{new_engine, urgent_window}
use chorrent.Download.Agreed.{IsLaidOut, Agrees}

start_pieces_had :
    {K : Type 0} (have : List Bool) (j : ℕ)
    → get_elem? (start_pieces {K = K} have) j ≡ some Piece.done
    → get_elem? have j ≡ some true
unfolding start_pieces
start_pieces_had [] j h = cc
start_pieces_had (true ∷ hs) zero h = refl
start_pieces_had (false ∷ hs) zero h = cc
start_pieces_had (b ∷ hs) (suc j) h = start_pieces_had hs j h

length-map : {A B : Type 0} (f : A → B) (xs : List A) → length (map f xs) ≡ length xs
length-map f [] = refl
length-map f (x ∷ xs) = ap suc (length-map f xs)

length-sizes : (m : Manifest) → length (Layout.new m).sizes ≡ length m.files
unfolding Layout.new
length-sizes m = length-map (λ (f : FileEntry). f.size) m.files

-- Every piece of a share as it is set up has a place, with an outboard for each file.
pub from_parts-IsLaidOut :
    {Disk : Type 0} (m : Manifest) (outboards : List (List ℕ)) (disk : Disk) (is_complete : Bool)
    → length outboards ≡ length m.files
    → IsLaidOut (from_parts m outboards disk is_complete)
unfolding from_parts
from_parts-IsLaidOut m outboards disk is_complete long piece lt =
    let (f, first, end, r, le, below, (size, here, found, fits)) =
      locate_total m piece
        (omega (arith, length-replicate (Layout.new m).total_pieces is_complete)) in
    (
      location f first size piece,
      found,
      omega (arith, lt-length_of_get_elem? (Layout.new m).sizes f here, length-sizes m, long),
    )

-- The engine of a share whose pieces all have a place starts with a well-formed scheduler that
-- counts only pieces as done that are on disk.
pub new_engine-Agrees :
    {K Disk : Type 0} ⦃e : Eq K⦄ (share : LocalShare Disk)
    → IsLaidOut share
    → Agrees (new_engine {K = K} share)
unfolding new_engine Layout.new chorrent.Scheduler.new
new_engine-Agrees {K} share laid_out = record {
  inv = new-Inv share.have urgent_window;
  same_length = length-start_pieces K share.have;
  stored = λ j h. start_pieces_had share.have j h;
  laid_out = laid_out;
}
