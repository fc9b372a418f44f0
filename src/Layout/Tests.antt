-- ===== src/Layout/Tests.antt =====
-- The unit test of `Layout` in manifest.rs, and its theorems at a share of three files.
use chorrent.Common.{ℕ, ◌≡◌, refl, none, some, List, [], ◌∷◌, arith}
use chorrent.Manifest.{FileEntry, Manifest}
use chorrent.Manifest.Names.{codes}
use chorrent.Layout.{new, locate, pieces_of}
use chorrent.Layout.Locate.{Located, locate-pieces_of}

abbrev entry : List ℕ → ℕ → FileEntry
entry path size = record { path = path ∷ []; size = size; root_hash = [] }

-- An empty file, one of a block and five bytes, another empty one, and one of ten bytes.
abbrev share : Manifest
share = record {
  name = codes "s";
  files =
      entry (codes "e1") 0
      ∷ entry (codes "a") 65541
      ∷ entry (codes "e2") 0
      ∷ entry (codes "b") 10
      ∷ [];
}

new_lem :
    new share
    ≡ record { first_piece = 0 ∷ 0 ∷ 2 ∷ 2 ∷ []; sizes = 0 ∷ 65541 ∷ 0 ∷ 10 ∷ []; total_pieces = 3 }
unfolding new
new_lem = refl

layout_maps_pieces_across_files :
    locate (new share) 1 ≡ some (record { file = 1; start = 65536; end = 65541 })
unfolding new locate
layout_maps_pieces_across_files = refl

a_share_without_files_has_no_piece_to_locate :
    locate (new (record { name = []; files = [] })) 0 ≡ none
unfolding new locate
a_share_without_files_has_no_piece_to_locate = refl

locate-pieces_of_example : Located share 1 0 1
unfolding new pieces_of
locate-pieces_of_example = locate-pieces_of share 1 0 2 1 refl (omega arith) (omega arith)
