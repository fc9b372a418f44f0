-- ===== src/Local/Tests.antt =====
-- A download that was stopped after its first piece, for `restore_progress` of local.rs (crates/chorrent/src).
use chorrent.Common.{ℕ, ◌≡◌, refl, true, false, none, some, List, [], ◌∷◌, ok}
use chorrent.Manifest.{Manifest}
use chorrent.Layout.{locate}
use chorrent.Local.{LocalShare, Calls, from_parts, mark_have}
use chorrent.Local.Resume.{ResumeError, restore_progress}
use chorrent.Local.Gained.{Resumed}
use chorrent.Local.Resumed.{IsThere, restore_progress-Resumed}

abbrev movie : Manifest
movie = record {
  name = 109 ∷ [];
  files = record { path = (109 ∷ []) ∷ []; size = 70000; root_hash = [] } ∷ [];
}

-- The first piece verifies and was written.
abbrev calls : Calls ℕ ℕ
calls = record {
  writer = λ disk file. (disk, true);
  decode_range = λ disk file start end encoded. (disk, none);
  apply_proof = λ outboard nodes. none;
  valid_byte_ranges = λ disk file outboard. some ((0, 65536) ∷ []);
  written_pieces = λ disk file. some (some (true ∷ false ∷ []));
}

abbrev share : LocalShare ℕ
share = from_parts movie ((0 ∷ []) ∷ []) 0 false

abbrev saved : List (List ℕ)
saved = (7 ∷ []) ∷ []

abbrev after : LocalShare ℕ
after = record share { have = true ∷ false ∷ []; outboards = saved; sent = 0 ∷ [] }

restored : restore_progress calls share saved ≡ ok after
unfolding from_parts chorrent.Layout.new chorrent.Layout.first_pieces locate
    chorrent.Layout.last_nonempty chorrent.Layout.partition_point mark_have restore_progress
    chorrent.Local.Resume.restore_from chorrent.Local.Resume.is_there
    chorrent.Local.Resume.is_verified chorrent.Local.is_complete_file chorrent.Layout.pieces_of
    chorrent.Local.has
restored = refl

restore_progress-Resumed_example : Resumed (IsThere calls share.layout share.disk saved) share after
restore_progress-Resumed_example = restore_progress-Resumed calls share after saved restored
