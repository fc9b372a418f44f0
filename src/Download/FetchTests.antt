-- ===== src/Download/FetchTests.antt =====
-- The start and the end of a download, by download.rs and local.rs (crates/chorrent/src): dials, a manifest
-- that is fetched, a file that is there already, and the last checks.
use chorrent.Common.{
  ℕ, ◌^◌, ◌+◌, ◌≤◌, ◌<◌, ◌≡◌, ◌≢◌, ◌↔◌, refl, Bool, true, false, Option, none, some, List, [], ◌∷◌,
  arith, map, nat_eq, list_eq, list_beq, All, length, get_elem?, Result, ok, err,
}
use chorrent.Manifest.{Manifest}
use chorrent.Manifest.Names.{codes}
use chorrent.Manifest.Validate.{manifest_version, total_size}
use chorrent.Protocol.Messages.{Response}
use chorrent.Share.{ShareCode}
use chorrent.Local.{LocalShare, from_parts}
use chorrent.Local.Prepare.{Files, for_download}
use chorrent.Local.Started.{KeepsOthers, IsOfComplete, for_download-IsOfComplete}
use chorrent.Download.Fetch.{
  fetch_manifest, IsPromised, fetch_manifest_iff, requests_for, attempt_limit,
}
use chorrent.Download.Tracker.{new_tracker, dials, Spaced, dials-Spaced}

-- A peer is heard of too soon, and then late enough.
abbrev history : List (ℕ × ℕ)
history = (1, 5) ∷ (1, 9) ∷ (2, 9) ∷ (0, 9) ∷ (1, 20000000005) ∷ []

dials_of_history : dials (new_tracker 0) history ≡ (1, 5) ∷ (2, 9) ∷ (1, 20000000005) ∷ []
unfolding dials new_tracker chorrent.Download.Tracker.should_try chorrent.Download.Tracker.discover
    chorrent.Common.HashMap.get chorrent.Common.HashMap.insert chorrent.Common.HashMap.remove
dials_of_history = refl

dials-Spaced_example :
    Spaced (dials (new_tracker 0) history)
    × All (λ (d : ℕ × ℕ). d.0 ≢ (new_tracker {K = ℕ} 0).me) (dials (new_tracker 0) history)
dials-Spaced_example = dials-Spaced (new_tracker 0) history

-- The numbers of download.rs's own test.
distant_peers_get_more_requests_in_flight :
    map requests_for (none ∷ some 1000000 ∷ some 200000000 ∷ some 900000000 ∷ [])
    ≡ 8 ∷ 8 ∷ 39 ∷ 48 ∷ []
unfolding requests_for
distant_peers_get_more_requests_in_flight = refl

later_attempts_take_longer :
    attempt_limit 0 99000000000
      ∷ attempt_limit 1 99000000000
      ∷ attempt_limit 9 99000000000
      ∷ attempt_limit 9 7
      ∷ []
    ≡ 4000000000 ∷ 8000000000 ∷ 15000000000 ∷ 7 ∷ []
unfolding attempt_limit
later_attempts_take_longer = refl

abbrev movie : Manifest
movie = record {
  name = codes "m";
  files = record { path = codes "m" ∷ []; size = 70000; root_hash = 8 ∷ [] } ∷ [];
}

abbrev hash : List ℕ → List ℕ
hash bytes = length bytes ∷ []

abbrev deserialize : List ℕ → Option Manifest
deserialize bytes = some movie

abbrev code : ShareCode ℕ
code = record { id = 2 ∷ []; name = codes "m"; total_size = 70000; peers = []; secret = none }

-- Two files of half of 2 ^ 64 bytes each count as nothing.
abbrev huge : Manifest
huge = record {
  name = codes "m";
  files =
      record { path = codes "m" ∷ codes "a" ∷ []; size = 2 ^ 63; root_hash = [] }
      ∷ record { path = codes "m" ∷ codes "b" ∷ []; size = 2 ^ 63; root_hash = [] }
      ∷ [];
}

sizes_that_wrap_add_up_to_nothing : total_size huge ≡ 0
unfolding total_size chorrent.Manifest.Validate.total_size_from
sizes_that_wrap_add_up_to_nothing = refl

fetch_manifest_iff_example :
    (fetch_manifest
        (λ name. name)
        hash
        deserialize
        code
        (some (Response.manifest (manifest_version ∷ 5 ∷ [])))
      ≡ ok (movie, manifest_version ∷ 5 ∷ []))
    ↔ (◌≡◌ {A = Option Response}
          (some (Response.manifest (manifest_version ∷ 5 ∷ [])))
          (some (Response.manifest (manifest_version ∷ 5 ∷ [])))
        × IsPromised (λ name. name) hash deserialize code (manifest_version ∷ 5 ∷ []) movie)
fetch_manifest_iff_example =
    fetch_manifest_iff (λ name. name) hash deserialize code
      (some (Response.manifest (manifest_version ∷ 5 ∷ []))) movie (manifest_version ∷ 5 ∷ [])

-- The file is there, and has the hash.
abbrev files : Files ℕ
files = record {
  file_len = λ disk index. some 70000;
  hash_file = λ disk index. some (8 ∷ [], 6 ∷ []);
  preallocate = λ disk index size. (disk, true);
  empty_outboard = λ root size. [];
  hash_data = λ disk index size. some (8 ∷ []);
  read_exact = λ disk index offset len. none;
}

abbrev started : LocalShare ℕ
started = record (from_parts movie ((6 ∷ []) ∷ []) 0 false) {
  have = true ∷ true ∷ [];
  sent = 0 ∷ 1 ∷ [];
}

starts_whole : for_download files movie false 0 ≡ ok started
unfolding for_download chorrent.Local.Prepare.prepare_files chorrent.Local.Prepare.mark_files
    chorrent.Local.Prepare.mark_pieces from_parts chorrent.Layout.new chorrent.Layout.first_pieces
    chorrent.Layout.pieces_of chorrent.Local.mark_have list_beq
starts_whole = refl

files-KeepsOthers : KeepsOthers files movie
files-KeepsOthers disk i j size apart = (refl, refl)

for_download-IsOfComplete_example :
    (false ≡ false) × IsOfComplete files movie started.disk started.layout 1
for_download-IsOfComplete_example =
    for_download-IsOfComplete files movie files-KeepsOthers false 0 started starts_whole 1 refl
