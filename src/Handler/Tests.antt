-- ===== src/Handler/Tests.antt =====
-- A seeder of two pieces that serves one peer, by handler.rs, local.rs and download.rs (crates/chorrent/src).
use chorrent.Common.{
  ℕ, zero, suc, ◌+◌, ◌≤◌, ◌<◌, ◌^◌, ◌≡◌, refl, ◌∙◌, sym, ap, Bool, true, false, Option, none, some,
  List, [], ◌∷◌, ◌⊎◌, arith, nat_eq, list_eq, length, get_elem?, get_or, range, map, true_at,
  lt-length_of_get_elem?, if◌then◌else◌, leb, list_beq, contains,
}
use chorrent.Manifest.{Manifest}
use chorrent.Layout.{locate}
use chorrent.Local.{LocalShare, Calls, from_parts, has}
use chorrent.Registry.{Registry, SharedShare, lookup}
use chorrent.Protocol.Messages.{Request, Response}
use chorrent.Download.{Engine, joins, updates, run, new_engine}
use chorrent.Download.Agreed.{IsLaidOut}
use chorrent.Download.Started.{from_parts-IsLaidOut, new_engine-Agrees}
use chorrent.Download.Subscribed.{bits_of, run-drain}
use chorrent.Handler.{Serving, Outcome, Reads, Heap, serve_stream}
use chorrent.Handler.Changes.{Noted, HasFile}
use chorrent.Handler.Reported.{fail_all, SawChange, fail_all-Noted}
use chorrent.Handler.Answers.{HasPlaces, Answered, serve_stream-Answered}
use chorrent.Handler.Stored.{Proves}
use chorrent.Handler.Exchange.{Fits, HasPlace, fetch_all, fetch_all_complete}
use chorrent.Handler.Subscription.{
  Subscription, subscribe, Steps, here, then_step, mark, tell, snapshot, drain,
}
use chorrent.Handler.Followed.{bits, IsOnTheWay}
use chorrent.Handler.CaughtUp.{Steps-sound}

abbrev movie : Manifest
movie = record {
  name = 109 ∷ [];
  files = record { path = (109 ∷ []) ∷ []; size = 70000; root_hash = [] } ∷ [];
}

-- The outboard proves every range, and the file has changed.
abbrev reads : Reads ℕ
reads = record {
  file_stamp = λ path. some (70000, 2);
  encode_range = λ disk file outboard start end. some (start ∷ end ∷ []);
}

abbrev calls : Calls ℕ ℕ
calls = record {
  writer = λ disk file. (disk, true);
  decode_range = λ disk file start end encoded. (suc disk, some start);
  apply_proof = λ outboard nodes. some (nodes ∷ outboard);
  valid_byte_ranges = λ disk file outboard. some [];
  written_pieces = λ disk file. some none;
}

abbrev seeder : LocalShare ℕ
seeder = from_parts movie ([] ∷ []) 0 true

abbrev serving : Serving ℕ
serving = record {
  manifest_bytes = 5 ∷ [];
  local = seeder;
  files = record { path = 109 ∷ []; source_stamp = some (70000, 1); reported_change = false } ∷ [];
  events = [];
}

abbrev heap : Heap ℕ
heap address = serving

abbrev film : SharedShare
film = record {
  address = 4;
  share = record { id = 1 ∷ []; secret = none; allowed = some ((7 ∷ []) ∷ []) };
}

abbrev listed : Registry
listed = (1 ∷ [], film) ∷ []

abbrev hash : List ℕ → List ℕ → List ℕ
hash key bytes = key

one_file : length seeder.outboards ≡ 1
unfolding from_parts
one_file = refl

seeder-IsLaidOut : IsLaidOut seeder
seeder-IsLaidOut = from_parts-IsLaidOut movie ([] ∷ []) 0 true refl

held-HasFile : (index : ℕ) → has seeder index ≡ true → HasFile serving (reads, index)
unfolding has
held-HasFile index h =
    let (loc, located, lt) =
      seeder-IsLaidOut index
        (lt-length_of_get_elem? seeder.have index (true_at seeder.have index h)) in
    (loc, located, omega (arith, lt, one_file))

has_both : (index : ℕ) → index < 2 → has seeder index ≡ true
unfolding has from_parts chorrent.Layout.new
has_both zero lt = refl
has_both (suc zero) lt = refl
has_both (suc (suc index)) lt = absurd (omega arith)

two_pieces : seeder.layout.total_pieces ≡ 2
unfolding from_parts chorrent.Layout.new
two_pieces = refl

heap-HasPlaces : HasPlaces reads hash hash listed (7 ∷ []) heap
heap-HasPlaces address index h = held-HasFile index h.1

fail_all-Noted_example :
    (share' : Serving ℕ) × (fail_all ((reads, 1) ∷ (reads, 0) ∷ []) serving ≡ some share')
    × Noted (SawChange ((reads, 1) ∷ (reads, 0) ∷ []) serving) serving share'
fail_all-Noted_example =
    fail_all-Noted ((reads, 1) ∷ (reads, 0) ∷ []) serving
      (held-HasFile 1 (has_both 1 (omega arith)), (held-HasFile 0 (has_both 0 (omega arith)), tt))

serve_stream-Answered_example :
    (heap' : Heap ℕ) × (o : Outcome) × (serve_stream reads hash hash false true listed
        (7 ∷ [])
        heap
        (Request.piece (1 ∷ []) none 1)
      ≡ some (heap', o))
    × Answered reads hash hash listed (7 ∷ []) (Request.piece (1 ∷ []) none 1) true heap heap' o
serve_stream-Answered_example =
    serve_stream-Answered reads hash hash listed (7 ∷ []) false true heap
      (Request.piece (1 ∷ []) none 1) heap-HasPlaces

seeder-Proves : Proves reads calls seeder
seeder-Proves = record {
  encodes = λ index loc outboard h l o. (loc.start ∷ loc.end ∷ [], refl);
  opens = λ disk file. refl;
  decodes = λ file start end outboard bytes e disk. (start, refl);
  applies = λ outboard nodes. (nodes ∷ outboard, refl);
}

abbrev peer : LocalShare ℕ
peer = from_parts movie ([] ∷ []) 0 false

film_found : lookup hash hash listed (1 ∷ []) (7 ∷ []) none ≡ some film
unfolding lookup chorrent.Common.HashMap.get list_beq chorrent.Registry.authorized
film_found = refl

peer-Fits :
    Fits reads calls seeder seeder-Proves hash hash false listed
      (7 ∷ [])
      (1 ∷ [])
      none
      film
      film_found
      peer
unfolding from_parts chorrent.Layout.new
peer-Fits = record { same_layout = refl; same_files = refl; same_total = refl }

seeder_long : length seeder.have ≡ 2
unfolding from_parts chorrent.Layout.new
seeder_long = refl

place :
    (p : ℕ)
    → p < seeder.layout.total_pieces
    → (has seeder p ≡ true)
      × HasPlace reads calls seeder seeder-Proves hash hash false listed
          (7 ∷ [])
          (1 ∷ [])
          none
          film
          film_found
          p
place p lt =
    let held = has_both p (omega (arith, lt, two_pieces)) in
    (held, seeder-IsLaidOut p (omega (arith, lt, two_pieces, seeder_long)))

fetch_all_complete_example :
    (heap' : Heap ℕ) × (peer' : LocalShare ℕ) × (fetch_all reads calls seeder seeder-Proves hash
        hash false listed
        (7 ∷ [])
        (1 ∷ [])
        none
        (range 0 seeder.layout.total_pieces)
        (heap, peer)
      ≡ some (heap', peer'))
    × ((p : ℕ) → p < seeder.layout.total_pieces → get_elem? peer'.have p ≡ some true)
fetch_all_complete_example =
    fetch_all_complete reads calls seeder seeder-Proves hash hash false listed (7 ∷ []) (1 ∷ [])
      none film film_found heap peer refl peer-Fits place

peer_long : length peer.have ≡ 2
unfolding from_parts chorrent.Layout.new
peer_long = refl

-- One piece is marked, sent and read while another is there already.
abbrev start : Subscription
start = subscribe (true ∷ false ∷ []) [] (0 ∷ [])

abbrev later : Subscription
later = record {
  have = true ∷ true ∷ [];
  untold = [];
  sent = 0 ∷ 1 ∷ [];
  cursor = 1;
  behind = false;
  frames = Response.bitfield (3 ∷ []) ∷ [];
}

reached : Steps start later
unfolding chorrent.Protocol.Bits.pack_bits
reached =
    then_step (then_step (then_step here (mark start 1 refl)) (tell _ 0 1 refl)) (snapshot _ refl)

Steps-sound_example :
    ((p : ℕ) → get_or (bits 2 later) p false ≡ true → get_elem? later.have p ≡ some true)
    × (later.behind ≡ false → (p : ℕ) → get_elem? later.have p ≡ some true → IsOnTheWay 2 later p)
Steps-sound_example =
    Steps-sound (true ∷ false ∷ []) [] (0 ∷ []) later (omega arith) (λ i p h. cc) reached

empty-Agrees : chorrent.Download.Agreed.Agrees {K = ℕ} (new_engine peer)
empty-Agrees = new_engine-Agrees peer (from_parts-IsLaidOut movie ([] ∷ []) 0 false refl)

run-drain_example :
    (engine' : Engine ℕ ℕ) × (run calls
        (joins 3 (3 ∷ []) ∷ map (updates 3) (Response.have 1 ∷ []))
        (new_engine peer)
      ≡ some engine')
    × (bits_of calls 3 engine' ≡ some (true ∷ true ∷ []))
unfolding drain new_engine
run-drain_example =
    run-drain calls 3 (true ∷ false ∷ []) [] (0 ∷ []) later (3 ∷ []) (Response.have 1 ∷ [])
      (new_engine peer) (omega arith) (λ i p h. cc) reached refl refl empty-Agrees peer_long refl
