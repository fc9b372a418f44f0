-- ===== src/Download/Tests.antt =====
-- A download of two pieces from one peer, by download.rs and local.rs (crates/chorrent/src), with a
-- decoder that takes everything but an empty answer.
use chorrent.Common.{
  ℕ, zero, suc, ◌+◌, ◌<◌, ◌≡◌, refl, ◌∙◌, sym, ap, Bool, true, false, Option, none, some, List, [],
  ◌∷◌, arith, ◌>>=◌, nat_eq, length, get_elem?, Result, ok, err,
}
use mathlib.Core.Path.{subst}
use chorrent.Manifest.{Manifest}
use chorrent.Layout.{PieceLocation, locate, unwrap_or}
use chorrent.Local.{LocalShare, LocalError, Calls, from_parts, store_piece}
use chorrent.Local.Stored.{Outcome, store_piece-Outcome}
use chorrent.Scheduler.{is_done}
use chorrent.Protocol.Messages.{Response}
use chorrent.Download.{Engine, Move, joins, asks, answers, updates, leaves, new_engine, run}
use chorrent.Download.Agreed.{IsLaidOut, Agrees, Moved}
use chorrent.Download.Started.{from_parts-IsLaidOut, new_engine-Agrees}
use chorrent.Download.History.{AreMoves, run-Moved, run-is_done}

abbrev pub movie : Manifest
movie = record {
  name = 109 ∷ [];
  files = record { path = (109 ∷ []) ∷ []; size = 70000; root_hash = [] } ∷ [];
}

-- The disk counts the writes.
abbrev pub calls : Calls ℕ ℕ
calls = record {
  writer = λ disk file. (disk, true);
  decode_range = λ disk file start end encoded. (suc disk, proof_in encoded);
  apply_proof = λ outboard nodes. some (nodes ∷ outboard);
  valid_byte_ranges = λ disk file outboard. some [];
  written_pieces = λ disk file. some none;
}
  where
    proof_in : List ℕ → Option ℕ
    proof_in [] = none
    proof_in (b ∷ bs) = some b

abbrev pub share : LocalShare ℕ
share = from_parts movie ([] ∷ []) 0 false

share-IsLaidOut : IsLaidOut share
share-IsLaidOut = from_parts-IsLaidOut movie ([] ∷ []) 0 false refl

two_pieces : length share.have ≡ 2
unfolding from_parts chorrent.Layout.new
two_pieces = refl

piece_one : locate share.layout 1 ≡ some (record { file = 0; start = 65536; end = 70000 })
unfolding from_parts chorrent.Layout.new chorrent.Layout.first_pieces locate
    chorrent.Layout.last_nonempty chorrent.Layout.partition_point
piece_one = refl

abbrev pub moves : List (Move ℕ)
moves =
    joins 1 (3 ∷ [])
    ∷ asks 1
    ∷ asks 1
    ∷ answers 1 1 none
    ∷ answers 0 1 (some (Response.piece (5 ∷ [])))
    ∷ asks 1
    ∷ answers 1 1 (some (Response.piece (6 ∷ [])))
    ∷ []

abbrev pub finished : Engine ℕ ℕ
finished = unwrap_or (run calls moves (new_engine share)) (new_engine share)

pub moves-finished : run calls moves (new_engine share) ≡ some finished
unfolding run chorrent.Download.joined new_engine chorrent.Scheduler.add_peer
    chorrent.Scheduler.remove_peer chorrent.Common.HashMap.get chorrent.Scheduler.new
    chorrent.Download.asked is_done from_parts chorrent.Layout.new chorrent.Common.HashMap.insert
    chorrent.Scheduler.Pick.pick chorrent.Scheduler.Pick.wanted chorrent.Protocol.Bits.unpack_bits
    chorrent.Download.answered chorrent.Scheduler.failed chorrent.Scheduler.drop_request
    chorrent.Common.HashMap.remove chorrent.Download.after_store chorrent.Download.completed
    chorrent.Download.give_back chorrent.Layout.first_pieces chorrent.Layout.last_nonempty
    chorrent.Layout.locate chorrent.Layout.partition_point chorrent.Local.has
    chorrent.Local.mark_have store_piece chorrent.Protocol.Bits.bit_is_set
    chorrent.Scheduler.Pick.assign chorrent.Scheduler.Pick.choose chorrent.Scheduler.Pick.endgame
    chorrent.Scheduler.Pick.find_wanted chorrent.Scheduler.Pick.least_asked
    chorrent.Scheduler.Pick.offer chorrent.Scheduler.Pick.rarest
    chorrent.Scheduler.Pick.rarest_first chorrent.Scheduler.advance_playhead
    chorrent.Scheduler.clear_bit chorrent.Scheduler.complete chorrent.Scheduler.count_true
    chorrent.Scheduler.drop_requests chorrent.Scheduler.lower chorrent.Scheduler.playhead
    chorrent.Scheduler.raise chorrent.Scheduler.retain_others chorrent.Scheduler.start_pieces
moves-finished = refl

pub moves-done : is_done finished.sched ≡ true
unfolding run chorrent.Download.joined new_engine chorrent.Scheduler.add_peer
    chorrent.Scheduler.remove_peer chorrent.Common.HashMap.get chorrent.Scheduler.new
    chorrent.Download.asked is_done from_parts chorrent.Layout.new chorrent.Common.HashMap.insert
    chorrent.Scheduler.Pick.pick chorrent.Scheduler.Pick.wanted chorrent.Protocol.Bits.unpack_bits
    chorrent.Download.answered chorrent.Scheduler.failed chorrent.Scheduler.drop_request
    chorrent.Common.HashMap.remove chorrent.Download.after_store chorrent.Download.completed
    chorrent.Download.give_back chorrent.Layout.first_pieces chorrent.Layout.last_nonempty
    chorrent.Layout.locate chorrent.Layout.partition_point chorrent.Local.has
    chorrent.Local.mark_have store_piece chorrent.Protocol.Bits.bit_is_set
    chorrent.Scheduler.Pick.assign chorrent.Scheduler.Pick.choose chorrent.Scheduler.Pick.endgame
    chorrent.Scheduler.Pick.find_wanted chorrent.Scheduler.Pick.least_asked
    chorrent.Scheduler.Pick.offer chorrent.Scheduler.Pick.rarest
    chorrent.Scheduler.Pick.rarest_first chorrent.Scheduler.advance_playhead
    chorrent.Scheduler.clear_bit chorrent.Scheduler.complete chorrent.Scheduler.count_true
    chorrent.Scheduler.drop_requests chorrent.Scheduler.lower chorrent.Scheduler.playhead
    chorrent.Scheduler.raise chorrent.Scheduler.retain_others chorrent.Scheduler.start_pieces
moves-done = refl

moves-AreMoves : AreMoves calls (length share.have) moves
moves-AreMoves =
    (omega (arith, two_pieces), (omega (arith, two_pieces), (omega (arith, two_pieces), tt)))

pub share-Agrees : Agrees {K = ℕ} (new_engine share)
share-Agrees = new_engine-Agrees share share-IsLaidOut

same_share : length share.have ≡ length (new_engine {K = ℕ} share).share.have
unfolding new_engine
same_share = refl

pub new_engine-AreMoves : AreMoves calls (length (new_engine {K = ℕ} share).share.have) moves
new_engine-AreMoves = subst (λ n. AreMoves calls n moves) same_share moves-AreMoves

run-Moved_example :
    (engine' : Engine ℕ ℕ) × (run calls moves (new_engine share) ≡ some engine')
    × Moved (new_engine share) engine'
run-Moved_example = run-Moved calls moves (new_engine share) share-Agrees new_engine-AreMoves

run-is_done_example : get_elem? finished.share.have 1 ≡ some true
run-is_done_example =
    run-is_done calls moves (new_engine share) finished share-Agrees new_engine-AreMoves
      moves-finished moves-done 1 (omega (arith, two_pieces, same_share))

store_piece-Outcome_example :
    (share' : LocalShare ℕ) × (r : Result LocalError Bool) × (store_piece calls share 1 (6 ∷ [])
      ≡ some (share', r))
    × Outcome calls share 1 (6 ∷ []) share' r
unfolding from_parts
store_piece-Outcome_example =
    store_piece-Outcome calls share 1 (6 ∷ []) (record { file = 0; start = 65536; end = 70000 })
      (omega (arith, two_pieces)) piece_one (omega arith)
