-- ===== src/Download/FinishTests.antt =====
-- The download of Download.Tests, ended by download.rs (crates/chorrent/src).
use chorrent.Common.{ℕ, ◌≡◌, refl, true, nat_eq, some, [], ◌∷◌, length, ok, list_beq}
use chorrent.Local.Prepare.{Files}
use chorrent.Store.{Bytes, Store}
use chorrent.Store.Tests.{plain, plain-IsCrypto, plain_store, nonce, decode-encode_lists}
use chorrent.Client.Tests.{texts}
use chorrent.Download.{new_engine}
use chorrent.Download.Tests.{
  movie, share, calls, moves, finished, share-Agrees, new_engine-AreMoves, moves-finished,
  moves-done,
}
use chorrent.Download.Finish.{completed_store, finish, IsWhole, finish-IsWhole}

-- The file has the hash that the manifest says.
abbrev files : Files ℕ
files = record {
  file_len = λ disk index. some 70000;
  hash_file = λ disk index. some ([], 6 ∷ []);
  preallocate = λ disk index size. (disk, true);
  empty_outboard = λ root size. [];
  hash_data = λ disk index size. some [];
  read_exact = λ disk index offset len. some [];
}

abbrev id : Bytes
id = 5 ∷ []

abbrev dest_dir : Bytes
dest_dir = 7 ∷ []

abbrev ended : Store
ended = completed_store files plain texts nonce id dest_dir finished.share plain_store

ends :
    finish files plain texts movie finished.share nonce id dest_dir (some plain_store)
    ≡ ok (some ended)
unfolding finish chorrent.Local.Prepare.verify chorrent.Local.Prepare.verify_files list_beq
ends = refl

finish-IsWhole_example :
    IsWhole files plain texts movie finished.share id dest_dir
      (length (new_engine {K = ℕ} share).share.have)
      (some ended)
finish-IsWhole_example =
    finish-IsWhole files plain texts calls plain-IsCrypto decode-encode_lists movie moves
      (new_engine share) finished nonce id dest_dir plain_store (some ended) share-Agrees
      new_engine-AreMoves moves-finished moves-done refl ends
