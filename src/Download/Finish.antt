-- ===== src/Download/Finish.antt =====
-- The end of `run` of download.rs (crates/chorrent/src), after its loop: the check of whole files, and
-- the download's records in the database.
use chorrent.Common.{
  ℕ, ◌<◌, ◌≡◌, ◌∙◌, true, Option, none, some, List, Eq, length, get_elem?, some_eq, nat_eq, list_eq,
  Result, ok,
}
use mathlib.Core.Option
use mathlib.Core.Path.{subst}
use chorrent.Common.Results.{◌>>◌, ok_eq, bind_ok}
use chorrent.Manifest.{Manifest}
use chorrent.Local.{LocalShare, Calls}
use chorrent.Local.Prepare.{PrepareError, Files, verify, outboard_snapshots}
use chorrent.Local.Verified.{IsIntact, verify_iff}
use chorrent.Scheduler.{is_done}
use chorrent.Store.{Bytes, downloads, Crypto, Store, get}
use chorrent.Store.Records.{Codecs, save_progress, mark_complete, load_progress, download_key}
use chorrent.Store.Revealed.{IsCrypto}
use chorrent.Store.Progress.{load_progress-save_progress}
use chorrent.Download.{Engine, Move, run}
use chorrent.Download.Agreed.{Agrees}
use chorrent.Download.History.{AreMoves, run-is_done}

module _ {Disk Ident Code : Type 0} (files : Files Disk) (c : Crypto) (k : Codecs Ident Code) where
  -- The last progress is saved, and then the download's records are removed.
  abbrev pub completed_store : Bytes → Ident → Bytes → LocalShare Disk → Store → Store
  completed_store nonce id dest_dir share s =
      mark_complete c k (save_progress c k nonce s id dest_dir (outboard_snapshots share)) id
        dest_dir

  unfoldable pub finish :
      Manifest
      → LocalShare Disk
      → Bytes
      → Ident
      → Bytes
      → Option Store
      → Result PrepareError (Option Store)
  finish manifest share nonce id dest_dir store = do
    verify files manifest share
    ok (Option.map (completed_store nonce id dest_dir share) store)

  -- A download is whole: its pieces, its files, and no record of it as unfinished.
  pub record IsWhole (manifest : Manifest) (share : LocalShare Disk) (id : Ident) (dest_dir : Bytes)
      (total : ℕ) (store : Option Store) : Type 0 where
    pub pieces : (j : ℕ) → j < total → get_elem? share.have j ≡ some true
    pub intact : IsIntact files manifest share.disk
    pub no_progress : (s : Store) → store ≡ some s → load_progress c k s id dest_dir ≡ none
    pub no_download :
        (s : Store) → store ≡ some s → get c s downloads (download_key c k id dest_dir) ≡ ok none

  module _ {K Nodes : Type 0} ⦃e : Eq K⦄ (calls : Calls Disk Nodes) (is_crypto : IsCrypto c)
      (decodes : (l : List Bytes) → k.decode_lists (k.encode_lists l) ≡ some l) where
    -- If moves, whose answers are for pieces of the share, take an engine that agrees with its
    -- share to one that is done, and the end of the download, with a database without hash
    -- collisions, a cipher that is undone and a nonce of its length, then works, every piece is
    -- on disk, every file has the root hash of the manifest, and the database has neither the
    -- download nor its progress any more.
    pub finish-IsWhole :
        (manifest : Manifest) (ms : List (Move K)) (engine engine' : Engine K Disk) (nonce : Bytes)
        (id : Ident) (dest_dir : Bytes) (s : Store) (store : Option Store)
        → Agrees engine
        → AreMoves calls (length engine.share.have) ms
        → run calls ms engine ≡ some engine'
        → is_done engine'.sched ≡ true
        → length nonce ≡ 24
        → finish manifest engine'.share nonce id dest_dir (some s) ≡ ok store
        → IsWhole manifest engine'.share id dest_dir (length engine.share.have) store
    unfolding finish
    finish-IsWhole manifest ms engine engine' nonce id dest_dir s store a moves ran done long h =
        let (u, verified, rest) = bind_ok (verify files manifest engine'.share) _ h in
        let saved =
          load_progress-save_progress c is_crypto k nonce s id dest_dir
            (outboard_snapshots engine'.share) decodes long in
        record {
          pieces = λ j lt. run-is_done calls ms engine engine' a moves ran done j lt;
          intact = (verify_iff files manifest engine'.share).0 verified;
          no_progress = λ s1 is.
              subst (λ x. load_progress c k x id dest_dir ≡ none) (some_eq (ok_eq rest ∙ is))
                saved.2;
          no_download = λ s1 is.
              subst (λ x. get c x downloads (download_key c k id dest_dir) ≡ ok none)
                (some_eq (ok_eq rest ∙ is)) saved.3;
        }
