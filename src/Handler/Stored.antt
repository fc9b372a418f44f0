-- ===== src/Handler/Stored.antt =====
-- One answer of a seeder by handler.rs, stored by `store_piece` of local.rs as a worker of download.rs
-- does (crates/chorrent/src).
use chorrent.Common.{
  ℕ, ◌<◌, ◌≡◌, refl, ◌∙◌, ap, Bool, true, false, inl, inr, Option, some, List, ◌∷◌, ◌++◌, [], ◌>>=◌,
  nat_beq, nat_beq_iff, Bool-cases, leb, if◌then◌else◌, length, length-set, get_elem?,
  get_elem?-set, get_elem?_in_range, get_elem?-get_or, get_or, set, nat_eq, list_eq, Result, ok,
}
use chorrent.Layout.{PieceLocation, locate}
use chorrent.Local.{LocalShare, LocalError, Calls, has, mark_have, marked, store_piece}
use chorrent.Protocol.Messages.{Response}
use chorrent.Handler.{
  Serving, Outcome, answered, Reads, encode_piece, piece_len, serve_piece, uploaded,
}

module _ {Disk Disk' Nodes : Type 0} (c : Reads Disk) (d : Calls Disk' Nodes) where
  -- What the worker keeps of an answer.
  abbrev pub taken : LocalShare Disk' → ℕ → Outcome → Option (LocalShare Disk')
  taken peer index (answered (Response.piece bytes)) = do
    (peer', r) ← store_piece d peer index bytes
    some peer'
  taken peer index o = some peer

  -- What the hash tree promises for a seeder: it proves every range that it holds, and such a proof is
  -- taken by whoever has the same root.
  pub record Proves (seeder : LocalShare Disk) : Type 0 where
    pub encodes :
        (index : ℕ) (loc : PieceLocation) (outboard : List ℕ)
        → has seeder index ≡ true
        → locate seeder.layout index ≡ some loc
        → get_elem? seeder.outboards loc.file ≡ some outboard
        → (bytes : List ℕ) × (c.encode_range seeder.disk loc.file outboard loc.start loc.end
            ≡ some bytes)
    pub opens : (disk : Disk') (file : ℕ) → (d.writer disk file).1 ≡ true
    pub decodes :
        (file start end : ℕ) (outboard bytes : List ℕ)
        → c.encode_range seeder.disk file outboard start end ≡ some bytes
        → (disk : Disk')
        → (nodes : Nodes) × ((d.decode_range disk file start end bytes).1 ≡ some nodes)
    pub applies :
        (outboard : List ℕ) (nodes : Nodes)
        → (proved : List ℕ) × (d.apply_proof outboard nodes ≡ some proved)

  -- The peer has the piece now, and lost none.
  pub record Gained (index : ℕ) (peer peer' : LocalShare Disk') : Type 0 where
    pub same_layout : peer'.layout ≡ peer.layout
    pub same_files : length peer'.outboards ≡ length peer.outboards
    pub same_total : length peer'.have ≡ length peer.have
    pub had : (p : ℕ) → get_elem? peer.have p ≡ some true → get_elem? peer'.have p ≡ some true
    pub has_now : get_elem? peer'.have index ≡ some true

  pub marked-Gained :
      (index : ℕ) (peer peer' : LocalShare Disk')
      → index < length peer.have
      → peer'.layout ≡ peer.layout
      → length peer'.outboards ≡ length peer.outboards
      → peer'.have ≡ set peer.have index true
      → Gained index peer peer'
  marked-Gained index peer peer' lt same_layout same_files e = record {
    same_layout = same_layout;
    same_files = same_files;
    same_total = ap length e ∙ length-set peer.have index true;
    had = λ p h. rw e (get_elem?-set peer.have index p true lt ∙ by_test (nat_beq index p) h);
    has_now =
        rw e (
          get_elem?-set peer.have index index true lt ∙ rw ((nat_beq_iff index index).1 refl) refl);
  }
    where
      by_test :
          (b : Bool) → {o : Option Bool} → o ≡ some true → (if b then some true else o) ≡ some true
      by_test true h = refl
      by_test false h = h

  pub serve_held :
      (is_limited : Bool) (share : Serving Disk) (index : ℕ) (loc : PieceLocation)
      (outboard bytes : List ℕ)
      → leb share.local.layout.total_pieces index ≡ false
      → has share.local index ≡ true
      → locate share.local.layout index ≡ some loc
      → get_elem? share.local.outboards loc.file ≡ some outboard
      → c.encode_range share.local.disk loc.file outboard loc.start loc.end ≡ some bytes
      → serve_piece c is_limited true share index
        ≡ some (
          record share { events = share.events ++ (uploaded (length bytes) ∷ []) },
          Response.piece bytes,
        )
  unfolding serve_piece encode_piece piece_len
  serve_held true share index loc outboard bytes inside held located o e =
      rw (inside, held) (rw located (rw o (rw e refl)))
  serve_held false share index loc outboard bytes inside held located o e =
      rw (inside, held) (rw located (rw o (rw e refl)))

  module _ (seeder : LocalShare Disk) (tree : Proves seeder) where
    -- What the seeder proves, the peer stores.
    pub store-Gained :
        (peer : LocalShare Disk') (index : ℕ) (loc : PieceLocation) (outboard bytes : List ℕ)
        → locate peer.layout index ≡ some loc
        → loc.file < length peer.outboards
        → index < length peer.have
        → c.encode_range seeder.disk loc.file outboard loc.start loc.end ≡ some bytes
        → (peer' : LocalShare Disk') × (r : Result LocalError Bool) × (store_piece d peer index
              bytes
            ≡ some (peer', r))
          × Gained index peer peer'
    unfolding store_piece has mark_have
    store-Gained peer index loc outboard bytes located file lt e =
        elim (Bool-cases (get_or peer.have index false)) [
          | inl had ↦ (
            peer,
            ok false,
            rw had refl,
            record {
              same_layout = refl;
              same_files = refl;
              same_total = refl;
              had = λ p h. h;
              has_now = get_elem?-get_or peer.have index false lt ∙ ap some had;
            },
          )
          | inr missing ↦
              let at : get_elem? peer.have index ≡ some false =
                get_elem?-get_or peer.have index false lt ∙ ap some missing in
              let (nodes, n) =
                tree.decodes loc.file loc.start loc.end outboard bytes e
                  (d.writer peer.disk loc.file).0 in
              let (before, b) = get_elem?_in_range peer.outboards loc.file file in
              let (proved, p) = tree.applies before nodes in
              let peer' : LocalShare Disk' =
                marked
                  (record peer {
                    disk =
                        (d.decode_range (d.writer peer.disk loc.file).0 loc.file loc.start loc.end
                          bytes).0;
                    outboards = set peer.outboards loc.file proved;
                  })
                  index false in
              (
                peer',
                ok true,
                rw (missing, located)
                    (rw (tree.opens peer.disk loc.file) (rw n (rw b (rw p (rw at refl))))),
                marked-Gained index peer peer' lt refl (length-set peer.outboards loc.file proved)
                    refl,
              )
        ]
