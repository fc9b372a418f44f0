-- ===== src/Handler/Exchange.antt =====
-- A download from one seeder: the answers of handler.rs, stored by `store_piece` of local.rs, as a worker
-- of download.rs does (crates/chorrent/src). The two ends have disks of their own.
use chorrent.Common.{
  ℕ, zero, suc, ◌+◌, ◌<◌, ◌≡◌, refl, ◌∙◌, sym, ap, Bool, true, false, inl, inr, Option, some, List,
  ◌∷◌, ◌++◌, [], ◌>>=◌, arith, nat_beq, nat_beq_iff, Bool-cases, leb, if◌then◌else◌, length,
  get_elem?, get_elem?_in_range, range, nat_eq, list_eq,
}
use mathlib.Core.Path.{subst}
use chorrent.Layout.{PieceLocation, locate}
use chorrent.Local.{LocalShare, Calls, has}
use chorrent.Registry.{Registry, SharedShare, lookup}
use chorrent.Protocol.Messages.{Request, Response}
use chorrent.Handler.{Serving, answered, Reads, serve_piece, Heap, put_at, serve_stream, uploaded}
use chorrent.Handler.Stored.{taken, Proves, Gained, serve_held, store-Gained}

module _ {Disk Disk' Nodes : Type 0} (c : Reads Disk) (d : Calls Disk' Nodes) where
  module _ (seeder : LocalShare Disk) (tree : Proves c d seeder) where
    module _ (keyed_hash derive_key : List ℕ → List ℕ → List ℕ) (is_limited : Bool)
        (shares : Registry) (remote : List ℕ) (id : List ℕ) (auth : Option (List ℕ)) where
      -- One request, and what is done with its answer.
      unfoldable pub fetch :
          ℕ → Heap Disk × LocalShare Disk' → Option (Heap Disk × LocalShare Disk')
      fetch index (heap, peer) = do
        (heap', o) ←
            serve_stream c keyed_hash derive_key is_limited true shares remote heap
              (Request.piece id auth index)
        peer' ← taken c d peer index o
        some (heap', peer')

      unfoldable pub fetch_all :
          List ℕ → Heap Disk × LocalShare Disk' → Option (Heap Disk × LocalShare Disk')
      fetch_all [] state = some state
      fetch_all (index ∷ rest) state = do state' ← fetch index state; fetch_all rest state'

      module _ (s : SharedShare)
          (found : lookup keyed_hash derive_key shares id remote auth ≡ some s) where
        serve-piece :
            (heap : Heap Disk) (index : ℕ) (loc : PieceLocation) (outboard bytes : List ℕ)
            → (heap s.address).local ≡ seeder
            → leb seeder.layout.total_pieces index ≡ false
            → has seeder index ≡ true
            → locate seeder.layout index ≡ some loc
            → get_elem? seeder.outboards loc.file ≡ some outboard
            → c.encode_range seeder.disk loc.file outboard loc.start loc.end ≡ some bytes
            → (heap' : Heap Disk) × (serve_stream c keyed_hash derive_key is_limited true shares
                  remote heap
                  (Request.piece id auth index)
                ≡ some (heap', answered (Response.piece bytes)))
              × ((heap' s.address).local ≡ seeder)
        unfolding serve_stream
        serve-piece heap index loc outboard bytes same inside held located o e = (
          put_at heap s.address share',
          rw found (rw (pieced is_limited) refl),
          ap (λ (b : Bool). (if b then share' else heap s.address).local)
                ((nat_beq_iff s.address s.address).1 refl)
              ∙ same,
        )
          where
            share' : Serving Disk
            share' = record (heap s.address) {
              events = (heap s.address).events ++ (uploaded (length bytes) ∷ []);
            }

            pieced :
                (b : Bool)
                → serve_piece c b true (heap s.address) index ≡ some (share', Response.piece bytes)
            pieced b =
                serve_held c d b (heap s.address) index loc outboard bytes
                  (subst (λ x. leb x.layout.total_pieces index ≡ false) (sym same) inside)
                  (subst (λ x. has x index ≡ true) (sym same) held)
                  (subst (λ x. locate x.layout index ≡ some loc) (sym same) located)
                  (subst (λ x. get_elem? x.outboards loc.file ≡ some outboard) (sym same) o)
                  (subst
                    (λ x. c.encode_range x.disk loc.file outboard loc.start loc.end ≡ some bytes)
                    (sym same) e)

        -- Both ends lay out the share's files in the same way.
        pub record Fits (peer : LocalShare Disk') : Type 0 where
          pub same_layout : peer.layout ≡ seeder.layout
          pub same_files : length peer.outboards ≡ length seeder.outboards
          pub same_total : length peer.have ≡ seeder.layout.total_pieces

        abbrev pub HasPlace : ℕ → Type 0
        HasPlace index =
            (loc : PieceLocation) × (locate seeder.layout index ≡ some loc)
            × (loc.file < length seeder.outboards)

        fetch-Gained :
            (index : ℕ) (heap : Heap Disk) (peer : LocalShare Disk')
            → (heap s.address).local ≡ seeder
            → Fits peer
            → index < seeder.layout.total_pieces
            → has seeder index ≡ true
            → HasPlace index
            → (heap' : Heap Disk) × (peer' : LocalShare Disk') × (fetch index (heap, peer)
                ≡ some (heap', peer'))
              × ((heap' s.address).local ≡ seeder)
              × Gained c d index peer peer'
        unfolding fetch
        fetch-Gained index heap peer same fits lt held (loc, located, file) =
            let (outboard, o) = get_elem?_in_range seeder.outboards loc.file file in
            let (bytes, e) = tree.encodes index loc outboard held located o in
            let (heap', served, same') =
              serve-piece heap index loc outboard bytes same (ground arith) held located o e in
            let (peer', r, stored, gained) =
              store-Gained c d seeder tree peer index loc outboard bytes
                (subst (λ l. locate l index ≡ some loc) (sym fits.same_layout) located)
                (omega (arith, fits.same_files)) (omega (arith, fits.same_total)) e in
            (heap', peer', rw served (rw stored refl), same', gained)

        Gained-Fits :
            {index : ℕ} {peer peer' : LocalShare Disk'}
            → Fits peer
            → Gained c d index peer peer'
            → Fits peer'
        Gained-Fits f g = record {
          same_layout = g.same_layout ∙ f.same_layout;
          same_files = g.same_files ∙ f.same_files;
          same_total = g.same_total ∙ f.same_total;
        }

        fetch_range_complete :
            (n start : ℕ) (heap : Heap Disk) (peer : LocalShare Disk')
            → (heap s.address).local ≡ seeder
            → Fits peer
            → start + n ≡ seeder.layout.total_pieces
            → ((p : ℕ) → p < seeder.layout.total_pieces → (has seeder p ≡ true) × HasPlace p)
            → ((p : ℕ) → p < start → get_elem? peer.have p ≡ some true)
            → (heap' : Heap Disk) × (peer' : LocalShare Disk') × (fetch_all
                  (range start n)
                  (heap, peer)
                ≡ some (heap', peer'))
              × ((p : ℕ) → p < seeder.layout.total_pieces → get_elem? peer'.have p ≡ some true)
        unfolding fetch_all
        fetch_range_complete zero start heap peer same fits end whole before =
            (heap, peer, refl, λ p lt. before p (omega arith))
        fetch_range_complete (suc n) start heap peer same fits end whole before =
            let (heap1, peer1, e, same1, g) =
              fetch-Gained start heap peer same fits (omega arith) (whole start (omega arith)).0
                (whole start (omega arith)).1 in
            let (heap', peer', e', all) =
              fetch_range_complete n (suc start) heap1 peer1 same1 (Gained-Fits fits g)
                (omega arith) whole
                (λ p lt. elim (Bool-cases (nat_beq p start)) [
                  | inl at ↦
                      subst (λ q. get_elem? peer1.have q ≡ some true)
                        (sym ((nat_beq_iff p start).0 at)) g.has_now
                  | inr below ↦ g.had p (before p (ground (arith, nat_beq_iff p start)))
                ]) in
            (heap', peer', rw e e', all)

        -- A seeder lists the share and lets the peer see it, holds every piece, and its hash
        -- tree proves what it holds to anyone with the same layout and enough bits and
        -- outboards, whose disk takes it. Asking for each piece once and storing the answers
        -- then panics nowhere, and the peer ends with every piece.
        pub fetch_all_complete :
            (heap : Heap Disk) (peer : LocalShare Disk')
            → (heap s.address).local ≡ seeder
            → Fits peer
            → ((p : ℕ) → p < seeder.layout.total_pieces → (has seeder p ≡ true) × HasPlace p)
            → (heap' : Heap Disk) × (peer' : LocalShare Disk') × (fetch_all
                  (range 0 seeder.layout.total_pieces)
                  (heap, peer)
                ≡ some (heap', peer'))
              × ((p : ℕ) → p < seeder.layout.total_pieces → get_elem? peer'.have p ≡ some true)
        fetch_all_complete heap peer same fits whole =
            fetch_range_complete seeder.layout.total_pieces 0 heap peer same fits (omega arith)
              whole (λ p lt. absurd (omega arith))
