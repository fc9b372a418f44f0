-- ===== src/Local/Stored.antt =====
-- What `store_piece` of local.rs (crates/chorrent/src) does on every branch.
use chorrent.Common.{
  ℕ, ◌<◌, ◌≡◌, refl, ◌∙◌, ap, Bool, true, false, Option, none, some, List, [], ◌∷◌, ◌++◌, inl, inr,
  Bool-cases, length, get_elem?, get_or, set, length-set, get_elem?_in_range, get_elem?-get_or,
  Result, ok, err,
}
use chorrent.Layout.{PieceLocation, locate}
use chorrent.Local.{
  LocalError, LocalShare, Calls, has, mark_have, marked, record_proof, received, decoded,
  store_piece,
}

module _ {Disk : Type 0} where
  -- The same pieces, and nothing said.
  pub record Unmarked (share share' : LocalShare Disk) : Type 0 where
    pub same_have : share'.have ≡ share.have
    pub same_sent : share'.sent ≡ share.sent
    pub same_layout : share'.layout ≡ share.layout
    pub same_outboards : share'.outboards ≡ share.outboards

  -- The piece is new: it is had from now on, and this was said once.
  pub record Marked (share share' : LocalShare Disk) (piece : ℕ) : Type 0 where
    pub was_missing : get_elem? share.have piece ≡ some false
    pub now_had : share'.have ≡ set share.have piece true
    pub said : share'.sent ≡ share.sent ++ (piece ∷ [])
    pub same_layout : share'.layout ≡ share.layout
    pub files : length share'.outboards ≡ length share.outboards

  -- The decoder has run on the piece's range, and the proof fitted.
  module _ {Nodes : Type 0} (c : Calls Disk Nodes) where
    abbrev pub IsVerified : LocalShare Disk → ℕ → List ℕ → Type 0
    IsVerified share piece encoded =
        (loc : PieceLocation) × (outboard proved : List ℕ) × (nodes : Nodes) × (locate share.layout
            piece
          ≡ some loc)
        × ((c.decode_range (c.writer share.disk loc.file).0 loc.file loc.start loc.end encoded).1
            ≡ some nodes)
        × (get_elem? share.outboards loc.file ≡ some outboard)
        × (c.apply_proof outboard nodes ≡ some proved)

    -- The three ways in which the call ends.
    abbrev pub Outcome :
        LocalShare Disk → ℕ → List ℕ → LocalShare Disk → Result LocalError Bool → Type 0
    Outcome share piece encoded share' (ok false) = (has share piece ≡ true) × (share' ≡ share)
    Outcome share piece encoded share' (ok true) =
        Marked share share' piece × IsVerified share piece encoded
    Outcome share piece encoded share' (err e) = (has share piece ≡ false) × Unmarked share share'

    abbrev Ends :
        LocalShare Disk → ℕ → List ℕ → Option (LocalShare Disk × Result LocalError Bool) → Type 0
    Ends share piece encoded o =
        (share' : LocalShare Disk) × (r : Result LocalError Bool) × (o ≡ some (share', r))
        × Outcome share piece encoded share' r

    module _ (share : LocalShare Disk) (piece : ℕ) (encoded : List ℕ) (loc : PieceLocation)
        (found : locate share.layout piece ≡ some loc) (file_lt : loc.file < length share.outboards)
        (missing : has share piece ≡ false) (at : get_elem? share.have piece ≡ some false) where
      abbrev on_disk : Disk → LocalShare Disk
      on_disk disk = record share { disk = disk }

      abbrev decoding : Disk × Option Nodes
      decoding = c.decode_range (c.writer share.disk loc.file).0 loc.file loc.start loc.end encoded

      proved-Ends :
          (disk : Disk) (nodes : Nodes) (outboard : List ℕ) (o : Option (List ℕ))
          → decoding.1 ≡ some nodes
          → get_elem? share.outboards loc.file ≡ some outboard
          → c.apply_proof outboard nodes ≡ o
          → Ends share piece encoded (record_proof c (on_disk disk) piece loc.file outboard o)
      unfolding mark_have
      proved-Ends disk nodes outboard none n h e = (
        on_disk disk,
        err LocalError.receive,
        refl,
        (
          missing,
          record { same_have = refl; same_sent = refl; same_layout = refl; same_outboards = refl },
        ),
      )
      proved-Ends disk nodes outboard (some proved) n h e = (
        marked (record share { disk = disk; outboards = set share.outboards loc.file proved }) piece
            false,
        ok true,
        rw at refl,
        (
          record {
            was_missing = at;
            now_had = refl;
            said = refl;
            same_layout = refl;
            files = length-set share.outboards loc.file proved;
          },
          (loc, outboard, proved, nodes, found, n, h, e),
        ),
      )

      received-Ends :
          (disk : Disk) (n : Option Nodes)
          → decoding.1 ≡ n
          → Ends share piece encoded (received c (on_disk disk) piece loc.file n)
      received-Ends disk none e = (
        on_disk disk,
        err LocalError.receive,
        refl,
        (
          missing,
          record { same_have = refl; same_sent = refl; same_layout = refl; same_outboards = refl },
        ),
      )
      received-Ends disk (some nodes) e =
          let (outboard, h) = get_elem?_in_range share.outboards loc.file file_lt in
          let (share', r, same, o) =
            proved-Ends disk nodes outboard (c.apply_proof outboard nodes) e h refl in
          (share', r, rw h same, o)

      decoded-Ends :
          (is_open : Bool)
          → Ends share piece encoded
              (decoded c (on_disk (c.writer share.disk loc.file).0) piece loc encoded is_open)
      decoded-Ends false = (
        on_disk (c.writer share.disk loc.file).0,
        err LocalError.not_opened,
        refl,
        (
          missing,
          record { same_have = refl; same_sent = refl; same_layout = refl; same_outboards = refl },
        ),
      )
      decoded-Ends true = received-Ends decoding.0 decoding.1 refl

    -- `store_piece` of a piece that has a place in a file of the share never panics. It says
    -- false and changes nothing if the piece was there. It says true only if the decoder took
    -- the bytes for that piece's range and the outboard took the proof; the piece is then
    -- marked, and this is announced once. If it gives an error, no piece is marked and nothing
    -- is announced.
    pub store_piece-Outcome :
        (share : LocalShare Disk) (piece : ℕ) (encoded : List ℕ) (loc : PieceLocation)
        → piece < length share.have
        → locate share.layout piece ≡ some loc
        → loc.file < length share.outboards
        → (share' : LocalShare Disk) × (r : Result LocalError Bool) × (store_piece c share piece
              encoded
            ≡ some (share', r))
          × Outcome share piece encoded share' r
    unfolding store_piece has
    store_piece-Outcome share piece encoded loc lt found file_lt =
        elim (Bool-cases (get_or share.have piece false)) [
          | inl had ↦ (share, ok false, rw had refl, (had, refl))
          | inr missing ↦
              let at = get_elem?-get_or share.have piece false lt ∙ ap some missing in
              let (share', r, e, o) =
                decoded-Ends share piece encoded loc found file_lt missing at
                  (c.writer share.disk loc.file).1 in
              (share', r, rw (missing, found) e, o)
        ]
