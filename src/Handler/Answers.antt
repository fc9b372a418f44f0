-- ===== src/Handler/Answers.antt =====
-- What a request to handler.rs (crates/chorrent/src) is answered, and what it changes.
use chorrent.Common.{
  ℕ, ◌≡◌, ◌≢◌, refl, sym, ap, Bool, true, false, not, ◌↔◌, ◌⊎◌, inl, inr, Option, none, some, List,
  [], ◌∷◌, ◌++◌, ◌>>=◌, nat_beq, nat_beq_iff, Bool-cases, Option-cases, leb, if◌then◌else◌, length,
  nat_eq, list_eq,
}
use mathlib.Core.Path.{subst}
use chorrent.Common.HashMap
use chorrent.Local.{LocalShare, has}
use chorrent.Registry.{Registry, SharedShare, lookup}
use chorrent.Registry.Listed.{IsListed, HoldsSecret, lookup_iff}
use chorrent.Protocol.Messages.{Request, Response}
use chorrent.Protocol.Messages.Request.{manifest, subscribe, piece}
use chorrent.Handler.{
  Serving, Outcome, answered, subscribed, Reads, encode_piece, piece_len, paced, refused, encoded,
  note_serve_failure, serve_piece, Heap, put_at, respond, share_id, auth_of, serve_stream, uploaded,
}
use chorrent.Handler.Changes.{Noted, HasChanged, HasFile, note_serve_failure-Noted}

module _ {Disk : Type 0} (c : Reads Disk) where
  abbrev pub IsHeld : LocalShare Disk → ℕ → Type 0
  IsHeld share index = (leb share.layout.total_pieces index ≡ false) × (has share index ≡ true)

  -- The ways in which a request for a piece ends.
  pub data PieceAnswer (slot : Bool) (share : Serving Disk) (index : ℕ)
      : Serving Disk → Response → Type 0 where
    not_held : ¬ (IsHeld share.local index) → PieceAnswer slot share index share Response.dont_have
    no_slot :
        IsHeld share.local index → slot ≡ false → PieceAnswer slot share index share Response.busy
    given :
        (bytes : List ℕ)
        → IsHeld share.local index
        → slot ≡ true
        → encode_piece c share.local index ≡ some (some bytes)
        → PieceAnswer slot share index
            (record share { events = share.events ++ (uploaded (length bytes) ∷ []) })
            (Response.piece bytes)
    failed :
        {share' : Serving Disk}
        → IsHeld share.local index
        → slot ≡ true
        → ((bytes : List ℕ) → encode_piece c share.local index ≢ some (some bytes))
        → Noted (HasChanged c share index) share share'
        → PieceAnswer slot share index share' Response.dont_have

  same_local :
      {slot : Bool} {share share' : Serving Disk} {index : ℕ} {r : Response}
      → PieceAnswer slot share index share' r
      → share'.local ≡ share.local
  same_local (not_held h) = refl
  same_local (no_slot h s) = refl
  same_local (given bytes h s e) = refl
  same_local (failed h s e n) = n.same_local

  module _ (share : Serving Disk) (index : ℕ)
      (place : IsHeld share.local index → HasFile share (c, index)) where
    abbrev Ends : Bool → Option (Serving Disk × Response) → Type 0
    Ends slot o =
        (share' : Serving Disk) × (r : Response) × (o ≡ some (share', r))
        × PieceAnswer slot share index share' r

    refused-Ends :
        IsHeld share.local index
        → ((bytes : List ℕ) → encode_piece c share.local index ≢ some (some bytes))
        → Ends true (refused c (note_serve_failure c share index))
    refused-Ends held no_bytes =
        let (loc, located, lt) = place held in
        let (share', e, n) = note_serve_failure-Noted c share index loc located lt in
        (share', Response.dont_have, rw e refl, failed held refl no_bytes n)

    encoded-Ends :
        (o : Option (Option (List ℕ)))
        → IsHeld share.local index
        → encode_piece c share.local index ≡ o
        → Ends true (encoded c share index o)
    encoded-Ends none held e = refused-Ends held (λ bytes h. cc)
    encoded-Ends (some none) held e = refused-Ends held (λ bytes h. cc)
    encoded-Ends (some (some bytes)) held e = (_, _, refl, given bytes held refl e)

    paced-Ends :
        (is_limited : Bool)
        → IsHeld share.local index
        → Ends true (do
          len ← paced c is_limited share.local index
          encoded c share index (encode_piece c share.local index))
    unfolding piece_len
    paced-Ends false held = encoded-Ends (encode_piece c share.local index) held refl
    paced-Ends true held =
        let (loc, located, lt) = place held in
        rw located (encoded-Ends (encode_piece c share.local index) held refl)

    slot-Ends :
        (is_limited slot : Bool)
        → IsHeld share.local index
        → Ends slot (
            if not slot then some (share, Response.busy) else (do
              len ← paced c is_limited share.local index
              encoded c share index (encode_piece c share.local index)))
    slot-Ends is_limited false held = (share, Response.busy, refl, no_slot held refl)
    slot-Ends is_limited true held = paced-Ends is_limited held

    pub serve_piece-PieceAnswer :
        (is_limited slot : Bool) → Ends slot (serve_piece c is_limited slot share index)
    unfolding serve_piece
    serve_piece-PieceAnswer is_limited slot =
        elim (Bool-cases (leb share.local.layout.total_pieces index)) [
          | inl past ↦ rw past (share, Response.dont_have, refl, not_held (λ h. cc (h.0, past)))
          | inr inside ↦ elim (Bool-cases (has share.local index)) [
            | inl held ↦ rw (inside, held) (slot-Ends is_limited slot (inside, held))
            | inr missing ↦
                rw (inside, missing)
                  (share, Response.dont_have, refl, not_held (λ h. cc (h.1, missing)))
          ]
        ]

  module _ (keyed_hash derive_key : List ℕ → List ℕ → List ℕ) (shares : Registry)
      (remote : List ℕ) where
    -- The share is listed under the id that is asked for, and the request may see it.
    abbrev pub Authorized : Request → SharedShare → Type 0
    Authorized request s =
        (HashMap.get (share_id request) shares ≡ some s)
        × (IsListed s.share.allowed remote
            × HoldsSecret keyed_hash derive_key s.share.secret remote (auth_of request))

    -- The answer of a request that may see the share.
    abbrev pub Given : Request → Bool → SharedShare → Heap Disk → Heap Disk → Outcome → Type 0
    Given (manifest id auth) slot s heap heap' o =
        (o ≡ answered (Response.manifest (heap s.address).manifest_bytes)) × (heap' ≡ heap)
    Given (subscribe id auth) slot s heap heap' o = (o ≡ subscribed s) × (heap' ≡ heap)
    Given (piece id auth index) slot s heap heap' o =
        (r : Response) × (o ≡ answered r)
        × PieceAnswer slot (heap s.address) index (heap' s.address) r
        × ((a : ℕ) → s.address ≢ a → heap' a ≡ heap a)

    abbrev pub Answered : Request → Bool → Heap Disk → Heap Disk → Outcome → Type 0
    Answered request slot heap heap' o =
        (((s : SharedShare) → ¬ (Authorized request s))
          × (o ≡ answered Response.not_found)
          × (heap' ≡ heap))
        ⊎ ((s : SharedShare) × Authorized request s × Given request slot s heap heap' o)

    -- Every piece that is held has a place in a file of its share.
    abbrev pub HasPlaces : Heap Disk → Type 0
    HasPlaces heap = (a index : ℕ) → IsHeld (heap a).local index → HasFile (heap a) (c, index)

    respond-Given :
        (is_limited slot : Bool) (heap : Heap Disk) (request : Request) (s : SharedShare)
        → HasPlaces heap
        → (heap' : Heap Disk) × (o : Outcome) × (respond c is_limited slot heap request (some s)
            ≡ some (heap', o))
          × Given request slot s heap heap' o
    respond-Given is_limited slot heap (manifest id auth) s places = (heap, _, refl, (refl, refl))
    respond-Given is_limited slot heap (subscribe id auth) s places = (heap, _, refl, (refl, refl))
    respond-Given is_limited slot heap (piece id auth index) s places =
        let (share', r, e, p) =
          serve_piece-PieceAnswer (heap s.address) index (places s.address index) is_limited slot in
        (
          put_at heap s.address share',
          answered r,
          rw e refl,
          (
            r,
            refl,
            subst (λ x. PieceAnswer slot (heap s.address) index x r)
                (sym (
                  ap (λ (b : Bool). if b then share' else heap s.address)
                    ((nat_beq_iff s.address s.address).1 refl)))
                p,
            λ a ne. elim (Bool-cases (nat_beq s.address a)) [
              | inl same ↦ absurd (ne ((nat_beq_iff s.address a).0 same))
              | inr other ↦ rw other refl
            ],
          ),
        )

    -- Where every piece that is held has a place in a file of its share, no request makes the
    -- seeder panic. A request that may not see the share it names, because it is not listed, the
    -- requester is not allowed or the token is not right, is answered by not found and changes
    -- nothing. Otherwise a manifest or a subscription is given without a change, and a request
    -- for a piece is answered by the piece, busy or don't have, exactly as the piece is held, a
    -- slot is free and the piece can be encoded; no other share changes.
    pub serve_stream-Answered :
        (is_limited slot : Bool) (heap : Heap Disk) (request : Request)
        → HasPlaces heap
        → (heap' : Heap Disk) × (o : Outcome) × (serve_stream c keyed_hash derive_key is_limited
              slot shares remote heap request
            ≡ some (heap', o))
          × Answered request slot heap heap' o
    unfolding serve_stream
    serve_stream-Answered is_limited slot heap request places =
        elim (Option-cases
          (lookup keyed_hash derive_key shares (share_id request) remote (auth_of request))) [
            | inl nothing ↦ (
              heap,
              answered Response.not_found,
              rw nothing refl,
              inl ((λ s h. cc (nothing, (finds s).1 h)), refl, refl),
            )
            | inr (s, found) ↦
                let (heap', o, e, g) = respond-Given is_limited slot heap request s places in
                (heap', o, rw found e, inr (s, (finds s).0 found, g))
          ]
      where
        finds :
            (s : SharedShare)
            → (lookup keyed_hash derive_key shares (share_id request) remote (auth_of request)
                ≡ some s)
              ↔ Authorized request s
        finds s =
            lookup_iff keyed_hash derive_key shares (share_id request) remote (auth_of request) s
