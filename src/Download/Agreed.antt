-- ===== src/Download/Agreed.antt =====
-- The scheduler and the pieces on disk agree, whatever the tasks of download.rs (crates/chorrent/src) do.
use chorrent.Common.{
  ℕ, ◌<◌, ◌≡◌, refl, ◌∙◌, sym, ap, Bool, true, false, inl, inr, ◌||◌, Option, none, some, List,
  arith, Eq, Bool-cases, Option-cases, nat_beq, nat_beq_iff, leb, if◌then◌else◌, length, get_elem?,
  contains,
}
use mathlib.Core.Path.{subst}
use chorrent.Common.HashMap
use chorrent.Layout.{PieceLocation, locate}
use chorrent.Local.{LocalShare}
use chorrent.Protocol.Bits.{unpack_bits}
use chorrent.Protocol.Bitfield.{unpack_bits_total}
use chorrent.Scheduler.{Piece, Scheduler, is_done}
use chorrent.Scheduler.Pick.{pick}
use chorrent.Scheduler.Invariant.{Inv}
use chorrent.Scheduler.Remove.{remove_peer-Removed}
use chorrent.Scheduler.Peers.{add_peer-Added}
use chorrent.Scheduler.Bits.{set_peer_has-BitWritten}
use chorrent.Scheduler.Failures.{failed-GivenBack}
use chorrent.Scheduler.Assign.{Assignment, pick-Chosen, pick_unknown}
use chorrent.Protocol.Messages.{Response}
use chorrent.Download.{
  Engine, give_back, asked, joined, arrived, departed, updated, left, max_strikes, strikes_of,
}

-- Every piece has a place in a file of the share.
abbrev pub IsLaidOut : {Disk : Type 0} → LocalShare Disk → Type 0
IsLaidOut share =
    (piece : ℕ)
    → piece < length share.have
    → (loc : PieceLocation) × (locate share.layout piece ≡ some loc)
      × (loc.file < length share.outboards)

module _ {K : Type 0} ⦃e : Eq K⦄ where
  Assignment-no_new_done :
      (peer : K) (r : Option ℕ) (s s' : Scheduler K)
      → Inv s
      → Assignment peer r s s'
      → Inv s'
        × (length s'.pieces ≡ length s.pieces)
        × ((j : ℕ)
            → get_elem? s'.pieces j ≡ some Piece.done
            → get_elem? s.pieces j ≡ some Piece.done)
  Assignment-no_new_done peer none s s' v a =
      subst
        (λ t.
          Inv t
          × (length t.pieces ≡ length s.pieces)
          × ((j : ℕ)
              → get_elem? t.pieces j ≡ some Piece.done
              → get_elem? s.pieces j ≡ some Piece.done))
        (sym a) (v, refl, λ j h. h)
  Assignment-no_new_done peer (some i) s s' v (before, was, a) = (
    a.inv,
    a.same_length,
    λ j h. elim (Bool-cases (nat_beq i j)) [
      | inl same ↦ cc (a.asked, h, ap (get_elem? s'.pieces) ((nat_beq_iff i j).0 same))
      | inr other ↦ sym (a.others j (ground arith)) ∙ h
    ],
  )

module _ {K Disk : Type 0} ⦃e : Eq K⦄ where
  -- A piece that counts as done is on disk.
  abbrev pub AreStored : Scheduler K → LocalShare Disk → Type 0
  AreStored sched share =
      (j : ℕ) → get_elem? sched.pieces j ≡ some Piece.done → get_elem? share.have j ≡ some true

  -- The invariant.
  pub record Agrees (engine : Engine K Disk) : Type 0 where
    pub inv : Inv engine.sched
    pub same_length : length engine.sched.pieces ≡ length engine.share.have
    pub stored : AreStored engine.sched engine.share
    pub laid_out : IsLaidOut engine.share

  -- What a move leaves: the invariant, and all pieces that were on disk.
  pub record Moved (engine engine' : Engine K Disk) : Type 0 where
    pub agrees : Agrees engine'
    pub kept :
        (j : ℕ)
        → get_elem? engine.share.have j ≡ some true
        → get_elem? engine'.share.have j ≡ some true
    pub same_length : length engine'.share.have ≡ length engine.share.have

  pub Moved-trans : {a b c : Engine K Disk} → Moved a b → Moved b c → Moved a c
  Moved-trans m n = record {
    agrees = n.agrees;
    kept = λ j h. n.kept j (m.kept j h);
    same_length = n.same_length ∙ m.same_length;
  }

  abbrev pub Moves : Engine K Disk → Option (Engine K Disk) → Type 0
  Moves engine o = (engine' : Engine K Disk) × (o ≡ some engine') × Moved engine engine'

  -- Another scheduler, whose done pieces are on disk, and the same share.
  pub rescheduled :
      (engine engine' : Engine K Disk)
      → Agrees engine
      → Inv engine'.sched
      → length engine'.sched.pieces ≡ length engine.sched.pieces
      → AreStored engine'.sched engine.share
      → engine'.share ≡ engine.share
      → Moved engine engine'
  rescheduled engine engine' a v long stored same = record {
    agrees = record {
      inv = v;
      same_length = omega (arith, long, a.same_length, ap (λ s. length s.have) same);
      stored = λ j h. ap (λ s. get_elem? s.have j) same ∙ stored j h;
      laid_out = subst IsLaidOut (sym same) a.laid_out;
    };
    kept = λ j h. ap (λ s. get_elem? s.have j) same ∙ h;
    same_length = ap (λ s. length s.have) same;
  }

  -- Another scheduler with no other done pieces, and the same share.
  scheduled :
      (engine engine' : Engine K Disk)
      → Agrees engine
      → Inv engine'.sched
      → length engine'.sched.pieces ≡ length engine.sched.pieces
      → ((j : ℕ)
          → get_elem? engine'.sched.pieces j ≡ some Piece.done
          → get_elem? engine.sched.pieces j ≡ some Piece.done)
      → engine'.share ≡ engine.share
      → Moved engine engine'
  scheduled engine engine' a v long undone same =
      rescheduled engine engine' a v long (λ j h. a.stored j (undone j h)) same

  pub unmoved : (engine : Engine K Disk) → Agrees engine → Moved engine engine
  unmoved engine a = record { agrees = a; kept = λ j h. h; same_length = refl }

  pub give_back-Moved :
      (index : ℕ) (peer : K) (lacks : Bool) (engine : Engine K Disk)
      → Agrees engine
      → index < length engine.share.have
      → Moves engine (give_back index peer lacks engine)
  unfolding give_back
  give_back-Moved index peer lacks engine a lt =
      let (sched, done, g) =
        failed-GivenBack index peer lacks engine.sched a.inv (omega (arith, a.same_length)) in
      (
        record engine { sched = sched },
        rw done refl,
        scheduled engine (record engine { sched = sched }) a g.inv g.same_length g.no_new_done refl,
      )

  pub joined-Moved :
      (peer : K) (bytes : List ℕ) (engine : Engine K Disk)
      → Agrees engine
      → Moves engine (joined peer bytes engine)
  unfolding joined
  joined-Moved peer bytes engine a = elim (Bool-cases (contains engine.connected peer)) [
    | inl again ↦ (engine, rw again refl, unmoved engine a)
    | inr new ↦
        let (sched, done, b) =
          add_peer-Added peer (unpack_bits bytes (length engine.share.have)) engine.sched a.inv
            ((unpack_bits_total bytes (length engine.share.have)).0 ∙ sym a.same_length) in
        let engine' = arrived peer (unpack_bits bytes (length engine.share.have)) sched engine in
        (
          engine',
          rw (new, done) refl,
          scheduled engine engine' a b.inv b.same_length b.no_new_done refl,
        )
  ]

  pub updated-Moved :
      (peer : K) (r : Response) (engine : Engine K Disk)
      → Agrees engine
      → Moves engine (updated peer r engine)
  unfolding updated
  updated-Moved peer (Response.have index) engine a =
      let (sched, done, b) = set_peer_has-BitWritten peer index engine.sched a.inv in
      (
        record engine { sched = sched },
        rw done refl,
        scheduled engine (record engine { sched = sched }) a b.inv (ap length b.same_pieces)
            (λ j h. sym (ap (λ ps. get_elem? ps j) b.same_pieces) ∙ h) refl,
      )
  updated-Moved peer (Response.bitfield bytes) engine a =
      let (sched, done, b) =
        add_peer-Added peer (unpack_bits bytes (length engine.share.have)) engine.sched a.inv
          ((unpack_bits_total bytes (length engine.share.have)).0 ∙ sym a.same_length) in
      (
        record engine { sched = sched },
        rw done refl,
        scheduled engine (record engine { sched = sched }) a b.inv b.same_length b.no_new_done refl,
      )
  updated-Moved peer (Response.manifest bytes) engine a = (engine, refl, unmoved engine a)
  updated-Moved peer (Response.piece bytes) engine a = (engine, refl, unmoved engine a)
  updated-Moved peer Response.dont_have engine a = (engine, refl, unmoved engine a)
  updated-Moved peer Response.not_found engine a = (engine, refl, unmoved engine a)
  updated-Moved peer Response.busy engine a = (engine, refl, unmoved engine a)

  pub left-Moved :
      (peer : K) (engine : Engine K Disk) → Agrees engine → Moves engine (left peer engine)
  unfolding left
  left-Moved peer engine a =
      let (sched, done, r) = remove_peer-Removed peer engine.sched a.inv in
      (
        departed peer sched engine,
        rw done refl,
        either (is_done sched) (scheduled engine _ a r.inv r.same_length r.no_new_done refl)
            (scheduled engine _ a r.inv r.same_length r.no_new_done refl),
      )
    where
      either :
          {x y : Engine K Disk} (b : Bool)
          → Moved engine x
          → Moved engine y
          → Moved engine (if b then x else y)
      either true m n = m
      either false m n = n

  pick-Moved :
      (peer : K) (engine : Engine K Disk)
      → Agrees engine
      → (picked : Option ℕ) × ((sched : Scheduler K) × (pick peer engine.sched
            ≡ some (picked, sched))
          × Moved engine (record engine { sched = sched }))
  pick-Moved peer engine a = elim (Option-cases (HashMap.get peer engine.sched.peers)) [
    | inl unknown ↦ (none, (engine.sched, pick_unknown peer engine.sched unknown, unmoved engine a))
    | inr (bits, known) ↦
        let (r, (sched, picked, c, assigned)) = pick-Chosen peer engine.sched a.inv bits known in
        let (v, long, undone) = Assignment-no_new_done peer r engine.sched sched a.inv assigned in
        (r, (sched, picked, scheduled engine _ a v long undone refl))
  ]

  pub asked-Moved :
      (peer : K) (engine : Engine K Disk)
      → Agrees engine
      → (picked : Option ℕ) × ((engine' : Engine K Disk) × (asked peer engine
            ≡ some (picked, engine'))
          × Moved engine engine')
  unfolding asked
  asked-Moved peer engine a =
      elim (Bool-cases (is_done engine.sched || leb max_strikes (strikes_of engine peer))) [
        | inl stops ↦ (none, (engine, rw stops refl, unmoved engine a))
        | inr goes_on ↦
            let (picked, (sched, done, m)) = pick-Moved peer engine a in
            (picked, (record engine { sched = sched }, rw (goes_on, done) refl, m))
      ]
