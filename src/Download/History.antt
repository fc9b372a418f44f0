-- ===== src/Download/History.antt =====
-- Whatever the peers of a download answer, in any interleaving of the tasks of download.rs
-- (crates/chorrent/src).
use chorrent.Common.{
  ℕ, ◌+◌, ◌-◌, ◌<◌, ◌≡◌, refl, ◌∙◌, sym, ap, Bool, true, false, not, inl, inr, ◌||◌, Option, none,
  some, List, [], ◌∷◌, arith, ◌>>=◌, Eq, Bool-cases, nat_beq, nat_beq_iff, if◌then◌else◌, length,
  get_elem?, get_elem?-set, get_elem?-set_self, length-set, get_elem?-get_or, Result, ok, err,
  lt-length_of_get_elem?,
}
use mathlib.Core.Path.{subst}
use chorrent.Layout.{PieceLocation, locate, unwrap_or}
use chorrent.Local.{LocalShare, LocalError, Calls, has}
use chorrent.Local.Stored.{Marked, Outcome, store_piece-Outcome}
use chorrent.Scheduler.{is_done, done_at}
use chorrent.Scheduler.Invariant.{Inv}
use chorrent.Scheduler.Progress.{complete-Completed, is_done_iff}
use chorrent.Protocol.Messages.{Response}
use chorrent.Download.{
  Move, joins, updates, asks, answers, leaves, move, run, Event, piece_verified, piece_failed,
  request_failed, not_stored, say, Engine, set_strikes, completed, verified, after_store, no_use,
  answered, max_strikes, strikes_of,
}
use chorrent.Download.Agreed.{
  Agrees, Moved, Moved-trans, Moves, rescheduled, unmoved, give_back-Moved, joined-Moved,
  updated-Moved, left-Moved, asked-Moved,
}

module _ {K Disk : Type 0} ⦃e : Eq K⦄ where
  -- More pieces on disk, and the same scheduler.
  restocked :
      (engine : Engine K Disk) (share : LocalShare Disk)
      → Agrees engine
      → length share.have ≡ length engine.share.have
      → ((j : ℕ) → get_elem? engine.share.have j ≡ some true → get_elem? share.have j ≡ some true)
      → share.layout ≡ engine.share.layout
      → length share.outboards ≡ length engine.share.outboards
      → Moved engine (record engine { share = share })
  restocked engine share a long kept same files = record {
    agrees = record {
      inv = a.inv;
      same_length = a.same_length ∙ sym long;
      stored = λ j h. kept j (a.stored j h);
      laid_out = λ piece lt.
          let (loc, found, file_lt) = a.laid_out piece (omega (arith, long)) in
          (loc, ap (λ l. locate l piece) same ∙ found, omega (arith, files));
    };
    kept = kept;
    same_length = long;
  }

  verified_ok :
      (index : ℕ) (newly : Bool) (engine : Engine K Disk) (loc : PieceLocation)
      → locate engine.share.layout index ≡ some loc
      → (engine' : Engine K Disk) × (verified index newly engine ≡ some engine')
        × (engine'.share ≡ engine.share)
        × (engine'.sched ≡ engine.sched)
  verified_ok index false engine loc h = (engine, refl, refl, refl)
  verified_ok index true engine loc h =
      (say (piece_verified index (loc.end - loc.start)) engine, rw h refl, refl, refl)

  completed-Moved :
      (index : ℕ) (engine : Engine K Disk)
      → Agrees engine
      → get_elem? engine.share.have index ≡ some true
      → Moves engine (completed index engine)
  unfolding completed
  completed-Moved index engine a had =
      let lt = lt-length_of_get_elem? engine.share.have index had in
      let (sched, done, n) =
        complete-Completed index engine.sched a.inv (omega (arith, a.same_length)) in
      let (loc, found, file_lt) = a.laid_out index lt in
      let (engine', said, same_share, same_sched) =
        verified_ok index (not (done_at engine.sched.pieces index))
          (record engine { sched = sched }) loc found in
      (
        record engine' { finished = engine'.finished || is_done sched },
        rw (done, said) refl,
        rescheduled engine (record engine' { finished = engine'.finished || is_done sched }) a
            (subst Inv (sym same_sched) n.inv)
            (ap (λ s. length s.pieces) same_sched ∙ n.same_length)
            (λ j h. elim (Bool-cases (nat_beq index j)) [
              | inl same ↦
                  subst (λ i. get_elem? engine.share.have i ≡ some true)
                    ((nat_beq_iff index j).0 same) had
              | inr other ↦ a.stored j (
                  sym (n.others j (ground arith))
                  ∙ sym (ap (λ s. get_elem? s.pieces j) same_sched)
                  ∙ h)
            ])
            same_share,
      )

  Marked-Moved :
      (index : ℕ) (engine : Engine K Disk) (share : LocalShare Disk)
      → Agrees engine
      → Marked engine.share share index
      → Moved engine (record engine { share = share })
  Marked-Moved index engine share a m =
      restocked engine share a (ap length m.now_had ∙ length-set engine.share.have index true)
        (λ j h.
          ap (λ l. get_elem? l j) m.now_had
          ∙ get_elem?-set engine.share.have index j true
              (lt-length_of_get_elem? engine.share.have index m.was_missing)
          ∙ chosen (nat_beq index j) h)
        m.same_layout m.files
    where
      chosen :
          {o : Option Bool} (b : Bool) → o ≡ some true → (if b then some true else o) ≡ some true
      chosen true h = refl
      chosen false h = h

  -- The counters and the events are not part of it.
  restruck :
      {engine engine' : Engine K Disk} (peer : K) (n : ℕ)
      → Moved engine engine'
      → Moved engine (set_strikes peer n engine')
  restruck peer n m = record {
    agrees = record {
      inv = m.agrees.inv;
      same_length = m.agrees.same_length;
      stored = m.agrees.stored;
      laid_out = m.agrees.laid_out;
    };
    kept = m.kept;
    same_length = m.same_length;
  }

  -- A move, then another that ends with an event.
  then_say :
      {a b : Engine K Disk} (event : Event K) (o : Option (Engine K Disk))
      → Moved a b
      → Moves b o
      → Moves a (o >>= λ x. some (say event x))
  then_say event o m (x, h, n) = (
    say event x,
    rw h refl,
    let t = Moved-trans m n in
        record {
          agrees = record {
            inv = t.agrees.inv;
            same_length = t.agrees.same_length;
            stored = t.agrees.stored;
            laid_out = t.agrees.laid_out;
          };
          kept = t.kept;
          same_length = t.same_length;
        },
  )

  after : {a b : Engine K Disk} {o : Option (Engine K Disk)} → Moved a b → Moves b o → Moves a o
  after m (x, h, n) = (x, h, Moved-trans m n)

  no_use-Moved :
      (index : ℕ) (peer : K) (engine : Engine K Disk)
      → Agrees engine
      → index < length engine.share.have
      → Moves engine (no_use index peer engine)
  no_use-Moved index peer engine a lt =
      let m = restruck peer (strikes_of engine peer + 1) (unmoved engine a) in
      then_say (piece_failed index request_failed) _ m
        (give_back-Moved index peer false _ m.agrees lt)

  module _ {Nodes : Type 0} (c : Calls Disk Nodes) where
    after_store-Moved :
        (index : ℕ) (peer : K) (engine : Engine K Disk) (encoded : List ℕ) (share : LocalShare Disk)
        (r : Result LocalError Bool)
        → Agrees engine
        → index < length engine.share.have
        → Outcome c engine.share index encoded share r
        → Moves engine (after_store index peer engine (some (share, r)))
    unfolding after_store has
    after_store-Moved index peer engine encoded share (ok false) a lt (had, same) =
        let m = restruck peer 0 (
          restocked engine share a (ap (λ s. length s.have) same)
            (λ j h. ap (λ s. get_elem? s.have j) same ∙ h) (ap (λ s. s.layout) same)
            (ap (λ s. length s.outboards) same)) in
        after m (
          completed-Moved index _ m.agrees (
            ap (λ s. get_elem? s.have index) same
            ∙ get_elem?-get_or engine.share.have index false lt
            ∙ ap some had))
    after_store-Moved index peer engine encoded share (ok true) a lt (marked, v) =
        let m = restruck peer 0 (Marked-Moved index engine share a marked) in
        after m (
          completed-Moved index _ m.agrees (
            ap (λ l. get_elem? l index) marked.now_had
            ∙ get_elem?-set_self engine.share.have index true lt))
    after_store-Moved index peer engine encoded share (err why) a lt (missing, u) =
        let m = restruck peer (strikes_of engine peer + 1) (
          restocked engine share a (ap length u.same_have)
            (λ j h. ap (λ l. get_elem? l j) u.same_have ∙ h) u.same_layout
            (ap length u.same_outboards)) in
        then_say (piece_failed index (not_stored why)) _ m
          (give_back-Moved index peer true _ m.agrees (omega (arith, ap length u.same_have, lt)))

    answered-Moved :
        (index : ℕ) (peer : K) (r : Option Response) (engine : Engine K Disk)
        → Agrees engine
        → index < length engine.share.have
        → Moves engine (answered c index peer r engine)
    unfolding answered
    answered-Moved index peer (some (Response.piece encoded)) engine a lt =
        let (loc, found, file_lt) = a.laid_out index lt in
        let (share, r, stored, o) =
          store_piece-Outcome c engine.share index encoded loc lt found file_lt in
        let (x, h, m) = after_store-Moved index peer engine encoded share r a lt o in
        (x, ap (after_store index peer engine) stored ∙ h, m)
    answered-Moved index peer (some Response.dont_have) engine a lt =
        give_back-Moved index peer true engine a lt
    answered-Moved index peer (some Response.busy) engine a lt =
        give_back-Moved index peer false engine a lt
    answered-Moved index peer (some Response.not_found) engine a lt =
        let m = restruck peer max_strikes (unmoved engine a) in
        after m (give_back-Moved index peer false _ m.agrees lt)
    answered-Moved index peer (some (Response.manifest bytes)) engine a lt =
        no_use-Moved index peer engine a lt
    answered-Moved index peer (some (Response.bitfield bytes)) engine a lt =
        no_use-Moved index peer engine a lt
    answered-Moved index peer (some (Response.have i)) engine a lt =
        no_use-Moved index peer engine a lt
    answered-Moved index peer none engine a lt = no_use-Moved index peer engine a lt

    -- Requests are for pieces of the share.
    abbrev pub AreMoves : ℕ → List (Move K) → Type 0
    AreMoves n [] = Unit
    AreMoves n (answers index peer r ∷ ms) = (index < n) × AreMoves n ms
    AreMoves n (m ∷ ms) = AreMoves n ms

    run_after :
        (m : Move K) (ms : List (Move K)) (engine : Engine K Disk)
        → Moves engine (move c m engine)
        → ((x : Engine K Disk) → Moved engine x → Moves x (run c ms x))
        → Moves engine (run c (m ∷ ms) engine)
    unfolding run
    run_after m ms engine (x, h, moved) rest =
        let (y, h', moved') = rest x moved in (y, rw (h, h') refl, Moved-trans moved moved')

    -- Whatever peers join, tell, answer and leave, in any order of the tasks, as long as answers
    -- are for pieces of the share, an engine that agrees with its share never panics. It still
    -- agrees: the scheduler is well formed, and a piece counts as done only if it is on disk. No
    -- piece on disk is lost.
    pub run-Moved :
        (ms : List (Move K)) (engine : Engine K Disk)
        → Agrees engine
        → AreMoves (length engine.share.have) ms
        → (engine' : Engine K Disk) × (run c ms engine ≡ some engine') × Moved engine engine'
    unfolding run
    run-Moved [] engine a h = (engine, refl, unmoved engine a)
    run-Moved (joins peer bytes ∷ ms) engine a h =
        run_after (joins peer bytes) ms engine (joined-Moved peer bytes engine a)
          (λ x m. run-Moved ms x m.agrees (subst (λ n. AreMoves n ms) (sym m.same_length) h))
    run-Moved (updates peer r ∷ ms) engine a h =
        run_after (updates peer r) ms engine (updated-Moved peer r engine a)
          (λ x m. run-Moved ms x m.agrees (subst (λ n. AreMoves n ms) (sym m.same_length) h))
    run-Moved (asks peer ∷ ms) engine a h =
        let (picked, (x, asks_it, m)) = asked-Moved peer engine a in
        run_after (asks peer) ms engine (x, rw asks_it refl, m)
          (λ x m. run-Moved ms x m.agrees (subst (λ n. AreMoves n ms) (sym m.same_length) h))
    run-Moved (answers index peer r ∷ ms) engine a (lt, h) =
        run_after (answers index peer r) ms engine (answered-Moved index peer r engine a lt)
          (λ x m. run-Moved ms x m.agrees (subst (λ n. AreMoves n ms) (sym m.same_length) h))
    run-Moved (leaves peer ∷ ms) engine a h =
        run_after (leaves peer) ms engine (left-Moved peer engine a)
          (λ x m. run-Moved ms x m.agrees (subst (λ n. AreMoves n ms) (sym m.same_length) h))

    -- If an engine that agreed with its share at the start says that it is done, after any order
    -- of the tasks in which answers are for pieces of the share, then every piece of the share
    -- is on disk.
    pub run-is_done :
        (ms : List (Move K)) (engine engine' : Engine K Disk)
        → Agrees engine
        → AreMoves (length engine.share.have) ms
        → run c ms engine ≡ some engine'
        → is_done engine'.sched ≡ true
        → (j : ℕ) → j < length engine.share.have
        → get_elem? engine'.share.have j ≡ some true
    run-is_done ms engine engine' a h ran done j lt =
        let (x, ran', m) = run-Moved ms engine a h in
        let same : x ≡ engine' = ap (λ o. unwrap_or o x) (sym ran' ∙ ran) in
        let b : Agrees engine' = subst (λ y. Agrees y) same m.agrees in
        let long : length engine'.share.have ≡ length engine.share.have =
          subst (λ y. length y.share.have ≡ length engine.share.have) same m.same_length in
        b.stored j ((is_done_iff engine'.sched b.inv).0 done j (omega (arith, b.same_length, long)))
