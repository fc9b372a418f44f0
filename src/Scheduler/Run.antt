-- ===== src/Scheduler/Run.antt =====
-- Histories of a scheduler: the calls that download.rs (crates/chorrent/src) makes of scheduler.rs,
-- in any order and from any peers.
use chorrent.Common.{
  ℕ, ◌<◌, ◌≡◌, ◌≢◌, refl, Bool, true, Option, none, some, List, [], ◌∷◌, ◌∙◌, Eq, inl, inr, arith,
  Bool-cases, length, get_elem?, nat_beq, sym, ap, nat_beq_iff, ◌>>=◌, nat_eq,
}
use mathlib.Core.Path.{subst}
use chorrent.Common.HashMap
use chorrent.Scheduler.{Piece, Scheduler, add_peer, set_peer_has, remove_peer, complete, failed}
use chorrent.Scheduler.Pick.{pick}
use chorrent.Scheduler.Invariant.{Inv}
use chorrent.Scheduler.Remove.{remove_peer-Removed}
use chorrent.Scheduler.Peers.{add_peer-Added}
use chorrent.Scheduler.Bits.{set_peer_has-BitWritten}
use chorrent.Scheduler.Failures.{failed-GivenBack}
use chorrent.Scheduler.Progress.{complete-Completed}
use chorrent.Scheduler.Assign.{Assignment, WasAsked, pick-Chosen, pick_unknown}

-- A call of the scheduler by the download engine.
pub data Call (K : Type 0) : Type 0 where
  adds : K → List Bool → Call K
  learns : K → ℕ → Call K
  removes : K → Call K
  picks : K → Call K
  completes : ℕ → Call K
  fails : ℕ → K → Bool → Call K

-- What the engine sees to: a bitfield has a bit for each of the `n` pieces, and it reports on
-- pieces of the share only.
abbrev pub IsCall : {K : Type 0} → ℕ → Call K → Type 0
IsCall n (adds k have) = length have ≡ n
IsCall n (completes piece) = piece < n
IsCall n (fails piece k lacks) = piece < n
IsCall n _ = Unit

module _ {K : Type 0} ⦃e : Eq K⦄ where
  -- The state after one call; `none` if it panics.
  unfoldable pub step : Call K → Scheduler K → Option (Scheduler K)
  step (adds k have) s = add_peer k have s
  step (learns k piece) s = set_peer_has k piece s
  step (removes k) s = remove_peer k s
  step (picks k) s = do (r, s') ← pick k s; some s'
  step (completes piece) s = do (first, s') ← complete piece s; some s'
  step (fails piece k lacks) s = failed piece k lacks s

  unfoldable pub run : List (Call K) → Scheduler K → Option (Scheduler K)
  unfolding step
  run [] s = some s
  run (c ∷ cs) s = do s' ← step c s; run cs s'

  abbrev pub AreCalls : ℕ → List (Call K) → Type 0
  AreCalls n [] = Unit
  AreCalls n (c ∷ cs) = IsCall n c × AreCalls n cs

  -- What holds after any calls.
  pub record Advanced (s s' : Scheduler K) : Type 0 where
    pub inv : Inv s'
    pub same_length : length s'.pieces ≡ length s.pieces
    pub kept_done :
        (j : ℕ) → get_elem? s.pieces j ≡ some Piece.done → get_elem? s'.pieces j ≡ some Piece.done

  Advanced-trans : {s t u : Scheduler K} → Advanced s t → Advanced t u → Advanced s u
  Advanced-trans a b = record {
    inv = b.inv;
    same_length = b.same_length ∙ a.same_length;
    kept_done = λ j h. b.kept_done j (a.kept_done j h);
  }

  abbrev Steps : Call K → Scheduler K → Type 0
  Steps c s = (s' : Scheduler K) × (step c s ≡ some s') × Advanced s s'

  -- Picking changes no done piece.
  Assignment-Advanced :
      (k : K) (r : Option ℕ) (s s' : Scheduler K) → Inv s → Assignment k r s s' → Advanced s s'
  Assignment-Advanced k none s s' v a =
      subst (Advanced s) (sym a) (record { inv = v; same_length = refl; kept_done = λ j h. h })
  Assignment-Advanced k (some i) s s' v (before, was, a) = record {
    inv = a.inv;
    same_length = a.same_length;
    kept_done = λ j h. elim (Bool-cases (nat_beq i j)) [
      | inl same ↦ absurd (undone j same was h)
      | inr other ↦ a.others j (ground arith) ∙ h
    ];
  }
    where
      undone :
          (j : ℕ)
          → nat_beq i j ≡ true
          → WasAsked before i s
          → get_elem? s.pieces j ≢ some Piece.done
      undone j same (inl (h, _)) fixed = cc (h, ap (get_elem? s.pieces) ((nat_beq_iff i _).0 same))
      undone j same (inr (h, _)) fixed = cc (h, ap (get_elem? s.pieces) ((nat_beq_iff i _).0 same))

  picks-Steps : (k : K) (s : Scheduler K) → Inv s → Steps (picks k) s
  unfolding step
  picks-Steps k s v = by_peer (HashMap.get k s.peers) refl
    where
      by_peer : (o : Option (List Bool)) → HashMap.get k s.peers ≡ o → Steps (picks k) s
      by_peer none h =
          (s, rw (pick_unknown k s h), record { inv = v; same_length = refl; kept_done = λ j f. f })
      by_peer (some bits) h =
          let (r, (s', picked, c, a)) = pick-Chosen k s v bits h in
          (s', rw picked, Assignment-Advanced k r s s' v a)

  step-Advanced : (c : Call K) (s : Scheduler K) → Inv s → IsCall (length s.pieces) c → Steps c s
  unfolding step
  step-Advanced (adds k have) s v h =
      let (s', e', a) = add_peer-Added k have s v h in
      (s', e', record { inv = a.inv; same_length = a.same_length; kept_done = a.kept_done })
  step-Advanced (learns k piece) s v h =
      let (s', e', a) = set_peer_has-BitWritten k piece s v in
      (
        s',
        e',
        record {
          inv = a.inv;
          same_length = ap length a.same_pieces;
          kept_done = λ j f. ap (λ ps. get_elem? ps j) a.same_pieces ∙ f;
        },
      )
  step-Advanced (removes k) s v h =
      let (s', e', a) = remove_peer-Removed k s v in
      (s', e', record { inv = a.inv; same_length = a.same_length; kept_done = a.kept_done })
  step-Advanced (picks k) s v h = picks-Steps k s v
  step-Advanced (completes piece) s v h =
      let (s', e', a) = complete-Completed piece s v h in
      (
        s',
        rw e',
        record {
          inv = a.inv;
          same_length = a.same_length;
          kept_done = λ j f. elim (Bool-cases (nat_beq piece j)) [
            | inl same ↦ rw (← (nat_beq_iff piece j).0 same) a.now_done
            | inr other ↦ a.others j (ground arith) ∙ f
          ];
        },
      )
  step-Advanced (fails piece k lacks) s v h =
      let (s', e', a) = failed-GivenBack piece k lacks s v h in
      (s', e', record { inv = a.inv; same_length = a.same_length; kept_done = a.kept_done })

  -- From a well-formed scheduler, no history of calls panics in which every bitfield has a bit
  -- for each piece and only pieces of the share are reported on: the scheduler stays well
  -- formed, the number of pieces stays the same, and a piece that is done stays done.
  pub run-Advanced :
      (cs : List (Call K)) (s : Scheduler K)
      → Inv s
      → AreCalls (length s.pieces) cs
      → (s' : Scheduler K) × (run cs s ≡ some s') × Advanced s s'
  unfolding run
  run-Advanced [] s v h = (s, refl, record { inv = v; same_length = refl; kept_done = λ j f. f })
  run-Advanced (c ∷ cs) s v h =
      let (t, e', a) = step-Advanced c s v h.0 in
      let (u, e'', b) = run-Advanced cs t a.inv (rw a.same_length h.1) in
      (u, rw e' e'', Advanced-trans a b)
