-- ===== src/Local/Gained.antt =====
-- What the loop over the pieces of a file gains in `restore_progress` of local.rs (crates/chorrent/src).
use chorrent.Common.{
  bind_some, some_eq, ℕ, zero, suc, ◌≤◌, ◌<◌, ◌+◌, ◌≡◌, refl, ◌∙◌, sym, ap, Bool, true, false, ◌⊎◌,
  inl, inr, Option, some, arith, nat_beq, nat_beq_iff, if◌then◌else◌, get_elem?, get_elem?-set,
  lt-length_of_get_elem?, range, Bool-cases, Result, ok, err,
}
use mathlib.Core.Path.{subst}
use chorrent.Local.{LocalShare, marked, mark_have}
use chorrent.Local.Resume.{ResumeError, keep, restore_pieces}

pub ok_eq :
    {Disk : Type 0} {a b : LocalShare Disk}
    → ◌≡◌ {A = Result ResumeError (LocalShare Disk)} (ok a) (ok b)
    → a ≡ b
ok_eq {Disk} {a} h = ap value h
  where
    value : Result ResumeError (LocalShare Disk) → LocalShare Disk
    value (ok x) = x
    value (err e) = a

stays : {o : Option Bool} (b : Bool) → o ≡ some true → (if b then some true else o) ≡ some true
stays true h = refl
stays false h = h

module _ {Disk : Type 0} where
  -- Nothing is lost, and what is new has a reason.
  pub record Resumed (why : ℕ → Type 0) (share share' : LocalShare Disk) : Type 0 where
    pub same_layout : share'.layout ≡ share.layout
    pub same_disk : share'.disk ≡ share.disk
    pub kept : (p : ℕ) → get_elem? share.have p ≡ some true → get_elem? share'.have p ≡ some true
    pub new :
        (p : ℕ) → get_elem? share'.have p ≡ some true → (get_elem? share.have p ≡ some true) ⊎ why p

  pub unchanged : (why : ℕ → Type 0) (share : LocalShare Disk) → Resumed why share share
  unchanged why share = record {
    same_layout = refl;
    same_disk = refl;
    kept = λ p h. h;
    new = λ p h. inl h;
  }

  pub Resumed-trans :
      {why : ℕ → Type 0} {a b c : LocalShare Disk}
      → Resumed why a b
      → Resumed why b c
      → Resumed why a c
  Resumed-trans {why} {a} {b} r s = record {
    same_layout = s.same_layout ∙ r.same_layout;
    same_disk = s.same_disk ∙ r.same_disk;
    kept = λ p h. s.kept p (r.kept p h);
    new = λ p h. either p (s.new p h);
  }
    where
      either :
          (p : ℕ)
          → (get_elem? b.have p ≡ some true) ⊎ why p
          → (get_elem? a.have p ≡ some true) ⊎ why p
      either p (inl h) = r.new p h
      either p (inr w) = inr w

  pub mark_have-Resumed :
      (why : ℕ → Type 0) (share share' : LocalShare Disk) (piece : ℕ)
      → why piece
      → mark_have share piece ≡ some share'
      → Resumed why share share'
  unfolding mark_have
  mark_have-Resumed why share share' piece reason h =
      let (had, at, e) = bind_some (get_elem? share.have piece) _ h in
      subst (Resumed why share) (some_eq e) (by_had had at)
    where
      by_had :
          (had : Bool)
          → get_elem? share.have piece ≡ some had
          → Resumed why share (marked share piece had)
      by_had true at = unchanged why share
      by_had false at =
          let lt = lt-length_of_get_elem? share.have piece at in
          record {
            same_layout = refl;
            same_disk = refl;
            kept = λ p h. get_elem?-set share.have piece p true lt ∙ stays (nat_beq piece p) h;
            new = λ p h. elim (Bool-cases (nat_beq piece p)) [
              | inl same ↦ inr (subst why ((nat_beq_iff piece p).0 same) reason)
              | inr other ↦ inl (sym (get_elem?-set share.have piece p true lt ∙ rw other refl) ∙ h)
            ];
          }

  pub restore_pieces-Resumed :
      (why : ℕ → Type 0) (test : ℕ → Option Bool) (first n : ℕ)
      → ((p : ℕ) → first ≤ p → p < first + n → test p ≡ some true → why p)
      → (share share' : LocalShare Disk) → restore_pieces test (range first n) share ≡ some share'
      → Resumed why share share'
  restore_pieces-Resumed why test first zero good share share' h =
      subst (Resumed why share) (some_eq h) (unchanged why share)
  restore_pieces-Resumed why test first (suc n) good share share' h =
      let (there, tested, h1) = bind_some (test first) _ h in
      let (share1, marked1, h2) = bind_some (keep share first there) _ h1 in
      Resumed-trans (step there share1 tested marked1) (
        restore_pieces-Resumed why test (suc first) n
          (λ p ge lt e. good p (omega arith) (omega arith) e) share1 share' h2)
    where
      step :
          (b : Bool) (s : LocalShare Disk)
          → test first ≡ some b
          → keep share first b ≡ some s
          → Resumed why share s
      step false s t e = subst (Resumed why share) (some_eq e) (unchanged why share)
      step true s t e =
          mark_have-Resumed why share s first (good first (omega arith) (omega arith) t) e
