-- ===== src/Handler/Reported.antt =====
-- Reports of changed files over any history of failures to serve: `note_serve_failure` of local.rs
-- (crates/chorrent/src).
use chorrent.Common.{
  ℕ, suc, ◌≡◌, refl, ◌∙◌, sym, true, false, ◌⊎◌, inl, inr, Option, some, List, [], ◌∷◌, ◌>>=◌,
  arith, length, get_elem?, All,
}
use mathlib.Core.Path.{subst}
use chorrent.Layout.{locate}
use chorrent.Handler.{same_stamp, Watched, Serving, Reads, note_serve_failure}
use chorrent.Handler.Changes.{
  Kept, Noted, Noted-refl, HasChanged, HasFile, note_serve_failure-Noted,
}

module _ {Disk : Type 0} where
  Noted-trans :
      {why why' : ℕ → Watched → Type 0} {a b d : Serving Disk}
      → ((i : ℕ) (f g : Watched)
          → g.path ≡ f.path
          → g.source_stamp ≡ f.source_stamp
          → why i g
          → why' i f)
      → Noted why' a b
      → Noted why b d
      → Noted why' a d
  Noted-trans {why} {why'} {a} {b} {d} carry r s = record {
    same_local = s.same_local ∙ r.same_local;
    same_bytes = s.same_bytes ∙ r.same_bytes;
    same_length = s.same_length ∙ r.same_length;
    file = λ i f h.
        let (g, at, k) = r.file i f h in
        let (w, at', k') = s.file i g at in
        (
          w,
          at',
          record {
            same_path = k'.same_path ∙ k.same_path;
            same_stamp = k'.same_stamp ∙ k.same_stamp;
            stays = λ m. k'.stays (k.stays m);
            new = λ m. either i f g k (k'.new m);
          },
        );
    counted = omega (arith, r.counted, s.counted);
  }
    where
      either :
          (i : ℕ) (f g : Watched)
          → Kept (why' i f) f g
          → (g.reported_change ≡ true) ⊎ why i g
          → (f.reported_change ≡ true) ⊎ why' i f
      either i f g k (inl h) = k.new h
      either i f g k (inr reason) = inr (carry i f g k.same_path k.same_stamp reason)

  -- Failures to serve pieces, each with the disk as it was then.
  unfoldable pub fail_all : List (Reads Disk × ℕ) → Serving Disk → Option (Serving Disk)
  fail_all [] share = some share
  fail_all ((c, index) ∷ rest) share = do
    share' ← note_serve_failure c share index
    fail_all rest share'

  -- One of the failures was of a piece of this file, when the file had changed.
  abbrev pub SawChange : List (Reads Disk × ℕ) → Serving Disk → ℕ → Watched → Type 0
  SawChange history share i f =
      (k : ℕ) × (c : Reads Disk) × (index : ℕ) × (get_elem? history k ≡ some (c, index))
      × HasChanged c share index i f

  carry_change :
      (c : Reads Disk) (share : Serving Disk) (index i : ℕ) (f g : Watched)
      → g.path ≡ f.path
      → g.source_stamp ≡ f.source_stamp
      → HasChanged c share index i g
      → HasChanged c share index i f
  carry_change c share index i f g path stamps (loc, located, at, (stamp, e, other)) = (
    loc,
    located,
    at,
    (stamp, sym stamps ∙ e, subst (λ p. same_stamp (c.file_stamp p) stamp ≡ false) path other),
  )

  -- Over any history of pieces that could not be served, with any state of the disk at each,
  -- nothing panics: only marks and reports are added, a file is newly marked only if it was
  -- shared in place and had another stamp at one of its failures, a mark stays, and there is one
  -- report for each new mark.
  pub fail_all-Noted :
      (history : List (Reads Disk × ℕ)) (share : Serving Disk)
      → All (HasFile share) history
      → (share' : Serving Disk) × (fail_all history share ≡ some share')
        × Noted (SawChange history share) share share'
  unfolding fail_all
  fail_all-Noted [] share h = (share, refl, Noted-refl (SawChange [] share) share)
  fail_all-Noted ((c, index) ∷ rest) share ((loc, located, lt), more) =
      let (share1, e, first) = note_serve_failure-Noted c share index loc located lt in
      let (share', e', others) =
        fail_all-Noted rest share1 (still share1 first.same_local first.same_length rest more) in
      (
        share',
        rw e e',
        Noted-trans (λ i f g p s r. later share1 first.same_local i f g p s r)
            (Noted-trans
              (λ i f g p s r. (0, c, index, refl, carry_change c share index i f g p s r))
              (Noted-refl (SawChange ((c, index) ∷ rest) share) share) first)
            others,
      )
    where
      still :
          (share1 : Serving Disk)
          → share1.local ≡ share.local
          → length share1.files ≡ length share.files
          → (l : List (Reads Disk × ℕ)) → All (HasFile share) l
          → All (HasFile share1) l
      still share1 same len [] h = tt
      still share1 same len ((d, j) ∷ l) ((loc, located, lt), h) = (
        (loc, subst (λ x. locate x.layout j ≡ some loc) (sym same) located, omega (arith, len, lt)),
        still share1 same len l h,
      )

      later :
          (share1 : Serving Disk)
          → share1.local ≡ share.local
          → (i : ℕ) (f g : Watched) → g.path ≡ f.path
          → g.source_stamp ≡ f.source_stamp
          → SawChange rest share1 i g
          → SawChange ((c, index) ∷ rest) share i f
      later share1 same i f g p s (k, d, j, at, (loc, located, file, changed)) = (
        suc k,
        d,
        j,
        at,
        carry_change d share j i f g p s
            (loc, subst (λ x. locate x.layout j ≡ some loc) same located, file, changed),
      )
