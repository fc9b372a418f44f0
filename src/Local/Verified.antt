-- ===== src/Local/Verified.antt =====
-- `verify` of local.rs (crates/chorrent/src): what it means that it ends well.
use chorrent.Common.{
  ℕ, zero, suc, ◌+◌, ◌≡◌, ◌↔◌, inl, inr, refl, ap, Option, none, some, List, [], ◌∷◌, ◌==◌, ==_iff,
  arith, get_elem?, Bool-cases, some_eq, nat_eq, list_eq, Result, ok,
}
use mathlib.Core.Path.{subst}
use chorrent.Manifest.{Manifest, FileEntry}
use chorrent.Local.{LocalShare}
use chorrent.Local.Prepare.{PrepareError, Files, verify_root, verify_files, verify}

module _ {Disk : Type 0} (c : Files Disk) where
  -- Every file on disk has the root hash that the manifest says.
  abbrev pub IsIntact : Manifest → Disk → Type 0
  IsIntact manifest disk =
      (i : ℕ) (entry : FileEntry)
      → get_elem? manifest.files i ≡ some entry
      → c.hash_data disk i entry.size ≡ some entry.root_hash

  abbrev AreIntact : Disk → ℕ → List FileEntry → Type 0
  AreIntact disk index entries =
      (i : ℕ) (entry : FileEntry)
      → get_elem? entries i ≡ some entry
      → c.hash_data disk (index + i) entry.size ≡ some entry.root_hash

  verify_root_iff :
      (index : ℕ) (entry : FileEntry) (rest : Result PrepareError (Unit {0})) (o : Option (List ℕ))
      → (verify_root c index entry rest o ≡ ok tt) ↔ ((o ≡ some entry.root_hash) × (rest ≡ ok tt))
  verify_root_iff index entry rest none = ((λ h. absurd (cc h)), (λ h. absurd (cc (h.0))))
  verify_root_iff index entry rest (some root) = elim (Bool-cases (root == entry.root_hash)) [
    | inl same ↦
        ((λ h. (ap some ((==_iff root entry.root_hash).0 same), rw same at h)), (λ h. rw same h.1))
    | inr other ↦ (
      (λ h. absurd (cc (rw other at h))),
      (λ h. absurd (cc (other, (==_iff root entry.root_hash).1 (some_eq h.0)))),
    )
  ]

  verify_files_iff :
      (disk : Disk) (index : ℕ) (entries : List FileEntry)
      → (verify_files c disk index entries ≡ ok tt) ↔ AreIntact disk index entries
  unfolding verify_files
  verify_files_iff disk index [] = ((λ h i entry e. absurd (cc e)), (λ h. refl))
  verify_files_iff disk index (entry ∷ entries) =
      let first =
        verify_root_iff index entry (verify_files c disk (suc index) entries)
          (c.hash_data disk index entry.size) in
      let others = verify_files_iff disk (suc index) entries in
      (
        (λ h. cons (first.0 h).0 (others.0 (first.0 h).1)),
        (λ h. first.1 (
          subst (λ n. c.hash_data disk n entry.size ≡ some entry.root_hash) (omega arith)
              (h 0 entry refl),
          others.1 (λ i e at.
              subst (λ n. c.hash_data disk n e.size ≡ some e.root_hash) (omega arith)
                (h (suc i) e at)),
        )),
      )
    where
      cons :
          c.hash_data disk index entry.size ≡ some entry.root_hash
          → AreIntact disk (suc index) entries
          → AreIntact disk index (entry ∷ entries)
      cons h hs zero e at =
          subst (λ (x : FileEntry). c.hash_data disk (index + 0) x.size ≡ some x.root_hash)
            (some_eq at)
            (subst (λ n. c.hash_data disk n entry.size ≡ some entry.root_hash) (omega arith) h)
      cons h hs (suc i) e at =
          subst (λ n. c.hash_data disk n e.size ≡ some e.root_hash) (omega arith) (hs i e at)

  pub verify_iff :
      (manifest : Manifest) (share : LocalShare Disk)
      → (verify c manifest share ≡ ok tt) ↔ IsIntact manifest share.disk
  unfolding verify
  verify_iff manifest share =
      let all = verify_files_iff share.disk 0 manifest.files in
      (
        (λ h i e at.
            subst (λ n. c.hash_data share.disk n e.size ≡ some e.root_hash) (omega arith)
              (all.0 h i e at)),
        (λ h. all.1 (λ i e at.
            subst (λ n. c.hash_data share.disk n e.size ≡ some e.root_hash) (omega arith)
              (h i e at))),
      )
