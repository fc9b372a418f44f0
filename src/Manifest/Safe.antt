-- ===== src/Manifest/Safe.antt =====
-- What a manifest that manifest.rs accepts is safe from.
use chorrent.Common.{
  ℕ, ◌≡◌, ◌≢◌, ◌↔◌, refl, ap, true, false, none, List, [], ◌∷◌, map, ◌==◌, inl, inr, arith,
  Bool-cases, contains, Distinct, All, nat_eq, list_eq, ==_iff, ==_symm, ok, nat_beq, nat_beq_iff,
  Option-cases,
}
use chorrent.Manifest.{FileEntry, Manifest}
use chorrent.Manifest.Names.{name_problem, codes, any, is_dots, is_forbidden}
use chorrent.Manifest.Validate.{first_problem, is_outside, validate_files, validate}

-- A component that names an entry of its own folder: not the folder, not its parent, and no path.
pub record StaysInFolder (c : List ℕ) : Type 0 where
  pub named : c ≢ []
  pub not_here : c ≢ codes "."
  pub not_parent : c ≢ codes ".."
  pub no_slash : contains c 47 ≡ false
  pub no_backslash : contains c 92 ≡ false

any_forbidden :
    (c : List ℕ) (x : ℕ) → is_forbidden x ≡ true → any is_forbidden c ≡ false → contains c x ≡ false
unfolding any
any_forbidden [] x bad h = refl
any_forbidden (y ∷ c) x bad h = elim (Bool-cases (nat_beq y x)) [
  | inl same ↦ absurd (cc (rw (ap is_forbidden ((nat_beq_iff y x).0 same), bad) at h))
  | inr other ↦ rw other (any_forbidden c x bad (ground arith))
]

dots : (c : List ℕ) → is_dots c ≡ false → (c ≢ []) × (c ≢ codes ".") × (c ≢ codes "..")
dots c h = (
  λ e. ground (arith, h, (==_iff c []).1 e),
  λ e. ground (arith, h, (==_iff c (codes ".")).1 e),
  λ e. ground (arith, h, (==_iff c (codes "..")).1 e),
)

-- A name without a problem stays in its folder.
pub name_problem-StaysInFolder : (c : List ℕ) → name_problem c ≡ none → StaysInFolder c
unfolding name_problem
name_problem-StaysInFolder c h =
    let d = dots c (ground arith) in
    let f : any is_forbidden c ≡ false = ground arith in
    record {
      named = d.0;
      not_here = d.1;
      not_parent = d.2;
      no_slash = any_forbidden c 47 refl f;
      no_backslash = any_forbidden c 92 refl f;
    }

-- The path that `validate` compares: without regard to case.
abbrev pub key : (List ℕ → List ℕ) → FileEntry → List (List ℕ)
key lowercase file = map lowercase file.path

-- A file inside the share's own folder, no component of whose path has a problem.
pub record IsSafeFile (name : List ℕ) (file : FileEntry) : Type 0 where
  pub inside : is_outside name file.path ≡ false
  pub names : All (λ c. name_problem c ≡ none) file.path

-- A manifest that `validate` should accept: every file is safe, and no two paths are the same on
-- a system that ignores case.
pub record IsSafe (lowercase : List ℕ → List ℕ) (m : Manifest) : Type 0 where
  pub files : All (IsSafeFile m.name) m.files
  pub distinct : Distinct (map (key lowercase) m.files)

first_problem_iff :
    (cs : List (List ℕ)) → (first_problem cs ≡ none) ↔ All (λ c. name_problem c ≡ none) cs
unfolding first_problem
first_problem_iff [] = (λ h. tt, λ h. refl)
first_problem_iff (c ∷ cs) = elim (Option-cases (name_problem c)) [
  | inl none_here ↦ (
    (λ h. (none_here, (first_problem_iff cs).0 (rw (none_here, first_problem) at h))),
    (λ h. rw (none_here, first_problem) ((first_problem_iff cs).1 h.1)),
  )
  | inr (why, found) ↦
      ((λ h. absurd (cc (rw (found, first_problem) at h))), (λ h. absurd (cc (found, h.0))))
]

-- None of the keys is in a list.
abbrev pub Avoids : List (List (List ℕ)) → List (List (List ℕ)) → Type 0
Avoids seen = All (λ k. contains seen k ≡ false)

pub Avoids-cons :
    (seen : List (List (List ℕ))) (k : List (List ℕ)) (ks : List (List (List ℕ)))
    → Avoids (k ∷ seen) ks ↔ (Avoids seen ks × (contains ks k ≡ false))
Avoids-cons seen k [] = (λ h. (tt, refl), λ h. tt)
Avoids-cons seen k (x ∷ ks) =
    let rest = Avoids-cons seen k ks in
    let swap : (k == x) ≡ (x == k) = ==_symm k x in
    (
      (λ h. ((ground (arith, h.0), (rest.0 h.1).0), ground (arith, h.0, (rest.0 h.1).1, swap))),
      (λ h. (ground (arith, h.0.0, h.1, swap), rest.1 (h.0.1, ground (arith, h.1)))),
    )

module _ (lowercase : List ℕ → List ℕ) where
  abbrev keys : List FileEntry → List (List (List ℕ))
  keys = map (key lowercase)

  -- What the loop accepts, beside the paths seen before it.
  abbrev Accepts : List ℕ → List (List (List ℕ)) → List FileEntry → Type 0
  Accepts name seen files =
      All (IsSafeFile name) files × Distinct (keys files) × Avoids seen (keys files)

  validate_files-Accepts :
      (name : List ℕ) (seen : List (List (List ℕ))) (files : List FileEntry)
      → validate_files lowercase name seen files ≡ ok tt
      → Accepts name seen files
  unfolding validate_files
  validate_files-Accepts name seen [] h = (tt, tt, tt)
  validate_files-Accepts name seen (file ∷ files) h =
      let key_here = key lowercase file in
      let inside : is_outside name file.path ≡ false = ground arith in
      let safe : first_problem file.path ≡ none = ground arith in
      let new_key : contains seen key_here ≡ false = ground arith in
      let accepted : validate_files lowercase name (key_here ∷ seen) files ≡ ok tt = ground arith in
      let rest = validate_files-Accepts name (key_here ∷ seen) files accepted in
      let apart = (Avoids-cons seen key_here (keys files)).0 rest.2 in
      (
        (record { inside = inside; names = (first_problem_iff file.path).0 safe }, rest.0),
        (apart.1, rest.1),
        (new_key, apart.0),
      )

  Accepts-validate_files :
      (name : List ℕ) (seen : List (List (List ℕ))) (files : List FileEntry)
      → Accepts name seen files
      → validate_files lowercase name seen files ≡ ok tt
  unfolding validate_files
  Accepts-validate_files name seen [] h = refl
  Accepts-validate_files name seen (file ∷ files) (safe, distinct, avoids) =
      let key_here = key lowercase file in
      rw (safe.0.inside, (first_problem_iff file.path).1 safe.0.names, validate_files, avoids.0)
        (Accepts-validate_files name (key_here ∷ seen) files
          (safe.1, distinct.1, (Avoids-cons seen key_here (keys files)).1 (avoids.1, distinct.0)))

  Avoids-nil : (ks : List (List (List ℕ))) → Avoids [] ks
  Avoids-nil [] = tt
  Avoids-nil (k ∷ ks) = (refl, Avoids-nil ks)

  -- `validate` accepts a manifest exactly when every file lies in the share's folder, no
  -- component of a path has a problem, and no two paths are the same in lower case.
  pub validate_iff : (m : Manifest) → (validate lowercase m ≡ ok tt) ↔ IsSafe lowercase m
  unfolding validate
  validate_iff m = (
    (λ h.
        let (files, distinct, avoids) = validate_files-Accepts m.name [] m.files h in
        record { files = files; distinct = distinct }),
    (λ s.
        Accepts-validate_files m.name [] m.files (s.files, s.distinct, Avoids-nil (keys m.files))),
  )
