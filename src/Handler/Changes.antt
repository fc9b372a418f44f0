-- ===== src/Handler/Changes.antt =====
-- Reports of changed files: `note_serve_failure` of local.rs (crates/chorrent/src) over any history.
use chorrent.Common.{
  ℕ, zero, suc, ◌+◌, ◌<◌, ◌≡◌, refl, ◌∙◌, sym, ap, Bool, true, false, ◌⊎◌, inl, inr, Option, none,
  some, List, [], ◌∷◌, ◌++◌, arith, nat_beq, nat_beq_iff, Bool-cases, some_eq, length, get_elem?,
  get_elem?-set, length-set, get_elem?_in_range, set,
}
use mathlib.Core.Path.{subst}
use chorrent.Layout.{PieceLocation, locate}
use chorrent.Handler.{
  Stamp, same_stamp, Watched, Event, uploaded, shared_file_changed, Serving, Reads, report, noted,
  note_serve_failure,
}

-- How many changes were reported.
abbrev pub changes : List Event → ℕ
changes [] = 0
changes (uploaded n ∷ es) = changes es
changes (shared_file_changed path ∷ es) = suc (changes es)

abbrev one : Bool → ℕ
one true = 1
one false = 0

-- How many files were reported.
abbrev pub reported : List Watched → ℕ
reported [] = 0
reported (f ∷ fs) = one f.reported_change + reported fs

changes-append :
    (es : List Event) (path : List ℕ)
    → changes (es ++ (shared_file_changed path ∷ [])) ≡ suc (changes es)
changes-append [] path = refl
changes-append (uploaded n ∷ es) path = changes-append es path
changes-append (shared_file_changed p ∷ es) path = ap suc (changes-append es path)

reported-set :
    (fs : List Watched) (i : ℕ) (f g : Watched)
    → get_elem? fs i ≡ some f
    → reported (set fs i g) + one f.reported_change ≡ reported fs + one g.reported_change
reported-set [] i f g h = cc
reported-set (x ∷ fs) zero f g h =
    let e : one x.reported_change ≡ one f.reported_change = ap flag h in omega (arith, e)
  where
    flag : Option Watched → ℕ
    flag none = 0
    flag (some w) = one w.reported_change
reported-set (x ∷ fs) (suc i) f g h = omega (arith, reported-set fs i f g h)

-- A file is the same but for its mark, which stays, and which it got for a reason.
pub record Kept (why : Type 0) (f g : Watched) : Type 0 where
  pub same_path : g.path ≡ f.path
  pub same_stamp : g.source_stamp ≡ f.source_stamp
  pub stays : f.reported_change ≡ true → g.reported_change ≡ true
  pub new : g.reported_change ≡ true → (f.reported_change ≡ true) ⊎ why

Kept-refl : (why : Type 0) (f : Watched) → Kept why f f
Kept-refl why f = record { same_path = refl; same_stamp = refl; stays = λ h. h; new = λ h. inl h }

-- The file was shared in place and has another stamp.
abbrev pub IsChanged : {Disk : Type 0} → Reads Disk → Watched → Type 0
IsChanged c f =
    (stamp : Stamp) × (f.source_stamp ≡ some stamp)
    × (same_stamp (c.file_stamp f.path) stamp ≡ false)

module _ {Disk : Type 0} where
  -- Only marks and reports are new, and there is one report for each new mark.
  pub record Noted (why : ℕ → Watched → Type 0) (share share' : Serving Disk) : Type 0 where
    pub same_local : share'.local ≡ share.local
    pub same_bytes : share'.manifest_bytes ≡ share.manifest_bytes
    pub same_length : length share'.files ≡ length share.files
    pub file :
        (i : ℕ) (f : Watched)
        → get_elem? share.files i ≡ some f
        → (g : Watched) × (get_elem? share'.files i ≡ some g) × Kept (why i f) f g
    pub counted :
        changes share'.events + reported share.files ≡ changes share.events + reported share'.files

  pub Noted-refl : (why : ℕ → Watched → Type 0) (share : Serving Disk) → Noted why share share
  Noted-refl why share = record {
    same_local = refl;
    same_bytes = refl;
    same_length = refl;
    file = λ i f h. (f, h, Kept-refl (why i f) f);
    counted = refl;
  }

  module _ (c : Reads Disk) where
    report-Noted :
        (why : ℕ → Watched → Type 0) (share : Serving Disk) (index : ℕ) (f : Watched)
        → get_elem? share.files index ≡ some f
        → index < length share.files
        → why index f
        → Noted why share (report c share index f)
    report-Noted why share index f at lt reason = record {
      same_local = refl;
      same_bytes = refl;
      same_length = length-set share.files index _;
      file = one_file;
      counted = ground (
        arith,
        reported-set share.files index f (record f { reported_change = true }) at,
        changes-append share.events f.path,
      );
    }
      where
        one_file :
            (i : ℕ) (g : Watched)
            → get_elem? share.files i ≡ some g
            → (g' : Watched) × (get_elem?
                  (set share.files index (record f { reported_change = true }))
                  i
                ≡ some g')
              × Kept (why i g) g g'
        one_file i g h = elim (Bool-cases (nat_beq index i)) [
          | inl same ↦
              let e = (nat_beq_iff index i).0 same in
              let at_i : get_elem? share.files i ≡ some f =
                subst (λ j. get_elem? share.files j ≡ some f) e at in
              let fg : f ≡ g = some_eq (sym at_i ∙ h) in
              (
                record f { reported_change = true },
                get_elem?-set share.files index i (record f { reported_change = true }) lt
                    ∙ rw same refl,
                subst (λ x. Kept (why i x) x (record f { reported_change = true })) fg
                    (record {
                      same_path = refl;
                      same_stamp = refl;
                      stays = λ h. refl;
                      new = λ h. inr (subst (λ j. why j f) e reason);
                    }),
              )
          | inr other ↦ (
            g,
            get_elem?-set share.files index i (record f { reported_change = true }) lt
                ∙ (rw other h),
            Kept-refl (why i g) g,
          )
        ]

    -- The file of a piece has another stamp than it had.
    abbrev pub HasChanged : Serving Disk → ℕ → ℕ → Watched → Type 0
    HasChanged share index i f =
        (loc : PieceLocation) × (locate share.local.layout index ≡ some loc)
        × (loc.file ≡ i)
        × IsChanged c f

    noted-Noted :
        (share : Serving Disk) (index : ℕ) (loc : PieceLocation) (f : Watched)
        → locate share.local.layout index ≡ some loc
        → get_elem? share.files loc.file ≡ some f
        → loc.file < length share.files
        → (o : Option Stamp) → f.source_stamp ≡ o
        → Noted (HasChanged share index) share (noted c share loc.file f o)
    noted-Noted share index loc f located at lt none e = Noted-refl (HasChanged share index) share
    noted-Noted share index loc f located at lt (some stamp) e =
        elim (Bool-cases (same_stamp (c.file_stamp f.path) stamp)) [
          | inl same ↦ rw same (Noted-refl (HasChanged share index) share)
          | inr other ↦ rw other (
              report-Noted (HasChanged share index) share loc.file f at lt
                (loc, located, refl, (stamp, e, other)))
        ]

    pub note_serve_failure-Noted :
        (share : Serving Disk) (index : ℕ) (loc : PieceLocation)
        → locate share.local.layout index ≡ some loc
        → loc.file < length share.files
        → (share' : Serving Disk) × (note_serve_failure c share index ≡ some share')
          × Noted (HasChanged share index) share share'
    unfolding note_serve_failure
    note_serve_failure-Noted share index loc located lt =
        let (f, at) = get_elem?_in_range share.files loc.file lt in
        (
          noted c share loc.file f f.source_stamp,
          rw located (rw at refl),
          noted-Noted share index loc f located at lt f.source_stamp refl,
        )

  abbrev pub HasFile : Serving Disk → (Reads Disk × ℕ) → Type 0
  HasFile share (c, index) =
      (loc : PieceLocation) × (locate share.local.layout index ≡ some loc)
      × (loc.file < length share.files)
