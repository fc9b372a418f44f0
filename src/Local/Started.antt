-- ===== src/Local/Started.antt =====
-- What counts when a download starts, and what a finished one is: local.rs (crates/chorrent/src).
use chorrent.Common.{
  ℕ, zero, suc, ◌+◌, ◌-◌, ◌≤◌, ◌<◌, ◌≡◌, ◌≢◌, refl, ◌∙◌, sym, ap, Bool, true, false, not, inl, inr,
  Option, none, some, List, [], ◌∷◌, ◌==◌, ==_iff, arith, nat_beq_iff, get_elem?, range, Bool-cases,
  bind_some, some_eq, ands, replicate, nat_eq, list_eq, Result, ok, err,
}
use mathlib.Core.Path.{subst}
use chorrent.Common.Results.{ok_eq}
use chorrent.Manifest.{Manifest, FileEntry}
use chorrent.Layout.{Layout, pieces_of, new}
use chorrent.Local.{LocalShare, from_parts, mark_have}
use chorrent.Local.Gained.{Resumed, unchanged, Resumed-trans, mark_have-Resumed}
use chorrent.Local.Prepare.{
  PrepareError, Files, Prepared, has_len, existing, found, with_file, with_complete, and_then,
  started, prepared_file, prepare_files, mark_pieces, mark_files, or_panicked, assembled,
  for_download,
}

module _ {Disk : Type 0} where
  mark_range-Resumed :
      (why : ℕ → Type 0) (first n : ℕ)
      → ((p : ℕ) → first ≤ p → p < first + n → why p)
      → (share share' : LocalShare Disk) → mark_pieces (range first n) share ≡ some share'
      → Resumed why share share'
  unfolding mark_pieces
  mark_range-Resumed why first zero good share share' h =
      subst (Resumed why share) (some_eq h) (unchanged why share)
  mark_range-Resumed why first (suc n) good share share' h =
      let (share1, marked, h1) = bind_some (mark_have share first) _ h in
      Resumed-trans
        (mark_have-Resumed why share share1 first (good first (omega arith) (omega arith)) marked)
        (mark_range-Resumed why (suc first) n (λ p ge lt. good p (omega arith) (omega arith)) share1
          share' h1)

  module _ (c : Files Disk) (manifest : Manifest) where
    -- Making one file at its length leaves the others alone.
    abbrev pub KeepsOthers : Type 0
    KeepsOthers =
        (disk : Disk) (i j size : ℕ)
        → i ≢ j
        → (c.file_len (c.preallocate disk j size).0 i ≡ c.file_len disk i)
          × (c.hash_file (c.preallocate disk j size).0 i ≡ c.hash_file disk i)

    -- The file is there in full, with the hash that the manifest says.
    pub record IsComplete (disk : Disk) (index : ℕ) : Type 0 where
      pub entry : FileEntry
      pub outboard : List ℕ
      pub is_entry : get_elem? manifest.files index ≡ some entry
      pub long : c.file_len disk index ≡ some entry.size
      pub hashed : c.hash_file disk index ≡ some (entry.root_hash, outboard)

    -- The piece is of such a file.
    pub record IsOfComplete (disk : Disk) (layout : Layout) (piece : ℕ) : Type 0 where
      pub file : ℕ
      pub first : ℕ
      pub past : ℕ
      pub pieces : pieces_of layout file ≡ some (first, past)
      pub not_before : first ≤ piece
      pub not_after : piece < past
      pub complete : IsComplete disk file

    mark_files-Resumed :
        (disk : Disk) (layout : Layout) (l : List ℕ)
        → ((i : ℕ) (f : ℕ) → get_elem? l i ≡ some f → IsComplete disk f)
        → (share share' : LocalShare Disk) → share.layout ≡ layout
        → mark_files l share ≡ some share'
        → Resumed (IsOfComplete disk layout) share share'
    unfolding mark_files
    mark_files-Resumed disk layout [] good share share' same h =
        subst (Resumed (IsOfComplete disk layout) share) (some_eq h)
          (unchanged (IsOfComplete disk layout) share)
    mark_files-Resumed disk layout (f ∷ l) good share share' same h =
        let ((first, past), pieces, h1) = bind_some (pieces_of share.layout f) _ h in
        let (share1, marked, h2) =
          bind_some (mark_pieces (range first (past - first)) share) _ h1 in
        let r =
          mark_range-Resumed (IsOfComplete disk layout) first (past - first)
            (λ p ge lt. record {
              file = f;
              first = first;
              past = past;
              pieces = subst (λ l. pieces_of l f ≡ some (first, past)) same pieces;
              not_before = ge;
              not_after = omega arith;
              complete = good 0 f refl;
            })
            share share1 marked in
        Resumed-trans r (
          mark_files-Resumed disk layout l (λ i g e. good (suc i) g e) share1 share'
            (r.same_layout ∙ same) h2)

    abbrev Suffix : ℕ → List FileEntry → Type 0
    Suffix index entries =
        (j : ℕ) (e : FileEntry)
        → get_elem? entries j ≡ some e
        → get_elem? manifest.files (index + j) ≡ some e

    abbrev AllComplete : Disk → List ℕ → Type 0
    AllComplete disk l = (i f : ℕ) → get_elem? l i ≡ some f → IsComplete disk f

    -- The file is on both disks, or on neither, with the same bytes.
    abbrev IsKept : Disk → Disk → ℕ → Type 0
    IsKept disk disk' i =
        (c.file_len disk' i ≡ c.file_len disk i) × (c.hash_file disk' i ≡ c.hash_file disk i)

    -- From file number `index` on: the complete ones stay so, and those before are left alone.
    abbrev Prepares : ℕ → Disk → Prepared Disk → Type 0
    Prepares index disk p =
        AllComplete p.disk p.already_complete × ((i : ℕ) → i < index → IsKept disk p.disk i)

    and_then_ok :
        (f : Prepared Disk → Prepared Disk) (r : Result PrepareError (Prepared Disk))
        (p : Prepared Disk)
        → and_then c f r ≡ ok p
        → (q : Prepared Disk) × (r ≡ ok q) × (f q ≡ p)
    and_then_ok f (ok q) p h = (q, refl, ok_eq h)
    and_then_ok f (err e) p h = absurd (cc h)

    module _ (keeps : KeepsOthers) where
      -- The rest of the loop after a file that was made anew.
      started-Prepares :
          (index : ℕ) (entry : FileEntry) (disk : Disk)
          (rest : Disk → Result PrepareError (Prepared Disk)) (p : Prepared Disk)
          → ((disk' : Disk) (q : Prepared Disk) → rest disk' ≡ ok q → Prepares (suc index) disk' q)
          → started c entry rest (c.preallocate disk index entry.size) ≡ ok p
          → Prepares index disk p
      started-Prepares index entry disk rest p good h =
          by_answer (c.preallocate disk index entry.size) refl h
        where
          by_answer :
              (d : Disk × Bool)
              → c.preallocate disk index entry.size ≡ d
              → started c entry rest d ≡ ok p
              → Prepares index disk p
          by_answer (disk', false) e h = absurd (cc h)
          by_answer (disk', true) e h =
              let (q, e', same) =
                and_then_ok (with_file c (c.empty_outboard entry.root_hash entry.size)) (rest disk')
                  p h in
              let (all, kept) = good disk' q e' in
              subst (Prepares index disk) same (
                all,
                λ i lt.
                    let before =
                      subst (λ x. IsKept disk x i) (ap (λ (x : Disk × Bool). x.0) e)
                        (keeps disk i index entry.size (ground (arith, lt))) in
                    let after = kept i (omega arith) in (after.0 ∙ before.0, after.1 ∙ before.1),
              )

      -- The rest of the loop after a file that was complete.
      complete-Prepares :
          (index : ℕ) (entry : FileEntry) (full : List ℕ) (disk : Disk) (q : Prepared Disk)
          → get_elem? manifest.files index ≡ some entry
          → c.file_len disk index ≡ some entry.size
          → c.hash_file disk index ≡ some (entry.root_hash, full)
          → Prepares (suc index) disk q
          → Prepares index disk (with_complete c index full q)
      complete-Prepares index entry full disk q is_entry long hashed (all, kept) =
          (each, λ i lt. kept i (omega arith))
        where
          each : AllComplete q.disk (index ∷ q.already_complete)
          each zero f e = subst (IsComplete q.disk) (some_eq e) (record {
            entry = entry;
            outboard = full;
            is_entry = is_entry;
            long = (kept index (omega arith)).0 ∙ long;
            hashed = (kept index (omega arith)).1 ∙ hashed;
          })
          each (suc i) f e = all i f e

      same_len : (o : Option ℕ) (n : ℕ) → has_len o n ≡ true → o ≡ some n
      same_len none n h = absurd (cc h)
      same_len (some m) n h = ap some ((nat_beq_iff m n).0 h)

      -- With an encrypted store nothing counts as complete.
      abbrev IsPrepared : Bool → ℕ → Disk → Prepared Disk → Type 0
      IsPrepared is_encrypted index disk q =
          Prepares index disk q × (is_encrypted ≡ true → q.already_complete ≡ [])

      file-Prepares :
          (is_encrypted : Bool) (index : ℕ) (entry : FileEntry) (disk : Disk)
          (rest : Disk → Result PrepareError (Prepared Disk)) (p : Prepared Disk)
          → get_elem? manifest.files index ≡ some entry
          → ((disk' : Disk) (q : Prepared Disk)
              → rest disk' ≡ ok q
              → IsPrepared is_encrypted (suc index) disk' q)
          → prepared_file c disk index entry rest
              (found c (existing c is_encrypted disk index entry) disk index)
            ≡ ok p
          → IsPrepared is_encrypted index disk p
      file-Prepares is_encrypted index entry disk rest p is_entry further h =
          by_found (existing c is_encrypted disk index entry) refl h
        where
          Good : Prepared Disk → Type 0
          Good = IsPrepared is_encrypted index disk

          none_complete :
              (d : Disk × Bool)
              → started c entry rest d ≡ ok p
              → is_encrypted ≡ true
              → p.already_complete ≡ []
          none_complete (disk', false) h e = absurd (cc h)
          none_complete (disk', true) h e =
              let (q, e', same) =
                and_then_ok (with_file c (c.empty_outboard entry.root_hash entry.size)) (rest disk')
                  p h in
              subst (λ (x : Prepared Disk). x.already_complete ≡ []) same ((further disk' q e').1 e)

          by_start : started c entry rest (c.preallocate disk index entry.size) ≡ ok p → Good p
          by_start h = (
            started-Prepares index entry disk rest p (λ disk' q e. (further disk' q e).0) h,
            none_complete (c.preallocate disk index entry.size) h,
          )

          by_hash :
              (o : Option (List ℕ × List ℕ))
              → c.hash_file disk index ≡ o
              → c.file_len disk index ≡ some entry.size
              → is_encrypted ≡ false
              → prepared_file c disk index entry rest o ≡ ok p
              → Good p
          by_hash none e len plain h = by_start h
          by_hash (some (root, full)) e len plain h = elim (Bool-cases (root == entry.root_hash)) [
            | inl same ↦
                let (q, e', same_p) =
                  and_then_ok (with_complete c index full) (rest disk) p (rw same at h) in
                subst Good same_p (
                  complete-Prepares index entry full disk q is_entry len
                      (e ∙ ap (λ r. some (r, full)) ((==_iff root entry.root_hash).0 same))
                      (further disk q e').0,
                  λ yes. cc (yes, plain),
                )
            | inr other ↦ by_start (rw other at h)
          ]

          not_true : (b : Bool) → not b ≡ true → b ≡ false
          not_true true h = cc h
          not_true false h = refl

          by_found :
              (b : Bool)
              → existing c is_encrypted disk index entry ≡ b
              → prepared_file c disk index entry rest (found c b disk index) ≡ ok p
              → Good p
          by_found false e h = by_start h
          by_found true e h =
              let both = ands (not is_encrypted) e in
              by_hash (c.hash_file disk index) refl
                (same_len (c.file_len disk index) entry.size both.1) (not_true is_encrypted both.0)
                h

      prepare_files-Prepares :
          (is_encrypted : Bool) (index : ℕ) (entries : List FileEntry) (disk : Disk)
          (p : Prepared Disk)
          → Suffix index entries
          → prepare_files c is_encrypted index entries disk ≡ ok p
          → IsPrepared is_encrypted index disk p
      unfolding prepare_files
      prepare_files-Prepares is_encrypted index [] disk p suffix h =
          subst (IsPrepared is_encrypted index disk) (ok_eq h)
            (((λ i f e. absurd (cc e)), λ i lt. (refl, refl)), λ e. refl)
      prepare_files-Prepares is_encrypted index (entry ∷ entries) disk p suffix h =
          file-Prepares is_encrypted index entry disk
            (prepare_files c is_encrypted (suc index) entries) p
            (subst (λ n. get_elem? manifest.files n ≡ some entry) (omega arith)
              (suffix 0 entry refl))
            (λ disk' q. prepare_files-Prepares is_encrypted (suc index) entries disk' q (λ j e at.
              subst (λ n. get_elem? manifest.files n ≡ some e) (omega arith) (suffix (suc j) e at)))
            h

      none_had : (n p : ℕ) → get_elem? (replicate n false) p ≡ some true → ⊥
      none_had zero p h = cc h
      none_had (suc n) zero h = cc h
      none_had (suc n) (suc p) h = none_had n p h

      -- Where making one file leaves the other files alone, a piece that counts when a download
      -- starts is of a download that is not encrypted, and of a file that is still on disk,
      -- after all files were prepared, with the size and the root hash that the manifest says.
      pub for_download-IsOfComplete :
          (is_encrypted : Bool) (disk : Disk) (share : LocalShare Disk)
          → for_download c manifest is_encrypted disk ≡ ok share
          → (piece : ℕ) → get_elem? share.have piece ≡ some true
          → (is_encrypted ≡ false) × IsOfComplete share.disk share.layout piece
      unfolding for_download from_parts mark_files
      for_download-IsOfComplete is_encrypted disk share h =
          by_files (prepare_files c is_encrypted 0 manifest.files disk) refl h
        where
          start : Prepared Disk → LocalShare Disk
          start p = from_parts manifest p.outboards p.disk false

          nothing_marked :
              (l : List ℕ) (s s' : LocalShare Disk) → l ≡ [] → mark_files l s ≡ some s' → s ≡ s'
          nothing_marked [] s s' e h = some_eq h
          nothing_marked (x ∷ l) s s' e h = absurd (cc e)

          unencrypted :
              (b : Bool) (p : Prepared Disk)
              → (b ≡ true → p.already_complete ≡ [])
              → mark_files p.already_complete (start p) ≡ some share
              → (piece : ℕ) → get_elem? share.have piece ≡ some true
              → b ≡ false
          unencrypted false p none_there e piece had = refl
          unencrypted true p none_there e piece had = absurd (
              none_had (new manifest).total_pieces piece (
                subst (λ (s : LocalShare Disk). get_elem? s.have piece ≡ some true)
                  (sym (nothing_marked p.already_complete (start p) share (none_there refl) e))
                  had))

          by_marks :
              (p : Prepared Disk) (o : Option (LocalShare Disk))
              → AllComplete p.disk p.already_complete
              → (is_encrypted ≡ true → p.already_complete ≡ [])
              → mark_files p.already_complete (start p) ≡ o
              → or_panicked o ≡ ok share
              → (piece : ℕ) → get_elem? share.have piece ≡ some true
              → (is_encrypted ≡ false) × IsOfComplete share.disk share.layout piece
          by_marks p none all only e h = λ piece had. absurd (cc h)
          by_marks p (some share') all only e h = λ piece had.
              let e' : mark_files p.already_complete (start p) ≡ some share =
                e ∙ ap some (ok_eq h) in
              let r =
                mark_files-Resumed p.disk (new manifest) p.already_complete all (start p) share refl
                  e' in
              elim (r.new piece had) [
                | inl old ↦ absurd (none_had (new manifest).total_pieces piece old)
                | inr why ↦ (
                  unencrypted is_encrypted p only e' piece had,
                  subst (λ d. IsOfComplete d share.layout piece) (sym r.same_disk)
                      (subst (λ l. IsOfComplete p.disk l piece) (sym r.same_layout) why),
                )
              ]

          by_files :
              (r : Result PrepareError (Prepared Disk))
              → prepare_files c is_encrypted 0 manifest.files disk ≡ r
              → assembled c manifest r ≡ ok share
              → (piece : ℕ) → get_elem? share.have piece ≡ some true
              → (is_encrypted ≡ false) × IsOfComplete share.disk share.layout piece
          by_files (err x) e h = λ piece had. absurd (cc h)
          by_files (ok p) e h =
              let ((all, kept), only) =
                prepare_files-Prepares is_encrypted 0 manifest.files disk p
                  (λ j x at. subst (λ n. get_elem? manifest.files n ≡ some x) (omega arith) at) e in
              by_marks p (mark_files p.already_complete (start p)) all only refl h
