-- ===== src/Manifest/Built.antt =====
-- What `from_disk` and `single` of manifest.rs build is safe, and leaves no file out.
use chorrent.Common.{
  ℕ, suc, ◌≡◌, refl, ◌∙◌, sym, ap, false, Option, none, some, List, [], ◌∷◌, arith, All, Result, ok,
  append_nil, ==_iff, nat_eq, list_eq, map, contains, Distinct,
}
use mathlib.Core.Path.{subst, ap₂}
use mathlib.Core.List.{Perm}
use chorrent.Common.Results.{bind_ok, ok_or, ok_eq}
use chorrent.Manifest.{FileEntry, Manifest}
use chorrent.Manifest.Names.{name_problem}
use chorrent.Manifest.Validate.{is_outside}
use chorrent.Manifest.Safe.{key, IsSafeFile, IsSafe, Avoids, Avoids-cons}
use chorrent.Manifest.Folder.{Node, FilePath, DiskError, io, Found, collect}
use chorrent.Manifest.Disk.{
  FileOutboard, checked_label, hashed_entry, single, check_case, ingest_all, share_name, from_disk,
}
use chorrent.Manifest.Collected.{
  IsNamed, IsPlaced, ArePlaced, files_in, portable_name_ok, collect-Finds,
}

checked_label_ok :
    (label : List ℕ) {name : List ℕ}
    → checked_label label ≡ ok name
    → (name_problem name ≡ none) × (name ≡ label)
unfolding checked_label
checked_label_ok label h = ground arith

module _ (lowercase : List ℕ → List ℕ) where
  abbrev found_keys : List Found → List (List (List ℕ))
  found_keys = map (λ (f : Found). map lowercase f.0)

  check_case_ok :
      (seen : List (List (List ℕ))) (found : List Found)
      → check_case lowercase seen found ≡ ok tt
      → Distinct (found_keys found) × Avoids seen (found_keys found)
  unfolding check_case
  check_case_ok seen [] h = (tt, tt)
  check_case_ok seen ((components, path) ∷ found) h =
      let k = map lowercase components in
      let fresh : contains seen k ≡ false = ground arith in
      let (distinct, avoids) = check_case_ok (k ∷ seen) found (ground arith) in
      let apart = (Avoids-cons seen k (found_keys found)).0 avoids in
      ((apart.1, distinct), (fresh, apart.0))

  -- A file whose entry has what was hashed.
  abbrev pub IsEntryOf : {Data : Type 0} → FileEntry → Data × FileOutboard → Type 0
  IsEntryOf file hashed = (file.size ≡ hashed.1.size) × (file.root_hash ≡ hashed.1.root)

  module _ {Data : Type 0} (to_str : List ℕ → Option (List ℕ)) (metadata : FilePath → Option ℕ)
      (ingest : ℕ → FilePath → ℕ → Result DiskError (Data × FileOutboard)) where
    abbrev Pair : Type 0
    Pair = List FileEntry × List (Data × FileOutboard)

    -- Each file has the components that were found, and the entry of what `ingest` made of the
    -- file at its path, with its number and its length.
    abbrev pub Ingested : ℕ → List Found → List FileEntry → List (Data × FileOutboard) → Type 0
    Ingested index [] [] [] = Unit
    Ingested index (f ∷ found) (file ∷ files) (h ∷ hashed) =
        (file.path ≡ f.0)
        × IsEntryOf file h
        × ((size : ℕ) × (metadata f.1 ≡ some size) × (ingest index f.1 size ≡ ok h))
        × Ingested (suc index) found files hashed
    Ingested index _ _ _ = ⊥

    known_size :
        (o : Option ℕ) (path : FilePath) {size : ℕ} → ok_or o (io path) ≡ ok size → o ≡ some size
    known_size none path h = cc
    known_size (some n) path h = ap some (ok_eq h)

    ingest_all-Ingested :
        (index : ℕ) (found : List Found) (r : Pair)
        → ingest_all lowercase to_str metadata ingest index found ≡ ok r
        → Ingested index found r.0 r.1
    unfolding ingest_all
    ingest_all-Ingested index [] r h =
        let done : ([], []) ≡ r = cc in subst (λ (r : Pair). Ingested index [] r.0 r.1) done tt
    ingest_all-Ingested index ((components, path) ∷ found) r h =
        let (size, known, after) = bind_ok (ok_or (metadata path) (io path)) _ h in
        let (one, taken, after') = bind_ok (ingest index path size) _ after in
        let (rest, others, last) =
          bind_ok (ingest_all lowercase to_str metadata ingest (suc index) found) _ after' in
        let done : (hashed_entry components one.1 ∷ rest.0, one ∷ rest.1) ≡ r = cc in
        subst (λ (r : Pair). Ingested index ((components, path) ∷ found) r.0 r.1) done
          (
            refl,
            (refl, refl),
            (size, known_size (metadata path) path known, taken),
            ingest_all-Ingested (suc index) found rest others,
          )

    -- What the seeder builds, from the files that it found below the root.
    pub record Built (root : FilePath) (node : Node) (m : Manifest)
        (hashed : List (Data × FileOutboard)) : Type 0 where
      pub safe : IsSafe lowercase m
      pub found : List Found
      pub placed : ArePlaced to_str root m.name found
      pub complete : Perm (map (λ (f : Found). f.1) found) (files_in node root)
      pub entries : Ingested 0 found m.files hashed

    -- The two parts of it being safe, from what was found.
    record Carried (name : List ℕ) (found : List Found) (files : List FileEntry) : Type 0 where
      safe : All (IsSafeFile name) files
      keys : map (key lowercase) files ≡ found_keys found

    Ingested-Carried :
        (root : FilePath) (name : List ℕ) (index : ℕ) (found : List Found) (files : List FileEntry)
        (hashed : List (Data × FileOutboard))
        → ArePlaced to_str root name found
        → Ingested index found files hashed
        → Carried name found files
    Ingested-Carried root name index [] [] [] n i = record { safe = tt; keys = refl }
    Ingested-Carried root name index [] [] (h ∷ hashed) n i = absurd i
    Ingested-Carried root name index [] (file ∷ files) hashed n i = absurd i
    Ingested-Carried root name index (f ∷ found) [] hashed n i = absurd i
    Ingested-Carried root name index (f ∷ found) (file ∷ files) [] n i = absurd i
    Ingested-Carried root name index (f ∷ found) (file ∷ files) (h ∷ hashed) n (p, e, made, i) =
        let c = Ingested-Carried root name (suc index) found files hashed n.1 i in
        record {
          safe = (
            record {
              inside = ap (is_outside name) p ∙ n.0.named.0;
              names = subst (All (λ c. name_problem c ≡ none)) (sym p) n.0.named.1;
            },
            c.safe,
          );
          keys = ap₂ ◌∷◌ (ap (map lowercase) p) c.keys;
        }

    share_name_ok :
        (root : FilePath) (file_name label : Option (List ℕ)) {name : List ℕ}
        → share_name lowercase to_str metadata ingest root file_name label ≡ ok name
        → name_problem name ≡ none
    unfolding share_name
    share_name_ok root file_name none h = portable_name_ok to_str root file_name h
    share_name_ok root file_name (some label) h = (checked_label_ok label h).0

    IsNamed-root : (name : List ℕ) → name_problem name ≡ none → IsNamed name (name ∷ [])
    IsNamed-root name h = (ground (arith, ==_iff name name), (h, tt))

    IsPlaced-root :
        (root : FilePath) (name : List ℕ)
        → name_problem name ≡ none
        → IsPlaced to_str root name root (name ∷ [])
    IsPlaced-root root name h = record {
      named = IsNamed-root name h;
      below = [];
      names = [];
      is_below = sym (append_nil root);
      has_name = refl;
      are_read = refl;
    }

    -- What `from_disk` builds from a file or folder is safe for every downloader. There is a
    -- file for each regular file below the path, and for no other: a list of files that were
    -- found is a permutation of those of the tree, each with a path below the root whose names,
    -- read as text after the share's name, are its components. The entries are of these, in this
    -- order, with the size and the root of what `ingest` gave for the number of the file, its
    -- path and its length.
    pub from_disk-Built :
        (root : FilePath) (file_name label : Option (List ℕ)) (node : Node)
        (r : Manifest × List (Data × FileOutboard))
        → from_disk lowercase to_str metadata ingest root file_name node label ≡ ok r
        → Built root node r.0 r.1
    unfolding from_disk
    from_disk-Built root file_name label node r h =
        let (name, named, h1) =
          bind_ok (share_name lowercase to_str metadata ingest root file_name label) _ h in
        let (found, collected, h2) = bind_ok (collect to_str node root (name ∷ [])) _ h1 in
        let (u, cased, h3) = bind_ok (check_case lowercase [] found) _ h2 in
        let (pair, taken, h4) =
          bind_ok (ingest_all lowercase to_str metadata ingest 0 found) _ h3 in
        let (are_placed, all) =
          collect-Finds to_str root name node root (name ∷ []) found
            (IsPlaced-root root name (share_name_ok root file_name label named)) collected in
        let ingested = ingest_all-Ingested 0 found pair taken in
        let c = Ingested-Carried root name 0 found pair.0 pair.1 are_placed ingested in
        let done : (record { name = name; files = pair.0 }, pair.1) ≡ r = cc in
        subst (λ (r : Manifest × List (Data × FileOutboard)). Built root node r.0 r.1) done
          (record {
            safe = record { files = c.safe; distinct = rw c.keys (check_case_ok [] found cased).0 };
            found = found;
            placed = are_placed;
            complete = all;
            entries = ingested;
          })

  -- A share of one file is safe for every downloader.
  pub single-IsSafe :
      (name : List ℕ) (outboard : FileOutboard) {m : Manifest}
      → single name outboard ≡ ok m
      → IsSafe lowercase m
  unfolding single
  single-IsSafe name outboard {m} h =
      let (checked, good, after) = bind_ok (checked_label name) _ h in
      let fine = (checked_label_ok name good).0 in
      let done : record { name = checked; files = hashed_entry (checked ∷ []) outboard ∷ [] } ≡ m =
        cc in
      subst (IsSafe lowercase) done (record {
        files =
            (record { inside = ground (arith, ==_iff checked checked); names = (fine, tt) }, tt);
        distinct = (refl, tt);
      })
