-- ===== src/Manifest/Collected.antt =====
-- What `collect` of manifest.rs finds: every regular file, under names that any system can store.
use chorrent.Common.{
  ℕ, ◌≡◌, refl, Bool, true, false, Option, none, some, List, [], ◌∷◌, ◌++◌, arith, All, Result, ok,
  append_assoc, ap, ◌∙◌, sym, map, if◌then◌else◌, nat_eq, list_eq,
}
use mathlib.Core.Path.{subst, ap₂}
use mathlib.Core.List.{Perm, perm_middle}
use mathlib.Core.List.Perm
use chorrent.Common.Results.{bind_ok}
use chorrent.Manifest.Names.{name_problem}
use chorrent.Manifest.Validate.{is_outside}
use chorrent.Manifest.Folder.{
  Node, Entries, file, folder, other, unreadable, nil, entry, FilePath, DiskError, Found, Visit,
  insert_visit, sort_visits, portable_name, visit_all, collect, visits, name_lt,
}

-- The regular files below a path, in the order of the tree: the reference.
unfoldable mutual
  pub files_in : Node → FilePath → List FilePath
  files_in file path = path ∷ []
  files_in (folder es) path = entries_in es path
  files_in other path = []
  files_in unreadable path = []

  pub entries_in : Entries → FilePath → List FilePath
  entries_in nil path = []
  entries_in (entry raw node es) path = files_in node (path ++ raw ∷ []) ++ entries_in es path

map-append : {A B : Type 0} (f : A → B) (xs ys : List A) → map f (xs ++ ys) ≡ map f xs ++ map f ys
map-append f [] ys = refl
map-append f (x ∷ xs) ys = ap (◌∷◌ (f x)) (map-append f xs ys)

-- Two blocks of a list change places.
swap_blocks : (xs ys zs : List FilePath) → Perm (xs ++ (ys ++ zs)) (ys ++ (xs ++ zs))
swap_blocks [] ys zs = Perm.refl (ys ++ zs)
swap_blocks (x ∷ xs) ys zs =
    Perm.trans (Perm.cons x (swap_blocks xs ys zs)) (Perm.symm (perm_middle ys (xs ++ zs)))

abbrev pub HasNames : List (List ℕ) → Type 0
HasNames = All (λ c. name_problem c ≡ none)

-- Components that start with the share's name and have no problem.
abbrev pub IsNamed : List ℕ → List (List ℕ) → Type 0
IsNamed name components = (is_outside name components ≡ false) × HasNames components

HasNames-append :
    (cs : List (List ℕ)) (c : List ℕ)
    → HasNames cs
    → name_problem c ≡ none
    → HasNames (cs ++ c ∷ [])
HasNames-append [] c h k = (k, tt)
HasNames-append (d ∷ cs) c h k = (h.0, HasNames-append cs c h.1 k)

IsNamed-append :
    (name : List ℕ) (cs : List (List ℕ)) (c : List ℕ)
    → IsNamed name cs
    → name_problem c ≡ none
    → IsNamed name (cs ++ c ∷ [])
IsNamed-append name [] c h k = absurd (cc (h.0))
IsNamed-append name (d ∷ cs) c h k = (h.0, HasNames-append (d ∷ cs) c h.1 k)

All-append : {A : Type 0} (P : A → Type 0) (xs ys : List A) → All P xs → All P ys → All P (xs ++ ys)
All-append P [] ys h k = k
All-append P (x ∷ xs) ys h k = (h.0, All-append P xs ys h.1 k)

module _ (to_str : List ℕ → Option (List ℕ)) where
  pub portable_name_ok :
      (path : FilePath) (raw : Option (List ℕ)) {name : List ℕ}
      → portable_name to_str path raw ≡ ok name
      → name_problem name ≡ none
  unfolding portable_name
  portable_name_ok path none h = cc
  portable_name_ok path (some raw) h = ground arith

  portable_name-read :
      (path : FilePath) (raw : List ℕ) {name : List ℕ}
      → portable_name to_str path (some raw) ≡ ok name
      → to_str raw ≡ some name
  unfolding portable_name
  portable_name-read path raw h = ground arith

  module _ (root : FilePath) (name : List ℕ) where
    -- A path below the root, under the share's name and its own names, read as text.
    pub record IsPlaced (path : FilePath) (components : List (List ℕ)) : Type 0 where
      pub named : IsNamed name components
      pub below : FilePath
      pub names : List (List ℕ)
      pub is_below : path ≡ root ++ below
      pub has_name : components ≡ name ∷ names
      pub are_read : map to_str below ≡ map some names

    IsPlaced-append :
        (path : FilePath) (components : List (List ℕ)) (raw c : List ℕ)
        → IsPlaced path components
        → name_problem c ≡ none
        → to_str raw ≡ some c
        → IsPlaced (path ++ raw ∷ []) (components ++ c ∷ [])
    IsPlaced-append path components raw c p good read = record {
      named = IsNamed-append name components c p.named good;
      below = p.below ++ raw ∷ [];
      names = p.names ++ c ∷ [];
      is_below = ap (λ x. x ++ raw ∷ []) p.is_below ∙ append_assoc root p.below (raw ∷ []);
      has_name = ap (λ x. x ++ c ∷ []) p.has_name;
      are_read =
          map-append to_str p.below (raw ∷ [])
          ∙ ap₂ ◌++◌ p.are_read (ap (λ x. x ∷ []) read)
          ∙ sym (map-append some p.names (c ∷ []));
    }

    abbrev pub ArePlaced : List Found → Type 0
    ArePlaced = All (λ (f : Found). IsPlaced f.1 f.0)

    abbrev paths : List Found → List FilePath
    paths = map (λ (f : Found). f.1)

    -- A walk that finds these files, in some order, all under good names.
    abbrev Finds :
        (FilePath → List FilePath)
        → (FilePath → List (List ℕ) → Result DiskError (List Found))
        → Type 0
    Finds files walk =
        (path : FilePath) (components : List (List ℕ)) (found : List Found)
        → IsPlaced path components
        → walk path components ≡ ok found
        → ArePlaced found × Perm (paths found) (files path)

    abbrev Visited : (FilePath → List FilePath) → List Visit → Type 0
    Visited files [] = (path : FilePath) → files path ≡ []
    Visited files (v ∷ vs) =
        (first : FilePath → List FilePath) × (rest : FilePath → List FilePath) × Finds first
          v.collect
        × Visited rest vs
        × ((path : FilePath) → Perm (files path) (first (path ++ v.file_name ∷ []) ++ rest path))

    insert_visit-Visited :
        (v : Visit) (a : FilePath → List FilePath) (vs : List Visit)
        (b files : FilePath → List FilePath)
        → Finds a v.collect
        → Visited b vs
        → ((path : FilePath) → Perm (files path) (a (path ++ v.file_name ∷ []) ++ b path))
        → Visited files (insert_visit v vs)
    unfolding insert_visit
    insert_visit-Visited v a [] b files f h e = (a, b, f, h, e)
    insert_visit-Visited v a (w ∷ ws) b files f (c, d, g, k, e') e =
        by_order (name_lt w.file_name v.file_name) (
          insert_visit-Visited v a ws d (λ path. a (path ++ v.file_name ∷ []) ++ d path) f k
            (λ path. Perm.refl _))
      where
        by_order :
            (test : Bool)
            → Visited (λ path. a (path ++ v.file_name ∷ []) ++ d path) (insert_visit v ws)
            → Visited files (if test then w ∷ insert_visit v ws else v ∷ w ∷ ws)
        by_order true later = (
          c,
          (λ path. a (path ++ v.file_name ∷ []) ++ d path),
          g,
          later,
          λ path. Perm.trans (e path) (
              Perm.trans (Perm.append_left (a (path ++ v.file_name ∷ [])) (e' path)) (
                swap_blocks (a (path ++ v.file_name ∷ [])) (c (path ++ w.file_name ∷ []))
                  (d path))),
        )
        by_order false later = (a, b, f, (c, d, g, k, e'), e)

    sort_visits-Visited :
        (vs : List Visit) (files : FilePath → List FilePath)
        → Visited files vs
        → Visited files (sort_visits vs)
    unfolding sort_visits
    sort_visits-Visited [] files h = h
    sort_visits-Visited (v ∷ vs) files (a, b, f, h, e) =
        insert_visit-Visited v a (sort_visits vs) b files f (sort_visits-Visited vs b h) e

    visit_all-Finds :
        (vs : List Visit) (files : FilePath → List FilePath)
        → Visited files vs
        → Finds files (visit_all to_str vs)
    unfolding visit_all
    visit_all-Finds [] files h path components found placed e =
        let nothing : found ≡ [] = cc in
        rw nothing (tt, subst (λ l. Perm [] l) (sym (h path)) (Perm.refl []))
    visit_all-Finds (v ∷ vs) files (a, b, f, h, e) path components found placed done =
        let (c, portable, after) =
          bind_ok (portable_name to_str (path ++ v.file_name ∷ []) (some v.file_name)) _ done in
        let (here, collected, after') =
          bind_ok (v.collect (path ++ v.file_name ∷ []) (components ++ c ∷ [])) _ after in
        let (rest, others, last) = bind_ok (visit_all to_str vs path components) _ after' in
        let (p, q) =
          f (path ++ v.file_name ∷ []) (components ++ c ∷ []) here
            (IsPlaced-append path components v.file_name c placed
              (portable_name_ok (path ++ v.file_name ∷ []) (some v.file_name) portable)
              (portable_name-read (path ++ v.file_name ∷ []) v.file_name portable))
            collected in
        let (p', q') = visit_all-Finds vs b h path components rest placed others in
        let all : found ≡ here ++ rest = cc in
        rw all (
          All-append (λ (f : Found). IsPlaced f.1 f.0) here rest p p',
          subst (λ l. Perm l (files path)) (sym (map-append (λ (f : Found). f.1) here rest))
              (Perm.trans (Perm.append q q') (Perm.symm (e path))),
        )

    mutual
      unfolding collect files_in visits

      pub collect-Finds : (node : Node) → Finds (files_in node) (collect to_str node)
      collect-Finds file path components found placed e =
          let one : found ≡ (components, path) ∷ [] = cc in
          rw one ((placed, tt), Perm.refl (path ∷ []))
      collect-Finds (folder es) path components found placed e =
          visit_all-Finds (sort_visits (visits to_str es)) (entries_in es)
            (sort_visits-Visited (visits to_str es) (entries_in es) (visits-Visited es)) path
            components found placed e
      collect-Finds other path components found placed e =
          let nothing : found ≡ [] = cc in rw nothing (tt, Perm.refl [])
      collect-Finds unreadable path components found placed e = cc

      visits-Visited : (es : Entries) → Visited (entries_in es) (visits to_str es)
      visits-Visited nil = λ path. refl
      visits-Visited (entry raw node es) =
          (files_in node, entries_in es, collect-Finds node, visits-Visited es, λ path. Perm.refl _)
