-- ===== src/Manifest/Folder.antt =====
-- `collect` and `portable_name` of manifest.rs (crates/chorrent/src): the regular files below a path.
-- A path is the list of its names, and a name the list of its bytes. `to_str` reads a name as text;
-- it is the standard library's.
use chorrent.Common.{
  ℕ, Bool, true, false, Option, none, some, List, [], ◌∷◌, ◌++◌, ltb, nat_beq, if◌then◌else◌,
  Result, ok, err,
}
use chorrent.Common.Results.{◌>>=◌}
use chorrent.Manifest.Names.{Problem, name_problem}

-- What stands on disk, as `symlink_metadata` and `read_dir` see it. `other` is neither a file nor a
-- folder, such as a symbolic link; `unreadable` is where one of them fails.
mutual
  pub data Node : Type 0 where
    file : Node
    folder : Entries → Node
    other unreadable : Node

  pub data Entries : Type 0 where
    nil : Entries
    entry : List ℕ → Node → Entries → Entries

abbrev pub FilePath : Type 0
FilePath = List (List ℕ)

-- The reasons of `Error::UnsupportedName`.
pub data BadName : Type 0 where
  no_file_name not_unicode same_but_for_case : BadName
  unportable : Problem → BadName

-- `Error::Io` and `Error::UnsupportedName`, with the path.
pub data DiskError : Type 0 where
  io : FilePath → DiskError
  unsupported_name : FilePath → BadName → DiskError

-- A file that was found: the components of its name in the share, and where it is.
abbrev pub Found : Type 0
Found = List (List ℕ) × FilePath

-- The order of names as bytes.
unfoldable pub name_lt : List ℕ → List ℕ → Bool
name_lt [] [] = false
name_lt [] (y ∷ ys) = true
name_lt (x ∷ xs) [] = false
name_lt (x ∷ xs) (y ∷ ys) = if nat_beq x y then name_lt xs ys else ltb x y

-- An entry of a folder: its file name, and the call of `collect` for it.
pub record Visit : Type 0 where
  pub file_name : List ℕ
  pub collect : FilePath → List (List ℕ) → Result DiskError (List Found)

-- A stable sort by file name: `sort_by_key(|e| e.file_name())`.
unfoldable pub insert_visit : Visit → List Visit → List Visit
insert_visit v [] = v ∷ []
insert_visit v (w ∷ ws) =
    let rest = insert_visit v ws in if name_lt w.file_name v.file_name then w ∷ rest else v ∷ w ∷ ws

unfoldable pub sort_visits : List Visit → List Visit
unfolding insert_visit name_lt
sort_visits [] = []
sort_visits (v ∷ vs) = insert_visit v (sort_visits vs)

module _ (to_str : List ℕ → Option (List ℕ)) where
  unfoldable pub portable_name : FilePath → Option (List ℕ) → Result DiskError (List ℕ)
  portable_name path none = err (unsupported_name path no_file_name)
  portable_name path (some raw) = elim (to_str raw) [
    | none ↦ err (unsupported_name path not_unicode)
    | some name ↦ elim (name_problem name) [
      | some reason ↦ err (unsupported_name path (unportable reason))
      | none ↦ ok name
    ]
  ]

  -- The loop over the entries of the folder at `path`.
  unfoldable pub visit_all : List Visit → FilePath → List (List ℕ) → Result DiskError (List Found)
  unfolding portable_name
  visit_all [] path components = ok []
  visit_all (v ∷ vs) path components = do
    name ← portable_name (path ++ v.file_name ∷ []) (some v.file_name)
    found ← v.collect (path ++ v.file_name ∷ []) (components ++ name ∷ [])
    rest ← visit_all vs path components
    ok (found ++ rest)

  unfoldable mutual
    unfolding visit_all sort_visits

    pub collect : Node → FilePath → List (List ℕ) → Result DiskError (List Found)
    collect file path components = ok ((components, path) ∷ [])
    collect (folder es) path components = visit_all (sort_visits (visits es)) path components
    collect other path components = ok []
    collect unreadable path components = err (io path)

    pub visits : Entries → List Visit
    visits nil = []
    visits (entry raw node es) = record { file_name = raw; collect = collect node } ∷ visits es
