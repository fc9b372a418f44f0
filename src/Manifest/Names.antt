-- ===== src/Manifest/Names.antt =====
-- `name_problem` of manifest.rs (crates/chorrent/src): why a name is no file name on every system.
use Prim.Native.Char.{code}
use Prim.Native.String.{String}
use chorrent.Common.{
  ℕ, ◌+◌, Bool, false, ◌&&◌, ◌||◌, Option, none, some, List, [], ◌∷◌, map, ◌==◌, nat_beq, ltb, leb,
  if◌then◌else◌, contains, nat_eq, list_eq,
}

abbrev pub codes : String → List ℕ
codes String.[] = []
codes (String.◌∷◌ c s) = code c ∷ codes s

pub data Problem : Type 0 where
  not_a_file_name forbidden_character dot_or_space_at_end reserved_device_name : Problem

abbrev pub reserved : List (List ℕ)
reserved =
    codes "CON"
    ∷ codes "PRN"
    ∷ codes "AUX"
    ∷ codes "NUL"
    ∷ codes "COM1"
    ∷ codes "COM2"
    ∷ codes "COM3"
    ∷ codes "COM4"
    ∷ codes "COM5"
    ∷ codes "COM6"
    ∷ codes "COM7"
    ∷ codes "COM8"
    ∷ codes "COM9"
    ∷ codes "LPT1"
    ∷ codes "LPT2"
    ∷ codes "LPT3"
    ∷ codes "LPT4"
    ∷ codes "LPT5"
    ∷ codes "LPT6"
    ∷ codes "LPT7"
    ∷ codes "LPT8"
    ∷ codes "LPT9"
    ∷ []

-- The code points of `<>:"/\|?*`.
abbrev pub windows_forbidden : List ℕ
windows_forbidden = 60 ∷ 62 ∷ 58 ∷ 34 ∷ 47 ∷ 92 ∷ 124 ∷ 63 ∷ 42 ∷ []

-- The closure over the characters of the name.
abbrev pub is_forbidden : ℕ → Bool
is_forbidden c = ltb c 32 || contains windows_forbidden c

-- `Iterator::any`
unfoldable pub any {ℓ} : {A : Type ℓ} → (A → Bool) → List A → Bool
any p [] = false
any p (x ∷ xs) = p x || any p xs

-- `name.ends_with(['.', ' '])`
unfoldable pub ends_with_dot_or_space : List ℕ → Bool
ends_with_dot_or_space [] = false
ends_with_dot_or_space (c ∷ []) = nat_beq c 46 || nat_beq c 32
ends_with_dot_or_space (c ∷ d ∷ cs) = ends_with_dot_or_space (d ∷ cs)

-- `name.split('.').next()`
unfoldable pub before_dot : List ℕ → List ℕ
before_dot [] = []
before_dot (c ∷ cs) = let rest = before_dot cs in if nat_beq c 46 then [] else c ∷ rest

-- `char::is_whitespace`: the property White_Space of Unicode.
abbrev pub is_whitespace : ℕ → Bool
is_whitespace c =
    (leb 9 c && leb c 13)
    || (leb 8192 c && leb c 8202)
    || contains (32 ∷ 133 ∷ 160 ∷ 5760 ∷ 8232 ∷ 8233 ∷ 8239 ∷ 8287 ∷ 12288 ∷ []) c

-- A character before what `trim_end` left of the rest.
abbrev pub keep_trimmed : ℕ → List ℕ → List ℕ
keep_trimmed c [] = if is_whitespace c then [] else c ∷ []
keep_trimmed c (d ∷ ds) = c ∷ d ∷ ds

-- `str::trim_end`
unfoldable pub trim_end : List ℕ → List ℕ
trim_end [] = []
trim_end (c ∷ cs) = keep_trimmed c (trim_end cs)

abbrev pub to_ascii_lowercase : ℕ → ℕ
to_ascii_lowercase c = if leb 65 c && leb c 90 then c + 32 else c

-- `str::eq_ignore_ascii_case`
abbrev pub eq_ignore_ascii_case : List ℕ → List ℕ → Bool
eq_ignore_ascii_case a b = map to_ascii_lowercase a == map to_ascii_lowercase b

abbrev pub is_dots : List ℕ → Bool
is_dots name = (name == []) || (name == codes ".") || (name == codes "..")

unfoldable pub name_problem : List ℕ → Option Problem
unfolding any ends_with_dot_or_space before_dot trim_end
name_problem name =
    if is_dots name
    then some not_a_file_name
    else if any is_forbidden name
    then some forbidden_character
    else if ends_with_dot_or_space name
    then some dot_or_space_at_end
    else if any (λ r. eq_ignore_ascii_case r (trim_end (before_dot name))) reserved
    then some reserved_device_name
    else none
