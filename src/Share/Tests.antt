-- ===== src/Share/Tests.antt =====
-- Two codes for a private share (share.rs of crates/chorrent/src): addresses are their ids, postcard
-- knows one code, and base64 is replaced by a shift of each byte.
use chorrent.Common.{
  ℕ, ◌+◌, ◌-◌, ◌≡◌, refl, Option, some, List, [], ◌∷◌, ◌++◌, map, ok, err, list_beq,
}
use chorrent.Manifest.Names.{codes}
use chorrent.Share.{ShareCode, not_a_share_code, merge, display, from_str}
use chorrent.Share.Merge.{Merged, merge-Merged}
use chorrent.Share.Text.{from_str-display}

abbrev id_of : List ℕ → List ℕ
id_of addr = addr

abbrev code_with : List (List ℕ) → ShareCode (List ℕ)
code_with peers = record {
  id = 7 ∷ [];
  name = codes "x";
  total_size = 5;
  peers = peers;
  secret = some (1 ∷ []);
}

merge_two_seeders :
    merge id_of (code_with ((3 ∷ []) ∷ [])) (code_with ((4 ∷ []) ∷ (3 ∷ []) ∷ []))
    ≡ ok (code_with ((3 ∷ []) ∷ (4 ∷ []) ∷ []))
unfolding merge list_beq
merge_two_seeders = refl

merge-Merged_example :
    Merged id_of
      (code_with ((3 ∷ []) ∷ []))
      (code_with ((4 ∷ []) ∷ (3 ∷ []) ∷ []))
      (code_with ((3 ∷ []) ∷ (4 ∷ []) ∷ []))
merge-Merged_example =
    merge-Merged id_of (code_with ((3 ∷ []) ∷ [])) (code_with ((4 ∷ []) ∷ (3 ∷ []) ∷ []))
      (code_with ((3 ∷ []) ∷ (4 ∷ []) ∷ [])) merge_two_seeders

abbrev serialize : ShareCode (List ℕ) → Option (List ℕ)
serialize code = some (2 ∷ 9 ∷ [])

abbrev deserialize : List ℕ → Option (ShareCode (List ℕ))
deserialize bytes = some (code_with [])

abbrev encode : List ℕ → List ℕ
encode = map (λ b. b + 65)

abbrev decode : List ℕ → Option (List ℕ)
decode text = some (map (λ c. c - 65) text)

old_codes_are_refused :
    from_str serialize deserialize encode decode (codes "kAFlbmRwb2ludA") ≡ err not_a_share_code
unfolding from_str
old_codes_are_refused = refl

from_str-display_example :
    (text : List ℕ) × (display serialize deserialize encode decode (code_with []) ≡ some text)
    × (from_str serialize deserialize encode decode (codes " " ++ (text ++ codes " "))
        ≡ ok (code_with []))
from_str-display_example =
    from_str-display serialize deserialize encode decode (code_with []) (2 ∷ 9 ∷ []) (codes " ")
      (codes " ") refl refl refl (refl, (refl, tt)) (refl, tt) (refl, tt)
