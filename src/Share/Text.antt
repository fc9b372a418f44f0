-- ===== src/Share/Text.antt =====
-- `Display` and `FromStr` of `ShareCode` in share.rs (crates/chorrent/src) are inverse to each other.
use chorrent.Common.{ℕ, ◌≡◌, refl, ◌∙◌, ap, true, false, Option, some, List, [], ◌∷◌, ◌++◌, All, ok}
use chorrent.Manifest.Names.{is_whitespace, trim_end, keep_trimmed}
use chorrent.Share.{ShareCode, trim_start, share_code_prefix, display, from_str}

abbrev pub IsBlank : List ℕ → Type 0
IsBlank = All (λ c. is_whitespace c ≡ true)

abbrev pub HasNoBlank : List ℕ → Type 0
HasNoBlank = All (λ c. is_whitespace c ≡ false)

trim_start-append : (blank s : List ℕ) → IsBlank blank → trim_start (blank ++ s) ≡ trim_start s
unfolding trim_start
trim_start-append [] s h = refl
trim_start-append (c ∷ cs) s h = rw h.0 (trim_start-append cs s h.1)

trim_end_blank : (blank : List ℕ) → IsBlank blank → trim_end blank ≡ []
unfolding trim_end
trim_end_blank [] h = refl
trim_end_blank (c ∷ cs) h = ap (keep_trimmed c) (trim_end_blank cs h.1) ∙ rw h.0 refl

trim_end-append : (s blank : List ℕ) → IsBlank blank → trim_end (s ++ blank) ≡ trim_end s
unfolding trim_end
trim_end-append [] blank h = trim_end_blank blank h
trim_end-append (c ∷ cs) blank h = ap (keep_trimmed c) (trim_end-append cs blank h)

trim_end-eq_self : (s : List ℕ) → HasNoBlank s → trim_end s ≡ s
unfolding trim_end
trim_end-eq_self [] h = refl
trim_end-eq_self (c ∷ []) h = rw h.0 refl
trim_end-eq_self (c ∷ d ∷ s) h = ap (keep_trimmed c) (trim_end-eq_self (d ∷ s) h.1)

-- A code between blanks is trimmed to itself.
trim_code :
    (before body after : List ℕ)
    → IsBlank before
    → HasNoBlank body
    → IsBlank after
    → trim_end (trim_start (before ++ ((share_code_prefix ++ body) ++ after)))
      ≡ share_code_prefix ++ body
unfolding trim_start
trim_code before body after h k l =
    ap trim_end (trim_start-append before ((share_code_prefix ++ body) ++ after) h)
    ∙ trim_end-append (share_code_prefix ++ body) after l
    ∙ trim_end-eq_self (share_code_prefix ++ body) (refl, (refl, (refl, (refl, k))))

module _ {Addr : Type 0} (serialize : ShareCode Addr → Option (List ℕ))
    (deserialize : List ℕ → Option (ShareCode Addr)) (encode : List ℕ → List ℕ)
    (decode : List ℕ → Option (List ℕ)) where
  -- Where postcard and base64 read back what they wrote for a code, and the base64 text has no
  -- blanks, `display` gives a text, and `from_str` reads the code from that text with any blanks
  -- around it.
  pub from_str-display :
      (code : ShareCode Addr) (bytes before after : List ℕ)
      → serialize code ≡ some bytes
      → deserialize bytes ≡ some code
      → decode (encode bytes) ≡ some bytes
      → HasNoBlank (encode bytes)
      → IsBlank before
      → IsBlank after
      → (text : List ℕ) × (display serialize deserialize encode decode code ≡ some text)
        × (from_str serialize deserialize encode decode (before ++ (text ++ after)) ≡ ok code)
  unfolding display from_str
  from_str-display code bytes before after written reads_back decodes clean b a = (
    share_code_prefix ++ encode bytes,
    rw (written, display) refl,
    rw (trim_code before (encode bytes) after b clean a, decodes, reads_back) refl,
  )
