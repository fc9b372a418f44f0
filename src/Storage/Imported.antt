-- ===== src/Storage/Imported.antt =====
-- What an import of storage.rs (crates/chorrent/src) writes.
use chorrent.Common.{
  ℕ, suc, ◌+◌, ◌*◌, ◌/◌, ◌%◌, ◌<◌, ◌≡◌, refl, ◌∙◌, sym, ap, false, List, [], ◌∷◌, ◌++◌, inl, inr,
  arith, leb, nat_beq, Bool-cases, length, length-append, length-take, take, drop, take-append-drop,
  append_assoc, append_nil, Result, ok,
}
use mathlib.Core.Path.{subst}
use chorrent.Common.Results.{◌>>=◌, bind_assoc, bind_congr}
use chorrent.Manifest.{block_size}
use chorrent.Storage.{IoError}
use chorrent.Storage.Import.{start, drain, read, finish, import_all}

-- All the chunks, one after the other.
abbrev pub concat : List (List ℕ) → List ℕ
concat [] = []
concat (c ∷ cs) = c ++ concat cs

-- The writes cover the text from a position on, in order and without gaps. Each begins at a piece's
-- start, and every one but the last is of whole pieces.
pub data Covers : ℕ → List (ℕ × List ℕ) → List ℕ → Type 0 where
  done : {at : ℕ} → Covers at [] []
  last : {at : ℕ} {bytes : List ℕ} → at % block_size ≡ 0 → Covers at ((at, bytes) ∷ []) bytes
  whole :
      {at : ℕ} {bytes rest : List ℕ} {writes : List (ℕ × List ℕ)}
      → at % block_size ≡ 0
      → length bytes % block_size ≡ 0
      → 0 < length bytes
      → Covers (at + length bytes) writes rest
      → Covers at ((at, bytes) ∷ writes) (bytes ++ rest)

module _ {Dest : Type 0} (write_all_at : Dest → ℕ → List ℕ → Result IoError Dest) where
  -- The writes, up to the first that fails.
  abbrev pub write_each : Dest → List (ℕ × List ℕ) → Result IoError Dest
  write_each dest [] = ok dest
  write_each dest ((at, bytes) ∷ writes) =
      write_all_at dest at bytes >>= λ dest'. write_each dest' writes

  -- An import with these bytes pending and written is the writes, whatever the destination holds, and
  -- gives the number of bytes.
  abbrev pub Imports : List ℕ → ℕ → List (List ℕ) → List ℕ → Type 0
  Imports pending written chunks text =
      (writes : List (ℕ × List ℕ)) × Covers written writes text
      × ((dest : Dest)
          → import_all write_all_at (record { dest = dest; pending = pending; written = written })
              chunks
            ≡ (write_each dest writes >>= λ dest'. ok (written + length text, dest')))

  finish-Imports :
      (pending : List ℕ) (written : ℕ)
      → written % block_size ≡ 0
      → Imports pending written [] pending
  unfolding import_all finish
  finish-Imports [] written at = ([], Covers.done, λ dest. ap (λ n. ok (n, dest)) (omega arith))
  finish-Imports (b ∷ bs) written at = (
    (written, b ∷ bs) ∷ [],
    Covers.last at,
    λ dest.
        let more : nat_beq (suc (length bs)) 0 ≡ false = ground arith in
        rw more (sym (bind_assoc (write_all_at dest written (b ∷ bs)) ok _)),
  )

  -- A step of whole pieces, then the rest.
  drain-Imports :
      (pending : List ℕ) (written : ℕ) (chunk : List ℕ) (chunks : List (List ℕ))
      → written % block_size ≡ 0
      → ((p : List ℕ) (w : ℕ) → w % block_size ≡ 0 → Imports p w chunks (p ++ concat chunks))
      → Imports pending written (chunk ∷ chunks) ((pending ++ chunk) ++ concat chunks)
  unfolding import_all read drain
  drain-Imports pending written chunk chunks at rest =
      let all = pending ++ chunk in
      let n = length all / block_size * block_size in
      elim (Bool-cases (leb 1 n)) [
        | inl some_pieces ↦
            let long : length (take n all) ≡ n = omega (arith, length-take n all) in
            let (writes, covers, same) = rest (drop n all) (written + n) (omega (arith, at)) in
            let text : take n all ++ (drop n all ++ concat chunks) ≡ all ++ concat chunks =
              sym (append_assoc (take n all) (drop n all) (concat chunks))
              ∙ ap (λ x. x ++ concat chunks) (take-append-drop n all) in
            let total : written + n + length (drop n all ++ concat chunks)
                ≡ written + length (all ++ concat chunks) =
              omega (
                arith,
                ap length text,
                length-append (take n all) (drop n all ++ concat chunks),
                long,
              ) in
            (
              (written, take n all) ∷ writes,
              subst (Covers written ((written, take n all) ∷ writes)) text (
                  Covers.whole at (omega (arith, long)) (ground (arith, long, some_pieces)) (
                    subst (λ k. Covers (written + k) writes (drop n all ++ concat chunks))
                      (sym long) covers)),
              λ dest. rw some_pieces (
                  bind_assoc (write_all_at dest written (take n all)) _ _
                  ∙ bind_congr (write_all_at dest written (take n all))
                      (λ d. same d ∙ ap (λ k. write_each d writes >>= λ d'. ok (k, d')) total)
                  ∙ sym (bind_assoc (write_all_at dest written (take n all)) _ _)),
            )
        | inr none ↦
            let (writes, covers, same) = rest all written at in
            (writes, covers, λ dest. rw none (same dest))
      ]

  imports :
      (chunks : List (List ℕ)) (pending : List ℕ) (written : ℕ)
      → written % block_size ≡ 0
      → Imports pending written chunks (pending ++ concat chunks)
  imports [] pending written at =
      subst (Imports pending written []) (sym (append_nil pending))
        (finish-Imports pending written at)
  imports (chunk ∷ chunks) pending written at =
      subst (Imports pending written (chunk ∷ chunks)) (append_assoc pending chunk (concat chunks))
        (drain-Imports pending written chunk chunks at (imports chunks))

  -- For any reads of the source there are writes that cover its text from the start, in order,
  -- without gaps, each at the start of a piece and all but the last of whole pieces, such that
  -- the import does exactly these writes, fails where one of them fails, and otherwise gives the
  -- length of the text.
  pub import_all-Covers :
      (chunks : List (List ℕ))
      → (writes : List (ℕ × List ℕ)) × Covers 0 writes (concat chunks)
        × ((dest : Dest)
            → import_all write_all_at (start write_all_at dest) chunks
              ≡ (write_each dest writes >>= λ dest'. ok (length (concat chunks), dest')))
  import_all-Covers chunks =
      let (writes, covers, same) = imports chunks [] 0 refl in
      (
        writes,
        covers,
        λ dest.
            same dest ∙ ap (λ n. write_each dest writes >>= λ dest'. ok (n, dest')) (omega arith),
      )
