-- ===== src/Protocol/Tests.antt =====
-- The unit test of the bitfields in protocol.rs (crates/chorrent/src), their theorems at the bits
-- of that test, and a frame of two bytes on streams that are lists.
use chorrent.Common.{ℕ, ◌≡◌, refl, Bool, true, false, List, [], ◌∷◌, length}
use chorrent.Common.{zero, suc, arith, ◌++◌, ap, ◌∙◌, Option, some, Result, ok, err}
use chorrent.Protocol.Frames.{ReadExactError, finished_early, read_failed, write_frame}
use chorrent.Protocol.Exchange.{Received, expect_frame-write_frame}
use chorrent.Protocol.Bits.{pack_bits, unpack_bits}
use chorrent.Protocol.Bitfield.{unpack_bits-pack_bits}

abbrev bits : List Bool
bits = true ∷ false ∷ false ∷ true ∷ true ∷ false ∷ false ∷ false ∷ false ∷ true ∷ []

packed_bits : pack_bits bits ≡ 25 ∷ 2 ∷ []
unfolding pack_bits
packed_bits = refl

bits_tolerate_short_input :
    unpack_bits (1 ∷ []) 9
    ≡ true ∷ false ∷ false ∷ false ∷ false ∷ false ∷ false ∷ false ∷ false ∷ []
unfolding unpack_bits
bits_tolerate_short_input = refl

abbrev one_byte : List ℕ
one_byte = 255 ∷ []

unpack_bits-pack_bits_example : unpack_bits (pack_bits bits) (length bits) ≡ bits
unpack_bits-pack_bits_example = unpack_bits-pack_bits bits

-- Streams that lose nothing: what was written, and what is still to be read.
add_byte : ℕ → Result ReadExactError (List ℕ × List ℕ) → Result ReadExactError (List ℕ × List ℕ)
add_byte b (ok (bytes, rest)) = ok (b ∷ bytes, rest)
add_byte b (err (finished_early n)) = err (finished_early (suc n))
add_byte b (err read_failed) = err read_failed

take_exact : List ℕ → ℕ → Result ReadExactError (List ℕ × List ℕ)
unfolding add_byte
take_exact bytes zero = ok ([], bytes)
take_exact [] (suc n) = err (finished_early 0)
take_exact (b ∷ bs) (suc n) = add_byte b (take_exact bs n)

take_exact_append :
    (bytes rest : List ℕ) → take_exact (bytes ++ rest) (length bytes) ≡ ok (bytes, rest)
unfolding take_exact
take_exact_append [] rest = refl
take_exact_append (b ∷ bs) rest = ap (add_byte b) (take_exact_append bs rest)

take_exact_reads :
    (r bytes rest : List ℕ)
    → r ≡ bytes ++ rest
    → (r' : List ℕ) × (take_exact r (length bytes) ≡ ok (bytes, r')) × (r' ≡ rest)
take_exact_reads r bytes rest h =
    (rest, ap (λ x. take_exact x (length bytes)) h ∙ take_exact_append bytes rest, refl)

append_all : List ℕ → List ℕ → Option (List ℕ)
append_all sent bytes = some (sent ++ bytes)

append_all_writes :
    (s sent bytes : List ℕ)
    → s ≡ sent
    → (s' : List ℕ) × (append_all s bytes ≡ some s') × (s' ≡ sent ++ bytes)
unfolding append_all
append_all_writes s sent bytes h = (s ++ bytes, refl, ap (λ x. x ++ bytes) h)

expect_frame-write_frame_example :
    ((s' : List ℕ) × (write_frame some append_all [] (7 ∷ 8 ∷ []) ≡ ok s')
      × (s' ≡ 2 ∷ 0 ∷ 0 ∷ 0 ∷ 7 ∷ 8 ∷ []))
    × Received some some append_all take_exact
        (λ s b. s ≡ b)
        (λ r b. r ≡ b)
        append_all_writes
        take_exact_reads
        (7 ∷ 8 ∷ [])
        (9 ∷ [])
        (2 ∷ 0 ∷ 0 ∷ 0 ∷ 7 ∷ 8 ∷ 9 ∷ [])
expect_frame-write_frame_example =
    expect_frame-write_frame some some append_all take_exact (λ s b. s ≡ b) (λ r b. r ≡ b)
      append_all_writes take_exact_reads (7 ∷ 8 ∷ []) (7 ∷ 8 ∷ []) [] (9 ∷ []) []
      (2 ∷ 0 ∷ 0 ∷ 0 ∷ 7 ∷ 8 ∷ 9 ∷ []) refl refl (omega arith) refl refl
