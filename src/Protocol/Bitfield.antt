-- ===== src/Protocol/Bitfield.antt =====
-- `unpack_bits` reads back what `pack_bits` writes, in protocol.rs.
use Prim.Native.Nat.{bit_and, bit_or}
use chorrent.Common.{
  ◌*◌, ◌/◌, ◌%◌, ◌^◌, map, ℕ, zero, suc, ◌+◌, ◌≤◌, ◌<◌, ◌≡◌, refl, Bool, true, false, Option, none,
  some, List, [], ◌∷◌, ◌∙◌, inl, inr, arith, Bool-cases, length, get_elem?, get_or, nat_beq, sym,
  ap, if◌then◌else◌, length-set, nat_beq_iff, get_elem?-eq-none, ◌&&◌, ◌||◌, not, get_or-set,
  get_or_of_get_elem?, get_or_past_end, range, replicate, get_or-replicate, length-replicate, ltb,
  length-le_of_get_elem?, nat_eq,
}
use mathlib.Core.Path.{subst, ap₂}
use native.Mathlib.Nat.{add-zero, zero-add}
use chorrent.Protocol.Bits.{div_ceil_eight, set_bit, pack_loop, pack_bits, bit_is_set, unpack_bits}

-- The test of one bit of a byte.
abbrev test : ℕ → ℕ → Bool
test b k = not (nat_beq (bit_and b (2 ^ k)) 0)

-- A test of the numbers below a bound.
every : ℕ → (ℕ → Bool) → Bool
every zero test_one = true
every (suc bound) test_one = every bound test_one && test_one bound

holds_of_every :
    (bound : ℕ) (test_one : ℕ → Bool)
    → every bound test_one ≡ true
    → (i : ℕ) → i < bound
    → test_one i ≡ true
unfolding every
holds_of_every zero test_one h i lt = absurd (omega arith)
holds_of_every (suc bound) test_one h i lt = elim (Bool-cases (nat_beq i bound)) [
  | inl last ↦ rw ((nat_beq_iff i bound).0 last) (last_holds (every bound test_one) h)
  | inr earlier ↦ holds_of_every bound test_one (ground (arith, h)) i (ground (arith, lt, earlier))
]
  where
    last_holds : (b : Bool) → (b && test_one bound) ≡ true → test_one bound ≡ true
    last_holds b h = ground arith

iff : Bool → Bool → Bool
iff true b = b
iff false b = not b

iff-eq : (a b : Bool) → iff a b ≡ true → a ≡ b
unfolding iff
iff-eq true b h = ground arith
iff-eq false b h = ground arith

-- Setting a bit of a byte sets that bit alone, and leaves a byte.
abbrev or_row : ℕ → ℕ → ℕ → Bool
or_row b k j =
    iff (test (bit_or b (2 ^ k)) j) (nat_beq k j || test b j) && ltb (bit_or b (2 ^ k)) 256

or_table : every 256 (λ b. every 8 (λ k. every 8 (or_row b k))) ≡ true
unfolding every iff
or_table = refl

or_row_holds : (b k j : ℕ) → b < 256 → k < 8 → j < 8 → or_row b k j ≡ true
or_row_holds b k j hb hk hj =
    holds_of_every 8 (or_row b k)
      (holds_of_every 8 (λ k. every 8 (or_row b k))
        (holds_of_every 256 (λ b. every 8 (λ k. every 8 (or_row b k))) or_table b hb) k hk)
      j hj

test-bit_or :
    (b k j : ℕ) → b < 256 → k < 8 → j < 8 → test (bit_or b (2 ^ k)) j ≡ (nat_beq k j || test b j)
test-bit_or b k j hb hk hj = iff-eq _ _ (ground (arith, or_row_holds b k j hb hk hj))

bit_or-lt : (b k : ℕ) → b < 256 → k < 8 → bit_or b (2 ^ k) < 256
bit_or-lt b k hb hk = ground (arith, or_row_holds b k 0 hb hk (omega arith))

abbrev AreBytes : List ℕ → Type 0
AreBytes out = (i : ℕ) → get_or out i 0 < 256

-- The test of a bit of a bitfield, where a missing byte counts as zero.
abbrev bit_of : List ℕ → ℕ → Bool
bit_of out j = test (get_or out (j / 8) 0) (j % 8)

zero_table : every 8 (λ k. not (test 0 k)) ≡ true
unfolding every
zero_table = refl

bit_is_set-bit_of : (out : List ℕ) (j : ℕ) → bit_is_set out j ≡ bit_of out j
unfolding bit_is_set
bit_is_set-bit_of out j = by_read (get_elem? out (j / 8)) refl
  where
    by_read : (o : Option ℕ) → get_elem? out (j / 8) ≡ o → bit_is_set out j ≡ bit_of out j
    by_read (some b) h = rw (h, bit_is_set, get_or_of_get_elem? out (j / 8) 0 h)
    by_read none h =
        rw (h, bit_is_set, get_or_past_end out (j / 8) 0 (length-le_of_get_elem? out (j / 8) h))
          (ground (arith, holds_of_every 8 (λ k. not (test 0 k)) zero_table (j % 8) (omega arith)))

same_bit : (i j : ℕ) → (nat_beq (i / 8) (j / 8) && nat_beq (i % 8) (j % 8)) ≡ nat_beq i j
same_bit i j = ground arith

module _ (out : List ℕ) (i : ℕ) (room : i / 8 < length out) (bytes : AreBytes out) where
  set_bit-AreBytes : AreBytes (set_bit out i)
  unfolding set_bit
  set_bit-AreBytes j = ground (
    arith,
    get_or-set out (i / 8) j (bit_or (get_or out (i / 8) 0) (2 ^ (i % 8))) 0 room,
    bit_or-lt (get_or out (i / 8) 0) (i % 8) (bytes (i / 8)) (omega arith),
    bytes j,
  )

  -- Setting bit `i` of the field sets it alone.
  bit_of-set_bit : (j : ℕ) → bit_of (set_bit out i) j ≡ (nat_beq i j || bit_of out j)
  unfolding set_bit
  bit_of-set_bit j =
      rw (get_or-set out (i / 8) (j / 8) (bit_or (get_or out (i / 8) 0) (2 ^ (i % 8))) 0 room)
        (elim (Bool-cases (nat_beq (i / 8) (j / 8))) [
          | inl same ↦
              rw
                (
                  same,
                  test-bit_or (get_or out (i / 8) 0) (i % 8) (j % 8) (bytes (i / 8)) (omega arith)
                      (omega arith),
                )
                (ground (
                  arith,
                  same_bit i j,
                  ap (λ (x : ℕ). get_or out x 0) ((nat_beq_iff (i / 8) (j / 8)).0 same),
                ))
          | inr other ↦ rw other (ground (arith, same_bit i j))
        ])

-- The state of the loop before index `i`, with `n` bits to come: no bit from `i` on is set yet.
record Packing (out : List ℕ) (i n : ℕ) : Type 0 where
  room : i + n ≤ 8 * length out
  bytes : AreBytes out
  clear : (j : ℕ) → i ≤ j → bit_of out j ≡ false

abbrev after_bit : Bool → List ℕ → ℕ → List ℕ
after_bit h out i = if h then set_bit out i else out

length-after_bit : (h : Bool) (out : List ℕ) (i : ℕ) → length (after_bit h out i) ≡ length out
unfolding set_bit
length-after_bit true out i = length-set out (i / 8) (bit_or (get_or out (i / 8) 0) (2 ^ (i % 8)))
length-after_bit false out i = refl

bit_of-after_bit :
    (h : Bool) (out : List ℕ) (i : ℕ) {n : ℕ}
    → Packing out i (suc n)
    → (j : ℕ) → bit_of (after_bit h out i) j ≡ ((h && nat_beq i j) || bit_of out j)
bit_of-after_bit false out i p j = refl
bit_of-after_bit true out i p j = bit_of-set_bit out i (omega (arith, p.room)) p.bytes j

after_bit-Packing :
    (h : Bool) (out : List ℕ) (i : ℕ) {n : ℕ}
    → Packing out i (suc n)
    → Packing (after_bit h out i) (suc i) n
after_bit-Packing h out i p = record {
  room = omega (arith, length-after_bit h out i, p.room);
  bytes = by_bit h;
  clear = λ j le. ground (arith, bit_of-after_bit h out i p j, p.clear j (omega arith));
}
  where
    by_bit : (h : Bool) → AreBytes (after_bit h out i)
    by_bit true = set_bit-AreBytes out i (omega (arith, p.room)) p.bytes
    by_bit false = p.bytes

bit_of-pack_loop_before :
    (have : List Bool) (i : ℕ) (out : List ℕ)
    → Packing out i (length have)
    → (j : ℕ) → j < i
    → bit_of (pack_loop i have out) j ≡ bit_of out j
unfolding pack_loop
bit_of-pack_loop_before [] i out p j lt = refl
bit_of-pack_loop_before (h ∷ hs) i out p j lt =
    bit_of-pack_loop_before hs (suc i) (after_bit h out i) (after_bit-Packing h out i p) j
      (omega arith)
    ∙ ground (arith, bit_of-after_bit h out i p j)

bit_of-pack_loop :
    (have : List Bool) (i : ℕ) (out : List ℕ)
    → Packing out i (length have)
    → (d : ℕ) → bit_of (pack_loop i have out) (i + d) ≡ get_or have d false
unfolding pack_loop
bit_of-pack_loop [] i out p d = p.clear (i + d) (omega arith)
bit_of-pack_loop (h ∷ hs) i out p zero =
    let same : i + 0 ≡ i = omega arith in
    rw same (
      bit_of-pack_loop_before hs (suc i) (after_bit h out i) (after_bit-Packing h out i p) i
        (omega arith)
      ∙ ground (arith, bit_of-after_bit h out i p i, p.clear i (omega arith)))
bit_of-pack_loop (h ∷ hs) i out p (suc d) =
    let same : i + suc d ≡ suc i + d = omega arith in
    rw same (bit_of-pack_loop hs (suc i) (after_bit h out i) (after_bit-Packing h out i p) d)

empty-Packing : (n : ℕ) → Packing (replicate (div_ceil_eight n) 0) 0 n
empty-Packing n = record {
  room = omega (arith, length-replicate {A = ℕ} (div_ceil_eight n) 0);
  bytes = λ i. rw (get_or-replicate {A = ℕ} (div_ceil_eight n) 0 i) (omega arith);
  clear = λ j le.
      rw (get_or-replicate {A = ℕ} (div_ceil_eight n) 0 (j / 8))
        (ground (arith, holds_of_every 8 (λ k. not (test 0 k)) zero_table (j % 8) (omega arith)));
}

-- Bit `i` of the packed field is entry `i` of the list, and every bit past the list is clear.
pub bit_is_set-pack_bits :
    (have : List Bool) (i : ℕ) → bit_is_set (pack_bits have) i ≡ get_or have i false
unfolding pack_bits
bit_is_set-pack_bits have i =
    bit_is_set-bit_of (pack_bits have) i
    ∙ subst (λ j. bit_of (pack_bits have) j ≡ get_or have i false) (zero-add i)
        (bit_of-pack_loop have 0 (replicate (div_ceil_eight (length have)) 0)
          (empty-Packing (length have)) i)

map-range :
    (f : ℕ → Bool) (bs : List Bool) (a : ℕ)
    → ((d : ℕ) → f (a + d) ≡ get_or bs d false)
    → map f (range a (length bs)) ≡ bs
map-range f [] a h = refl
map-range f (b ∷ bs) a h =
    ap₂ ◌∷◌ (subst (λ j. f j ≡ b) (add-zero a) (h 0))
      (map-range f bs (suc a) (λ d. subst (λ j. f j ≡ get_or bs d false) (shift a d) (h (suc d))))
  where
    shift : (a d : ℕ) → a + suc d ≡ suc a + d
    shift a d = omega arith

-- Unpacking as many bits as were packed gives the list that was packed.
pub unpack_bits-pack_bits : (have : List Bool) → unpack_bits (pack_bits have) (length have) ≡ have
unfolding unpack_bits
unpack_bits-pack_bits have = map-range (bit_is_set (pack_bits have)) have 0 (λ d.
    subst (λ j. bit_is_set (pack_bits have) j ≡ get_or have d false) (sym (zero-add d))
      (bit_is_set-pack_bits have d))

length-map-range : (f : ℕ → Bool) (n a : ℕ) → length (map f (range a n)) ≡ n
length-map-range f zero a = refl
length-map-range f (suc n) a = ap suc (length-map-range f n (suc a))

get_or-map-range :
    (f : ℕ → Bool) (n a i : ℕ)
    → get_or (map f (range a n)) i false ≡ (if ltb i n then f (a + i) else false)
get_or-map-range f zero a i = ground arith
get_or-map-range f (suc n) a zero = ground (arith, ap f (add-zero a))
get_or-map-range f (suc n) a (suc i) =
    ground (arith, get_or-map-range f n (suc a) i, ap f (shift a i))
  where
    shift : (a d : ℕ) → suc a + d ≡ a + suc d
    shift a d = omega arith

-- Whatever bytes a peer sends, `unpack_bits` gives exactly `len` entries, and one for which no
-- byte came says that the peer does not have the piece.
pub unpack_bits_total :
    (bytes : List ℕ) (len : ℕ)
    → (length (unpack_bits bytes len) ≡ len)
      × ((i : ℕ) → length bytes ≤ i / 8 → get_or (unpack_bits bytes len) i false ≡ false)
unfolding unpack_bits bit_is_set
unpack_bits_total bytes len = (
  length-map-range (bit_is_set bytes) len 0,
  λ i past.
      get_or-map-range (bit_is_set bytes) len 0 i
      ∙ ground (arith, ap (bit_is_set bytes) (zero-add i), get_elem?-eq-none bytes (i / 8) past),
)
