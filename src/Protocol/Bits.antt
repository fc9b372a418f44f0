-- ===== src/Protocol/Bits.antt =====
-- `pack_bits` and `unpack_bits` of protocol.rs (crates/chorrent/src). A byte is a number below
-- 256. The output of `pack_bits` has room for every bit, so no index is out of range.
use Prim.Native.Nat.{bit_and, bit_or}
use chorrent.Common.{
  ℕ, suc, ◌+◌, ◌/◌, ◌%◌, ◌^◌, Bool, false, not, none, some, List, [], ◌∷◌, map, nat_beq,
  if◌then◌else◌, length, get_elem?, get_or, set, replicate, range,
}

-- `n.div_ceil(8)`
abbrev pub div_ceil_eight : ℕ → ℕ
div_ceil_eight n = (n + 7) / 8

-- `out[i / 8] |= 1 << (i % 8)`
unfoldable pub set_bit : List ℕ → ℕ → List ℕ
set_bit out i = set out (i / 8) (bit_or (get_or out (i / 8) 0) (2 ^ (i % 8)))

-- The loop over the bits that are set, from index `i`.
unfoldable pub pack_loop : ℕ → List Bool → List ℕ → List ℕ
pack_loop i [] out = out
pack_loop i (h ∷ hs) out = pack_loop (suc i) hs (if h then set_bit out i else out)

unfoldable pub pack_bits : List Bool → List ℕ
unfolding pack_loop set_bit
pack_bits have = pack_loop 0 have (replicate (div_ceil_eight (length have)) 0)

-- `bytes.get(i / 8).is_some_and(|b| b & (1 << (i % 8)) != 0)`
unfoldable pub bit_is_set : List ℕ → ℕ → Bool
bit_is_set bytes i = elim (get_elem? bytes (i / 8)) [
  | none ↦ false
  | some b ↦ not (nat_beq (bit_and b (2 ^ (i % 8))) 0)
]

unfoldable pub unpack_bits : List ℕ → ℕ → List Bool
unfolding bit_is_set
unpack_bits bytes len = map (bit_is_set bytes) (range 0 len)
