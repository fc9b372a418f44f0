-- ===== src/Scheduler/Bits.antt =====
-- A bit of a peer's bitfield: `set_peer_has` of scheduler.rs, and the second half of `failed`.
use chorrent.Common.{
  ==_iff, ℕ, zero, suc, ◌+◌, ◌<◌, ◌≡◌, refl, Bool, true, false, Option, none, some, List, ◌∙◌, Eq,
  ◌==◌, inl, inr, arith, Bool-cases, length, get_elem?, get_or, set, nat_beq, sym, ap,
  if◌then◌else◌, length-set, lt-length_of_get_elem?, nat_beq_iff, get_or-set, get_or_of_get_elem?,
  get_elem?-get_or,
}
use chorrent.Common.{set-eq_self, set-eq_self_past_end}
use chorrent.Common.HashMap
use chorrent.Scheduler.{Scheduler, set_peer_has, clear_bit}
use chorrent.Scheduler.Invariant.{Inv, bit_at}
use chorrent.Scheduler.Remove.{bit_at-le-availability}
use chorrent.Scheduler.Peers.{insert-IsConsistent, insert-bits_fit}

bit_at-set :
    (bits : List Bool) (piece i : ℕ) (b : Bool)
    → piece < length bits
    → bit_at i (set bits piece b)
      ≡ (if nat_beq piece i then (if b then 1 else 0) else bit_at i bits)
bit_at-set bits piece i b lt = ground (arith, get_or-set bits piece i b false lt)

module _ {K : Type 0} ⦃e : Eq K⦄ where
  module _ (k : K) (bits : List Bool) (s : Scheduler K) (v : Inv s) where
    -- Change one bit of a peer and the availability of that piece to match.
    write_bit-Inv :
        (piece n : ℕ) (b : Bool)
        → HashMap.get k s.peers ≡ some bits
        → piece < length s.pieces
        → n + bit_at piece bits ≡ get_or s.availability piece 0 + (if b then 1 else 0)
        → Inv (record s {
          peers = HashMap.insert k (set bits piece b) s.peers;
          availability = set s.availability piece n;
        })
    write_bit-Inv piece n b h lt count = record {
      consistent =
          let c = insert-IsConsistent k (set bits piece b) s v.consistent in
          record {
            missing_counted = c.missing_counted;
            done_counted = c.done_counted;
            at_playhead = c.at_playhead;
            requests = c.requests;
          };
      counted = length-set s.availability piece n ∙ v.counted;
      bits_fit =
          insert-bits_fit k (set bits piece b) s v (length-set bits piece b ∙ v.bits_fit k bits h);
      unique = HashMap.insert-Unique k (set bits piece b) s.peers v.unique;
      held = λ i. ground (
        arith,
        get_or-set s.availability piece i n 0 (omega (arith, v.counted)),
        HashMap.tally-insert (bit_at i) k (set bits piece b) s.peers v.unique,
        bit_at-set bits piece i b (omega (arith, v.bits_fit k bits h)),
        nat_beq_iff piece i,
        v.held i,
        h,
      );
    }

abbrev pub with_bit : ℕ → Bool → Option (List Bool) → Option (List Bool)
with_bit piece b none = none
with_bit piece b (some bits) = some (set bits piece b)

module _ {K : Type 0} ⦃e : Eq K⦄ where
  -- A change of the bit of `k` for one piece, and of nothing else that is not counted from it.
  pub record BitWritten (k : K) (piece : ℕ) (b : Bool) (s s' : Scheduler K) : Type 0 where
    pub inv : Inv s'
    pub same_pieces : s'.pieces ≡ s.pieces
    pub peers :
        (j : K)
        → HashMap.get j s'.peers
          ≡ (if k == j then with_bit piece b (HashMap.get j s.peers) else HashMap.get j s.peers)

  module _ (k : K) (piece : ℕ) (s : Scheduler K) (v : Inv s) where
    unchanged-BitWritten :
        (b : Bool)
        → with_bit piece b (HashMap.get k s.peers) ≡ HashMap.get k s.peers
        → BitWritten k piece b s s
    unchanged-BitWritten b h = record {
      inv = v;
      same_pieces = refl;
      peers = λ j. elim (Bool-cases (k == j)) [
        | inl same ↦ rw (same, ← (==_iff k j).0 same) (sym h)
        | inr other ↦ rw other
      ];
    }

    written-BitWritten :
        (bits : List Bool) (n : ℕ) (b : Bool)
        → HashMap.get k s.peers ≡ some bits
        → piece < length s.pieces
        → n + bit_at piece bits ≡ get_or s.availability piece 0 + (if b then 1 else 0)
        → BitWritten k piece b s (record s {
          peers = HashMap.insert k (set bits piece b) s.peers;
          availability = set s.availability piece n;
        })
    written-BitWritten bits n b h lt count = record {
      inv = write_bit-Inv k bits s v piece n b h lt count;
      same_pieces = refl;
      peers = λ j. elim (Bool-cases (k == j)) [
        | inl same ↦
            rw (HashMap.get-insert k j (set bits piece b) s.peers, same, ← (==_iff k j).0 same, h)
        | inr other ↦ rw (HashMap.get-insert k j (set bits piece b) s.peers, other)
      ];
    }

    -- `set_peer_has` of a well-formed scheduler never panics. It sets the bit of a connected
    -- peer for a piece that there is, changes no piece and no other peer, and the scheduler
    -- stays well formed, so that the availability counts the peer once.
    pub set_peer_has-BitWritten :
        (s' : Scheduler K) × (set_peer_has k piece s ≡ some s') × BitWritten k piece true s s'
    set_peer_has-BitWritten = go (HashMap.get k s.peers) refl
      where
        by_bit :
            (bits : List Bool) (o : Option Bool)
            → HashMap.get k s.peers ≡ some bits
            → get_elem? bits piece ≡ o
            → (s' : Scheduler K) × (set_peer_has k piece s ≡ some s') × BitWritten k piece true s s'
        by_bit bits none h b = (
          s,
          unfold set_peer_has in rw (h, set_peer_has) (rw b),
          unchanged-BitWritten true (rw h (ap some (set-eq_self_past_end bits piece true b))),
        )
        by_bit bits (some true) h b = (
          s,
          unfold set_peer_has in rw (h, set_peer_has) (rw b),
          unchanged-BitWritten true (rw h (ap some (set-eq_self bits piece true b))),
        )
        by_bit bits (some false) h b =
            let lt : piece < length s.pieces =
              omega (arith, lt-length_of_get_elem? bits piece b, v.bits_fit k bits h) in
            (
              record s {
                peers = HashMap.insert k (set bits piece true) s.peers;
                availability = set s.availability piece (get_or s.availability piece 0 + 1);
              },
              unfold set_peer_has in
                  rw (h, set_peer_has)
                    (rw (b, get_elem?-get_or s.availability piece 0 (omega (arith, v.counted)))),
              written-BitWritten bits (get_or s.availability piece 0 + 1) true h lt
                  (ground (arith, get_or_of_get_elem? bits piece false b)),
            )

        go :
            (o : Option (List Bool))
            → HashMap.get k s.peers ≡ o
            → (s' : Scheduler K) × (set_peer_has k piece s ≡ some s') × BitWritten k piece true s s'
        go none h =
            (s, unfold set_peer_has in rw (h, set_peer_has), unchanged-BitWritten true (rw h))
        go (some bits) h = by_bit bits (get_elem? bits piece) h refl

    abbrev Clears : Bool → Option (Scheduler K) → Type 0
    Clears b r = (s' : Scheduler K) × (r ≡ some s') × BitWritten k piece b s s'

    pub clear_bit-BitWritten : piece < length s.pieces → Clears false (clear_bit piece k s)
    clear_bit-BitWritten lt = go (HashMap.get k s.peers) refl
      where
        by_count :
            (bits : List Bool) (count : ℕ)
            → HashMap.get k s.peers ≡ some bits
            → get_elem? bits piece ≡ some true
            → get_elem? s.availability piece ≡ some count
            → Clears false (clear_bit piece k s)
        by_count bits zero h b c = absurd (
            ground (
              arith,
              bit_at-le-availability k s v bits h piece,
              get_or_of_get_elem? bits piece false b,
              get_or_of_get_elem? s.availability piece 0 c,
            ))
        by_count bits (suc count) h b c = (
          record s {
            peers = HashMap.insert k (set bits piece false) s.peers;
            availability = set s.availability piece count;
          },
          unfold clear_bit in rw (h, clear_bit) (rw (b, c)),
          written-BitWritten bits count false h lt (
              ground (
                arith,
                get_or_of_get_elem? bits piece false b,
                get_or_of_get_elem? s.availability piece 0 c,
              )),
        )

        by_bit :
            (bits : List Bool) (o : Bool)
            → HashMap.get k s.peers ≡ some bits
            → get_elem? bits piece ≡ some o
            → Clears false (clear_bit piece k s)
        by_bit bits false h b = (
          s,
          unfold clear_bit in rw (h, clear_bit) (rw b),
          unchanged-BitWritten false (rw h (ap some (set-eq_self bits piece false b))),
        )
        by_bit bits true h b =
            by_count bits (get_or s.availability piece 0) h b
              (get_elem?-get_or s.availability piece 0 (omega (arith, v.counted)))

        go :
            (o : Option (List Bool))
            → HashMap.get k s.peers ≡ o
            → Clears false (clear_bit piece k s)
        go none h = (s, unfold clear_bit in rw (h, clear_bit), unchanged-BitWritten false (rw h))
        go (some bits) h =
            by_bit bits (get_or bits piece false) h
              (get_elem?-get_or bits piece false (omega (arith, v.bits_fit k bits h)))
