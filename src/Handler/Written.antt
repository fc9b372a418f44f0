-- ===== src/Handler/Written.antt =====
-- The frames that a subscription writes, and all orders of its tasks: handler.rs and local.rs against
-- download.rs (crates/chorrent/src).
use chorrent.Common.{
  true_at, ℕ, ◌+◌, ◌≤◌, ◌<◌, ◌^◌, ◌≡◌, refl, ◌∙◌, sym, ap, true, false, ◌⊎◌, inl, inr, some, [],
  arith, nat_beq, nat_beq_iff, Bool-cases, some_eq, length, length-set, get_elem?,
  lt-length_of_get_elem?, get_or, get_or_of_get_elem?, get_or-set, set,
}
use mathlib.Core.Path.{subst}
use chorrent.Protocol.Bits.{pack_bits, unpack_bits}
use chorrent.Protocol.Bitfield.{unpack_bits-pack_bits}
use chorrent.Protocol.Messages.{Response}
use chorrent.Handler.Subscription.{
  received, lagged, message, Subscription, write, Step, mark, tell, next, lag, snapshot, Steps,
  here, then_step,
}
use chorrent.Handler.Followed.{view-append, bits, IsOnTheWay, Follows, mark-Follows, tell-Follows}

module _ (total : ℕ) where
  pub next-Follows :
      (s : Subscription) (index : ℕ)
      → s.behind ≡ false
      → get_elem? s.sent s.cursor ≡ some index
      → Follows total s
      → Follows total (write (record s { cursor = s.cursor + 1 }) (message s.have (received index)))
  next-Follows s index up at f =
      let e = view-append total [] s.frames (Response.have index) in
      let had = f.sent_had s.cursor index (omega arith) at in
      let lt : index < length (bits total s) =
        omega (arith, lt-length_of_get_elem? s.have index had, f.size, f.sized up) in
      record {
        size = f.size;
        untold_had = f.untold_had;
        sent_had = λ i p ge h. f.sent_had i p (omega arith) h;
        within = omega (arith, lt-length_of_get_elem? s.sent s.cursor at);
        sound = λ p h. by_index lt had p (subst (λ b. get_or b p false ≡ true) e h);
        sized = λ b. ap length e ∙ length-set (bits total s) index true ∙ f.sized b;
        complete = λ b p h. read e lt p (f.complete b p h);
      }
    where
      by_index :
          index < length (bits total s)
          → get_elem? s.have index ≡ some true
          → (p : ℕ) → get_or (set (bits total s) index true) p false ≡ true
          → get_elem? s.have p ≡ some true
      by_index lt had p h = elim (Bool-cases (nat_beq index p)) [
        | inl same ↦ subst (λ q. get_elem? s.have q ≡ some true) ((nat_beq_iff index p).0 same) had
        | inr other ↦
            f.sound p (sym (get_or-set (bits total s) index p true false lt ∙ rw other refl) ∙ h)
      ]

      known :
          index < length (bits total s)
          → (p : ℕ) → (index ≡ p) ⊎ (get_or (bits total s) p false ≡ true)
          → get_or (set (bits total s) index true) p false ≡ true
      known lt p (inl same) =
          get_or-set (bits total s) index p true false lt ∙ rw ((nat_beq_iff index p).1 same) refl
      known lt p (inr old) = elim (Bool-cases (nat_beq index p)) [
        | inl same ↦ get_or-set (bits total s) index p true false lt ∙ rw same refl
        | inr other ↦ get_or-set (bits total s) index p true false lt ∙ rw other old
      ]

      after : Subscription
      after = write (record s { cursor = s.cursor + 1 }) (message s.have (received index))

      read :
          bits total after ≡ set (bits total s) index true
          → index < length (bits total s)
          → (p : ℕ) → IsOnTheWay total s p
          → IsOnTheWay total after p
      read e lt p (inl h) = inl (subst (λ b. get_or b p false ≡ true) (sym e) (known lt p (inr h)))
      read e lt p (inr (inl h)) = inr (inl h)
      read e lt p (inr (inr (i, ge, h))) = elim (Bool-cases (nat_beq s.cursor i)) [
        | inl same ↦
            let here_p =
              subst (λ k. get_elem? s.sent k ≡ some p) (sym ((nat_beq_iff s.cursor i).0 same)) h in
            inl (
              subst (λ b. get_or b p false ≡ true) (sym e)
                (known lt p (inl (some_eq (sym at ∙ here_p)))))
        | inr later ↦ inr (inr (i, ground (arith, nat_beq_iff s.cursor i), h))
      ]

  pub snapshot-Follows :
      (s : Subscription)
      → s.behind ≡ true
      → Follows total s
      → Follows total (write (record s { behind = false }) (message s.have lagged))
  snapshot-Follows s b f =
      let e : bits total (write (record s { behind = false }) (message s.have lagged)) ≡ s.have =
        view-append total [] s.frames (Response.bitfield (pack_bits s.have))
        ∙ ap (unpack_bits (pack_bits s.have)) (sym f.size)
        ∙ unpack_bits-pack_bits s.have in
      record {
        size = f.size;
        untold_had = f.untold_had;
        sent_had = f.sent_had;
        within = f.within;
        sound = λ p h. true_at s.have p (subst (λ l. get_or l p false ≡ true) e h);
        sized = λ u. ap length e ∙ f.size;
        complete = λ u p h.
            inl
              (subst (λ l. get_or l p false ≡ true) (sym e) (get_or_of_get_elem? s.have p false h));
      }

  pub Step-Follows :
      {s t : Subscription} → total ≤ 2 ^ 32 → Step s t → Follows total s → Follows total t
  Step-Follows small (mark s index at) f = mark-Follows total s index at f
  Step-Follows small (tell s i index at) f = tell-Follows total s i index small at f
  Step-Follows small (next s index up at) f = next-Follows s index up at f
  Step-Follows small (lag s cursor up ge le) f = record {
    size = f.size;
    untold_had = f.untold_had;
    sent_had = λ i p ge' h. f.sent_had i p (omega arith) h;
    within = le;
    sound = f.sound;
    sized = λ h. cc;
    complete = λ h p e. cc;
  }
  Step-Follows small (snapshot s b) f = snapshot-Follows s b f

  pub Steps-Follows :
      {s t : Subscription} → total ≤ 2 ^ 32 → Steps s t → Follows total s → Follows total t
  Steps-Follows small here f = f
  Steps-Follows small (then_step r st) f = Step-Follows small st (Steps-Follows small r f)
