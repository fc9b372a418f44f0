-- ===== src/Handler/CaughtUp.antt =====
-- A peer that subscribed to a share catches up with it: handler.rs and local.rs against download.rs
-- (crates/chorrent/src), for every order of the tasks.
use chorrent.Common.{
  true_at, same_bits, ℕ, zero, suc, ◌+◌, ◌≤◌, ◌^◌, ◌≡◌, refl, ◌∙◌, sym, Bool, true, false, inl, inr,
  some, List, [], arith, Bool-cases, Option-cases, length-le_of_get_elem?, length, get_elem?,
  lt-length_of_get_elem?, get_or, get_or_of_get_elem?,
}
use mathlib.Core.Path.{subst}
use chorrent.Handler.Subscription.{
  received, lagged, message, Subscription, subscribe, write, Steps, view, round, drain,
}
use chorrent.Handler.Followed.{bits, IsOnTheWay, Follows, subscribe-Follows}
use chorrent.Handler.Written.{next-Follows, snapshot-Follows, Steps-Follows}

module _ (total : ℕ) where
  -- With nothing left to send, the peer knows exactly the pieces.
  caught_up :
      (s : Subscription)
      → Follows total s
      → s.behind ≡ false
      → s.untold ≡ []
      → s.cursor ≡ length s.sent
      → bits total s ≡ s.have
  caught_up s f up told read =
      same_bits (bits total s) s.have (f.sized up ∙ sym f.size)
        (λ p h. get_or_of_get_elem? s.have p false (f.sound p h))
        (λ p h. known p (f.complete up p (true_at s.have p h)))
    where
      known : (p : ℕ) → IsOnTheWay total s p → get_or (bits total s) p false ≡ true
      known p (inl h) = h
      known p (inr (inl (i, h))) = absurd (cc (subst (λ l. get_elem? l i ≡ some p) told h))
      known p (inr (inr (i, ge, h))) = absurd (omega (arith, lt-length_of_get_elem? s.sent i h))

  drain-caught_up :
      (n : ℕ) (s : Subscription)
      → Follows total s
      → s.behind ≡ false
      → s.untold ≡ []
      → length s.sent ≤ s.cursor + n
      → bits total (drain n s) ≡ s.have
  unfolding drain
  drain-caught_up zero s f up told left = caught_up s f up told (omega (arith, f.within))
  drain-caught_up (suc n) s f up told left = elim (Option-cases (get_elem? s.sent s.cursor)) [
    | inl nothing ↦
        let e : round s ≡ s = rw up (rw nothing refl) in
        subst (λ x. bits total (drain n x) ≡ s.have) (sym e)
          (drain-caught_up n s f up told
            (omega (arith, length-le_of_get_elem? s.sent s.cursor nothing)))
    | inr (index, at) ↦
        let e : round s
            ≡ write (record s { cursor = s.cursor + 1 }) (message s.have (received index)) =
          rw up (rw at refl) in
        subst (λ x. bits total (drain n x) ≡ s.have) (sym e)
          (drain-caught_up n
            (write (record s { cursor = s.cursor + 1 }) (message s.have (received index)))
            (next-Follows total s index up at f) up told (omega arith))
  ]

-- Take a share of at most 2 ^ 32 pieces and a subscription to it that starts when the seeder has
-- every piece that is about to be announced. After any interleaving of the tasks that mark and
-- announce pieces with the subscription, which may fall behind, the frames that were written
-- never tell the peer of a piece that the seeder lacks. If no snapshot is due, every piece that
-- the seeder has is known to the peer, or its number is on the channel, unread, or about to be
-- sent.
pub Steps-sound :
    (have : List Bool) (untold sent : List ℕ) (t : Subscription)
    → length have ≤ 2 ^ 32
    → ((i p : ℕ) → get_elem? untold i ≡ some p → get_elem? have p ≡ some true)
    → Steps (subscribe have untold sent) t
    → ((p : ℕ) → get_or (bits (length have) t) p false ≡ true → get_elem? t.have p ≡ some true)
      × (t.behind ≡ false → (p : ℕ) → get_elem? t.have p ≡ some true → IsOnTheWay (length have) t p)
Steps-sound have untold sent t small had r =
    let f =
      Steps-Follows (length have) small r
        (subscribe-Follows (length have) have untold sent refl had) in
    (f.sound, f.complete)

-- When all marked pieces are announced, reading what is left shows the peer exactly the seeder's bits.
pub drain-view :
    (have : List Bool) (untold sent : List ℕ) (t : Subscription)
    → length have ≤ 2 ^ 32
    → ((i p : ℕ) → get_elem? untold i ≡ some p → get_elem? have p ≡ some true)
    → Steps (subscribe have untold sent) t
    → t.untold ≡ []
    → view (length have) [] (drain (suc (length t.sent)) t).frames ≡ t.have
unfolding drain
drain-view have untold sent t small had r told =
    let f =
      Steps-Follows (length have) small r
        (subscribe-Follows (length have) have untold sent refl had) in
    elim (Bool-cases t.behind) [
      | inl b ↦
          subst (λ x. bits (length have) (drain (length t.sent) x) ≡ t.have) (sym (rw b refl))
            (drain-caught_up (length have) (length t.sent)
              (write (record t { behind = false }) (message t.have lagged))
              (snapshot-Follows (length have) t b f) refl told (omega arith))
      | inr up ↦ drain-caught_up (length have) (suc (length t.sent)) t f up told (omega arith)
    ]
