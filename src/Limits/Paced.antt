-- ===== src/Limits/Paced.antt =====
-- How fast the callers of limits.rs (crates/chorrent/src) get on.
use chorrent.Common.{
  ℕ, ◌+◌, ◌-◌, ◌*◌, ◌≤◌, ◌≡◌, refl, ◌∙◌, sym, ap, List, [], ◌∷◌, arith, max, min, ◌++◌,
}
use mathlib.Core.Path.{subst}
use native.Mathlib.Nat.{add-mul}
use chorrent.Limits.{second, RateLimiter, new, acquire}

-- Calls with the bytes that they ask for, each at its moment.
unfoldable pub acquire_all : RateLimiter → List (ℕ × ℕ) → RateLimiter
acquire_all l [] = l
acquire_all l ((bytes, now) ∷ calls) = acquire_all (acquire l bytes now).0 calls

abbrev pub asked : List (ℕ × ℕ) → ℕ
asked [] = 0
asked ((bytes, now) ∷ calls) = bytes + asked calls

abbrev pub AreOrdered : ℕ → List (ℕ × ℕ) → Type 0
AreOrdered last [] = Unit
AreOrdered last ((bytes, now) ∷ calls) = (last ≤ now) × AreOrdered now calls

-- What a limiter that becomes another has let through, against the time.
abbrev Paced : RateLimiter → RateLimiter → ℕ → Type 0
Paced l l' units =
    (l'.bytes_per_sec ≡ l.bytes_per_sec)
    × (l.last ≤ l'.last)
    × (units + l'.tokens + l.debt ≤ l.tokens + (l'.last - l.last) * l.bytes_per_sec + l'.debt)

acquire-Paced :
    (l : RateLimiter) (bytes now : ℕ)
    → l.last ≤ now
    → Paced l (acquire l bytes now).0 (bytes * second)
unfolding acquire
acquire-Paced l bytes now le =
    (refl, le, paced ((now - l.last) * l.bytes_per_sec) (l.bytes_per_sec * second) (bytes * second))
  where
    paced :
        (gained cap units : ℕ)
        → units + (min (l.tokens + gained - l.debt) cap - units) + l.debt
          ≤ l.tokens
            + gained
            + (l.debt - (l.tokens + gained) + (units - min (l.tokens + gained - l.debt) cap))
    paced gained cap units = ground arith

spans : (a b c r : ℕ) → a ≤ b → b ≤ c → (b - a) * r + (c - b) * r ≡ (c - a) * r
spans a b c r h k = sym (add-mul (b - a) (c - b) r) ∙ ap (λ (t : ℕ). t * r) (omega arith)

acquire_all-Paced :
    (l : RateLimiter) (calls : List (ℕ × ℕ))
    → AreOrdered l.last calls
    → Paced l (acquire_all l calls) (asked calls * second)
unfolding acquire_all acquire
acquire_all-Paced l [] h = (refl, omega arith, omega arith)
acquire_all-Paced l ((bytes, now) ∷ calls) (le, h) =
    let l1 = (acquire l bytes now).0 in
    let (rate, first, p) = acquire-Paced l bytes now le in
    let (rate', later, p') = acquire_all-Paced l1 calls h in
    let l' = acquire_all l1 calls in
    let spent = spans l.last now l'.last l.bytes_per_sec le later in
    (rate', omega arith, omega (arith, p, p', spent, add-mul bytes (asked calls) second))

-- The bucket never holds more than a second's worth.
abbrev IsCapped : RateLimiter → ℕ → Type 0
IsCapped l rate = (l.bytes_per_sec ≡ rate) × (l.tokens ≤ rate * second)

acquire_all-IsCapped :
    (l : RateLimiter) (rate : ℕ) (calls : List (ℕ × ℕ))
    → IsCapped l rate
    → IsCapped (acquire_all l calls) rate
unfolding acquire_all acquire
acquire_all-IsCapped l rate [] h = h
acquire_all-IsCapped l rate ((bytes, now) ∷ calls) (same, h) =
    acquire_all-IsCapped (acquire l bytes now).0 rate calls (
      same,
      subst
          (λ (r : ℕ).
            min (l.tokens + (now - l.last) * r - l.debt) (r * second) - bytes * second
            ≤ rate * second)
          (sym same) (omega arith),
    )

ordered_after :
    (l : RateLimiter) (before calls : List (ℕ × ℕ))
    → AreOrdered l.last (before ++ calls)
    → AreOrdered (acquire_all l before).last calls
unfolding acquire_all acquire
ordered_after l [] calls h = h
ordered_after l ((bytes, now) ∷ before) calls (le, h) =
    ordered_after (acquire l bytes now).0 before calls h

-- However many callers ask at whatever moments in order, after any calls before, the bytes that
-- the further ones ask for, with the debt that was there, are at most one second's worth, what
-- the rate gives in the time from the last call before to the last call, and the debt that the
-- last call is made to wait for.
pub acquire_all-paced :
    (bytes_per_sec start : ℕ) (before calls : List (ℕ × ℕ))
    → AreOrdered start (before ++ calls)
    → let l = acquire_all (new bytes_per_sec start) before in
      asked calls * second + l.debt
      ≤ max bytes_per_sec 1 * second
        + ((acquire_all l calls).last - l.last) * max bytes_per_sec 1
        + (acquire_all l calls).debt
unfolding new
acquire_all-paced bytes_per_sec start before calls h =
    let first = new bytes_per_sec start in
    let l = acquire_all first before in
    let (same, capped) =
      acquire_all-IsCapped first (max bytes_per_sec 1) before (refl, omega arith) in
    let (rate, later, p) = acquire_all-Paced l calls (ordered_after first before calls h) in
    let spent = ap (λ (r : ℕ). ((acquire_all l calls).last - l.last) * r) same in
    omega (arith, p, capped, spent)
