-- ===== src/Limits/Tests.antt =====
-- The unit test of limits.rs (crates/chorrent/src), without the sleeps, and its theorem at a run.
use chorrent.Common.{ℕ, ◌+◌, ◌-◌, ◌*◌, ◌≤◌, ◌≡◌, refl, List, [], ◌∷◌, arith, max}
use chorrent.Limits.{second, new, acquire}
use chorrent.Limits.Paced.{acquire_all, asked, acquire_all-paced}

-- Four seconds' worth at once: the last caller waits for three seconds.
abbrev calls : List (ℕ × ℕ)
calls = (1000, 5) ∷ (1000, 5) ∷ (1000, 5) ∷ (1000, 5) ∷ []

paces_to_the_configured_rate : (acquire_all (new 1000 5) calls).debt ≡ 3 * second * 1000
unfolding acquire_all new acquire
paces_to_the_configured_rate = refl

-- A call, a long pause, and then a burst.
abbrev earlier : List (ℕ × ℕ)
earlier = (1000, 5) ∷ (1, 9000000005) ∷ []

abbrev burst : List (ℕ × ℕ)
burst = (1000, 9000000005) ∷ (1000, 9000000005) ∷ []

acquire_all-paced_example :
    let l = acquire_all (new 1000 5) earlier in
    asked burst * second + l.debt
    ≤ max 1000 1 * second
      + ((acquire_all l burst).last - l.last) * max 1000 1
      + (acquire_all l burst).debt
acquire_all-paced_example = acquire_all-paced 1000 5 earlier burst (omega arith)
