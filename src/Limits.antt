-- ===== src/Limits.antt =====
-- limits.rs (crates/chorrent/src): the token bucket. A moment is its number of nanoseconds, and tokens
-- are counted in units of one byte over 10 ^ 9, so that a rate of bytes per second adds as many units
-- in a nanosecond. The floats of the code are taken without rounding; a debt is kept beside the tokens,
-- of which one at least is zero. A wait is the debt, to be divided by the rate.
pub mod Paced
pub mod Tests
use chorrent.Common.{ℕ, ◌+◌, ◌-◌, ◌*◌, List, [], ◌∷◌, ltb, max, min, if◌then◌else◌}

abbrev pub second : ℕ
second = 1000000000

-- `tokens` or `debt` is how far the bucket is above or below zero.
pub record RateLimiter : Type 0 where
  pub bytes_per_sec : ℕ
  pub tokens : ℕ
  pub debt : ℕ
  pub last : ℕ

unfoldable pub new : ℕ → ℕ → RateLimiter
new bytes_per_sec now = record {
  bytes_per_sec = max bytes_per_sec 1;
  tokens = max bytes_per_sec 1 * second;
  debt = 0;
  last = now;
}

-- What the time since the last call adds, a second's worth in all at most.
abbrev pub refilled : RateLimiter → ℕ → RateLimiter
refilled l now =
    let gained = l.tokens + (now - l.last) * l.bytes_per_sec in
    record l {
      tokens = min (gained - l.debt) (l.bytes_per_sec * second);
      debt = l.debt - gained;
      last = now;
    }

abbrev pub taken : RateLimiter → ℕ → RateLimiter
taken l units = record l { tokens = l.tokens - units; debt = l.debt + (units - l.tokens) }

-- `acquire` up to the sleep: the debt is what is waited for.
unfoldable pub acquire : RateLimiter → ℕ → ℕ → RateLimiter × ℕ
acquire l bytes now = let l' = taken (refilled l now) (bytes * second) in (l', l'.debt)
