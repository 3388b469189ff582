-- ===== src/Dashboard/RateLimit.antt =====
-- dashboard/internal/server/ratelimit.go: the fixed-window limiter of the auth endpoints. Times and
-- durations are nanoseconds; `now.Sub(start) >= window` is written as `start + window ≤ now`, which
-- is the same test where the clock stands before `start` too. The mutex makes a call atomic, so a
-- history of concurrent calls is a sequence of them.
pub mod Quota
mod Examples
use orkano.Prelude.{
  ℕ, ◌+◌, ◌*◌, Text, List, [], ◌∷◌, Option, none, some, Bool, true, false, not, leb, if◌then◌else◌,
}
use orkano.Prelude.Maps.{lookup, insert, retain}

pub record Window : Type 0 where
  pub count : ℕ
  pub window_start : ℕ

pub record RateLimiter : Type 0 where
  pub max : ℕ
  pub window : ℕ
  pub counts : List (Text × Window)

abbrev pub second : ℕ
second = 1_000_000_000

abbrev pub rate_limit_max : ℕ
rate_limit_max = 20

abbrev pub rate_limit_window : ℕ
rate_limit_window = 60 * second

unfoldable pub new_rate_limiter : ℕ → ℕ → RateLimiter
new_rate_limiter max window = record { max = max; window = window; counts = [] }

abbrev pub elapsed : RateLimiter → ℕ → Window → Bool
elapsed rl now w = leb (w.window_start + rl.window) now

abbrev pub live : RateLimiter → ℕ → Window → Bool
live rl now w = not (elapsed rl now w)

unfoldable pub evict_locked : ℕ → RateLimiter → RateLimiter
evict_locked now rl = record rl { counts = retain (live rl now) rl.counts }

-- `rl.counts[ip] = &rateWindow{count: 1, windowStart: now}`
abbrev pub open_window : Text → ℕ → RateLimiter → RateLimiter
open_window ip now rl = record rl {
  counts = insert ip (record { count = 1; window_start = now }) rl.counts;
}

-- `allow` behind its eviction, on the entry of the map; `w.count++` writes through the pointer.
unfoldable pub admit : Text → ℕ → Option Window → RateLimiter → Bool × RateLimiter
admit ip now none rl = (true, open_window ip now rl)
admit ip now (some w) rl =
    if elapsed rl now w
    then (true, open_window ip now rl)
    else if leb rl.max w.count
    then (false, rl)
    else (true, record rl { counts = insert ip (record w { count = w.count + 1 }) rl.counts })

unfoldable pub allow : Text → ℕ → RateLimiter → Bool × RateLimiter
unfolding admit evict_locked
allow ip now rl = let kept = evict_locked now rl in admit ip now (lookup ip kept.counts) kept

-- A history of calls, each an address and a time, with the answers.
unfoldable pub calls : List (Text × ℕ) → RateLimiter → List Bool × RateLimiter
calls [] rl = ([], rl)
calls ((ip, now) ∷ es) rl =
    let (admitted, rl') = allow ip now rl in
    let (answers, final) = calls es rl' in (admitted ∷ answers, final)
