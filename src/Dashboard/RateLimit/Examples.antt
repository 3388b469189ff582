-- ===== src/Dashboard/RateLimit/Examples.antt =====
-- The limiter of dashboard/internal/server/ratelimit.go on five calls, and the theorems on them.
use Prim.Native.Nat.{min}
use orkano.Prelude.{
  ℕ, ◌-◌, ◌≡◌, refl, Text, lit, text_eq, List, [], ◌∷◌, none, some, true, false, arith,
}
use orkano.Prelude.Maps.{lookup, insert, IsMap, retain}
use orkano.Dashboard.RateLimit.{RateLimiter, allow, calls, new_rate_limiter}
use orkano.Dashboard.RateLimit.Quota.{
  Answers, view, admitted_to, calls_by, allow_answers, quota_exact,
}

abbrev limiter : RateLimiter
limiter = record { max = 2; window = 60; counts = [] }

abbrev busy : RateLimiter
busy = record limiter { counts = (lit "a", record { count = 1; window_start = 0 }) ∷ [] }

abbrev later : List (Text × ℕ)
later = (lit "b", 10) ∷ (lit "a", 20) ∷ (lit "a", 30) ∷ []

limiter_empty : new_rate_limiter 2 60 ≡ limiter
unfolding new_rate_limiter
limiter_empty = refl

third_refused : (calls ((lit "a", 0) ∷ later) limiter).0 ≡ true ∷ true ∷ true ∷ false ∷ []
unfolding calls lookup insert retain text_eq allow
third_refused = refl

empty-IsMap : IsMap limiter.counts
unfolding lookup
empty-IsMap = λ j. omega arith

busy-IsMap : IsMap busy.counts
busy-IsMap = λ j. ground arith

busy_a : lookup (lit "a") busy.counts ≡ some (record { count = 1; window_start = 0 })
unfolding lookup text_eq
busy_a = refl

no_window : view limiter 0 (lit "a") ≡ none
unfolding lookup
no_window = refl

allow_answers_example :
    Answers (lit "b") 10 busy (view busy 10 (lit "b")) (view busy 10) (allow (lit "b") 10 busy)
allow_answers_example = allow_answers (lit "b") 10 busy busy-IsMap

quota_exact_example :
    admitted_to (lit "a") later (calls later busy).0 ≡ min (calls_by (lit "a") later) (2 - 1)
quota_exact_example =
    quota_exact (lit "a") later busy (record { count = 1; window_start = 0 }) busy-IsMap busy_a
      (omega arith, (omega arith, (omega arith, tt)))

called :
    lookup (lit "b") (allow (lit "b") 10 busy).1.counts
    ≡ some (record { count = 1; window_start = 10 })
unfolding allow lookup insert retain text_eq
called = refl
