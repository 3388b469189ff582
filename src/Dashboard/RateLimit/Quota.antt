-- ===== src/Dashboard/RateLimit/Quota.antt =====
-- What the limiter of dashboard/internal/server/ratelimit.go promises.
use orkano.Prelude.{
  ℕ, ◌+◌, ◌<◌, ◌≡◌, refl, ap, ◌∙◌, sym, ◌-◌, Text, text_eq, text_eq_iff, text_eq_refl, List, [],
  ◌∷◌, Option, none, some, Bool, true, false, leb, if◌then◌else◌, All, arith, ◌&&◌, inl, inr,
  Bool-cases,
}
use Prim.Native.Nat.{min}
use mathlib.Core.Path.{subst}
use orkano.Prelude.Maps.{
  lookup, insert, lookup-insert, lookup-retain, IsMap, insert-IsMap, retain-IsMap, kept,
}
use orkano.Dashboard.RateLimit.{Window, RateLimiter, live, evict_locked, admit, allow, calls}

-- The window of an address that has not elapsed, which is all that a later call can see.
abbrev pub view : RateLimiter → ℕ → Text → Option Window
view rl now ip = kept (live rl now) (lookup ip rl.counts)

-- What a call answers and leaves for its address.
abbrev pub answer : ℕ → ℕ → Option Window → Bool × Window
answer max now none = (true, record { count = 1; window_start = now })
answer max now (some w) =
    if leb max w.count then (false, w) else (true, record w { count = w.count + 1 })

-- `o` is the outcome of a call by `ip` whose address had the window `v` and the others `old`.
pub record Answers (ip : Text) (now : ℕ) (rl : RateLimiter) (v : Option Window)
    (old : Text → Option Window) (o : Bool × RateLimiter) : Type 0 where
  pub admitted : o.0 ≡ (answer rl.max now v).0
  pub own : lookup ip o.1.counts ≡ some (answer rl.max now v).1
  pub others : (j : Text) → text_eq j ip ≡ false → lookup j o.1.counts ≡ old j
  pub same_max : o.1.max ≡ rl.max
  pub same_window : o.1.window ≡ rl.window
  pub is_map : IsMap o.1.counts

insert_own :
    (ip : Text) (w : Window) (m : List (Text × Window)) → lookup ip (insert ip w m) ≡ some w
insert_own ip w m = ground (arith, lookup-insert ip ip w m, text_eq_refl ip)

insert_others :
    (ip j : Text) (w : Window) (m : List (Text × Window))
    → text_eq j ip ≡ false
    → lookup j (insert ip w m) ≡ lookup j m
insert_others ip j w m n = ground (arith, lookup-insert ip j w m)

admit_Answers :
    (ip : Text) (now : ℕ) (rl : RateLimiter) (o : Option Window)
    → IsMap rl.counts
    → lookup ip rl.counts ≡ o
    → kept (live rl now) o ≡ o
    → Answers ip now rl o (λ j. lookup j rl.counts) (admit ip now o rl)
unfolding admit
admit_Answers ip now rl none h e k = record {
  admitted = refl;
  own = insert_own ip _ rl.counts;
  others = λ j n. insert_others ip j _ rl.counts n;
  same_max = refl;
  same_window = refl;
  is_map = insert-IsMap ip _ rl.counts h;
}
admit_Answers ip now rl (some w) h e k =
    let more : Window = record w { count = w.count + 1 } in
    record {
      admitted = ground arith;
      own = ground (arith, e, insert_own ip more rl.counts);
      others = λ j n. ground (arith, insert_others ip j more rl.counts n);
      same_max = ground arith;
      same_window = ground arith;
      is_map = λ j. ground (
        arith,
        h j,
        insert-IsMap ip more rl.counts h j,
        insert-IsMap ip (record { count = 1; window_start = now }) rl.counts h j,
      );
    }

kept-kept : (p : Window → Bool) (o : Option Window) → kept p (kept p o) ≡ kept p o
kept-kept p none = refl
kept-kept p (some w) = ground arith

-- A call depends on its own address's live window alone, and leaves the others' alone.
pub allow_answers :
    (ip : Text) (now : ℕ) (rl : RateLimiter)
    → IsMap rl.counts
    → Answers ip now rl (view rl now ip) (view rl now) (allow ip now rl)
unfolding allow
allow_answers ip now rl h =
    let still = retain-IsMap (live rl now) rl.counts h in
    let own = lookup-retain (live rl now) ip rl.counts h in
    let a =
      admit_Answers ip now (evict_locked now rl) (lookup ip (evict_locked now rl).counts) still refl
        (ground (arith, own, kept-kept (live rl now) (lookup ip rl.counts))) in
    record {
      admitted = a.admitted ∙ ap (λ o. (answer rl.max now o).0) own;
      own = a.own ∙ ap (λ o. some (answer rl.max now o).1) own;
      others = λ j n. a.others j n ∙ lookup-retain (live rl now) j rl.counts h;
      same_max = a.same_max;
      same_window = a.same_window;
      is_map = a.is_map;
    }

-- How many calls of a history are by an address, and how many of those were admitted.
abbrev pub calls_by : Text → List (Text × ℕ) → ℕ
calls_by ip [] = 0
calls_by ip ((j, now) ∷ es) = (if text_eq ip j then 1 else 0) + calls_by ip es

abbrev pub admitted_to : Text → List (Text × ℕ) → List Bool → ℕ
admitted_to ip ((j, now) ∷ es) (b ∷ bs) =
    (if text_eq ip j && b then 1 else 0) + admitted_to ip es bs
admitted_to ip _ _ = 0

abbrev pub Before : ℕ → List (Text × ℕ) → Type 0
Before t = All (λ (e : Text × ℕ). e.1 < t)

open_view :
    (ip j : Text) (now : ℕ) (rl : RateLimiter) (w : Window)
    → j ≡ ip
    → lookup ip rl.counts ≡ some w
    → now < w.window_start + rl.window
    → view rl now j ≡ some w
open_view ip j now rl w same e b = rw same (rw e (ground arith))

-- Whatever other addresses do, an address whose window is open gets what is left of its quota, and
-- no more, until the window has elapsed.
pub quota_exact :
    (ip : Text) (es : List (Text × ℕ)) (rl : RateLimiter) (w : Window)
    → IsMap rl.counts
    → lookup ip rl.counts ≡ some w
    → Before (w.window_start + rl.window) es
    → admitted_to ip es (calls es rl).0 ≡ min (calls_by ip es) (rl.max - w.count)
unfolding calls
quota_exact ip [] rl w h e b = omega arith
quota_exact ip ((j, now) ∷ es) rl w h e (b, bs) = elim (Bool-cases (text_eq ip j)) [
  | inl mine ↦
      let same : j ≡ ip = ground (arith, text_eq_iff ip j) in
      let a = allow_answers j now rl h in
      let seen : view rl now j ≡ some w = open_view ip j now rl w same e b in
      let w' : Window = (answer rl.max now (some w)).1 in
      let left : lookup ip (allow j now rl).1.counts ≡ some w' =
        ground (arith, a.own, seen, same) in
      let until : w.window_start + rl.window ≡ w'.window_start + (allow j now rl).1.window =
        ground (arith, a.same_window) in
      let ih =
        quota_exact ip es (allow j now rl).1 w' a.is_map left (subst (λ t. Before t es) until bs) in
      ground (arith, mine, ih, a.admitted, a.same_max, seen)
  | inr other ↦
      let a = allow_answers j now rl h in
      let seen : view rl now ip ≡ some w = open_view ip ip now rl w refl e b in
      let ih =
        quota_exact ip es (allow j now rl).1 w a.is_map (a.others ip other ∙ seen)
          (subst (λ t. Before t es) (ap (λ t. w.window_start + t) (sym a.same_window)) bs) in
      ground (arith, other, ih, a.same_max)
]
