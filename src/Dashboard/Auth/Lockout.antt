-- ===== src/Dashboard/Auth/Lockout.antt =====
-- How many passwords can be tried on an account: the counter and the lock of dashboard/internal/server/auth.go.
use Prim.Native.Nat.{max}
use orkano.Prelude.{
  ℕ, ◌+◌, ◌-◌, ◌<◌, ◌≤◌, ◌≡◌, sym, ap, inl, inr, Text, text_eq, List, [], ◌∷◌, none, some, Bool,
  true, false, leb, ◌==◌, Bool-cases, arith, All, if◌then◌else◌,
}
use mathlib.Core.Path.{subst}
use orkano.Dashboard.Auth.{User, Db, Crypto, Call, Env, confirmed, find_username, update_user}
use orkano.Dashboard.Auth.Sessions.{Reply}
use orkano.Dashboard.Auth.Signing.{
  LoginRequest, max_failed_logins, lockout_window, count_failure, record_failed_login, locked,
  first_factor, handle_login,
}

-- The user that a query by name finds is the one that the failure is counted for.
find_username-update_user :
    (lower : Text → Text) (name : Text) (f : User → User) (us : List User) (u : User)
    → ((v : User) → (f v).username ≡ v.username)
    → find_username lower name us ≡ some u
    → find_username lower name (update_user u.id f us) ≡ some (f u)
unfolding find_username update_user
find_username-update_user lower name f [] u same e = ground arith
find_username-update_user lower name f (v ∷ us) u same e =
    elim (Bool-cases (text_eq (lower v.username) (lower name))) [
      | inl mine ↦
          let here : v ≡ u = ground (arith, e, mine) in
          rw here (
            ground (
              arith,
              same u,
              ap (λ (w : User). text_eq (lower w.username) (lower name)) (sym here),
              mine,
            ))
      | inr other ↦
          ground (arith, same v, e, other, find_username-update_user lower name f us u same)
    ]

-- Passwords that may still be tried before the account has been locked for a window from `t` on.
abbrev pub until : ℕ → User → Bool
until t u = elim u.locked_until [ none ↦ false | some end ↦ leb (t + lockout_window) end ]

abbrev pub allowance : ℕ → User → ℕ
allowance t u = if until t u then 0 else max 1 (max_failed_logins - u.failed_logins)

abbrev pub guess : Reply → ℕ
guess r = if r.status == 401 then 1 else 0

pub record Attempt (name : Text) (t : ℕ) (e : Env × LoginRequest) : Type 0 where
  pub named : e.1.username ≡ name
  pub from : t ≤ e.0.now
  pub within : e.0.now < t + lockout_window
  pub found : e.0.down Call.get_user_by_username ≡ false
  pub counts : e.0.down Call.increment_failed ≡ false
  pub locks : e.0.down Call.lock ≡ false

abbrev pub Local : User → Type 0
Local u = (u.oidc_subject ≡ none) × (confirmed u ≡ true)

module _ (c : Crypto) where
  -- The logins of a history, one after the other: how many were refused as a wrong password.
  unfoldable pub guesses : List (Env × LoginRequest) → Db → ℕ
  unfolding handle_login
  guesses [] db = 0
  guesses ((env, b) ∷ es) db =
      let (reply, db') = handle_login c env (some b) db in guess reply + guesses es db'

  record Tried (name : Text) (t : ℕ) (u : User) (o : Reply × Db) : Type 0 where
    after : User
    still : find_username c.lower name o.1.users ≡ some after
    local : Local after
    fewer : guess o.0 + allowance t after ≤ allowance t u

  first_factor-Tried :
      (name : Text) (t : ℕ) (u : User) (db : Db) (env : Env) (b : LoginRequest)
      → find_username c.lower name db.users ≡ some u
      → Local u
      → until t u ≡ false
      → Attempt name t (env, b)
      → Tried name t u (first_factor c env b u db)
  unfolding first_factor record_failed_login count_failure
  first_factor-Tried name t u db env b e own unlocked a =
      elim (Bool-cases (c.compare_password u.password_hash b.password)) [
        | inl right ↦ record {
          after = u;
          still = ground (arith, e, own.1, right);
          local = own;
          fewer = ground (arith, own.1, right);
        }
        | inr wrong ↦
            let goes : (first_factor c env b u db).1.users
                ≡ update_user u.id (count_failure env) db.users =
              ground (arith, own.1, wrong, a.counts) in
            record {
              after = count_failure env u;
              still = rw goes (
                  find_username-update_user c.lower name (count_failure env) db.users u
                    (λ v. ground arith) e);
              local = ground (arith, own.0, own.1);
              fewer = ground (arith, own.1, wrong, a.locks, a.from, unlocked);
            }
      ]

  handle_login-Tried :
      (name : Text) (t : ℕ) (u : User) (db : Db) (env : Env) (b : LoginRequest)
      → find_username c.lower name db.users ≡ some u
      → Local u
      → Attempt name t (env, b)
      → Tried name t u (handle_login c env (some b) db)
  unfolding handle_login
  handle_login-Tried name t u db env b e own a = elim (Bool-cases (locked env u)) [
    | inl closed ↦ record {
      after = u;
      still = ground (arith, a.found, a.named, e, own.0, closed);
      local = own;
      fewer = ground (arith, a.found, a.named, e, own.0, closed);
    }
    | inr usable ↦
        let goes : handle_login c env (some b) db ≡ first_factor c env b u db =
          ground (arith, a.found, a.named, e, own.0, usable) in
        let unlocked : until t u ≡ false = ground (arith, a.within, usable) in
        subst (Tried name t u) (sym goes) (first_factor-Tried name t u db env b e own unlocked a)
  ]

  -- Of consecutive first-factor logins that name a confirmed local account, within fifteen minutes and
  -- with no other request between them, while the lookup, the counter and the lock work: however many
  -- they are, at most those that are left of five failures are answered as a wrong password, one where
  -- none is left, and none where the account is locked until fifteen minutes from the start. Logins
  -- with the right password do not count, nor do they give new tries.
  pub guesses_bounded :
      (name : Text) (t : ℕ) (es : List (Env × LoginRequest)) (db : Db) (u : User)
      → find_username c.lower name db.users ≡ some u
      → Local u
      → All (Attempt name t) es
      → guesses es db ≤ allowance t u
  unfolding guesses
  guesses_bounded name t [] db u e own hs = omega arith
  guesses_bounded name t ((env, b) ∷ es) db u e own (a, hs) =
      let o = handle_login c env (some b) db in
      let r = handle_login-Tried name t u db env b e own a in
      ground (arith, r.fewer, guesses_bounded name t es o.1 r.after r.still r.local hs)
