-- ===== src/Dashboard/Auth/Sessions.antt =====
-- dashboard/internal/server/session.go: sessions, and the gates that ask for one.
use orkano.Prelude.{
  ℕ, ◌+◌, ◌*◌, Text, lit, is_empty, List, [], Option, none, some, Bool, false, not, ◌||◌, ltb,
  if◌then◌else◌, is_some,
}
use orkano.Dashboard.RateLimit.{second}
use orkano.Dashboard.Auth.{
  User, Session, Db, Crypto, Call, Env, confirmed, get_session_row, update_session, insert_session,
  user_by_id,
}

abbrev pub session_ttl : ℕ
session_ttl = 12 * 3600 * second

abbrev pub step_up_freshness : ℕ
step_up_freshness = 300 * second

pub data Cookie : Type 0 where
  set_session set_challenge : Text → Cookie
  clear_session clear_challenge : Cookie

-- A status, the error code or the state in the body, and the cookies.
pub record Reply : Type 0 where
  pub status : ℕ
  pub code : Text
  pub cookies : List Cookie

abbrev pub refuse : ℕ → Text → Reply
refuse status code = record { status = status; code = code; cookies = [] }

module _ (c : Crypto) where
  -- `mintSession`: the raw token, whose hash alone is stored.
  unfoldable pub mint_session : Env → ℕ → Db → Option (Text × Db)
  unfolding insert_session
  mint_session env user_id db = elim env.session_token [
    | none ↦ none
    | some raw ↦
        let row : Session = record {
          token_hash = c.sha256_hex raw;
          user_id = user_id;
          expires_at = env.now + session_ttl;
          last_used_at = env.db_now;
          reauth_at = none;
        } in
        if env.down Call.create_session
        then none
        else elim (insert_session row db) [ none ↦ none | some db' ↦ some (raw, db') ]
  ]

  abbrev pub touched : Env → Text → Db → Db
  touched env hash db = if env.down Call.touch_session then db else record db {
    sessions = update_session hash (λ s. record s { last_used_at = env.db_now }) db.sessions;
  }

  -- A confirmed admin, or an identity that is linked to the provider.
  abbrev pub admissible : User → Bool
  admissible u = confirmed u || is_some u.oidc_subject

  abbrev pub session_row : Env → Db → Option Session
  session_row env db =
      if is_empty env.session_cookie || env.down Call.get_session
      then none
      else get_session_row env.db_now (c.sha256_hex env.session_cookie) db

  unfoldable pub resolve_session : Env → Db → Option (User × Session) × Db
  unfolding get_session_row user_by_id
  resolve_session env db = elim (session_row env db) [
    | none ↦ (none, db)
    | some s ↦ elim (user_by_id env s.user_id db) [
      | none ↦ (none, db)
      | some u ↦
          if admissible u
          then (some (u, s), touched env (c.sha256_hex env.session_cookie) db)
          else (none, db)
    ]
  ]

  -- `RequireSession`, around a handler of the user.
  unfoldable pub require_session : Env → (User → Db → Reply × Db) → Db → Reply × Db
  unfolding resolve_session
  require_session env next db =
      let (found, db') = resolve_session env db in
      elim found [ none ↦ (refuse 401 (lit "unauthorized"), db') | some (u, _) ↦ next u db' ]

  abbrev pub fresh : Env → Session → Bool
  fresh env s = elim s.reauth_at [
    | none ↦ false
    | some t ↦ not (ltb (t + step_up_freshness) env.now)
  ]

  -- `RequireStepUp`: the second factor was proved again a short while ago.
  unfoldable pub require_step_up : Env → (User → Db → Reply × Db) → Db → Reply × Db
  unfolding resolve_session
  require_step_up env next db =
      let (found, db') = resolve_session env db in
      elim found [
        | none ↦ (refuse 401 (lit "unauthorized"), db')
        | some (u, s) ↦
            if fresh env s then next u db' else (refuse 403 (lit "step_up_required"), db')
      ]
