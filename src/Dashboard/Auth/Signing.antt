-- ===== src/Dashboard/Auth/Signing.antt =====
-- dashboard/internal/server/auth.go: the login in two factors, the logout and the step-up. A request's
-- body is `none` where `decodeJSON` refuses it.
use orkano.Prelude.{
  ℕ, ◌+◌, ◌-◌, ◌*◌, ◌/◌, Text, lit, text_eq, is_empty, [], ◌∷◌, map, Option, none, some, Bool,
  false, not, ◌&&◌, ◌||◌, ltb, leb, ◌==◌, if◌then◌else◌, select, is_some,
}
use orkano.Dashboard.RateLimit.{second}
use orkano.Dashboard.Auth.{
  User, Db, Crypto, Challenge, Call, Env, confirmed, find_username, update_user,
  consume_recovery_code, audit, user_by_id,
}
use orkano.Dashboard.Auth.Sessions.{
  Reply, set_session, set_challenge, clear_challenge, refuse, mint_session,
}

abbrev pub max_failed_logins : ℕ
max_failed_logins = 5

abbrev pub lockout_window : ℕ
lockout_window = 900 * second

abbrev pub totp_challenge_ttl : ℕ
totp_challenge_ttl = 300 * second

abbrev pub stage_enroll : Text
stage_enroll = lit "enroll"

abbrev pub stage_totp : Text
stage_totp = lit "totp"

-- `normalizeRecoveryCode`, on the bytes; upper case is that of ASCII, in which codes are drawn.
abbrev is_separator : ℕ → Bool
is_separator b = b == 45 || b == 32 || b == 9 || b == 10 || b == 13

abbrev to_upper : ℕ → ℕ
to_upper b = if leb 97 b && leb b 122 then b - 32 else b

unfoldable pub normalize_recovery_code : Text → Text
normalize_recovery_code code = map to_upper (select (λ b. not (is_separator b)) code)

pub record LoginRequest : Type 0 where
  pub username : Text
  pub password : Text

pub record LoginTotpRequest : Type 0 where
  pub code : Text
  pub recovery_code : Text

abbrev pub locked : Env → User → Bool
locked env u = elim u.locked_until [ none ↦ false | some t ↦ ltb env.now t ]

-- `IncrementFailedLogins`, which returns the new count, and `LockUser` from the threshold on.
unfoldable pub count_failure : Env → User → User
count_failure env u =
    let counted : User = record u { failed_logins = u.failed_logins + 1 } in
    if leb max_failed_logins (u.failed_logins + 1) && not (env.down Call.lock)
    then record counted { locked_until = some (env.now + lockout_window) }
    else counted

unfoldable pub record_failed_login : Env → ℕ → Db → Db
unfolding count_failure update_user
record_failed_login env id db =
    if env.down Call.increment_failed
    then db
    else record db { users = update_user id (count_failure env) db.users }

unfoldable pub reset_failed_logins : Env → ℕ → Db → Db
unfolding update_user
reset_failed_logins env id db = if env.down Call.reset_failed then db else record db {
  users = update_user id (λ u. record u { failed_logins = 0; locked_until = none }) db.users;
}

abbrev pub invalid_request : Reply
invalid_request = refuse 400 (lit "invalid_request")

abbrev pub invalid_credentials : Reply
invalid_credentials = refuse 401 (lit "invalid_credentials")

abbrev pub internal_error : Reply
internal_error = refuse 500 (lit "internal_error")

module _ (c : Crypto) where
  unfoldable pub hash_recovery_code : Text → Text
  unfolding normalize_recovery_code
  hash_recovery_code code = c.sha256_hex (normalize_recovery_code code)

  -- `setChallengeCookie`: the sealed challenge, where it could be sealed.
  abbrev pub sealed_challenge : Env → ℕ → Text → ℕ → Option Text
  sealed_challenge env uid stage ttl =
      env.seal (c.encode (record { uid = uid; stage = stage; expires = (env.now + ttl) / second }))

  abbrev pub in_time : Env → Text → Challenge → Bool
  in_time env stage ch = text_eq ch.stage stage && ltb (env.now / second) ch.expires

  unfoldable pub read_challenge : Env → Text → Option Challenge
  read_challenge env stage =
      if is_empty env.challenge_cookie then none else elim (c.unseal env.challenge_cookie) [
        | none ↦ none
        | some plain ↦ elim (c.decode plain) [
          | none ↦ none
          | some ch ↦ if in_time env stage ch then some ch else none
        ]
      ]

  abbrev pub log_login : Env → Text → Text → Db → Db
  log_login env name outcome db = audit env name (lit "auth.login") name outcome db

  -- The first factor of a user that may log in with a password.
  unfoldable pub first_factor : Env → LoginRequest → User → Db → Reply × Db
  unfolding record_failed_login audit
  first_factor env b u db =
      let right = c.compare_password u.password_hash b.password in
      if not right || not (confirmed u)
      then (
        invalid_credentials,
        log_login env u.username (lit "failure")
            (if confirmed u && not right then record_failed_login env u.id db else db),
      )
      else elim (sealed_challenge env u.id stage_totp totp_challenge_ttl) [
        | none ↦ (internal_error, db)
        | some sealed ↦ (
          record { status = 200; code = lit "totp_required"; cookies = set_challenge sealed ∷ [] },
          log_login env u.username (lit "success") db,
        )
      ]

  unfoldable pub handle_login : Env → Option LoginRequest → Db → Reply × Db
  unfolding find_username first_factor audit
  handle_login env none db = (invalid_request, db)
  handle_login env (some b) db =
      elim (if env.down Call.get_user_by_username
        then none
        else find_username c.lower b.username db.users) [
          | none ↦ (invalid_credentials, log_login env b.username (lit "failure") db)
          | some u ↦
              if is_some u.oidc_subject
              then (invalid_credentials, log_login env u.username (lit "failure") db)
              else if locked env u
              then (refuse 423 (lit "account_locked"), log_login env u.username (lit "locked") db)
              else first_factor env b u db
        ]

  abbrev pub totp_ok : Env → Text → Text → Bool
  totp_ok env sealed code = elim (c.unseal sealed) [
    | none ↦ false
    | some secret ↦ c.validate_totp env.now secret code
  ]

  -- `secondFactorOK`: a code of the authenticator, or a recovery code, which is spent.
  unfoldable pub second_factor : Env → LoginTotpRequest → User → Db → Option Db
  unfolding consume_recovery_code hash_recovery_code
  second_factor env b u db =
      if not (is_empty b.code)
      then (if totp_ok env u.totp_secret b.code then some db else none)
      else if is_empty b.recovery_code || env.down Call.consume_code
      then none
      else consume_recovery_code env.db_now u.id (hash_recovery_code b.recovery_code) db

  abbrev pub log_totp : Env → User → Text → Db → Db
  log_totp env u outcome db = audit env u.username (lit "auth.login_totp") u.username outcome db

  -- Both factors are proved: a session.
  unfoldable pub sign_in : Env → (Text → Db → Db) → User → Db → Reply × Db
  unfolding mint_session
  sign_in env log u db = elim (mint_session c env u.id db) [
    | none ↦ (record internal_error { cookies = clear_challenge ∷ [] }, db)
    | some (raw, db') ↦ (
      record {
        status = 200;
        code = lit "authenticated";
        cookies = clear_challenge ∷ set_session raw ∷ [];
      },
      log (lit "success") db',
    )
  ]

  unfoldable pub handle_login_totp : Env → Option LoginTotpRequest → Db → Reply × Db
  unfolding read_challenge user_by_id second_factor record_failed_login reset_failed_logins sign_in
      audit
  handle_login_totp env none db = (invalid_request, db)
  handle_login_totp env (some b) db = elim (read_challenge env stage_totp) [
    | none ↦ (refuse 401 (lit "no_challenge"), db)
    | some ch ↦ elim (user_by_id env ch.uid db) [
      | none ↦ (refuse 401 (lit "unauthorized"), db)
      | some u ↦
          if not (confirmed u)
          then (refuse 401 (lit "unauthorized"), db)
          else elim (second_factor env b u db) [
            | none ↦ (
              invalid_credentials,
              log_totp env u (lit "failure") (record_failed_login env u.id db),
            )
            | some db' ↦ sign_in env (log_totp env u) u (reset_failed_logins env u.id db')
          ]
    ]
  ]
