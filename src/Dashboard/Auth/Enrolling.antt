-- ===== src/Dashboard/Auth/Enrolling.antt =====
-- The rest of dashboard/internal/server/auth.go: the status, and the first admin's enrolment with the
-- install token. `create_admin` is the transaction of CreateAdmin in dashboard/internal/server/store.go;
-- deleting a user deletes its sessions and codes.
use orkano.Prelude.{
  ℕ, ◌+◌, ◌*◌, Text, lit, text_eq, is_empty, List, [], ◌∷◌, ◌++◌, map, Option, none, some, Bool,
  true, not, ◌&&◌, ◌||◌, ltb, ◌==◌, if◌then◌else◌, select, any_of, is_some, length,
}
use orkano.Dashboard.RateLimit.{second}
use orkano.Dashboard.Auth.{
  User, RecoveryCode, Db, Crypto, Call, Env, confirmed, find_user, confirmed_admins, audit,
  user_by_id, confirm_user_totp,
}
use orkano.Dashboard.Auth.Sessions.{Reply, set_challenge, refuse, resolve_session}
use orkano.Dashboard.Auth.Signing.{
  invalid_request, internal_error, stage_enroll, sealed_challenge, read_challenge, sign_in,
}

abbrev pub min_password_length : ℕ
min_password_length = 12

abbrev pub enroll_challenge_ttl : ℕ
enroll_challenge_ttl = 600 * second

-- `ValidatePasswordPolicy`: bcrypt ignores what is beyond 72 bytes.
abbrev pub password_accepted : Text → Bool
password_accepted plain =
    not (ltb (length plain) min_password_length) && not (ltb 72 (length plain))

pub record RedeemRequest : Type 0 where
  pub token : Text
  pub username : Text
  pub password : Text

abbrev pub is_lasting : User → Bool
is_lasting u = confirmed u || is_some u.oidc_subject

abbrev pub new_admin : ℕ → Text → Text → Text → User
new_admin id name hashed sealed = record {
  id = id;
  username = name;
  password_hash = hashed;
  totp_secret = sealed;
  totp_confirmed_at = none;
  failed_logins = 0;
  locked_until = none;
  oidc_subject = none;
}

abbrev pub new_code : ℕ → Text → RecoveryCode
new_code id hash = record { user_id = id; code_hash = hash; used_at = none }

unfoldable pub all_different : List Text → Bool
all_different [] = true
all_different (h ∷ hs) = not (any_of (text_eq h) hs) && all_different hs

-- All or nothing: a name that is taken, or a code that is drawn twice, rolls everything back.
unfoldable pub create_admin : (Text → Text) → User → List Text → Db → Option Db
unfolding find_user all_different
create_admin lower u hashes db =
    let kept = select is_lasting db.users in
    if any_of (λ v. text_eq (lower v.username) (lower u.username)) kept
      || not (all_different hashes)
    then none
    else some (record db {
      users = u ∷ kept;
      sessions = select (λ s. is_some (find_user s.user_id kept)) db.sessions;
      codes =
          map (new_code u.id) hashes ++ select (λ k. is_some (find_user k.user_id kept)) db.codes;
      next_id = db.next_id + 1;
    })

module _ (c : Crypto) where
  -- `handleAuthStatus`; `none` is a count that failed.
  unfoldable pub handle_auth_status : Env → Db → Reply × Db
  unfolding resolve_session
  handle_auth_status env db =
      let (found, db') = resolve_session c env db in
      let answer : Reply = elim found [
        | some _ ↦ refuse 200 (lit "authenticated")
        | none ↦
            if env.down Call.count_admins
            then refuse 503 (lit "unavailable")
            else refuse 200
                (if confirmed_admins db == 0 then lit "needs_bootstrap" else lit "needs_login")
      ] in
      (answer, db')

  abbrev pub log_redeem : Env → Text → Text → Text → Db → Db
  log_redeem env actor target outcome db =
      audit env actor (lit "bootstrap.redeem") target outcome db

  -- The account of a token that was right: the admin, unconfirmed, with the hashes of its codes.
  unfoldable pub enroll : Env → RedeemRequest → Db → Reply × Db
  unfolding create_admin audit
  enroll env b db = elim (env.password_hash b.password) [
    | none ↦ (internal_error, db)
    | some hashed ↦ elim env.totp_secret [
      | none ↦ (internal_error, db)
      | some secret ↦ elim (env.seal secret) [
        | none ↦ (internal_error, db)
        | some sealed ↦ elim env.recovery_codes [
          | none ↦ (internal_error, db)
          | some hashes ↦
              let u = new_admin db.next_id b.username hashed sealed in
              let made = create_admin c.lower u hashes db in
              elim (if env.down Call.create_admin then none else made) [
                | none ↦ (internal_error, db)
                | some db' ↦ elim (sealed_challenge c env u.id stage_enroll enroll_challenge_ttl) [
                  | none ↦ (internal_error, db')
                  | some cookie ↦ (
                    record { status = 200; code = []; cookies = set_challenge cookie ∷ [] },
                    log_redeem env b.username b.username (lit "success") db',
                  )
                ]
              ]
        ]
      ]
    ]
  ]

  -- `handleRedeem`, with the hash of the install token.
  unfoldable pub handle_redeem : Text → Env → Option RedeemRequest → Db → Reply × Db
  unfolding enroll audit
  handle_redeem token_hash env none db = (invalid_request, db)
  handle_redeem token_hash env (some b) db =
      if env.down Call.count_admins
      then (refuse 503 (lit "unavailable"), db)
      else if not (confirmed_admins db == 0)
      then (refuse 409 (lit "already_bootstrapped"), log_redeem env [] [] (lit "failure") db)
      else if is_empty b.username || ltb 254 (length b.username)
      then (refuse 400 (lit "invalid_username"), db)
      else if not (password_accepted b.password)
      then (refuse 400 (lit "weak_password"), db)
      else if not (text_eq (c.sha256_hex b.token) token_hash)
      then (refuse 401 (lit "invalid_token"), log_redeem env [] b.username (lit "failure") db)
      else enroll env b db

  abbrev pub log_confirm : Env → Text → Text → Db → Db
  log_confirm env name outcome db = audit env name (lit "bootstrap.confirm_totp") name outcome db

  unfoldable pub handle_confirm_totp : Env → Option Text → Db → Reply × Db
  unfolding read_challenge user_by_id confirm_user_totp sign_in audit
  handle_confirm_totp env none db = (invalid_request, db)
  handle_confirm_totp env (some code) db = elim (read_challenge c env stage_enroll) [
    | none ↦ (refuse 401 (lit "no_challenge"), db)
    | some ch ↦ elim (user_by_id env ch.uid db) [
      | none ↦ (refuse 401 (lit "unauthorized"), log_confirm env [] (lit "failure") db)
      | some u ↦
          if confirmed u
          then (refuse 401 (lit "unauthorized"), log_confirm env u.username (lit "failure") db)
          else elim (c.unseal u.totp_secret) [
            | none ↦ (internal_error, db)
            | some secret ↦
                if not (c.validate_totp env.now secret code)
                then (
                  refuse 401 (lit "invalid_code"),
                  log_confirm env u.username (lit "failure") db,
                )
                else if env.down Call.confirm_totp
                then (internal_error, db)
                else elim (confirm_user_totp env.db_now u.id db) [
                  | none ↦ (
                    refuse 409 (lit "already_bootstrapped"),
                    log_confirm env u.username (lit "failure") db,
                  )
                  | some db' ↦ sign_in c env (log_confirm env u.username) u db'
                ]
          ]
    ]
  ]
