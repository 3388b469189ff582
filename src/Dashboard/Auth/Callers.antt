-- ===== src/Dashboard/Auth/Callers.antt =====
-- dashboard/internal/server/auth.go: what a caller with a session asks for, the logout and the step-up.
use orkano.Prelude.{
  Text, lit, is_empty, [], ◌∷◌, Option, none, some, Bool, not, ◌&&◌, ◌||◌, if◌then◌else◌, is_some,
}
use orkano.Dashboard.Auth.{
  User, Db, Crypto, Call, Env, update_session, delete_session_row, audit, user_by_id,
}
use orkano.Dashboard.Auth.Sessions.{Reply, clear_session, refuse}
use orkano.Dashboard.Auth.Signing.{invalid_request, invalid_credentials, internal_error}

pub record StepUpRequest : Type 0 where
  pub password : Text
  pub code : Text

module _ (c : Crypto) where
  -- Behind `require_session`.
  unfoldable pub handle_logout : Env → User → Db → Reply × Db
  unfolding delete_session_row audit
  handle_logout env u db =
      let db' =
        if is_empty env.session_cookie || env.down Call.delete_session
        then db
        else delete_session_row (c.sha256_hex env.session_cookie) db in
      (
        record { status = 204; code = []; cookies = clear_session ∷ [] },
        audit env u.username (lit "auth.logout") u.username (lit "success") db',
      )

  abbrev pub log_step_up : Env → User → Text → Db → Db
  log_step_up env u outcome db = audit env u.username (lit "auth.stepup") u.username outcome db

  abbrev pub reauthed : Env → Db → Db
  reauthed env db = record db {
    sessions =
        update_session (c.sha256_hex env.session_cookie)
          (λ s. record s { reauth_at = some env.db_now }) db.sessions;
  }

  abbrev pub proves_again : Env → StepUpRequest → User → Text → Bool
  proves_again env b u secret =
      c.validate_totp env.now secret b.code
      && (is_empty b.password || c.compare_password u.password_hash b.password)

  -- Behind `require_session`.
  unfoldable pub handle_step_up : Env → Option StepUpRequest → User → Db → Reply × Db
  unfolding user_by_id update_session audit
  handle_step_up env body u db =
      if is_some u.oidc_subject then (refuse 400 (lit "oidc_stepup_required"), db) else elim body [
        | none ↦ (invalid_request, db)
        | some b ↦ elim (user_by_id env u.id db) [
          | none ↦ (internal_error, db)
          | some full ↦ elim (c.unseal full.totp_secret) [
            | none ↦ (internal_error, db)
            | some secret ↦
                if not (proves_again env b full secret)
                then (invalid_credentials, log_step_up env u (lit "failure") db)
                else if is_empty env.session_cookie
                then (refuse 204 [], log_step_up env u (lit "success") db)
                else if env.down Call.mark_reauth
                then (internal_error, log_step_up env u (lit "failure") db)
                else (refuse 204 [], log_step_up env u (lit "success") (reauthed env db))
          ]
        ]
      ]
