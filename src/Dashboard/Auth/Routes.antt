-- ===== src/Dashboard/Auth/Routes.antt =====
-- mountAuthRoutes of dashboard/internal/server/auth.go: which handler answers a request, and which of
-- them ask for a session. The rate limiter in front of them and the two OIDC routes are left out.
use orkano.Prelude.{Text, Option}
use orkano.Dashboard.Auth.{Db, Crypto, Env}
use orkano.Dashboard.Auth.Sessions.{Reply, require_session}
use orkano.Dashboard.Auth.Signing.{LoginRequest, LoginTotpRequest, handle_login, handle_login_totp}
use orkano.Dashboard.Auth.Callers.{StepUpRequest, handle_logout, handle_step_up}
use orkano.Dashboard.Auth.Enrolling.{
  RedeemRequest, handle_auth_status, handle_redeem, handle_confirm_totp,
}

pub data Request : Type 0 where
  auth_status logout : Request
  redeem : Option RedeemRequest → Request
  totp_confirm : Option Text → Request
  login : Option LoginRequest → Request
  login_totp : Option LoginTotpRequest → Request
  step_up : Option StepUpRequest → Request

unfoldable pub serve : Crypto → Text → Env → Request → Db → Reply × Db
unfolding handle_auth_status handle_redeem handle_confirm_totp handle_login handle_login_totp
    handle_logout handle_step_up require_session
serve c token_hash env auth_status db = handle_auth_status c env db
serve c token_hash env logout db = require_session c env (handle_logout c env) db
serve c token_hash env (redeem body) db = handle_redeem c token_hash env body db
serve c token_hash env (totp_confirm body) db = handle_confirm_totp c env body db
serve c token_hash env (login body) db = handle_login c env body db
serve c token_hash env (login_totp body) db = handle_login_totp c env body db
serve c token_hash env (step_up body) db = require_session c env (handle_step_up c env body) db
