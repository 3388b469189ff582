-- ===== src/Dashboard/Auth/Examples.antt =====
-- The routes of dashboard/internal/server/auth.go on one admin, and the theorems on them.
use orkano.Prelude.{◌≡◌, ◌≢◌, ◌≤◌, refl, lit, text_eq, List, [], ◌∷◌, none, some, false, arith, All}
use orkano.Dashboard.Auth.{User, Session, Db, Crypto, Challenge, Env, find_username}
use orkano.Dashboard.Auth.Sessions.{resolve_session}
use orkano.Dashboard.Auth.Signing.{
  LoginRequest, LoginTotpRequest, stage_totp, read_challenge, normalize_recovery_code,
  handle_login_totp,
}
use orkano.Dashboard.Auth.Routes.{logout, login_totp, serve}
use orkano.Dashboard.Auth.Earned.{Earned}
use orkano.Dashboard.Auth.Serving.{serve-Earned}
use orkano.Dashboard.Auth.Lockout.{guesses, allowance, Attempt, guesses_bounded}
use orkano.Dashboard.Auth.Spent.{recovery_code_once, logout_revokes}

-- Nothing is hashed or sealed, and each challenge is the admin's.
abbrev toy : Crypto
toy = record {
  sha256_hex = λ t. t;
  compare_password = text_eq;
  validate_totp = λ now secret code. text_eq secret code;
  unseal = λ t. some t;
  encode = λ ch. [];
  decode = λ t. some (record { uid = 1; stage = stage_totp; expires = 1000 });
  lower = λ t. t;
}

abbrev admin : User
admin = record {
  id = 1;
  username = lit "root";
  password_hash = lit "p";
  totp_secret = lit "s";
  totp_confirmed_at = some 5;
  failed_logins = 3;
  locked_until = none;
  oidc_subject = none;
}

abbrev browser : Session
browser = record {
  token_hash = lit "k";
  user_id = 1;
  expires_at = 900;
  last_used_at = 0;
  reauth_at = none;
}

abbrev tables : Db
tables = record {
  users = admin ∷ [];
  sessions = browser ∷ [];
  codes = record { user_id = 1; code_hash = lit "AB"; used_at = none } ∷ [];
  audit_log = [];
  next_id = 2;
}

abbrev visit : Env
visit = record {
  now = 10;
  db_now = 10;
  down = λ call. false;
  session_cookie = lit "k";
  challenge_cookie = lit "c";
  seal = λ t. some t;
  session_token = some (lit "new");
  password_hash = λ t. some t;
  totp_secret = some (lit "s");
  recovery_codes = some [];
}

abbrev typo : LoginRequest
typo = record { username = lit "root"; password = lit "x" }

abbrev tries : List (Env × LoginRequest)
tries = (visit, typo) ∷ (visit, typo) ∷ (visit, typo) ∷ []

abbrev lost_phone : LoginTotpRequest
lost_phone = record { code = []; recovery_code = lit "a-b" }

abbrev respelt : LoginTotpRequest
respelt = record { code = []; recovery_code = lit "AB" }

abbrev challenge : Challenge
challenge = record { uid = 1; stage = stage_totp; expires = 1000 }

found_admin : find_username toy.lower (lit "root") tables.users ≡ some admin
unfolding find_username text_eq
found_admin = refl

typed : Attempt (lit "root") 0 (visit, typo)
typed = record {
  named = refl;
  from = omega arith;
  within = omega arith;
  found = refl;
  counts = refl;
  locks = refl;
}

two_left : allowance 0 admin ≡ 2
two_left = refl

guesses_bounded_example : guesses toy tries tables ≤ allowance 0 admin
guesses_bounded_example =
    guesses_bounded toy (lit "root") 0 tries tables admin found_admin (refl, refl)
      (typed, (typed, (typed, tt)))

serve-Earned_example :
    All
      (Earned toy visit (login_totp (some lost_phone)) tables)
      (serve toy (lit "t") visit (login_totp (some lost_phone)) tables).1.sessions
serve-Earned_example = serve-Earned toy (lit "t") visit (login_totp (some lost_phone)) tables

challenged : read_challenge toy visit stage_totp ≡ some challenge
unfolding read_challenge text_eq
challenged = refl

recovered : (handle_login_totp toy visit (some lost_phone) tables).0.status ≡ 200
unfolding handle_login_totp text_eq
recovered = refl

same_code : normalize_recovery_code (lit "AB") ≡ normalize_recovery_code (lit "a-b")
unfolding normalize_recovery_code
same_code = refl

recovery_code_once_example :
    (handle_login_totp toy visit
      (some respelt)
      (handle_login_totp toy visit (some lost_phone) tables).1).0.status
    ≢ 200
recovery_code_once_example =
    recovery_code_once toy visit visit lost_phone respelt challenge challenge tables recovered refl
      refl same_code challenged challenged refl

left : (serve toy (lit "t") visit logout tables).0.status ≡ 204
unfolding serve text_eq
left = refl

logout_revokes_example :
    (resolve_session toy visit (serve toy (lit "t") visit logout tables).1).0 ≡ none
logout_revokes_example = logout_revokes toy (lit "t") visit visit tables left refl refl
