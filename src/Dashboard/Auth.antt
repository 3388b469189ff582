-- ===== src/Dashboard/Auth.antt =====
-- The tables behind the dashboard's sign-in, and the queries of internal/db/users.sql.go,
-- sessions.sql.go, recovery_codes.sql.go and audit_log.sql.go on them, with the unique indexes of
-- internal/db/migrations. Times are nanoseconds. `Crypto` is what other code gives: SHA-256 in hex,
-- bcrypt, TOTP, AES-GCM and JSON.
pub mod Sessions
pub mod Signing
pub mod Callers
pub mod Enrolling
mod Lockout
mod Routes
mod Earned
mod Earning
mod Serving
mod Enlisting
mod Spent
mod Examples
use orkano.Prelude.{
  ℕ, suc, ◌+◌, ◌*◌, ◌/◌, Text, lit, text_eq, is_empty, List, [], ◌∷◌, ◌++◌, map, Option, none, some,
  Bool, true, false, not, ◌&&◌, ◌||◌, ltb, leb, ◌==◌, if◌then◌else◌, select, any_of, is_some,
  length,
}
use orkano.Dashboard.RateLimit.{second}

pub record User : Type 0 where
  pub id : ℕ
  pub username : Text
  pub password_hash : Text
  pub totp_secret : Text
  pub totp_confirmed_at : Option ℕ
  pub failed_logins : ℕ
  pub locked_until : Option ℕ
  pub oidc_subject : Option Text

pub record Session : Type 0 where
  pub token_hash : Text
  pub user_id : ℕ
  pub expires_at : ℕ
  pub last_used_at : ℕ
  pub reauth_at : Option ℕ

pub record RecoveryCode : Type 0 where
  pub user_id : ℕ
  pub code_hash : Text
  pub used_at : Option ℕ

pub record AuditEntry : Type 0 where
  pub actor : Text
  pub action : Text
  pub target : Text
  pub outcome : Text

pub record Db : Type 0 where
  pub users : List User
  pub sessions : List Session
  pub codes : List RecoveryCode
  pub audit_log : List AuditEntry
  pub next_id : ℕ

pub record Challenge : Type 0 where
  pub uid : ℕ
  pub stage : Text
  pub expires : ℕ

pub record Crypto : Type 0 where
  pub sha256_hex : Text → Text
  pub compare_password : Text → Text → Bool
  pub validate_totp : ℕ → Text → Text → Bool
  pub unseal : Text → Option Text
  pub encode : Challenge → Text
  pub decode : Text → Option Challenge
  pub lower : Text → Text

-- The queries, as far as they can fail by themselves.
pub data Call : Type 0 where
  count_admins get_user_by_username get_user_by_id confirm_totp increment_failed lock reset_failed
        create_session get_session touch_session delete_session mark_reauth consume_code
        append_audit create_admin :
      Call

-- What one request meets: the server's and the database's clocks, the queries that fail, the cookies,
-- and what is drawn at random.
pub record Env : Type 0 where
  pub now : ℕ
  pub db_now : ℕ
  pub down : Call → Bool
  pub session_cookie : Text
  pub challenge_cookie : Text
  pub seal : Text → Option Text
  pub session_token : Option Text
  pub password_hash : Text → Option Text
  pub totp_secret : Option Text
  pub recovery_codes : Option (List Text)

abbrev pub confirmed : User → Bool
confirmed u = is_some u.totp_confirmed_at

unfoldable pub find_user : ℕ → List User → Option User
find_user id [] = none
find_user id (u ∷ us) = if u.id == id then some u else find_user id us

unfoldable pub find_username : (Text → Text) → Text → List User → Option User
find_username lower name [] = none
find_username lower name (u ∷ us) =
    if text_eq (lower u.username) (lower name) then some u else find_username lower name us

-- `UPDATE users … WHERE id = $1`.
unfoldable pub update_user : ℕ → (User → User) → List User → List User
update_user id f [] = []
update_user id f (u ∷ us) = (if u.id == id then f u else u) ∷ update_user id f us

abbrev pub confirmed_admins : Db → ℕ
confirmed_admins db = length (select confirmed db.users)

unfoldable pub find_session : Text → List Session → Option Session
find_session hash [] = none
find_session hash (s ∷ ss) = if text_eq s.token_hash hash then some s else find_session hash ss

-- `GetSession`: only while unexpired.
unfoldable pub get_session_row : ℕ → Text → Db → Option Session
unfolding find_session
get_session_row db_now hash db = elim (find_session hash db.sessions) [
  | none ↦ none
  | some s ↦ if ltb db_now s.expires_at then some s else none
]

unfoldable pub update_session : Text → (Session → Session) → List Session → List Session
update_session hash f [] = []
update_session hash f (s ∷ ss) =
    (if text_eq s.token_hash hash then f s else s) ∷ update_session hash f ss

abbrev pub other_session : Text → Session → Bool
other_session hash s = not (text_eq s.token_hash hash)

unfoldable pub delete_session_row : Text → Db → Db
delete_session_row hash db = record db { sessions = select (other_session hash) db.sessions }

-- The token hash is the primary key, and the user has to exist.
unfoldable pub insert_session : Session → Db → Option Db
unfolding find_session find_user
insert_session s db =
    if is_some (find_session s.token_hash db.sessions)
      || not (is_some (find_user s.user_id db.users))
    then none
    else some (record db { sessions = s ∷ db.sessions })

abbrev pub is_unused : ℕ → Text → RecoveryCode → Bool
is_unused user_id hash c =
    c.user_id == user_id && text_eq c.code_hash hash && not (is_some c.used_at)

unfoldable pub use_code : ℕ → ℕ → Text → List RecoveryCode → List RecoveryCode
use_code db_now user_id hash [] = []
use_code db_now user_id hash (c ∷ cs) =
    (if is_unused user_id hash c then record c { used_at = some db_now } else c)
    ∷ use_code db_now user_id hash cs

-- `ConsumeRecoveryCode`: no row where there is no unused code.
unfoldable pub consume_recovery_code : ℕ → ℕ → Text → Db → Option Db
unfolding use_code
consume_recovery_code db_now user_id hash db =
    if any_of (is_unused user_id hash) db.codes
    then some (record db { codes = use_code db_now user_id hash db.codes })
    else none

-- An entry with no actor is anonymous; one that cannot be written is lost.
unfoldable pub audit : Env → Text → Text → Text → Text → Db → Db
audit env actor action target outcome db =
    let who = if is_empty actor then lit "anonymous" else actor in
    if env.down append_audit then db else record db {
      audit_log =
          db.audit_log
          ++ record { actor = who; action = action; target = target; outcome = outcome } ∷ [];
    }

unfoldable pub user_by_id : Env → ℕ → Db → Option User
unfolding find_user
user_by_id env id db = if env.down get_user_by_id then none else find_user id db.users

-- A second confirmed admin trips the unique index.
unfoldable pub confirm_user_totp : ℕ → ℕ → Db → Option Db
unfolding update_user
confirm_user_totp db_now id db =
    if any_of (λ u. confirmed u && not (u.id == id)) db.users
    then none
    else some (record db {
      users = update_user id (λ u. record u { totp_confirmed_at = some db_now }) db.users;
    })
