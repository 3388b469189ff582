-- ===== src/Dashboard/Auth/Spent.antt =====
-- A recovery code signs in once, and a logout ends its session: dashboard/internal/server/auth.go on
-- the queries of internal/db.
use orkano.Prelude.{
  ℕ, ◌≡◌, ◌≢◌, refl, sym, ap, ◌∙◌, inl, inr, Text, lit, is_empty, List, [], ◌∷◌, none, some, true,
  false, Bool-cases, Option-cases, arith, any_of, select,
}
use orkano.Dashboard.Auth.{
  User, Session, RecoveryCode, Db, Crypto, Challenge, Call, Env, confirmed, find_session,
  other_session, is_unused, use_code, insert_session, consume_recovery_code, user_by_id, find_user,
  audit,
}
use orkano.Dashboard.Auth.Sessions.{resolve_session, require_session, mint_session}
use orkano.Dashboard.Auth.Signing.{
  LoginTotpRequest, normalize_recovery_code, hash_recovery_code, read_challenge, stage_totp,
  second_factor, reset_failed_logins, sign_in, handle_login_totp, log_totp,
}
use orkano.Dashboard.Auth.Callers.{handle_logout}
use orkano.Dashboard.Auth.Routes.{serve, logout}

use_code-is_unused :
    (t id : ℕ) (h : Text) (cs : List RecoveryCode)
    → any_of (is_unused id h) (use_code t id h cs) ≡ false
unfolding use_code
use_code-is_unused t id h [] = refl
use_code-is_unused t id h (k ∷ cs) = ground (arith, use_code-is_unused t id h cs)

consume_recovery_code-once :
    (t t' id : ℕ) (h : Text) (db db' d : Db)
    → consume_recovery_code t id h db ≡ some db'
    → d.codes ≡ db'.codes
    → consume_recovery_code t' id h d ≡ none
unfolding consume_recovery_code
consume_recovery_code-once t t' id h db db' d e same =
    ground (arith, e, same, use_code-is_unused t id h db.codes)

cut-find_session :
    (h : Text) (ss : List Session) → find_session h (select (other_session h) ss) ≡ none
unfolding find_session
cut-find_session h [] = refl
cut-find_session h (s ∷ ss) = ground (arith, cut-find_session h ss)

find_user-id : (id : ℕ) (us : List User) (u : User) → find_user id us ≡ some u → u.id ≡ id
unfolding find_user
find_user-id id [] u e = ground (arith, e)
find_user-id id (v ∷ us) u e = ground (arith, e, find_user-id id us u)

user_by_id-id :
    (env : Env) (id : ℕ) (db : Db) (u : User) → user_by_id env id db ≡ some u → u.id ≡ id
unfolding user_by_id
user_by_id-id env id db u e = ground (arith, e, find_user-id id db.users u)

audit-codes :
    (env : Env) (actor action target outcome : Text) (db : Db)
    → (audit env actor action target outcome db).codes ≡ db.codes
unfolding audit
audit-codes env actor action target outcome db = ground arith

reset_failed_logins-codes :
    (env : Env) (id : ℕ) (db : Db) → (reset_failed_logins env id db).codes ≡ db.codes
unfolding reset_failed_logins
reset_failed_logins-codes env id db = ground arith

mint_session-codes :
    (c : Crypto) (env : Env) (id : ℕ) (db : Db) (raw : Text) (db' : Db)
    → mint_session c env id db ≡ some (raw, db')
    → db'.codes ≡ db.codes
unfolding mint_session insert_session
mint_session-codes c env id db raw db' e = ground (arith, e)

module _ (c : Crypto) where
  sign_in-codes :
      (env : Env) (log : Text → Db → Db) (u : User) (db : Db)
      → ((outcome : Text) (d : Db) → (log outcome d).codes ≡ d.codes)
      → (sign_in c env log u db).1.codes ≡ db.codes
  unfolding sign_in
  sign_in-codes env log u db quiet = elim (Option-cases (mint_session c env u.id db)) [
    | inl failed ↦ ground (arith, failed)
    | inr ((raw, db'), made) ↦
        ground
          (arith, made, quiet (lit "success") db', mint_session-codes c env u.id db raw db' made)
  ]

  record Entered (env : Env) (b : LoginTotpRequest) (id : ℕ) (db : Db) (after : Db) : Type 0 where
    u : User
    db' : Db
    known : u.id ≡ id
    shown : second_factor c env b u db ≡ some db'
    same : after.codes ≡ db'.codes

  -- What a login that was answered by 200 has been through.
  handle_login_totp-Entered :
      (env : Env) (b : LoginTotpRequest) (ch : Challenge) (db : Db)
      → read_challenge c env stage_totp ≡ some ch
      → (handle_login_totp c env (some b) db).0.status ≡ 200
      → Entered env b ch.uid db (handle_login_totp c env (some b) db).1
  unfolding handle_login_totp
  handle_login_totp-Entered env b ch db read ok = elim (Option-cases (user_by_id env ch.uid db)) [
    | inl unknown ↦ let wrong : ⊥ = ground (arith, read, unknown, ok) in elim wrong [ ]
    | inr (u, known) ↦ elim (Bool-cases (confirmed u)) [
      | inr unready ↦ let wrong : ⊥ = ground (arith, read, known, unready, ok) in elim wrong [ ]
      | inl ready ↦ elim (Option-cases (second_factor c env b u db)) [
        | inl refused ↦
            let wrong : ⊥ = ground (arith, read, known, ready, refused, ok) in elim wrong [ ]
        | inr (db', shown) ↦
            let reset = reset_failed_logins env u.id db' in
            let goes : (handle_login_totp c env (some b) db).1
                ≡ (sign_in c env (log_totp c env u) u reset).1 =
              ground (arith, read, known, ready, shown) in
            record {
              u = u;
              db' = db';
              known = user_by_id-id env ch.uid db u known;
              shown = shown;
              same =
                  ap (λ (d : Db). d.codes) goes
                  ∙ (sign_in-codes env (log_totp c env u) u reset
                        (λ o d. audit-codes env u.username (lit "auth.login_totp") u.username o d)
                      ∙ reset_failed_logins-codes env u.id db');
            }
      ]
    ]
  ]

  second_factor-once :
      (env env' : Env) (b b' : LoginTotpRequest) (u u' : User) (db db' d : Db)
      → is_empty b.code ≡ true
      → is_empty b'.code ≡ true
      → normalize_recovery_code b'.recovery_code ≡ normalize_recovery_code b.recovery_code
      → u'.id ≡ u.id
      → second_factor c env b u db ≡ some db'
      → d.codes ≡ db'.codes
      → second_factor c env' b' u' d ≡ none
  unfolding second_factor hash_recovery_code
  second_factor-once env env' b b' u u' db db' d no_code no_code' spelt same shown kept =
      let h = hash_recovery_code c b.recovery_code in
      let taken : consume_recovery_code env.db_now u.id h db ≡ some db' =
        ground (arith, no_code, shown) in
      let h-same : hash_recovery_code c b'.recovery_code ≡ h = ap c.sha256_hex spelt in
      let gone : consume_recovery_code env'.db_now u.id h d ≡ none =
        consume_recovery_code-once env.db_now env'.db_now u.id h db db' d taken kept in
      let gone' : consume_recovery_code env'.db_now u'.id (hash_recovery_code c b'.recovery_code) d
          ≡ none =
        rw h-same (rw same gone) in
      ground (arith, no_code', gone')

  -- A user who signed in with a recovery code does not sign in with it again by the request that follows
  -- directly, however the code is spelt.
  pub recovery_code_once :
      (env env' : Env) (b b' : LoginTotpRequest) (ch ch' : Challenge) (db : Db)
      → (handle_login_totp c env (some b) db).0.status ≡ 200
      → is_empty b.code ≡ true
      → is_empty b'.code ≡ true
      → normalize_recovery_code b'.recovery_code ≡ normalize_recovery_code b.recovery_code
      → read_challenge c env stage_totp ≡ some ch
      → read_challenge c env' stage_totp ≡ some ch'
      → ch'.uid ≡ ch.uid
      → (handle_login_totp c env' (some b') (handle_login_totp c env (some b) db).1).0.status ≢ 200
  recovery_code_once env env' b b' ch ch' db ok no_code no_code' spelt read read' same again =
      let first = handle_login_totp-Entered env b ch db read ok in
      let d = (handle_login_totp c env (some b) db).1 in
      let later = handle_login_totp-Entered env' b' ch' d read' again in
      let ids : later.u.id ≡ first.u.id = later.known ∙ (same ∙ sym first.known) in
      let none_left =
        second_factor-once env env' b b' first.u later.u db first.db' d no_code no_code' spelt ids
          first.shown first.same in
      ground (arith, none_left, later.shown)

  -- After a logout that was carried out, the cookie's session is no session any more.
  pub logout_revokes :
      (token_hash : Text) (env env' : Env) (db : Db)
      → (serve c token_hash env logout db).0.status ≡ 204
      → env.down Call.delete_session ≡ false
      → env'.session_cookie ≡ env.session_cookie
      → (resolve_session c env' (serve c token_hash env logout db).1).0 ≡ none
  unfolding serve require_session handle_logout resolve_session
  logout_revokes token_hash env env' db done up same =
      let h = c.sha256_hex env.session_cookie in
      ground (arith, done, up, same, cut-find_session h (resolve_session c env db).1.sessions)
