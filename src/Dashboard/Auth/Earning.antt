-- ===== src/Dashboard/Auth/Earning.antt =====
-- Each handler of dashboard/internal/server/auth.go leaves sessions that were earned.
use orkano.Prelude.{
  ℕ, ◌+◌, ◌≡◌, refl, sym, ◌∙◌, inl, inr, Text, lit, [], ◌∷◌, Option, none, some, Bool-cases,
  Option-cases, arith, All, All_map,
}
use mathlib.Core.Path.{subst}
use orkano.Dashboard.Auth.{
  User, Session, Db, Crypto, Challenge, Call, Env, confirmed, insert_session, user_by_id, audit,
  consume_recovery_code, confirm_user_totp,
}
use orkano.Dashboard.Auth.Sessions.{Reply, session_ttl, mint_session}
use orkano.Dashboard.Auth.Signing.{
  LoginRequest, LoginTotpRequest, stage_enroll, stage_totp, read_challenge, second_factor,
  record_failed_login, reset_failed_logins, first_factor, handle_login, handle_login_totp, sign_in,
  log_totp,
}
use orkano.Dashboard.Auth.Enrolling.{handle_confirm_totp, log_confirm}
use orkano.Dashboard.Auth.Routes.{Request, totp_confirm, login_totp}
use orkano.Dashboard.Auth.Earned.{Proves, second, enrolled, Earned, Kept, all_Kept}

pub audit-sessions :
    (env : Env) (actor action target outcome : Text) (db : Db)
    → (audit env actor action target outcome db).sessions ≡ db.sessions
unfolding audit
audit-sessions env actor action target outcome db = ground arith

record_failed_login-sessions :
    (env : Env) (id : ℕ) (db : Db) → (record_failed_login env id db).sessions ≡ db.sessions
unfolding record_failed_login
record_failed_login-sessions env id db = ground arith

reset_failed_logins-sessions :
    (env : Env) (id : ℕ) (db : Db) → (reset_failed_logins env id db).sessions ≡ db.sessions
unfolding reset_failed_logins
reset_failed_logins-sessions env id db = ground arith

second_factor-sessions :
    (c : Crypto) (env : Env) (b : LoginTotpRequest) (u : User) (db db' : Db)
    → second_factor c env b u db ≡ some db'
    → db'.sessions ≡ db.sessions
unfolding second_factor consume_recovery_code
second_factor-sessions c env b u db db' e = ground (arith, e)

abbrev minted : Crypto → Env → ℕ → Text → Session
minted c env id raw = record {
  token_hash = c.sha256_hex raw;
  user_id = id;
  expires_at = env.now + session_ttl;
  last_used_at = env.db_now;
  reauth_at = none;
}

mint_session-sessions :
    (c : Crypto) (env : Env) (id : ℕ) (db : Db) (raw : Text) (db' : Db)
    → mint_session c env id db ≡ some (raw, db')
    → db'.sessions ≡ minted c env id raw ∷ db.sessions
unfolding mint_session insert_session
mint_session-sessions c env id db raw db' e = ground (arith, e)

module _ (c : Crypto) (env : Env) (r : Request) (db0 : Db) where
  abbrev pub Fine : Reply × Db → Type 0
  Fine o = All (Earned c env r db0) o.1.sessions

  pub fine : (o : Reply × Db) → Kept c env r db0 o.1.sessions → Fine o
  fine o h = All_map (λ s k. inl k) o.1.sessions h

  pub unchanged : (o : Reply × Db) → o.1.sessions ≡ db0.sessions → Fine o
  unchanged o e = fine o (subst (Kept c env r db0) (sym e) (all_Kept c env r db0))

  pub handle_login-Fine : (body : Option LoginRequest) → Fine (handle_login c env body db0)
  unfolding handle_login first_factor record_failed_login audit
  handle_login-Fine none = unchanged (handle_login c env none db0) refl
  handle_login-Fine (some b) = unchanged (handle_login c env (some b) db0) (ground arith)

  sign_in-Fine :
      (log : Text → Db → Db) (u : User) (db : Db)
      → ((outcome : Text) (d : Db) → (log outcome d).sessions ≡ d.sessions)
      → db.sessions ≡ db0.sessions
      → Proves c env r db0 u.id
      → Fine (sign_in c env log u db)
  unfolding sign_in
  sign_in-Fine log u db quiet same proves = elim (Option-cases (mint_session c env u.id db)) [
    | inl failed ↦ unchanged (sign_in c env log u db) (ground (arith, failed, same))
    | inr ((raw, db'), made) ↦
        let row = minted c env u.id raw in
        let goes : (sign_in c env log u db).1.sessions ≡ row ∷ db0.sessions = ground (
          arith,
          made,
          quiet (lit "success") db',
          mint_session-sessions c env u.id db raw db' made,
          same,
        ) in
        subst (All (Earned c env r db0)) (sym goes) (
          inr (record { proves = proves; lasts = refl; not_again = refl }),
          All_map (λ s k. inl k) db0.sessions (all_Kept c env r db0),
        )
  ]

  pub handle_login_totp-Fine :
      (body : Option LoginTotpRequest)
      → r ≡ login_totp body
      → Fine (handle_login_totp c env body db0)
  unfolding handle_login_totp
  handle_login_totp-Fine none e = unchanged (handle_login_totp c env none db0) refl
  handle_login_totp-Fine (some b) e = elim (Option-cases (read_challenge c env stage_totp)) [
    | inl no_challenge ↦
        unchanged (handle_login_totp c env (some b) db0) (ground (arith, no_challenge))
    | inr (ch, read) ↦ elim (Option-cases (user_by_id env ch.uid db0)) [
      | inl unknown ↦
          unchanged (handle_login_totp c env (some b) db0) (ground (arith, read, unknown))
      | inr (u, known) ↦ elim (Bool-cases (confirmed u)) [
        | inr unready ↦
            unchanged (handle_login_totp c env (some b) db0) (ground (arith, read, known, unready))
        | inl ready ↦ elim (Option-cases (second_factor c env b u db0)) [
          | inl wrong ↦ unchanged (handle_login_totp c env (some b) db0) (
              ground (
                arith,
                read,
                known,
                ready,
                wrong,
                record_failed_login-sessions env u.id db0,
                audit-sessions env u.username (lit "auth.login_totp") u.username (lit "failure")
                    (record_failed_login env u.id db0),
              ))
          | inr (db', right) ↦
              let reset = reset_failed_logins env u.id db' in
              let goes : handle_login_totp c env (some b) db0
                  ≡ sign_in c env (log_totp c env u) u reset =
                ground (arith, read, known, ready, right) in
              subst Fine (sym goes) (
                sign_in-Fine (log_totp c env u) u reset
                  (λ o d. audit-sessions env u.username (lit "auth.login_totp") u.username o d)
                  (reset_failed_logins-sessions env u.id db'
                    ∙ second_factor-sessions c env b u db0 db' right)
                  (second b ch u e read known ready (ground (arith, right)) refl))
        ]
      ]
    ]
  ]

  confirm_user_totp-sessions :
      (id : ℕ) (db' : Db)
      → confirm_user_totp env.db_now id db0 ≡ some db'
      → db'.sessions ≡ db0.sessions
  unfolding confirm_user_totp
  confirm_user_totp-sessions id db' e = ground (arith, e)

  confirmable-Fine :
      (code : Text) (ch : Challenge) (u : User)
      → r ≡ totp_confirm (some code)
      → read_challenge c env stage_enroll ≡ some ch
      → user_by_id env ch.uid db0 ≡ some u
      → Fine (handle_confirm_totp c env (some code) db0)
  unfolding handle_confirm_totp
  confirmable-Fine code ch u e read known =
      let told =
        audit-sessions env u.username (lit "bootstrap.confirm_totp") u.username (lit "failure")
          db0 in
      let o = handle_confirm_totp c env (some code) db0 in
      elim (Bool-cases (confirmed u)) [
        | inl spent ↦ unchanged o (ground (arith, read, known, spent, told))
        | inr new ↦ elim (Option-cases (c.unseal u.totp_secret)) [
          | inl sealed ↦ unchanged o (ground (arith, read, known, new, sealed))
          | inr (secret, opened) ↦ elim (Bool-cases (c.validate_totp env.now secret code)) [
            | inr wrong ↦ unchanged o (ground (arith, read, known, new, opened, wrong, told))
            | inl right ↦ elim (Bool-cases (env.down Call.confirm_totp)) [
              | inl down ↦ unchanged o (ground (arith, read, known, new, opened, right, down))
              | inr up ↦ elim (Option-cases (confirm_user_totp env.db_now u.id db0)) [
                | inl taken ↦
                    unchanged o (ground (arith, read, known, new, opened, right, up, taken, told))
                | inr (db', made) ↦
                    let goes : o ≡ sign_in c env (log_confirm c env u.username) u db' =
                      ground (arith, read, known, new, opened, right, up, made) in
                    subst Fine (sym goes) (
                      sign_in-Fine (log_confirm c env u.username) u db'
                        (λ x d.
                          audit-sessions env u.username (lit "bootstrap.confirm_totp") u.username x
                            d)
                        (confirm_user_totp-sessions u.id db' made)
                        (enrolled code ch u secret e read known new opened right refl))
              ]
            ]
          ]
        ]
      ]

  pub handle_confirm_totp-Fine :
      (body : Option Text) → r ≡ totp_confirm body → Fine (handle_confirm_totp c env body db0)
  unfolding handle_confirm_totp confirm_user_totp
  handle_confirm_totp-Fine none e = unchanged (handle_confirm_totp c env none db0) refl
  handle_confirm_totp-Fine (some code) e = elim (Option-cases (read_challenge c env stage_enroll)) [
    | inl no_challenge ↦
        unchanged (handle_confirm_totp c env (some code) db0) (ground (arith, no_challenge))
    | inr (ch, read) ↦ elim (Option-cases (user_by_id env ch.uid db0)) [
      | inl unknown ↦ unchanged (handle_confirm_totp c env (some code) db0) (
          ground (
            arith,
            read,
            unknown,
            audit-sessions env [] (lit "bootstrap.confirm_totp") [] (lit "failure") db0,
          ))
      | inr (u, known) ↦ confirmable-Fine code ch u e read known
    ]
  ]
