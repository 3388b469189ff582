-- ===== src/Dashboard/Auth/Serving.antt =====
-- All the routes of dashboard/internal/server/auth.go leave sessions that were earned.
use orkano.Prelude.{
  text_eq_iff, ℕ, ◌≡◌, refl, ◌∙◌, inl, inr, ◌⊎◌, Text, lit, [], Option, none, some, Bool-cases,
  Option-cases, arith, All, is_some,
}
use orkano.Dashboard.Auth.{
  User, Session, Db, Crypto, Env, delete_session_row, other_session, user_by_id,
}
use orkano.Dashboard.Auth.Sessions.{
  Reply, refuse, resolve_session, require_session, touched, session_row, admissible,
}
use orkano.Dashboard.Auth.Callers.{
  StepUpRequest, handle_logout, handle_step_up, proves_again, reauthed,
}
use orkano.Dashboard.Auth.Enrolling.{handle_auth_status}
use orkano.Dashboard.Auth.Routes.{
  Request, auth_status, logout, redeem, totp_confirm, login, login_totp, step_up, serve,
}
use orkano.Dashboard.Auth.Earned.{
  Again, Earned, Kept, all_Kept, select-Kept, touched-Kept, update_session-Kept,
}
use orkano.Dashboard.Auth.Earning.{
  Fine, fine, audit-sessions, handle_login-Fine, handle_login_totp-Fine, handle_confirm_totp-Fine,
}
use orkano.Dashboard.Auth.Enlisting.{handle_redeem-Fine}

module _ (c : Crypto) (env : Env) (r : Request) (db0 : Db) where
  resolve_session-Kept : Kept c env r db0 (resolve_session c env db0).1.sessions
  unfolding resolve_session
  resolve_session-Kept = elim (Option-cases (session_row c env db0)) [
    | inl absent ↦
        let goes : (resolve_session c env db0).1 ≡ db0 = ground (arith, absent) in
        rw goes (all_Kept c env r db0)
    | inr (s, found) ↦ elim (Option-cases (user_by_id env s.user_id db0)) [
      | inl unknown ↦
          let goes : (resolve_session c env db0).1 ≡ db0 = ground (arith, found, unknown) in
          rw goes (all_Kept c env r db0)
      | inr (u, known) ↦ elim (Bool-cases (admissible c u)) [
        | inr refused ↦
            let goes : (resolve_session c env db0).1 ≡ db0 =
              ground (arith, found, known, refused) in
            rw goes (all_Kept c env r db0)
        | inl ok ↦
            let hash = c.sha256_hex env.session_cookie in
            let goes : (resolve_session c env db0).1 ≡ touched c env hash db0 =
              ground (arith, found, known, ok) in
            rw goes (touched-Kept c env r db0 hash db0 (all_Kept c env r db0))
      ]
    ]
  ]

  resolve_session-users : (resolve_session c env db0).1.users ≡ db0.users
  unfolding resolve_session
  resolve_session-users = ground arith

  delete-Kept :
      (hash : Text) (db : Db)
      → Kept c env r db0 db.sessions
      → Kept c env r db0 (delete_session_row hash db).sessions
  unfolding delete_session_row
  delete-Kept hash db h = select-Kept c env r db0 (other_session hash) db.sessions h

  handle_logout-Kept :
      (u : User) (db : Db)
      → Kept c env r db0 db.sessions
      → Kept c env r db0 (handle_logout c env u db).1.sessions
  unfolding handle_logout
  handle_logout-Kept u db h =
      let o = handle_logout c env u db in
      let hash = c.sha256_hex env.session_cookie in
      let told = audit-sessions env u.username (lit "auth.logout") u.username (lit "success") in
      let step : (o.1.sessions ≡ db.sessions)
          ⊎ (o.1.sessions ≡ (delete_session_row hash db).sessions) =
        ground (arith, told db, told (delete_session_row hash db)) in
      elim step [ inl same ↦ rw same h | inr cut ↦ rw cut (delete-Kept hash db h) ]

  user_by_id-same :
      (id : ℕ) (db : Db) → db.users ≡ db0.users → user_by_id env id db0 ≡ user_by_id env id db
  unfolding user_by_id
  user_by_id-same id db same = ground (arith, same)

  reauthed-Kept :
      Again c env r db0
      → (db : Db) → Kept c env r db0 db.sessions
      → Kept c env r db0 (reauthed c env db).sessions
  reauthed-Kept again db h =
      update_session-Kept c env r db0 (c.sha256_hex env.session_cookie)
        (λ s. record s { reauth_at = some env.db_now }) db.sessions
        (λ s this k. record {
          before = k.before;
          there = k.there;
          same_token = k.same_token;
          same_user = k.same_user;
          same_end = k.same_end;
          reauth = inr (
            again,
            ground (arith, text_eq_iff s.token_hash (c.sha256_hex env.session_cookie)),
            refl,
          );
        })
        h

  handle_step_up-Kept :
      (b : StepUpRequest) (u : User) (s : Session) (db : Db)
      → r ≡ step_up (some b)
      → (resolve_session c env db0).0 ≡ some (u, s)
      → db.users ≡ db0.users
      → Kept c env r db0 db.sessions
      → Kept c env r db0 (handle_step_up c env (some b) u db).1.sessions
  unfolding handle_step_up
  handle_step_up-Kept b u s db e found same h =
      let o = handle_step_up c env (some b) u db in
      let told = audit-sessions env u.username (lit "auth.stepup") u.username in
      elim (Bool-cases (is_some u.oidc_subject)) [
        | inl linked ↦ let goes : o.1.sessions ≡ db.sessions = ground (arith, linked) in rw goes h
        | inr own ↦ elim (Option-cases (user_by_id env u.id db)) [
          | inl unknown ↦
              let goes : o.1.sessions ≡ db.sessions = ground (arith, own, unknown) in rw goes h
          | inr (full, known) ↦ elim (Option-cases (c.unseal full.totp_secret)) [
            | inl sealed ↦
                let goes : o.1.sessions ≡ db.sessions = ground (arith, own, known, sealed) in
                rw goes h
            | inr (secret, opened) ↦ elim (Bool-cases (proves_again c env b full secret)) [
              | inr wrong ↦
                  let goes : o.1.sessions ≡ db.sessions =
                    ground (arith, own, known, opened, wrong, told (lit "failure") db) in
                  rw goes h
              | inl right ↦
                  let step : (o.1.sessions ≡ db.sessions)
                      ⊎ (o.1.sessions ≡ (reauthed c env db).sessions) =
                    ground (
                      arith,
                      own,
                      known,
                      opened,
                      right,
                      told (lit "success") db,
                      told (lit "failure") db,
                      told (lit "success") (reauthed c env db),
                    ) in
                  let again : Again c env r db0 = record {
                    b = b;
                    caller = u;
                    full = full;
                    secret = secret;
                    session = s;
                    found = found;
                    asked = e;
                    local = ground (arith, own);
                    known = user_by_id-same u.id db same ∙ known;
                    opened = opened;
                    proved = right;
                  } in
                  elim step [
                    | inl quiet ↦ rw quiet h
                    | inr marked ↦ rw marked (reauthed-Kept again db h)
                  ]
            ]
          ]
        ]
      ]

  handle_step_up-All :
      (body : Option StepUpRequest) (u : User) (s : Session) (db : Db)
      → r ≡ step_up body
      → (resolve_session c env db0).0 ≡ some (u, s)
      → db.users ≡ db0.users
      → Kept c env r db0 db.sessions
      → Kept c env r db0 (handle_step_up c env body u db).1.sessions
  unfolding handle_step_up
  handle_step_up-All none u s db e found same h =
      let goes : (handle_step_up c env none u db).1 ≡ db = ground arith in rw goes h
  handle_step_up-All (some b) u s db e found same h = handle_step_up-Kept b u s db e found same h

  require_session-Fine :
      (next : User → Db → Reply × Db)
      → ((u : User) (s : Session) (db : Db)
          → (resolve_session c env db0).0 ≡ some (u, s)
          → db.users ≡ db0.users
          → Kept c env r db0 db.sessions
          → Kept c env r db0 (next u db).1.sessions)
      → Fine c env r db0 (require_session c env next db0)
  unfolding require_session
  require_session-Fine next keeps =
      let seen = (resolve_session c env db0).1 in
      elim (Option-cases (resolve_session c env db0).0) [
        | inl refused ↦
            let goes : (require_session c env next db0).1 ≡ seen = ground (arith, refused) in
            rw goes (fine c env r db0 (refuse 401 [], seen) resolve_session-Kept)
        | inr ((u, s), found) ↦
            let goes : require_session c env next db0 ≡ next u seen = ground (arith, found) in
            rw goes (
              fine c env r db0 (next u seen)
                (keeps u s seen found resolve_session-users resolve_session-Kept))
      ]

-- After a request of any route but the two of OIDC, each session was there before, for the same user
-- and until the same time, or is new and was earned: by a second factor that a confirmed user of an
-- unexpired challenge has shown, or by the first code of an admin that enrols. When a session was last
-- proved again changes only for the session of the request's cookie, after a step-up of its local
-- user whose code, and password where one is given, are right.
pub serve-Earned :
    (c : Crypto) (token_hash : Text) (env : Env) (r : Request) (db : Db)
    → All (Earned c env r db) (serve c token_hash env r db).1.sessions
unfolding serve handle_auth_status
serve-Earned c token_hash env auth_status db =
    fine c env auth_status db (handle_auth_status c env db)
      (resolve_session-Kept c env auth_status db)
serve-Earned c token_hash env logout db =
    require_session-Fine c env logout db (handle_logout c env)
      (λ u s d found same h. handle_logout-Kept c env logout db u d h)
serve-Earned c token_hash env (redeem body) db =
    handle_redeem-Fine c env (redeem body) db token_hash body
serve-Earned c token_hash env (totp_confirm body) db =
    handle_confirm_totp-Fine c env (totp_confirm body) db body refl
serve-Earned c token_hash env (login body) db = handle_login-Fine c env (login body) db body
serve-Earned c token_hash env (login_totp body) db =
    handle_login_totp-Fine c env (login_totp body) db body refl
serve-Earned c token_hash env (step_up body) db =
    require_session-Fine c env (step_up body) db (handle_step_up c env body) (λ u s d found same h.
      handle_step_up-All c env (step_up body) db body u s d refl found same h)
