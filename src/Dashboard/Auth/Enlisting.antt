-- ===== src/Dashboard/Auth/Enlisting.antt =====
-- The redemption of dashboard/internal/server/auth.go leaves sessions that were earned.
use orkano.Prelude.{
  ◌≡◌, refl, sym, inl, inr, ◌⊎◌, Text, lit, List, [], Option, none, some, Bool-cases, Option-cases,
  arith, select, is_some,
}
use mathlib.Core.Path.{subst}
use orkano.Dashboard.Auth.{User, Session, Db, Crypto, Call, Env, find_user}
use orkano.Dashboard.Auth.Enrolling.{
  RedeemRequest, create_admin, enroll, handle_redeem, is_lasting, new_admin,
}
use orkano.Dashboard.Auth.Routes.{Request}
use orkano.Dashboard.Auth.Earned.{Kept, all_Kept, select-Kept}
use orkano.Dashboard.Auth.Earning.{Fine, fine, unchanged, audit-sessions}

module _ (c : Crypto) (env : Env) (r : Request) (db0 : Db) where
  create_admin-Kept :
      (u : User) (hashes : List Text) (db' : Db)
      → create_admin c.lower u hashes db0 ≡ some db'
      → Kept c env r db0 db'.sessions
  unfolding create_admin
  create_admin-Kept u hashes db' e =
      let kept = select is_lasting db0.users in
      let left = select (λ (s : Session). is_some (find_user s.user_id kept)) db0.sessions in
      let goes : db'.sessions ≡ left = ground (arith, e) in
      subst (Kept c env r db0) (sym goes) (
        select-Kept c env r db0 (λ s. is_some (find_user s.user_id kept)) db0.sessions
          (all_Kept c env r db0))

  enroll-Fine : (b : RedeemRequest) → Fine c env r db0 (enroll c env b db0)
  unfolding enroll
  enroll-Fine b =
      let o = enroll c env b db0 in
      elim (Option-cases (env.password_hash b.password)) [
        | inl e1 ↦ unchanged c env r db0 o (ground (arith, e1))
        | inr (hashed, e1) ↦ elim (Option-cases env.totp_secret) [
          | inl e2 ↦ unchanged c env r db0 o (ground (arith, e1, e2))
          | inr (secret, e2) ↦ elim (Option-cases (env.seal secret)) [
            | inl e3 ↦ unchanged c env r db0 o (ground (arith, e1, e2, e3))
            | inr (sealed, e3) ↦ elim (Option-cases env.recovery_codes) [
              | inl e4 ↦ unchanged c env r db0 o (ground (arith, e1, e2, e3, e4))
              | inr (hashes, e4) ↦
                  let u = new_admin db0.next_id b.username hashed sealed in
                  elim (Bool-cases (env.down Call.create_admin)) [
                    | inl down ↦ unchanged c env r db0 o (ground (arith, e1, e2, e3, e4, down))
                    | inr up ↦ elim (Option-cases (create_admin c.lower u hashes db0)) [
                      | inl taken ↦
                          unchanged c env r db0 o (ground (arith, e1, e2, e3, e4, up, taken))
                      | inr (db', made) ↦
                          let goes : o.1.sessions ≡ db'.sessions = ground (
                            arith,
                            e1,
                            e2,
                            e3,
                            e4,
                            up,
                            made,
                            audit-sessions env b.username (lit "bootstrap.redeem") b.username
                                (lit "success") db',
                          ) in
                          fine c env r db0 o (
                            subst (Kept c env r db0) (sym goes)
                              (create_admin-Kept u hashes db' made))
                    ]
                  ]
            ]
          ]
        ]
      ]

  pub handle_redeem-Fine :
      (token_hash : Text) (body : Option RedeemRequest)
      → Fine c env r db0 (handle_redeem c token_hash env body db0)
  unfolding handle_redeem
  handle_redeem-Fine token_hash none =
      unchanged c env r db0 (handle_redeem c token_hash env none db0) refl
  handle_redeem-Fine token_hash (some b) =
      let o = handle_redeem c token_hash env (some b) db0 in
      let step : (o.1.sessions ≡ db0.sessions) ⊎ (o ≡ enroll c env b db0) = ground (
        arith,
        audit-sessions env [] (lit "bootstrap.redeem") [] (lit "failure") db0,
        audit-sessions env [] (lit "bootstrap.redeem") b.username (lit "failure") db0,
      ) in
      elim step [
        | inl same ↦ unchanged c env r db0 o same
        | inr goes ↦ subst (Fine c env r db0) (sym goes) (enroll-Fine b)
      ]
