-- ===== src/Dashboard/Auth/Earned.antt =====
-- Where the sessions of dashboard/internal/server/auth.go come from, over all its routes.
use orkano.Prelude.{
  ℕ, ◌+◌, ◌≡◌, refl, inl, inr, ◌⊎◌, Text, text_eq, List, [], ◌∷◌, none, some, Bool, true, false,
  Bool-cases, All, In, select, is_some,
}
use orkano.Dashboard.Auth.{
  User, Session, Db, Crypto, Challenge, Call, Env, confirmed, update_session, user_by_id,
}
use orkano.Dashboard.Auth.Sessions.{session_ttl, resolve_session, touched}
use orkano.Dashboard.Auth.Signing.{
  LoginTotpRequest, stage_enroll, stage_totp, read_challenge, second_factor,
}
use orkano.Dashboard.Auth.Callers.{StepUpRequest, proves_again}
use orkano.Dashboard.Auth.Routes.{Request, totp_confirm, login_totp, step_up}

module _ (c : Crypto) (env : Env) (r : Request) (db0 : Db) where
  -- What a request proves when a user of an unexpired challenge shows a second factor.
  pub data Proves (id : ℕ) : Type 0 where
    second :
        (b : LoginTotpRequest) (ch : Challenge) (u : User)
        → r ≡ login_totp (some b)
        → read_challenge c env stage_totp ≡ some ch
        → user_by_id env ch.uid db0 ≡ some u
        → confirmed u ≡ true
        → is_some (second_factor c env b u db0) ≡ true
        → id ≡ u.id
        → Proves id
    enrolled :
        (code : Text) (ch : Challenge) (u : User) (secret : Text)
        → r ≡ totp_confirm (some code)
        → read_challenge c env stage_enroll ≡ some ch
        → user_by_id env ch.uid db0 ≡ some u
        → confirmed u ≡ false
        → c.unseal u.totp_secret ≡ some secret
        → c.validate_totp env.now secret code ≡ true
        → id ≡ u.id
        → Proves id

  -- A step-up of the cookie's own user, with a code and, where one is given, the password.
  pub record Again : Type 0 where
    pub b : StepUpRequest
    pub caller : User
    pub full : User
    pub secret : Text
    pub session : Session
    pub found : (resolve_session c env db0).0 ≡ some (caller, session)
    pub asked : r ≡ step_up (some b)
    pub local : caller.oidc_subject ≡ none
    pub known : user_by_id env caller.id db0 ≡ some full
    pub opened : c.unseal full.totp_secret ≡ some secret
    pub proved : proves_again c env b full secret ≡ true

  -- The session of the request's cookie, and no other, counts as proved again from now on.
  abbrev pub Marked : Session → Type 0
  Marked s =
      Again × (s.token_hash ≡ c.sha256_hex env.session_cookie) × (s.reauth_at ≡ some env.db_now)

  pub record Carried (s : Session) : Type 0 where
    pub before : Session
    pub there : In before db0.sessions
    pub same_token : s.token_hash ≡ before.token_hash
    pub same_user : s.user_id ≡ before.user_id
    pub same_end : s.expires_at ≡ before.expires_at
    pub reauth : (s.reauth_at ≡ before.reauth_at) ⊎ Marked s

  pub record Minted (s : Session) : Type 0 where
    pub proves : Proves s.user_id
    pub lasts : s.expires_at ≡ env.now + session_ttl
    pub not_again : s.reauth_at ≡ none

  abbrev pub Earned : Session → Type 0
  Earned s = Carried s ⊎ Minted s

  abbrev pub Kept : List Session → Type 0
  Kept = All Carried

  In-Kept : (ss : List Session) → ((s : Session) → In s ss → In s db0.sessions) → Kept ss
  In-Kept [] f = tt
  In-Kept (s ∷ ss) f = (
    record {
      before = s;
      there = f s (inl refl);
      same_token = refl;
      same_user = refl;
      same_end = refl;
      reauth = inl refl;
    },
    In-Kept ss (λ t m. f t (inr m)),
  )

  pub all_Kept : Kept db0.sessions
  all_Kept = In-Kept db0.sessions (λ s m. m)

  pub update_session-Kept :
      (hash : Text) (f : Session → Session) (ss : List Session)
      → ((s : Session) → text_eq s.token_hash hash ≡ true → Carried s → Carried (f s))
      → Kept ss
      → Kept (update_session hash f ss)
  unfolding update_session
  update_session-Kept hash f [] keeps h = tt
  update_session-Kept hash f (s ∷ ss) keeps (now, rest) =
      elim (Bool-cases (text_eq s.token_hash hash)) [
        | inl this ↦ rw this (keeps s this now, update_session-Kept hash f ss keeps rest)
        | inr other ↦ rw other (now, update_session-Kept hash f ss keeps rest)
      ]

  pub select-Kept : (p : Session → Bool) (ss : List Session) → Kept ss → Kept (select p ss)
  select-Kept p [] h = tt
  select-Kept p (s ∷ ss) (now, rest) = elim (Bool-cases (p s)) [
    | inl take ↦ rw take (now, select-Kept p ss rest)
    | inr skip ↦ rw skip (select-Kept p ss rest)
  ]

  pub touched-Kept :
      (hash : Text) (db : Db) → Kept db.sessions → Kept (touched c env hash db).sessions
  touched-Kept hash db h = elim (Bool-cases (env.down Call.touch_session)) [
    | inl down ↦ rw down h
    | inr up ↦ rw up (
        update_session-Kept hash (λ s. record s { last_used_at = env.db_now }) db.sessions
          (λ s this k. record {
            before = k.before;
            there = k.there;
            same_token = k.same_token;
            same_user = k.same_user;
            same_end = k.same_end;
            reauth = k.reauth;
          })
          h)
  ]
