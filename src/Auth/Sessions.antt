-- ===== src/Auth/Sessions.antt =====
-- Registration, login and the profile, one after the other, at the endpoints of app/api/auth.py.
use trabalho_devops.Prelude.{
  ◌+◌, ◌*◌, ◌≤◌, ◌≡◌, refl, sym, ap, ◌∙◌, Text, false, inl, inr, Option, none, some, List, [], ◌∷◌,
  arith,
}
use trabalho_devops.Exec.{Result, ok, err, reraised}
use trabalho_devops.Exec.Laws.{Result-cases}
use trabalho_devops.Store.{Session}
use trabalho_devops.Table.{find, insert}
use trabalho_devops.Auth.Models.{
  user, admin, User, user_key, UserRegisterRequest, LoginRequest, TokenResponse,
  UserProfileResponse, Settings, violates_indexes, Error,
}
use trabalho_devops.Auth.Libraries.{Libraries, IsFaithful}
use trabalho_devops.Auth.Service.{find_email, normalize_email, register_user}
use trabalho_devops.Auth.Api.{answer, profile_of, register, login, get_me}
use trabalho_devops.Auth.Directory.{find-insert, find_email-insert}
use trabalho_devops.Auth.Registration.{
  new_user, register_user-ok, register_user_free, token_of, authenticate_user_lem,
}
use trabalho_devops.Auth.Access.{validated, IsGranted, require_roles_iff}

pub reraised-ok :
    {E F A : Type 0} (f : E → F) (r : Result E A) (a : A) → reraised f r ≡ ok a → r ≡ ok a
reraised-ok f (ok b) a h = ground arith
reraised-ok f (err e) a h = absurd (ground arith)

module _ {J : Type 0} (lib : Libraries J) where
  -- A registration that answers with a profile has committed the account that it makes.
  record IsRegistered (payload : UserRegisterRequest) (s : Session (List User))
      (p : UserProfileResponse) : Type 0 where
    pub profile : p ≡ profile_of (new_user lib payload s.env)
    pub free : find_email (normalize_email payload.email) s.working ≡ none
    pub kept : violates_indexes (insert (new_user lib payload s.env) s.working) ≡ false
    pub stored :
        (register lib payload s).1.committed ≡ insert (new_user lib payload s.env) s.working

  register_free :
      (payload : UserRegisterRequest) (s : Session (List User))
      → find_email (normalize_email payload.email) s.working ≡ none
      → violates_indexes (insert (new_user lib payload s.env) s.working) ≡ false
      → ((register lib payload s).0 ≡ ok (profile_of (new_user lib payload s.env)))
        × ((register lib payload s).1.committed ≡ insert (new_user lib payload s.env) s.working)
  unfolding register
  register_free payload s free kept = rw (register_user_free lib payload s free kept) (refl, refl)

  register_failed :
      (payload : UserRegisterRequest) (s : Session (List User)) (e : Error)
      → (register_user lib payload s).0 ≡ err e
      → (register lib payload s).0 ≡ err (answer e)
  unfolding register
  register_failed payload s e failed = rw failed refl

  registered :
      (payload : UserRegisterRequest) (s : Session (List User)) (p : UserProfileResponse) (u : User)
      → (register_user lib payload s).0 ≡ ok u
      → (register lib payload s).0 ≡ ok p
      → IsRegistered payload s p
  registered payload s p u done h =
      let (free, kept) = register_user-ok lib payload s u done in
      let (answered, stored) = register_free payload s free kept in
      record { profile = cc; free = free; kept = kept; stored = stored }

  register-ok :
      (payload : UserRegisterRequest) (s : Session (List User)) (p : UserProfileResponse)
      → (register lib payload s).0 ≡ ok p
      → IsRegistered payload s p
  register-ok payload s p h = elim (Result-cases (register_user lib payload s).0) [
    | inl (u, done) ↦ registered payload s p u done h
    | inr (e, failed) ↦ absurd (cc (register_failed payload s e failed))
  ]

  module _ (faithful : IsFaithful lib) (settings : Settings) where
    granted :
        (payload : UserRegisterRequest) (l : LoginRequest) (s s2 s3 : Session (List User))
        → find user_key (new_user lib payload s.env).id s3.working
          ≡ some (new_user lib payload s.env)
        → s3.env.times s3.env.ticks
          ≤ s2.env.times s2.env.ticks + settings.access_token_expire_minutes * 60000
        → IsGranted lib settings
            (user ∷ admin ∷ [])
            (some (token_of lib settings l s2 (new_user lib payload s.env)).access_token)
            (new_user lib payload s.env)
            s3
    granted payload l s s2 s3 here early =
        let u = new_user lib payload s.env in
        let (j, claims, decoded, valid, sub, role) =
          faithful.decode-encode (s3.env.times s3.env.ticks) u.id u.role _ settings.jwt_secret
            settings.jwt_algorithm early in
        record {
          token = (token_of lib settings l s2 u).access_token;
          presented = refl;
          claims = claims;
          decoded = ap (validated lib settings) decoded ∙ valid;
          stored = rw sub here;
          active = refl;
          allowed = inl refl;
        }

    get_me_granted :
        (credentials : Option Text) (u : User) (s : Session (List User))
        → IsGranted lib settings (user ∷ admin ∷ []) credentials u s
        → (get_me lib settings credentials s).0 ≡ ok (profile_of u)
    unfolding get_me
    get_me_granted credentials u s g =
        rw ((require_roles_iff lib settings (user ∷ admin ∷ []) s credentials u).1 g) refl

    login_registered :
        (payload : UserRegisterRequest) (l : LoginRequest) (s s2 : Session (List User))
        → find_email (normalize_email payload.email) s2.working ≡ some (new_user lib payload s.env)
        → normalize_email l.email ≡ normalize_email payload.email
        → l.password ≡ payload.password
        → (login lib settings l s2).0 ≡ ok (token_of lib settings l s2 (new_user lib payload s.env))
    unfolding login
    login_registered payload l s s2 here same known =
        rw
          (
            authenticate_user_lem lib settings l s2,
            same,
            here,
            known,
            faithful.verify-hash (s.env.uuids s.env.drawn) payload.password,
          )
          refl

    -- The token and the profile, written out.
    pub login-register_lem :
        (payload : UserRegisterRequest) (l : LoginRequest) (s s2 s3 : Session (List User))
        (p : UserProfileResponse)
        → (register lib payload s).0 ≡ ok p
        → normalize_email l.email ≡ normalize_email payload.email
        → l.password ≡ payload.password
        → s2.working ≡ (register lib payload s).1.committed
        → s3.working ≡ (register lib payload s).1.committed
        → s3.env.times s3.env.ticks
          ≤ s2.env.times s2.env.ticks + settings.access_token_expire_minutes * 60000
        → let t = token_of lib settings l s2 (new_user lib payload s.env) in
          ((login lib settings l s2).0 ≡ ok t)
          × ((get_me lib settings (some t.access_token) s3).0 ≡ ok p)
    login-register_lem payload l s s2 s3 p done same known from2 from3 early =
        let r = register-ok payload s p done in
        let u = new_user lib payload s.env in
        (
          login_registered payload l s s2
              (ap (find_email u.email) (from2 ∙ r.stored) ∙ find_email-insert u s.working r.free)
              same known,
          get_me_granted (some (token_of lib settings l s2 u).access_token) u s3 (
                granted payload l s s2 s3
                  (ap (find user_key u.id) (from3 ∙ r.stored) ∙ find-insert u s.working r.kept)
                  early)
              ∙ ap ok (sym r.profile),
        )

    -- The libraries being faithful: after a registration that answers with a profile, a login on
    -- what it has committed, with the same password and an address that is normalised to the same,
    -- gives a token; and until the token expires, `GET /auth/me` with it answers with that profile.
    pub login-register :
        (payload : UserRegisterRequest) (l : LoginRequest) (s s2 s3 : Session (List User))
        (p : UserProfileResponse)
        → (register lib payload s).0 ≡ ok p
        → normalize_email l.email ≡ normalize_email payload.email
        → l.password ≡ payload.password
        → s2.working ≡ (register lib payload s).1.committed
        → s3.working ≡ (register lib payload s).1.committed
        → s3.env.times s3.env.ticks
          ≤ s2.env.times s2.env.ticks + settings.access_token_expire_minutes * 60000
        → (t : TokenResponse) × ((login lib settings l s2).0 ≡ ok t)
          × ((get_me lib settings (some t.access_token) s3).0 ≡ ok p)
    login-register payload l s s2 s3 p done same known from2 from3 early =
        let (given, served) =
          login-register_lem payload l s s2 s3 p done same known from2 from3 early in
        (token_of lib settings l s2 (new_user lib payload s.env), given, served)
