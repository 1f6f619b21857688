-- ===== src/Identity.antt =====
-- auth-service behind the gateway: a token that auth-service gives opens the gateway, which hands it
-- on to auth-service (auth-service/app/api/auth.py, gateway/app/services/security.py,
-- gateway/app/services/proxy_service.py).
use trabalho_devops.Prelude.{
  ℕ, ◌+◌, ◌*◌, ◌≤◌, ◌≡◌, refl, ap, ◌∙◌, Text, codes, false, Option, some, List, [], ◌∷◌, ◌++◌,
}
use mathlib.Core.Path.{subst}
use trabalho_devops.Exec.{Result, ok}
use trabalho_devops.Store.{Session}
use trabalho_devops.Auth.Models as Account
use trabalho_devops.Auth.Models.{
  User, UserRegisterRequest, LoginRequest, TokenResponse, TokenClaims, UserProfileResponse,
  role_value,
}
use trabalho_devops.Auth.Libraries as Tokens
use trabalho_devops.Auth.Service.{normalize_email}
use trabalho_devops.Auth.Api.{register, login, get_me}
use trabalho_devops.Auth.Registration.{new_user, token_of}
use trabalho_devops.Auth.Sessions.{login-register_lem}
use trabalho_devops.Gateway.Models.{
  get, auth, Headers, Request, Upstream, Response, Failure, GatewayTokenClaims, Settings,
}
use trabalho_devops.Gateway.Security.{header, Libraries, require_roles}
use trabalho_devops.Gateway.Proxy.{call_of}
use trabalho_devops.Gateway.Routes.{public_routes, dispatch}
use trabalho_devops.Gateway.Headers.{last_header, header-build_downstream_headers}
use trabalho_devops.Gateway.Relaying.{relay-state}

-- The two services use the same libraries and secret, and read the same claims.
pub record Agree {J : Type 0} (a : Tokens.Libraries J) (g : Libraries J) (sa : Account.Settings)
    (sg : Settings) : Type 0 where
  pub decode :
      (now : ℕ) (token : Text)
      → g.decode now token sg.jwt_secret sg.jwt_algorithm
        ≡ a.decode now token sa.jwt_secret sa.jwt_algorithm
  pub model_validate :
      (payload : J) (claims : TokenClaims)
      → a.model_validate payload ≡ some claims
      → (c : GatewayTokenClaims) × (g.model_validate payload ≡ some c)
        × (c.role ≡ role_value claims.role)

abbrev pub bearer : Text → Text
bearer token = codes "Bearer " ++ token

-- `GET /api/auth/me`
abbrev pub me_request : Headers → Request
me_request headers = record {
  method = get;
  path = codes "api" ∷ codes "auth" ∷ codes "me" ∷ [];
  query_params = [];
  headers = headers;
  body = [];
}

module _ {J : Type 0} (g : Libraries J) (settings : Settings) (now : ℕ) where
  require_roles_ok :
      (request : Request) (c : ℕ) (cs : Text) (payload : J) (claims : GatewayTokenClaims)
      → header (codes "authorization") request.headers ≡ some (bearer (c ∷ cs))
      → g.decode now (c ∷ cs) settings.jwt_secret settings.jwt_algorithm ≡ some payload
      → g.model_validate payload ≡ some claims
      → claims.role ≡ "USER"
      → require_roles g settings now ("USER" ∷ "ADMIN" ∷ []) request [] ≡ (ok claims, [])
  unfolding require_roles
  require_roles_ok request c cs payload claims here decoded valid role =
      simp (here, decoded, valid, role) refl

  me_dispatched :
      (client : Upstream → Result Failure Response) (correlation_id : Text) (headers : Headers)
      (claims : GatewayTokenClaims)
      → require_roles g settings now ("USER" ∷ "ADMIN" ∷ []) (me_request headers) []
        ≡ (ok claims, [])
      → (dispatch g settings client now correlation_id
          (me_request headers)
          public_routes
          false
          []).1
        ≡ call_of correlation_id (me_request headers) auth (codes "auth" ∷ codes "me" ∷ []) ∷ []
  unfolding dispatch public_routes
  me_dispatched client correlation_id headers claims passed = rw passed (
      relay-state g settings client now correlation_id (me_request headers) _
        (call_of correlation_id (me_request headers) auth (codes "auth" ∷ codes "me" ∷ []) ∷ []))

module _ {J : Type 0} (a : Tokens.Libraries J) (g : Libraries J) (sa : Account.Settings)
    (sg : Settings) (faithful : Tokens.IsFaithful a) (agree : Agree a g sa sg) where
  -- The token of a login after a registration passes the gateway's check.
  admitted :
      (payload : UserRegisterRequest) (l : LoginRequest) (s s2 : Session (List User)) (now c : ℕ)
      (cs : Text) (request : Request)
      → now ≤ s2.env.times s2.env.ticks + sa.access_token_expire_minutes * 60000
      → (token_of a sa l s2 (new_user a payload s.env)).access_token ≡ c ∷ cs
      → header (codes "authorization") request.headers ≡ some (bearer (c ∷ cs))
      → (claims : GatewayTokenClaims) × (require_roles g sg now ("USER" ∷ "ADMIN" ∷ []) request []
          ≡ (ok claims, []))
  admitted payload l s s2 now c cs request early token here =
      let u = new_user a payload s.env in
      let (j, found, decoded, valid, sub, role) =
        faithful.decode-encode now u.id u.role _ sa.jwt_secret sa.jwt_algorithm early in
      let (claims, read, same) = agree.model_validate j found valid in
      (
        claims,
        require_roles_ok g sg now request c cs j claims here
            (agree.decode now (c ∷ cs)
              ∙ subst (λ x. a.decode now x sa.jwt_secret sa.jwt_algorithm ≡ some j) token decoded)
            read (same ∙ ap role_value role),
      )

  -- The libraries being faithful, the two services having the same settings of tokens, and
  -- `security` taking the token from a bearer header as HTTPBearer does: after a registration that
  -- answers with a profile and a login on what it has committed, with the same password and an
  -- address that is normalised to the same, until the token expires: the gateway makes one call for
  -- `GET /api/auth/me` with that token as the only Authorization header, and `GET /auth/me` with the
  -- headers of the call answers with the profile.
  pub get_me-dispatch :
      (payload : UserRegisterRequest) (l : LoginRequest) (s s2 s3 : Session (List User))
      (p : UserProfileResponse) (t : TokenResponse) (now c : ℕ) (cs : Text) (headers : Headers)
      (client : Upstream → Result Failure Response) (correlation_id : Text)
      (security : Option Text → Option Text)
      → (register a payload s).0 ≡ ok p
      → normalize_email l.email ≡ normalize_email payload.email
      → l.password ≡ payload.password
      → s2.working ≡ (register a payload s).1.committed
      → s3.working ≡ (register a payload s).1.committed
      → (login a sa l s2).0 ≡ ok t
      → t.access_token ≡ c ∷ cs
      → now ≤ s2.env.times s2.env.ticks + sa.access_token_expire_minutes * 60000
      → s3.env.times s3.env.ticks
        ≤ s2.env.times s2.env.ticks + sa.access_token_expire_minutes * 60000
      → header (codes "authorization") headers ≡ some (bearer (c ∷ cs))
      → last_header (codes "authorization") headers ≡ some (bearer (c ∷ cs))
      → security (some (bearer (c ∷ cs))) ≡ some (c ∷ cs)
      → ((dispatch g sg client now correlation_id (me_request headers) public_routes false []).1
          ≡ call_of correlation_id (me_request headers) auth (codes "auth" ∷ codes "me" ∷ []) ∷ [])
        × ((get_me a sa
              (security (
                header
                  (codes "authorization")
                  (call_of correlation_id
                    (me_request headers)
                    auth
                    (codes "auth" ∷ codes "me" ∷ [])).headers))
              s3).0
            ≡ ok p)
  unfolding call_of
  get_me-dispatch payload l s s2 s3 p t now c cs headers client correlation_id security done same
        known from2 from3 logged token early early3 first last cut =
      let u = new_user a payload s.env in
      let (given, served) =
        login-register_lem a faithful sa payload l s s2 s3 p done same known from2 from3 early3 in
      let written : (token_of a sa l s2 u).access_token ≡ c ∷ cs = cc (given, logged, token) in
      let (claims, passed) =
        admitted payload l s s2 now c cs (me_request headers) early written first in
      (
        me_dispatched g sg now client correlation_id headers claims passed,
        ap (λ o. (get_me a sa o s3).0)
              (ap security (
                  header-build_downstream_headers correlation_id (me_request headers)
                    (codes "authorization")
                  ∙ last)
                ∙ cut)
            ∙ subst (λ x. (get_me a sa (some x) s3).0 ≡ ok p) written served,
      )
