-- ===== src/Auth/Access.antt =====
-- Who passes the checks of app/core/dependencies.py.
use trabalho_devops.Prelude.{
  ◌≡◌, refl, sym, ap, ◌∙◌, Text, Bool, true, false, inl, inr, ◌↔◌, Option-cases, Option, none, some,
  List, [], ◌∷◌, ◌⊎◌, arith,
}
use trabalho_devops.Exec.{Result, ok, err}
use trabalho_devops.Store.{Session}
use trabalho_devops.Table.{find}
use trabalho_devops.Auth.Models.{UserRole, user, admin, User, user_key, TokenClaims, Settings}
use trabalho_devops.Auth.Libraries.{Libraries}
use trabalho_devops.Auth.Service.{decode_access_token}
use trabalho_devops.Auth.Api.{is_allowed, require_roles}

-- One of the roles is this one.
abbrev pub HasRole : UserRole → List UserRole → Type 0
HasRole role [] = ⊥
HasRole role (r ∷ rs) = (role ≡ r) ⊎ HasRole role rs

is_allowed-HasRole :
    (role : UserRole) (roles : List UserRole) → is_allowed role roles ≡ true → HasRole role roles
is_allowed-HasRole role [] h = absurd (ground arith)
is_allowed-HasRole user (user ∷ rs) h = inl refl
is_allowed-HasRole admin (admin ∷ rs) h = inl refl
is_allowed-HasRole user (admin ∷ rs) h = inr (is_allowed-HasRole user rs h)
is_allowed-HasRole admin (user ∷ rs) h = inr (is_allowed-HasRole admin rs h)

HasRole-is_allowed :
    (role : UserRole) (roles : List UserRole) → HasRole role roles → is_allowed role roles ≡ true
HasRole-is_allowed role [] h = absurd h
HasRole-is_allowed user (user ∷ rs) h = refl
HasRole-is_allowed admin (admin ∷ rs) h = refl
HasRole-is_allowed user (admin ∷ rs) (inl h) = cc
HasRole-is_allowed user (admin ∷ rs) (inr h) = HasRole-is_allowed user rs h
HasRole-is_allowed admin (user ∷ rs) (inl h) = cc
HasRole-is_allowed admin (user ∷ rs) (inr h) = HasRole-is_allowed admin rs h

module _ {J : Type 0} (lib : Libraries J) (settings : Settings) where
  -- The claims of a token that decodes at the time of the session's next look at the clock.
  abbrev pub validated : Option J → Option TokenClaims
  validated none = none
  validated (some payload) = lib.model_validate payload

  abbrev pub claims_of : Text → Session (List User) → Option TokenClaims
  claims_of token s =
      validated
        (lib.decode (s.env.times s.env.ticks) token settings.jwt_secret settings.jwt_algorithm)

  -- The user of a token in one of the roles: the token decodes to claims of the user, who is
  -- active and has one of the roles in the database, whatever the role in the token.
  pub record IsGranted (roles : List UserRole) (credentials : Option Text) (u : User)
      (s : Session (List User)) : Type 0 where
    pub token : Text
    pub presented : credentials ≡ some token
    pub claims : TokenClaims
    pub decoded : claims_of token s ≡ some claims
    pub stored : find user_key claims.sub s.working ≡ some u
    pub active : u.is_active ≡ true
    pub allowed : HasRole u.role roles

  module _ (roles : List UserRole) (s : Session (List User)) where
    -- The user that passes the checks, by the claims.
    abbrev pass : Bool → Bool → User → Option User
    pass true true u = some u
    pass _ _ u = none

    abbrev passes : Option User → Option User
    passes none = none
    passes (some u) = pass u.is_active (is_allowed u.role roles) u

    abbrev outcome_of : Option TokenClaims → Option User
    outcome_of none = none
    outcome_of (some claims) = passes (find user_key claims.sub s.working)

    abbrev outcome : Option Text → Option User
    outcome none = none
    outcome (some token) = outcome_of (claims_of token s)

    abbrev returned : {E A : Type 0} → Result E A → Option A
    returned (ok a) = some a
    returned (err e) = none

    by_user :
        (token : Text) (payload : J) (claims : TokenClaims) (u : User) (active allowed : Bool)
        → lib.decode (s.env.times s.env.ticks) token settings.jwt_secret settings.jwt_algorithm
          ≡ some payload
        → lib.model_validate payload ≡ some claims
        → find user_key claims.sub s.working ≡ some u
        → u.is_active ≡ active
        → is_allowed u.role roles ≡ allowed
        → returned (require_roles lib settings roles (some token) s).0 ≡ passes (some u)
    unfolding require_roles decode_access_token
    by_user token payload claims u true true d v f a r = simp (d, v, f, a, r) refl
    by_user token payload claims u true false d v f a r = simp (d, v, f, a, r) refl
    by_user token payload claims u false allowed d v f a r = simp (d, v, f, a) refl

    by_claims :
        (token : Text) (payload : J) (claims : TokenClaims) (found : Option User)
        → lib.decode (s.env.times s.env.ticks) token settings.jwt_secret settings.jwt_algorithm
          ≡ some payload
        → lib.model_validate payload ≡ some claims
        → find user_key claims.sub s.working ≡ found
        → returned (require_roles lib settings roles (some token) s).0 ≡ outcome (some token)
    unfolding require_roles decode_access_token
    by_claims token payload claims none d v f = simp (d, v, f) refl
    by_claims token payload claims (some u) d v f =
        by_user token payload claims u _ _ d v f refl refl ∙ sym (simp (d, v, f) refl)

    by_payload :
        (token : Text) (payload : J) (valid : Option TokenClaims)
        → lib.decode (s.env.times s.env.ticks) token settings.jwt_secret settings.jwt_algorithm
          ≡ some payload
        → lib.model_validate payload ≡ valid
        → returned (require_roles lib settings roles (some token) s).0 ≡ outcome (some token)
    unfolding require_roles decode_access_token
    by_payload token payload none d v = simp (d, v) refl
    by_payload token payload (some claims) d v = by_claims token payload claims _ d v refl

    by_token :
        (token : Text) (decoded : Option J)
        → lib.decode (s.env.times s.env.ticks) token settings.jwt_secret settings.jwt_algorithm
          ≡ decoded
        → returned (require_roles lib settings roles (some token) s).0 ≡ outcome (some token)
    unfolding require_roles decode_access_token
    by_token token none d = simp (d) refl
    by_token token (some payload) d = by_payload token payload _ d refl

    require_roles_lem :
        (credentials : Option Text)
        → returned (require_roles lib settings roles credentials s).0 ≡ outcome credentials
    unfolding require_roles
    require_roles_lem none = refl
    require_roles_lem (some token) = by_token token _ refl

    returned-ok : {E A : Type 0} (r : Result E A) (a : A) → returned r ≡ some a → r ≡ ok a
    returned-ok (ok b) a h = ground arith
    returned-ok (err e) a h = absurd (ground arith)

    pass-some :
        (token : Text) (claims : TokenClaims) (v u : User) (active allowed : Bool)
        → claims_of token s ≡ some claims
        → find user_key claims.sub s.working ≡ some v
        → v.is_active ≡ active
        → is_allowed v.role roles ≡ allowed
        → pass active allowed v ≡ some u
        → IsGranted roles (some token) u s
    pass-some token claims v u true true d f a r h = record {
      token = token;
      presented = refl;
      claims = claims;
      decoded = d;
      stored = f ∙ h;
      active = cc;
      allowed = is_allowed-HasRole u.role roles (cc);
    }
    pass-some token claims v u true false d f a r h = absurd (ground arith)
    pass-some token claims v u false allowed d f a r h = absurd (ground arith)

    outcome-IsGranted :
        (credentials : Option Text) (u : User)
        → outcome credentials ≡ some u
        → IsGranted roles credentials u s
    outcome-IsGranted none u h = absurd (ground arith)
    outcome-IsGranted (some token) u h = elim (Option-cases (claims_of token s)) [
      | inl invalid ↦ absurd (cc)
      | inr (claims, d) ↦ elim (Option-cases (find user_key claims.sub s.working)) [
        | inl unknown ↦ absurd (cc)
        | inr (v, f) ↦
            pass-some token claims v u _ _ d f refl refl
              (sym (ap passes f) ∙ sym (ap outcome_of d) ∙ h)
      ]
    ]

    granted-outcome :
        (credentials : Option Text) (u : User)
        → IsGranted roles credentials u s
        → outcome credentials ≡ some u
    granted-outcome credentials u g =
        simp (g.presented, g.decoded, g.stored, g.active, HasRole-is_allowed u.role roles g.allowed)
          refl

    -- The checks of a route that requires one of the roles return exactly the users that are granted
    -- it.
    pub require_roles_iff :
        (credentials : Option Text) (u : User)
        → ((require_roles lib settings roles credentials s).0 ≡ ok u)
          ↔ IsGranted roles credentials u s
    require_roles_iff credentials u = (
      (λ h. outcome-IsGranted credentials u (sym (require_roles_lem credentials) ∙ ap returned h)),
      (λ g. returned-ok _ u (require_roles_lem credentials ∙ granted-outcome credentials u g)),
    )
