-- ===== src/Tests/Accounts.antt =====
-- auth-service and the gateway with a small library of tokens: Ana registers, logs in and reads her
-- profile.
use trabalho_devops.Prelude.{
  ℕ, ◌≡◌, ◌↔◌, refl, String, Text, text_eq, text_eq_refl, codes, Bool, true, false, str_eq, leb,
  Option, none, some, List, [], ◌∷◌, if◌then◌else◌, arith,
}
use trabalho_devops.Exec.{ok}
use trabalho_devops.Store.{Env, Session, close}
use trabalho_devops.Table.{find}
use trabalho_devops.Auth.Models.{
  UserRole, user, admin, role_value, User, user_key, UserRegisterRequest, LoginRequest,
  TokenResponse, TokenClaims, UserProfileResponse, Settings,
}
use trabalho_devops.Auth.Libraries.{Libraries, IsFaithful}
use trabalho_devops.Auth.Service.{find_email, normalize_email, register_user, authenticate_user}
use trabalho_devops.Auth.Api.{register, login, get_me, require_roles}
use trabalho_devops.Auth.Access.{IsGranted, require_roles_iff}
use trabalho_devops.Auth.Sessions.{login-register}
use trabalho_devops.Auth.Login.{Outcome, login-Outcome}
use trabalho_devops.Auth.Requests.{
  Request, registration, logging_in, profile, handle, serve, empty, serve-IsReachable,
}

-- A token is its claims, then the secret.
abbrev pub flag : String → ℕ
flag role = if str_eq role "ADMIN" then 1 else 0

abbrev pub role_of : ℕ → UserRole
role_of n = if leb 1 n then admin else user

abbrev pub decode : ℕ → Text → Text → String → Option TokenClaims
decode now (sub ∷ role ∷ exp ∷ rest) secret algorithm =
    if text_eq rest secret
    then if leb now exp then some (record { sub = sub; role = role_of role; exp = exp }) else none
    else none
decode now _ secret algorithm = none

abbrev pub verify : Text → Text → Bool
verify password [] = false
verify password (salt ∷ hashed) = text_eq password hashed

abbrev pub lib : Libraries TokenClaims
lib = record {
  hash = λ salt password. salt ∷ password;
  verify = verify;
  encode = λ claims secret algorithm. claims.sub ∷ flag claims.role ∷ claims.exp ∷ secret;
  decode = decode;
  model_validate = λ claims. some claims;
}

flags : (role : UserRole) → role_of (flag (role_value role)) ≡ role
flags user = refl
flags admin = refl

pub lib-IsFaithful : IsFaithful lib
lib-IsFaithful = record {
  verify-hash = λ salt password. text_eq_refl password;
  decode-encode = λ now sub role exp secret algorithm early. (
    record { sub = sub; role = role_of (flag (role_value role)); exp = exp },
    record { sub = sub; role = role_of (flag (role_value role)); exp = exp },
    ground (arith, text_eq_refl secret),
    refl,
    refl,
    flags role,
  );
}

abbrev pub settings : Settings
settings = record {
  jwt_secret = codes "secret";
  jwt_algorithm = "HS256";
  access_token_expire_minutes = 60;
}

abbrev env : Env
env = record { uuids = λ n. n; drawn = 70; times = λ n. n; ticks = 500 }

abbrev pub start : Session (List User)
start = empty env

abbrev pub ana : UserRegisterRequest
ana = record { full_name = codes " Ana "; email = codes " Ana@X.br"; password = codes "12345678" }

abbrev pub ana_again : LoginRequest
ana_again = record { email = codes "ana@x.BR "; password = codes "12345678" }

abbrev pub ana_profile : UserProfileResponse
ana_profile = record {
  id = 71;
  full_name = codes "Ana";
  email = codes "ana@x.br";
  role = user;
  is_active = true;
  created_at = 500;
  updated_at = 500;
}

abbrev pub after : Session (List User)
after = close (register lib ana start).1

pub ana_registered : (register lib ana start).0 ≡ ok ana_profile
unfolding register normalize_email register_user
ana_registered = refl

pub same_address : normalize_email ana_again.email ≡ normalize_email ana.email
unfolding normalize_email
same_address = refl

login-register_example :
    (t : TokenResponse) × ((login lib settings ana_again after).0 ≡ ok t)
    × ((get_me lib settings (some t.access_token) after).0 ≡ ok ana_profile)
login-register_example =
    login-register lib lib-IsFaithful settings ana ana_again start after after ana_profile
      ana_registered same_address refl refl refl (omega arith)

login-Outcome_example :
    Outcome lib settings ana_again after (login lib settings ana_again after).0
    × ((login lib settings ana_again after).1.committed ≡ after.committed)
login-Outcome_example = login-Outcome lib settings ana_again after

abbrev ana_stored : User
ana_stored = record {
  id = 71;
  full_name = codes "Ana";
  email = codes "ana@x.br";
  password_hash = 70 ∷ codes "12345678";
  role = user;
  is_active = true;
  created_at = 500;
  updated_at = 500;
}

abbrev ana_token : Text
ana_token = 71 ∷ 0 ∷ 900 ∷ codes "secret"

require_roles_iff_example :
    ((require_roles lib settings (user ∷ []) (some ana_token) after).0 ≡ ok ana_stored)
    ↔ IsGranted lib settings (user ∷ []) (some ana_token) ana_stored after
require_roles_iff_example =
    require_roles_iff lib settings (user ∷ []) after (some ana_token) ana_stored

-- She registers twice, once in other letters.
abbrev twice : List Request
twice =
    registration ana
    ∷ registration (record ana { email = codes "ANA@x.br" })
    ∷ logging_in ana_again
    ∷ profile none
    ∷ []

ana_found : find user_key 71 (serve lib settings twice start).committed ≡ some ana_stored
unfolding serve handle register login get_me normalize_email register_user authenticate_user
ana_found = refl

serve-IsReachable_example :
    find_email (normalize_email ana_stored.email) (serve lib settings twice start).committed
    ≡ some ana_stored
serve-IsReachable_example = serve-IsReachable lib settings twice env 71 ana_stored ana_found
