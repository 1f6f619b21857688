-- ===== src/Tests/Entrance.antt =====
-- Ana at the gateway.
use trabalho_devops.Prelude.{
  ◌+◌, ◌*◌, ◌≤◌, ◌≡◌, refl, Text, codes, false, lower, get_or, text_eq, if◌then◌else◌, Option, none,
  some, [], ◌∷◌, arith,
}
use trabalho_devops.Exec.{Result, ok}
use trabalho_devops.Auth.Models.{TokenResponse, TokenClaims, role_value}
use trabalho_devops.Auth.Service.{normalize_email, register_user, authenticate_user}
use trabalho_devops.Auth.Api.{register, login, get_me}
use trabalho_devops.Gateway.Models.{
  patch, auth, Headers, Request, Upstream, Response, Failure, Settings,
}
use trabalho_devops.Gateway.Security.{header, Libraries}
use trabalho_devops.Gateway.Proxy.{name_in, forwarded_headers, call_of, build_downstream_headers}
use trabalho_devops.Gateway.Routes.{public_routes, dispatch}
use trabalho_devops.Gateway.Headers.{last_header, header-build_downstream_headers}
use trabalho_devops.Gateway.Relaying.{Relayed, dispatch-Relayed}
use trabalho_devops.Identity.{Agree, bearer, me_request, get_me-dispatch}
use trabalho_devops.Tests.Accounts.{
  decode, lib, lib-IsFaithful, start, ana, ana_again, ana_profile, after, ana_registered,
  same_address,
}
use trabalho_devops.Tests.Accounts as Accounts

abbrev door : Libraries TokenClaims
door = record {
  decode = decode;
  model_validate =
      λ claims. some (record { sub = claims.sub; role = role_value claims.role; exp = claims.exp });
}

abbrev settings : Settings
settings = record { jwt_secret = codes "secret"; jwt_algorithm = "HS256" }

agree : Agree lib door Accounts.settings settings
agree = record {
  decode = λ now token. refl;
  model_validate = λ payload claims e.
      (record { sub = payload.sub; role = role_value payload.role; exp = payload.exp }, refl, cc);
}

abbrev token : Text
token = 71 ∷ 0 ∷ 3600501 ∷ codes "secret"

abbrev headers : Headers
headers =
    (codes "host", codes "gateway")
    ∷ (codes "authorization", bearer token)
    ∷ (codes "x-correlation-id", codes "c1")
    ∷ []

abbrev answering : Upstream → Result Failure Response
answering call = ok (record { status_code = 200; content_type = none; content = [] })

abbrev ana_session : TokenResponse
ana_session = record { access_token = token; token_type = "bearer"; expires_in = 3600 }

logged_in : (login lib Accounts.settings ana_again after).0 ≡ ok ana_session
unfolding login normalize_email register register_user authenticate_user
logged_in = refl

in_time :
    600 ≤ after.env.times after.env.ticks + Accounts.settings.access_token_expire_minutes * 60000
unfolding register register_user
in_time = omega arith

-- What HTTPBearer does with this one header.
abbrev security : Option Text → Option Text
security none = none
security (some value) = some token

abbrev call : Upstream
call = call_of (codes "-") (me_request headers) auth (codes "auth" ∷ codes "me" ∷ [])

get_me-dispatch_example :
    ((dispatch door settings answering 600
        (codes "-")
        (me_request headers)
        public_routes
        false
        []).1
      ≡ call ∷ [])
    × ((get_me lib Accounts.settings
          (security (header (codes "authorization") call.headers))
          after).0
        ≡ ok ana_profile)
get_me-dispatch_example =
    get_me-dispatch lib door Accounts.settings settings lib-IsFaithful agree ana ana_again start
      after after ana_profile ana_session 600 71 (0 ∷ 3600501 ∷ codes "secret") headers answering
      (codes "-") security ana_registered same_address refl refl refl logged_in refl in_time
      (omega arith) refl refl refl

header-build_downstream_headers_example :
    header (codes "authorization") (build_downstream_headers (codes "-") (me_request headers)) ≡ (
      if text_eq (codes "X-Correlation-ID") (codes "authorization")
      then some (get_or (header (codes "x-correlation-id") headers) (codes "-"))
      else if name_in (lower (codes "authorization")) forwarded_headers
      then last_header (codes "authorization") headers
      else none)
header-build_downstream_headers_example =
    header-build_downstream_headers (codes "-") (me_request headers) (codes "authorization")

-- A change of an item's status.
abbrev change : Request
change = record {
  method = patch;
  path = codes "api" ∷ codes "items" ∷ codes "9" ∷ codes "status" ∷ [];
  query_params = [];
  headers = headers;
  body = codes "{}";
}

dispatch-Relayed_example :
    Relayed door settings 600 change
      (dispatch door settings answering 600 (codes "-") change public_routes false []).1
dispatch-Relayed_example = dispatch-Relayed door settings answering 600 (codes "-") change
