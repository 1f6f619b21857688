-- ===== src/Gateway/Security.antt =====
-- app/services/security.py.
use trabalho_devops.Prelude.{
  ℕ, String, Text, text_eq, codes, lower, partition, Bool, true, false, not, ◌||◌, ◌&&◌, str_eq,
  Option, none, some, List, [], ◌∷◌,
}
use trabalho_devops.Exec.{Exec, pure, raise, raise_if, or_raise, ◌>>=◌, ◌>>◌}
use trabalho_devops.Gateway.Models.{
  Headers, Request, Upstream, GatewayTokenClaims, Error, authentication, authorization, Settings,
}

-- The calls that the gateway has made so far.
abbrev pub Op : Type 0 → Type 0
Op A = Exec Error (List Upstream) A

-- `headers.get(name)`, of a name in lower case
abbrev pub header : Text → Headers → Option Text
header name [] = none
header name ((n, v) ∷ hs) = elim (text_eq n name) [ true ↦ some v | false ↦ header name hs ]

abbrev pub is_empty : Text → Bool
is_empty [] = true
is_empty (c ∷ cs) = false

-- The token of a header that is there and is not empty.
unfoldable pub bearer_token : Text × Text → Op Text
bearer_token (scheme, token) = do
  raise_if (not (text_eq (lower scheme) (codes "bearer")) || is_empty token)
      (authentication "Cabeçalho Authorization inválido")
  pure token

unfoldable pub extract_bearer_token : Option Text → Op Text
unfolding bearer_token
extract_bearer_token none = raise (authentication "Token de acesso ausente")
extract_bearer_token (some []) = raise (authentication "Token de acesso ausente")
extract_bearer_token (some (c ∷ cs)) = bearer_token (partition b' ' (c ∷ cs))

abbrev pub role_in : String → List String → Bool
role_in role [] = false
role_in role (r ∷ rs) = str_eq role r || role_in role rs

abbrev pub is_nonempty : List String → Bool
is_nonempty [] = false
is_nonempty (r ∷ rs) = true

-- `jwt.decode` of python-jose at a time, which raises JWTError, and
-- `GatewayTokenClaims.model_validate` of pydantic; `J` is the type of decoded payloads.
pub record Libraries (J : Type 0) : Type 0 where
  pub decode : ℕ → Text → Text → String → Option J
  pub model_validate : J → Option GatewayTokenClaims

module _ {J : Type 0} (lib : Libraries J) (settings : Settings) (now : ℕ) where
  unfoldable pub decode_access_token : Text → Op GatewayTokenClaims
  decode_access_token token = do
    payload ←
        or_raise (lib.decode now token settings.jwt_secret settings.jwt_algorithm)
          (authentication "Token inválido ou expirado")
    or_raise (lib.model_validate payload) (authentication "Claims obrigatórias ausentes no token")

  unfoldable pub get_current_claims : Request → Op GatewayTokenClaims
  unfolding extract_bearer_token decode_access_token
  get_current_claims request = do
    token ← extract_bearer_token (header (codes "authorization") request.headers)
    decode_access_token token

  unfoldable pub require_roles : List String → Request → Op GatewayTokenClaims
  unfolding get_current_claims
  require_roles allowed_roles request = do
    claims ← get_current_claims request
    raise_if (is_nonempty allowed_roles && not (role_in claims.role allowed_roles)) authorization
    pure claims
