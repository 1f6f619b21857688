-- ===== src/Auth/Api.antt =====
-- app/core/dependencies.py and app/api/auth.py: the endpoints, and what they depend on.
use trabalho_devops.Prelude.{
  ℕ, String, Text, Bool, false, ◌||◌, str_eq, Option, none, some, List, [], ◌∷◌,
}
use trabalho_devops.Exec.{Exec, pure, raise, raise_unless, or_raise, reraise, ◌>>=◌, ◌>>◌}
use trabalho_devops.Store.{Session}
use trabalho_devops.Auth.Models.{
  UserRole, user, admin, role_value, User, UserRegisterRequest, LoginRequest, TokenResponse,
  TokenClaims, UserProfileResponse, Error, duplicate_email, authentication, inactive_user,
  integrity, invalid_token, missing_claims, HttpException, Settings,
}
use trabalho_devops.Auth.Libraries.{Libraries}
use trabalho_devops.Auth.Service.{
  get_user_by_id, decode_access_token, register_user, authenticate_user,
}

abbrev pub Handler : Type 0 → Type 0
Handler A = Exec HttpException (Session (List User)) A

abbrev pub http : ℕ → String → HttpException
http status_code detail = record { status_code = status_code; detail = detail }

-- The answer to each error: an `except` clause, or that of the framework to an exception that no
-- clause catches.
abbrev pub answer : Error → HttpException
answer duplicate_email = http 409 "Email já cadastrado"
answer authentication = http 401 "Email ou senha inválidos"
answer inactive_user = http 401 "Usuário inativo"
answer integrity = http 500 "Internal Server Error"
answer invalid_token = http 401 "Token inválido ou expirado"
answer missing_claims = http 401 "Claims obrigatórias ausentes no token"

-- `UserProfileResponse.model_validate(user)`
unfoldable pub profile_of : User → UserProfileResponse
profile_of u = record {
  id = u.id;
  full_name = u.full_name;
  email = u.email;
  role = u.role;
  is_active = u.is_active;
  created_at = u.created_at;
  updated_at = u.updated_at;
}

-- `role.value in {role.value for role in roles}`
abbrev pub is_allowed : UserRole → List UserRole → Bool
is_allowed role [] = false
is_allowed role (r ∷ rs) = str_eq (role_value role) (role_value r) || is_allowed role rs

module _ {J : Type 0} (lib : Libraries J) where
  unfoldable pub register : UserRegisterRequest → Handler UserProfileResponse
  unfolding profile_of
  register payload = do u ← reraise answer (register_user lib payload); pure (profile_of u)

module _ {J : Type 0} (lib : Libraries J) (settings : Settings) where
  -- The credentials are what FastAPI's HTTPBearer finds in the request.
  unfoldable pub get_current_token_claims : Option Text → Handler TokenClaims
  get_current_token_claims none = raise (http 401 "Credenciais não fornecidas")
  get_current_token_claims (some credentials) =
      reraise answer (decode_access_token lib settings credentials)

  unfoldable pub get_current_user : Option Text → Handler User
  unfolding get_current_token_claims get_user_by_id
  get_current_user credentials = do
    claims ← get_current_token_claims credentials
    found ← get_user_by_id claims.sub
    or_raise found (http 401 "Usuário do token não encontrado")

  unfoldable pub get_current_active_user : Option Text → Handler User
  unfolding get_current_user
  get_current_active_user credentials = do
    current_user ← get_current_user credentials
    raise_unless current_user.is_active (http 403 "Usuário inativo")
    pure current_user

  unfoldable pub require_roles : List UserRole → Option Text → Handler User
  unfolding get_current_active_user
  require_roles roles credentials = do
    current_user ← get_current_active_user credentials
    raise_unless (is_allowed current_user.role roles)
        (http 403 "Acesso negado para o perfil informado")
    pure current_user

  unfoldable pub login : LoginRequest → Handler TokenResponse
  login payload = reraise answer (authenticate_user lib settings payload)

  unfoldable pub get_me : Option Text → Handler UserProfileResponse
  unfolding require_roles profile_of
  get_me credentials = do
    current_user ← require_roles (user ∷ admin ∷ []) credentials
    pure (profile_of current_user)
