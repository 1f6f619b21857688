-- ===== src/Auth/Service.antt =====
-- app/repositories/user_repository.py, app/core/security.py and app/services/user_service.py.
use trabalho_devops.Prelude.{
  ℕ, ◌+◌, ◌*◌, Text, text_eq, strip, lower, Bool, true, false, Option, none, some, List, [], ◌∷◌,
  if◌then◌else◌,
}
use trabalho_devops.Exec.{Exec, pure, raise, raise_if, raise_unless, or_raise, ◌>>=◌, ◌>>◌}
use trabalho_devops.Store.{Session, uuid4, utc_now, query, write, commit}
use trabalho_devops.Table.{find, insert}
use trabalho_devops.Auth.Models.{
  UserRole, user, role_value, User, user_key, UserRegisterRequest, LoginRequest, TokenResponse,
  TokenClaims, Error, duplicate_email, authentication, inactive_user, integrity, invalid_token,
  missing_claims, Settings, violates_indexes,
}
use trabalho_devops.Auth.Libraries.{Libraries}

abbrev pub Op : Type 0 → Type 0
Op A = Exec Error (Session (List User)) A

abbrev pub find_email : Text → List User → Option User
find_email email [] = none
find_email email (u ∷ us) = if text_eq u.email email then some u else find_email email us

unfoldable pub get_user_by_email : Text → Op (Option User)
get_user_by_email email = query (find_email email)

unfoldable pub get_user_by_id : {E : Type 0} → ℕ → Exec E (Session (List User)) (Option User)
get_user_by_id user_id = query (find user_key user_id)

unfoldable pub add_user : User → Op User
add_user u = write (insert u) >> pure u

-- `session.commit()` after an insertion: the indexes are checked first.
abbrev pub commit_users : Op (Unit {0})
commit_users = do
  users ← query (λ (us : List User). us)
  raise_if (violates_indexes users) integrity
  commit

unfoldable pub normalize_email : Text → Text
normalize_email email = lower (strip email)

abbrev pub is_some : {A : Type 0} → Option A → Bool
is_some none = false
is_some (some a) = true

module _ {J : Type 0} (lib : Libraries J) where
  -- The salt comes from the same source of random values as the identifiers.
  unfoldable pub hash_password : Text → Op Text
  hash_password password = do salt ← uuid4; pure (lib.hash salt password)

  unfoldable pub verify_password : Text → Text → Bool
  verify_password plain_password hashed_password = lib.verify plain_password hashed_password

  unfoldable pub register_user : UserRegisterRequest → Op User
  unfolding get_user_by_email add_user normalize_email hash_password
  register_user payload = do
    let normalized_email = normalize_email payload.email
    existing_user ← get_user_by_email normalized_email
    raise_if (is_some existing_user) duplicate_email
    password_hash ← hash_password payload.password
    id ← uuid4
    now ← utc_now
    u ← add_user (record {
      id = id;
      full_name = strip payload.full_name;
      email = normalized_email;
      password_hash = password_hash;
      role = user;
      is_active = true;
      created_at = now;
      updated_at = now;
    })
    commit_users
    pure u

  -- The user, if there is one and the password is theirs.
  unfoldable pub check_password : Text → Option User → Op User
  unfolding verify_password
  check_password password none = raise authentication
  check_password password (some u) = do
    raise_unless (verify_password password u.password_hash) authentication
    pure u

  module _ (settings : Settings) where
    unfoldable pub create_access_token : ℕ → UserRole → Op Text
    create_access_token subject role = do
      now ← utc_now
      pure (
          lib.encode
            (record {
              sub = subject;
              role = role_value role;
              exp = now + settings.access_token_expire_minutes * 60000;
            })
            settings.jwt_secret settings.jwt_algorithm)

    unfoldable pub decode_access_token : Text → Op TokenClaims
    decode_access_token token = do
      now ← utc_now
      payload ←
          or_raise (lib.decode now token settings.jwt_secret settings.jwt_algorithm) invalid_token
      or_raise (lib.model_validate payload) missing_claims

    unfoldable pub authenticate_user : LoginRequest → Op TokenResponse
    unfolding get_user_by_email normalize_email check_password create_access_token
    authenticate_user payload = do
      found ← get_user_by_email (normalize_email payload.email)
      u ← check_password payload.password found
      raise_unless u.is_active inactive_user
      token ← create_access_token u.id u.role
      pure (record {
        access_token = token;
        token_type = "bearer";
        expires_in = settings.access_token_expire_minutes * 60;
      })
