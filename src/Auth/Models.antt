-- ===== src/Auth/Models.antt =====
-- The data of auth-service: app/models/user.py, app/schemas/user.py, app/core/exceptions.py.
use trabalho_devops.Prelude.{ℕ, String, Text, text_eq, Bool, false, ◌==◌, ◌||◌, List, [], ◌∷◌}

pub data UserRole : Type 0 where
  user admin : UserRole

-- `role.value`
abbrev pub role_value : UserRole → String
role_value user = "USER"
role_value admin = "ADMIN"

pub record User : Type 0 where
  pub id : ℕ
  pub full_name : Text
  pub email : Text
  pub password_hash : Text
  pub role : UserRole
  pub is_active : Bool
  pub created_at : ℕ
  pub updated_at : ℕ

abbrev pub user_key : User → ℕ
user_key u = u.id

pub record UserRegisterRequest : Type 0 where
  pub full_name : Text
  pub email : Text
  pub password : Text

pub record LoginRequest : Type 0 where
  pub email : Text
  pub password : Text

pub record TokenResponse : Type 0 where
  pub access_token : Text
  pub token_type : String
  pub expires_in : ℕ

-- `exp` is in seconds, as the token has it.
pub record TokenClaims : Type 0 where
  pub sub : ℕ
  pub role : UserRole
  pub exp : ℕ

pub record UserProfileResponse : Type 0 where
  pub id : ℕ
  pub full_name : Text
  pub email : Text
  pub role : UserRole
  pub is_active : Bool
  pub created_at : ℕ
  pub updated_at : ℕ

-- What the service raises: its own three exceptions, SQLAlchemy's IntegrityError, and the two
-- ValueErrors of `decode_access_token`.
pub data Error : Type 0 where
  duplicate_email authentication inactive_user integrity invalid_token missing_claims : Error

-- `HTTPException`
pub record HttpException : Type 0 where
  pub status_code : ℕ
  pub detail : String

-- The values of app/core/config.py that the code reads.
pub record Settings : Type 0 where
  pub jwt_secret : Text
  pub jwt_algorithm : String
  pub access_token_expire_minutes : ℕ

-- The primary key of `users` and the unique index on its e-mail.
abbrev pub conflicts : User → User → Bool
conflicts u v = u.id == v.id || text_eq u.email v.email

abbrev pub conflicts_any : User → List User → Bool
conflicts_any u [] = false
conflicts_any u (v ∷ vs) = conflicts u v || conflicts_any u vs

abbrev pub violates_indexes : List User → Bool
violates_indexes [] = false
violates_indexes (u ∷ us) = conflicts_any u us || violates_indexes us
