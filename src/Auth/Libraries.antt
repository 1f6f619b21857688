-- ===== src/Auth/Libraries.antt =====
-- What app/core/security.py calls: passlib's CryptContext, python-jose's jwt, and pydantic's
-- validation of the claims. Times are in milliseconds.
use trabalho_devops.Prelude.{ℕ, ◌≡◌, ◌≤◌, String, Text, Bool, true, Option, some}
use trabalho_devops.Auth.Models.{UserRole, role_value, TokenClaims}

-- The claims that `create_access_token` puts together.
pub record Claims : Type 0 where
  pub sub : ℕ
  pub role : String
  pub exp : ℕ

-- `J` is the type of decoded payloads.
pub record Libraries (J : Type 0) : Type 0 where
  -- `pwd_context.hash`, with the salt that it draws, and `pwd_context.verify`
  pub hash : ℕ → Text → Text
  pub verify : Text → Text → Bool
  -- `jwt.encode`, and `jwt.decode` at a time, which raises JWTError
  pub encode : Claims → Text → String → Text
  pub decode : ℕ → Text → Text → String → Option J
  -- `TokenClaims.model_validate`
  pub model_validate : J → Option TokenClaims

-- A password matches its hash, whatever the salt; a token that has not expired decodes, under the
-- secret and the algorithm it was made with, to claims of its subject and its role.
pub record IsFaithful {J : Type 0} (lib : Libraries J) : Type 0 where
  pub verify-hash :
      (salt : ℕ) (password : Text) → lib.verify password (lib.hash salt password) ≡ true
  pub decode-encode :
      (now : ℕ) (sub : ℕ) (role : UserRole) (exp : ℕ) (secret : Text) (algorithm : String)
      → now ≤ exp
      → (payload : J) × (claims : TokenClaims) × (lib.decode now
            (lib.encode (record { sub = sub; role = role_value role; exp = exp }) secret algorithm)
            secret
            algorithm
          ≡ some payload)
        × (lib.model_validate payload ≡ some claims)
        × (claims.sub ≡ sub)
        × (claims.role ≡ role)
