-- ===== src/Auth/Login.antt =====
-- Who is given a token by `POST /auth/login` of app/api/auth.py.
use trabalho_devops.Prelude.{
  String, ◌≡◌, refl, sym, ap, Bool, true, false, Option, none, some, List,
}
use mathlib.Core.Path.{subst}
use trabalho_devops.Exec.{Result, ok, err, reraised}
use trabalho_devops.Store.{Session}
use trabalho_devops.Auth.Models.{User, LoginRequest, TokenResponse, Settings, HttpException}
use trabalho_devops.Auth.Libraries.{Libraries}
use trabalho_devops.Auth.Service.{find_email, normalize_email}
use trabalho_devops.Auth.Api.{answer, login}
use trabalho_devops.Auth.Registration.{
  token_of, answer_to, login_result, authenticate_user_lem, authenticate_user-store,
}

module _ {J : Type 0} (lib : Libraries J) (settings : Settings) (payload : LoginRequest)
    (s : Session (List User)) where
  -- The active user of the address, whose password it is.
  pub record IsAdmitted (u : User) : Type 0 where
    pub known : find_email (normalize_email payload.email) s.working ≡ some u
    pub right : lib.verify payload.password u.password_hash ≡ true
    pub active : u.is_active ≡ true

  login_lem :
      (login lib settings payload s).0
      ≡ reraised answer (
          login_result lib settings payload s
            (find_email (normalize_email payload.email) s.working))
  unfolding login
  login_lem = ap (reraised answer) (authenticate_user_lem lib settings payload s)

  -- What a login's result is by its cases.
  pub data Outcome : Result HttpException TokenResponse → Type 0 where
    admitted : (u : User) → IsAdmitted u → Outcome (ok (token_of lib settings payload s u))
    refused :
        (detail : String)
        → ((u : User) → ¬ IsAdmitted u)
        → Outcome (err (record { status_code = 401; detail = detail }))

  by_user :
      (u : User) (right active : Bool)
      → find_email (normalize_email payload.email) s.working ≡ some u
      → lib.verify payload.password u.password_hash ≡ right
      → u.is_active ≡ active
      → Outcome (reraised answer (answer_to lib settings payload s right active u))
  by_user u true true k r a = admitted u record { known = k; right = r; active = a }
  by_user u true false k r a = refused _ (λ v g. cc (g.known, g.active))
  by_user u false active k r a = refused _ (λ v g. cc (g.known, g.right))

  by_account :
      (found : Option User)
      → find_email (normalize_email payload.email) s.working ≡ found
      → Outcome (reraised answer (login_result lib settings payload s found))
  by_account none k = refused _ (λ v g. cc g.known)
  by_account (some u) k = by_user u _ _ k refl refl

  -- A login answers with a token for the user that its address finds, if the password is theirs and
  -- they are active, and otherwise with status 401; it stores nothing.
  pub login-Outcome :
      Outcome (login lib settings payload s).0
      × ((login lib settings payload s).1.committed ≡ s.committed)
  unfolding login
  login-Outcome = (
    subst Outcome (sym login_lem) (by_account _ refl),
    (authenticate_user-store lib settings payload s).1,
  )
