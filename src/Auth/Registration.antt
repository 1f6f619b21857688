-- ===== src/Auth/Registration.antt =====
-- What `register_user` and `authenticate_user` of app/services/user_service.py end in.
use trabalho_devops.Prelude.{
  ◌+◌, ◌*◌, ◌≡◌, refl, strip, Bool, true, false, inl, inr, Bool-cases, Option-cases, Option, none,
  some, List,
}
use trabalho_devops.Exec.{Result, ok, err}
use trabalho_devops.Store.{Env, Session}
use trabalho_devops.Table.{insert}
use trabalho_devops.Auth.Models.{
  user, role_value, User, UserRegisterRequest, LoginRequest, TokenResponse, Error, duplicate_email,
  authentication, inactive_user, integrity, Settings, violates_indexes,
}
use trabalho_devops.Auth.Libraries.{Libraries}
use trabalho_devops.Auth.Service.{find_email, normalize_email, register_user, authenticate_user}

module _ {J : Type 0} (lib : Libraries J) where
  -- The account that a registration makes.
  abbrev pub new_user : UserRegisterRequest → Env → User
  new_user payload env = record {
    id = env.uuids (env.drawn + 1);
    full_name = strip payload.full_name;
    email = normalize_email payload.email;
    password_hash = lib.hash (env.uuids env.drawn) payload.password;
    role = user;
    is_active = true;
    created_at = env.times env.ticks;
    updated_at = env.times env.ticks;
  }

  abbrev later : Env → Env
  later env = record env { drawn = env.drawn + 1 + 1; ticks = env.ticks + 1 }

  -- The session with a new account, before the commit.
  abbrev pub with_user : UserRegisterRequest → Session (List User) → Session (List User)
  with_user payload s = record s {
    working = insert (new_user payload s.env) s.working;
    env = later s.env;
  }

  module _ (payload : UserRegisterRequest) (s : Session (List User)) where
    pub register_user_taken :
        (u : User)
        → find_email (normalize_email payload.email) s.working ≡ some u
        → register_user lib payload s ≡ (err duplicate_email, s)
    unfolding register_user
    register_user_taken u taken = rw taken refl

    pub register_user_refused :
        find_email (normalize_email payload.email) s.working ≡ none
        → violates_indexes (insert (new_user payload s.env) s.working) ≡ true
        → register_user lib payload s ≡ (err integrity, with_user payload s)
    unfolding register_user
    register_user_refused free violated = rw (free, violated) refl

    pub register_user_free :
        find_email (normalize_email payload.email) s.working ≡ none
        → violates_indexes (insert (new_user payload s.env) s.working) ≡ false
        → register_user lib payload s ≡ (
          ok (new_user payload s.env),
          record (with_user payload s) { committed = (with_user payload s).working },
        )
    unfolding register_user
    register_user_free free kept = rw (free, kept) refl

    -- A registration that succeeds has found the address free, and the indexes kept.
    pub register_user-ok :
        (u : User)
        → (register_user lib payload s).0 ≡ ok u
        → (find_email (normalize_email payload.email) s.working ≡ none)
          × (violates_indexes (insert (new_user payload s.env) s.working) ≡ false)
    register_user-ok u done =
        elim (Option-cases (find_email (normalize_email payload.email) s.working)) [
          | inr (v, taken) ↦ absurd (cc (register_user_taken v taken))
          | inl free ↦
              elim (Bool-cases (violates_indexes (insert (new_user payload s.env) s.working))) [
                | inl violated ↦ absurd (cc (register_user_refused free violated))
                | inr kept ↦ (free, kept)
              ]
        ]

  module _ (settings : Settings) (payload : LoginRequest) (s : Session (List User)) where
    -- The token that a login gives to a user.
    abbrev pub token_of : User → TokenResponse
    token_of u = record {
      access_token =
          lib.encode
            (record {
              sub = u.id;
              role = role_value u.role;
              exp = s.env.times s.env.ticks + settings.access_token_expire_minutes * 60000;
            })
            settings.jwt_secret settings.jwt_algorithm;
      token_type = "bearer";
      expires_in = settings.access_token_expire_minutes * 60;
    }

    -- The answer to a user, by whether the password is theirs and they are active.
    abbrev pub answer_to : Bool → Bool → User → Result Error TokenResponse
    answer_to false active u = err authentication
    answer_to true false u = err inactive_user
    answer_to true true u = ok (token_of u)

    abbrev pub login_result : Option User → Result Error TokenResponse
    login_result none = err authentication
    login_result (some u) = answer_to (lib.verify payload.password u.password_hash) u.is_active u

    login_found :
        (u : User) (right active : Bool)
        → find_email (normalize_email payload.email) s.working ≡ some u
        → lib.verify payload.password u.password_hash ≡ right
        → u.is_active ≡ active
        → (authenticate_user lib settings payload s).0 ≡ login_result (some u)
    unfolding authenticate_user
    login_found u true true known r a = simp (known, r, a) refl
    login_found u true false known r a = simp (known, r, a) refl
    login_found u false active known r a = simp (known, r) refl

    by_account :
        (found : Option User)
        → find_email (normalize_email payload.email) s.working ≡ found
        → (authenticate_user lib settings payload s).0 ≡ login_result found
    unfolding authenticate_user
    by_account none unknown = rw unknown refl
    by_account (some u) known = login_found u _ _ known refl refl

    pub authenticate_user_lem :
        (authenticate_user lib settings payload s).0
        ≡ login_result (find_email (normalize_email payload.email) s.working)
    authenticate_user_lem = by_account _ refl

    login_store :
        (u : User) (right active : Bool)
        → find_email (normalize_email payload.email) s.working ≡ some u
        → lib.verify payload.password u.password_hash ≡ right
        → u.is_active ≡ active
        → ((authenticate_user lib settings payload s).1.working ≡ s.working)
          × ((authenticate_user lib settings payload s).1.committed ≡ s.committed)
    unfolding authenticate_user
    login_store u true true known r a = simp (known, r, a) (refl, refl)
    login_store u true false known r a = simp (known, r, a) (refl, refl)
    login_store u false active known r a = simp (known, r) (refl, refl)

    -- A login stores nothing.
    pub authenticate_user-store :
        ((authenticate_user lib settings payload s).1.working ≡ s.working)
        × ((authenticate_user lib settings payload s).1.committed ≡ s.committed)
    unfolding authenticate_user
    authenticate_user-store =
        elim (Option-cases (find_email (normalize_email payload.email) s.working)) [
          | inl unknown ↦ rw unknown (refl, refl)
          | inr (u, known) ↦ login_store u _ _ known refl refl
        ]
