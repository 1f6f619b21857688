-- ===== src/Auth/Requests.antt =====
-- The requests of app/api/auth.py in sequence, each in a session of its own, which `get_db` of
-- app/db/session.py closes at the end.
use trabalho_devops.Prelude.{
  ℕ, ◌≡◌, refl, sym, ap, ◌∙◌, Text, lower-strip_twice, false, inl, inr, Bool-cases, Option-cases,
  Option, none, some, List, [], ◌∷◌, All,
}
use mathlib.Core.Path.{subst}
use trabalho_devops.Exec.{reraised, or_raise}
use trabalho_devops.Exec.Laws.{bind-keeps, or_raise-keeps, continue-pure, raise_unless-keeps}
use trabalho_devops.Store.{Env, Session, close}
use trabalho_devops.Table.{find, insert}
use trabalho_devops.Auth.Models.{
  UserRole, user, admin, User, user_key, UserRegisterRequest, LoginRequest, Settings, invalid_token,
  violates_indexes,
}
use trabalho_devops.Auth.Libraries.{Libraries}
use trabalho_devops.Auth.Service.{find_email, normalize_email, decode_access_token, register_user}
use trabalho_devops.Auth.Api.{
  answer, profile_of, is_allowed, get_current_token_claims, get_current_user,
  get_current_active_user, require_roles, register, login, get_me,
}
use trabalho_devops.Auth.Directory.{IsNormal, find_email-find, All-insert, All-find}
use trabalho_devops.Auth.Registration.{
  new_user, register_user_taken, register_user_refused, register_user_free, authenticate_user-store,
}

pub data Request : Type 0 where
  registration : UserRegisterRequest → Request
  logging_in : LoginRequest → Request
  profile : Option Text → Request

-- No two users have the same identifier or address, and every address is normalised.
pub record IsDirectory (us : List User) : Type 0 where
  pub distinct : violates_indexes us ≡ false
  pub normal : All IsNormal us

abbrev pub empty : Env → Session (List User)
empty env = record { committed = []; working = []; env = env }

module _ {J : Type 0} (lib : Libraries J) (settings : Settings) where
  unfoldable pub handle : Request → Session (List User) → Session (List User)
  handle (registration payload) s = (register lib payload s).1
  handle (logging_in payload) s = (login lib settings payload s).1
  handle (profile credentials) s = (get_me lib settings credentials s).1

  unfoldable pub serve : List Request → Session (List User) → Session (List User)
  serve [] s = s
  serve (r ∷ rs) s = serve rs (close (handle r (close s)))

  register_user-IsDirectory :
      (payload : UserRegisterRequest) (s : Session (List User))
      → IsDirectory s.working
      → IsDirectory s.committed
      → IsDirectory (register_user lib payload s).1.committed
  unfolding normalize_email
  register_user-IsDirectory payload s w c =
      elim (Option-cases (find_email (normalize_email payload.email) s.working)) [
        | inr (u, taken) ↦ rw (register_user_taken lib payload s u taken) c
        | inl free ↦
            elim (Bool-cases (violates_indexes (insert (new_user lib payload s.env) s.working))) [
              | inl violated ↦ rw (register_user_refused lib payload s free violated) c
              | inr kept ↦ rw (register_user_free lib payload s free kept) record {
                distinct = kept;
                normal =
                    All-insert IsNormal (new_user lib payload s.env) s.working w.normal
                      (lower-strip_twice payload.email);
              }
            ]
      ]

  module _ (s : Session (List User)) where
    abbrev Same : Session (List User) → Type 0
    Same s' = s'.committed ≡ s.committed

    decoding : (token : Text) → Same (decode_access_token lib settings token s).1
    unfolding decode_access_token
    decoding token =
        bind-keeps _
          (or_raise
            (lib.decode (s.env.times s.env.ticks) token settings.jwt_secret settings.jwt_algorithm)
            invalid_token)
          _ Same (λ e h. or_raise-keeps Same _ _ _ refl)
          (λ payload h.
            or_raise-keeps Same _ _ (lib.model_validate payload) (or_raise-keeps Same _ _ _ refl))

    claiming :
        (credentials : Option Text) → Same (get_current_token_claims lib settings credentials s).1
    unfolding get_current_token_claims
    claiming none = refl
    claiming (some token) = decoding token

    get_current_user-committed :
        (credentials : Option Text) → Same (get_current_user lib settings credentials s).1
    unfolding get_current_user
    get_current_user-committed credentials =
        bind-keeps _ (get_current_token_claims lib settings credentials) s Same
          (λ e h. claiming credentials)
          (λ claims h. or_raise-keeps Same _ _ _ (claiming credentials))

    active_user-committed :
        (credentials : Option Text) → Same (get_current_active_user lib settings credentials s).1
    unfolding get_current_active_user
    active_user-committed credentials =
        bind-keeps _ (get_current_user lib settings credentials) s Same
          (λ e h. get_current_user-committed credentials)
          (λ u h.
            raise_unless-keeps Same _ _ _ u.is_active (get_current_user-committed credentials)
              (λ a. get_current_user-committed credentials))

    require_roles-committed :
        (roles : List UserRole) (credentials : Option Text)
        → Same (require_roles lib settings roles credentials s).1
    unfolding require_roles
    require_roles-committed roles credentials =
        bind-keeps _ (get_current_active_user lib settings credentials) s Same
          (λ e h. active_user-committed credentials)
          (λ u h.
            raise_unless-keeps Same _ _ _ (is_allowed u.role roles)
              (active_user-committed credentials) (λ a. active_user-committed credentials))

    get_me-committed : (credentials : Option Text) → Same (get_me lib settings credentials s).1
    unfolding get_me
    get_me-committed credentials =
        subst Same
          (sym (
            continue-pure profile_of
              (require_roles lib settings (user ∷ admin ∷ []) credentials s).0 _))
          (require_roles-committed (user ∷ admin ∷ []) credentials)

  register-store :
      (payload : UserRegisterRequest) (s : Session (List User))
      → (register lib payload s).1 ≡ (register_user lib payload s).1
  unfolding register
  register-store payload s =
      continue-pure profile_of (reraised answer (register_user lib payload s).0) _

  handle-IsDirectory :
      (r : Request) (s : Session (List User))
      → IsDirectory s.working
      → IsDirectory s.committed
      → IsDirectory (handle r s).committed
  unfolding handle register login
  handle-IsDirectory (registration payload) s w c =
      subst (λ (s' : Session (List User)). IsDirectory s'.committed)
        (sym (register-store payload s)) (register_user-IsDirectory payload s w c)
  handle-IsDirectory (logging_in payload) s w c =
      subst IsDirectory (sym ((authenticate_user-store lib settings payload s).1)) c
  handle-IsDirectory (profile credentials) s w c =
      subst IsDirectory (sym (get_me-committed s credentials)) c

  serve-IsDirectory :
      (rs : List Request) (s : Session (List User))
      → IsDirectory s.committed
      → IsDirectory (serve rs s).committed
  unfolding serve
  serve-IsDirectory [] s c = c
  serve-IsDirectory (r ∷ rs) s c = serve-IsDirectory rs _ (handle-IsDirectory r (close s) c c)

  -- Whatever registrations, logins and reads of a profile auth-service takes from an empty database,
  -- accepted or refused: each stored user is the one that a login with its own address finds, so
  -- that no two share an address.
  pub serve-IsReachable :
      (rs : List Request) (env : Env) (k : ℕ) (u : User)
      → find user_key k (serve rs (empty env)).committed ≡ some u
      → find_email (normalize_email u.email) (serve rs (empty env)).committed ≡ some u
  serve-IsReachable rs env k u here =
      let d = serve-IsDirectory rs (empty env) record { distinct = refl; normal = tt } in
      ap (λ e. find_email e (serve rs (empty env)).committed)
        (All-find IsNormal k u (serve rs (empty env)).committed d.normal here)
      ∙ find_email-find k u (serve rs (empty env)).committed d.distinct here
