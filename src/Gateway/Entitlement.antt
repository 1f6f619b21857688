-- ===== src/Gateway/Entitlement.antt =====
-- What a request that passes app/services/security.py carries.
use trabalho_devops.Prelude.{
  ℕ, ◌≡◌, refl, ◌∙◌, ◌⊎◌, String, Text, text_eq, text_eq_lem, codes, lower, partition, false, not,
  ◌||◌, ◌&&◌, eq_iff, Option, none, some, List, [], ◌∷◌, arith,
}
use trabalho_devops.Exec.{ok, pure, or_raise}
use trabalho_devops.Exec.Laws.{
  bind-keeps, bind-ok, or_raise-keeps, or_raise-ok, raise_if-ok, raise_if-keeps,
}
use trabalho_devops.Gateway.Models.{Request, Upstream, GatewayTokenClaims, Settings}
use trabalho_devops.Gateway.Security.{
  header, Libraries, is_empty, is_nonempty, role_in, extract_bearer_token, decode_access_token,
  get_current_claims, require_roles,
}

module _ {J : Type 0} (lib : Libraries J) (settings : Settings) (now : ℕ) where
  -- The request carries, as a bearer token, one that decodes now to claims with one of the roles.
  pub record IsEntitled (request : Request) : Type 0 where
    pub authorization : Text
    pub presented : header (codes "authorization") request.headers ≡ some authorization
    pub bearer : lower (partition b' ' authorization).0 ≡ codes "bearer"
    pub payload : J
    pub decoded :
        lib.decode now (partition b' ' authorization).1 settings.jwt_secret settings.jwt_algorithm
        ≡ some payload
    pub claims : GatewayTokenClaims
    pub validated : lib.model_validate payload ≡ some claims
    pub role : (claims.role ≡ "USER") ⊎ (claims.role ≡ "ADMIN")

extract_bearer_token-state :
    (o : Option Text) (sent : List Upstream) → (extract_bearer_token o sent).1 ≡ sent
unfolding extract_bearer_token
extract_bearer_token-state none sent = refl
extract_bearer_token-state (some []) sent = refl
extract_bearer_token-state (some (c ∷ cs)) sent =
    raise_if-keeps (λ (x : List Upstream). x ≡ sent) _ _ sent
      (not (text_eq (lower (partition b' ' (c ∷ cs)).0) (codes "bearer"))
        || is_empty (partition b' ' (c ∷ cs)).1)
      refl (λ h. refl)

extract_bearer_token-ok :
    (o : Option Text) (sent : List Upstream) (token : Text)
    → (extract_bearer_token o sent).0 ≡ ok token
    → (value : Text) × (o ≡ some value)
      × (lower (partition b' ' value).0 ≡ codes "bearer")
      × ((partition b' ' value).1 ≡ token)
unfolding extract_bearer_token
extract_bearer_token-ok none sent token h = absurd (ground arith)
extract_bearer_token-ok (some []) sent token h = absurd (ground arith)
extract_bearer_token-ok (some (c ∷ cs)) sent token h =
    let (scheme, rest) = partition b' ' (c ∷ cs) in
    let (passed, returned) =
      raise_if-ok _ (pure rest) sent
        (not (text_eq (lower scheme) (codes "bearer")) || is_empty rest) token h in
    (c ∷ cs, refl, text_eq_lem (lower scheme) (codes "bearer") (ground arith), ground arith)

one_of_two :
    (role : String)
    → not (role_in role ("USER" ∷ "ADMIN" ∷ [])) ≡ false
    → (role ≡ "USER") ⊎ (role ≡ "ADMIN")
one_of_two role h = ground (arith, eq_iff role "USER", eq_iff role "ADMIN")

module _ {J : Type 0} (lib : Libraries J) (settings : Settings) (now : ℕ) (request : Request) where
  decode_access_token-state :
      (token : Text) (sent : List Upstream)
      → (decode_access_token lib settings now token sent).1 ≡ sent
  unfolding decode_access_token
  decode_access_token-state token sent =
      let Same : List Upstream → Type 0 = λ x. x ≡ sent in
      bind-keeps _ (or_raise (lib.decode now token settings.jwt_secret settings.jwt_algorithm) _)
        sent Same (λ e h. or_raise-keeps Same _ _ _ refl)
        (λ payload h.
          or_raise-keeps Same _ _ (lib.model_validate payload) (or_raise-keeps Same _ _ _ refl))

  get_current_claims-state :
      (sent : List Upstream) → (get_current_claims lib settings now request sent).1 ≡ sent
  unfolding get_current_claims
  get_current_claims-state sent =
      let extracted =
        extract_bearer_token-state (header (codes "authorization") request.headers) sent in
      bind-keeps _ (extract_bearer_token (header (codes "authorization") request.headers)) sent
        (λ (x : List Upstream). x ≡ sent) (λ e h. extracted)
        (λ token h. decode_access_token-state token _ ∙ extracted)

  pub require_roles-state :
      (roles : List String) (sent : List Upstream)
      → (require_roles lib settings now roles request sent).1 ≡ sent
  unfolding require_roles
  require_roles-state roles sent =
      let Same : List Upstream → Type 0 = λ x. x ≡ sent in
      bind-keeps _ (get_current_claims lib settings now request) sent Same
        (λ e h. get_current_claims-state sent)
        (λ claims h.
          raise_if-keeps Same _ _ _ (is_nonempty roles && not (role_in claims.role roles))
            (get_current_claims-state sent) (λ passed. get_current_claims-state sent))

  pub require_roles-IsEntitled :
      (claims : GatewayTokenClaims) (sent : List Upstream)
      → (require_roles lib settings now ("USER" ∷ "ADMIN" ∷ []) request sent).0 ≡ ok claims
      → IsEntitled lib settings now request
  unfolding require_roles
  require_roles-IsEntitled claims sent h =
      let (found, current, rest, _) =
        bind-ok _ (get_current_claims lib settings now request) sent claims h in
      let (token, extracted, decoding, _) =
        bind-ok _ (extract_bearer_token (header (codes "authorization") request.headers)) sent found
          current in
      let (value, presented, bearer, cut) = extract_bearer_token-ok _ sent token extracted in
      let (payload, decoded, validating, _) =
        bind-ok _ (or_raise (lib.decode now token settings.jwt_secret settings.jwt_algorithm) _) _
          found decoding in
      let (passed, _) = raise_if-ok _ (pure found) _ _ claims rest in
      record {
        authorization = value;
        presented = presented;
        bearer = bearer;
        payload = payload;
        decoded = rw cut (or_raise-ok _ _ _ payload decoded);
        claims = found;
        validated = or_raise-ok _ _ _ found validating;
        role = one_of_two found.role passed;
      }
