-- ===== src/Gateway/Relaying.antt =====
-- What passes the gateway: the routes of app/api/public.py under the checks of
-- app/services/security.py.
use trabalho_devops.Prelude.{
  ℕ, ◌≡◌, refl, sym, ap, ◌∙◌, ◌⊎◌, inl, inr, Text, codes, Bool, true, false, Option, none, some,
  List, [], ◌∷◌, ◌++◌, All,
}
use mathlib.Core.Path.{subst, ap₂}
use trabalho_devops.Exec.{Result, ok, err}
use trabalho_devops.Exec.Laws.{bind-keeps}
use trabalho_devops.Gateway.Models.{
  Method, ServiceName, Request, Upstream, Response, Failure, timeout, failed, Settings,
}
use trabalho_devops.Gateway.Security.{Op, Libraries, header, require_roles}
use trabalho_devops.Gateway.Proxy.{call_of, relay, forward}
use trabalho_devops.Gateway.Headers.{last_header, header-build_downstream_headers}
use trabalho_devops.Gateway.Routes.{
  Piece, fixed, Endpoint, forwarding, blocking, Route, public_routes, method_in, match_path, fill,
  choose, endpoint, dispatch,
}
use trabalho_devops.Gateway.Templates.{
  owns, is_public, IsGuarded, by_roles, by_name, IsKept, IsKeptBy, fill-match_path,
  public_routes-IsKept, owns-fill, post_only,
}
use trabalho_devops.Gateway.Entitlement.{IsEntitled, require_roles-state, require_roles-IsEntitled}

module _ {J : Type 0} (lib : Libraries J) (settings : Settings) (now : ℕ) where
  -- A call that the gateway makes for a request.
  pub record IsRelayed (request : Request) (call : Upstream) : Type 0 where
    pub method : call.method ≡ request.method
    pub path : codes "api" ∷ call.path ≡ request.path
    pub params : call.params ≡ request.query_params
    pub content : call.content ≡ request.body
    pub authorization :
        header (codes "authorization") call.headers
        ≡ last_header (codes "authorization") request.headers
    pub owner : owns call.service_name call.path ≡ true
    pub entitled : (is_public call.method call.path ≡ true) ⊎ IsEntitled lib settings now request

  -- Nothing has been called, or one call was made.
  pub data Relayed (request : Request) : List Upstream → Type 0 where
    nothing : Relayed request []
    one : (call : Upstream) → IsRelayed request call → Relayed request (call ∷ [])

module _ {J : Type 0} (lib : Libraries J) (settings : Settings)
    (client : Upstream → Result Failure Response) (now : ℕ) (correlation_id : Text)
    (request : Request) where
  pub relay-state :
      (r : Result Failure Response) (sent : List Upstream) → (relay client r sent).1 ≡ sent
  unfolding relay
  relay-state (ok response) sent = refl
  relay-state (err timeout) sent = refl
  relay-state (err failed) sent = refl

  forward-Relayed :
      (s : ServiceName) (path : List Text) (sent : List Upstream)
      → sent ≡ []
      → codes "api" ∷ path ≡ request.path
      → owns s path ≡ true
      → (is_public request.method path ≡ true) ⊎ IsEntitled lib settings now request
      → Relayed lib settings now request (forward client correlation_id request s path sent).1
  unfolding forward
  forward-Relayed s path sent none_sent same owner entitled =
      subst (Relayed lib settings now request)
        (sym (
          relay-state _ _
          ∙ ap (λ (x : List Upstream). x ++ call_of correlation_id request s path ∷ []) none_sent))
        (one (call_of correlation_id request s path) record {
          method = refl;
          path = same;
          params = refl;
          content = refl;
          authorization =
              header-build_downstream_headers correlation_id request (codes "authorization");
          owner = owner;
          entitled = entitled;
        })

  guarded-Relayed :
      (guarded : Bool) (ms : List Method) (ps : List Piece) (s : ServiceName) (values : List Text)
      → IsGuarded guarded ms ps
      → codes "api" ∷ fill ps values ≡ request.path
      → owns s (fill ps values) ≡ true
      → method_in request.method ms ≡ true
      → Relayed lib settings now request
          (endpoint lib settings client now correlation_id request
            (forwarding guarded s ps)
            values
            []).1
  unfolding endpoint
  guarded-Relayed true ms ps s values by_roles same owner listed =
      bind-keeps _ (require_roles lib settings now ("USER" ∷ "ADMIN" ∷ []) request) []
        (Relayed lib settings now request)
        (λ e h.
          subst (Relayed lib settings now request)
            (sym (require_roles-state lib settings now request ("USER" ∷ "ADMIN" ∷ []) [])) nothing)
        (λ claims h.
          forward-Relayed s (fill ps values) _
            (require_roles-state lib settings now request ("USER" ∷ "ADMIN" ∷ []) []) same owner
            (inr (require_roles-IsEntitled lib settings now request claims [] h)))
  guarded-Relayed false _ _ s values (by_name public) same owner listed =
      forward-Relayed s _ [] refl same owner (inl (rw (post_only request.method listed) public))

  -- A route of the path and the method.
  endpoint-Relayed :
      (r : Route) (e : Endpoint) (values : List Text)
      → IsKeptBy r e
      → match_path r.template r.below request.path ≡ some values
      → method_in request.method r.methods ≡ true
      → Relayed lib settings now request
          (endpoint lib settings client now correlation_id request e values []).1
  unfolding endpoint
  endpoint-Relayed r blocking values k matched listed = nothing
  endpoint-Relayed r (forwarding guarded s ps) values (same, closed, starts, g) matched listed =
      guarded-Relayed guarded r.methods ps s values g
        (fill-match_path (fixed "api" ∷ ps) request.path values (
          ap₂ (λ (t : List Piece) (b : Bool). match_path t b request.path) (sym same) (sym closed)
          ∙ matched))
        (owns-fill s ps values starts) listed

  choose-Relayed :
      (r : Route) (matched : Option (List Text)) (listed : Bool) (rest rest_partial : Op Response)
      → IsKept r
      → match_path r.template r.below request.path ≡ matched
      → method_in request.method r.methods ≡ listed
      → Relayed lib settings now request (rest []).1
      → Relayed lib settings now request (rest_partial []).1
      → Relayed lib settings now request
          (choose matched listed
            (endpoint lib settings client now correlation_id request r.endpoint)
            rest
            rest_partial
            []).1
  choose-Relayed r none listed rest rest_partial k m l a b = a
  choose-Relayed r (some values) true rest rest_partial k m l a b =
      endpoint-Relayed r r.endpoint values k m l
  choose-Relayed r (some values) false rest rest_partial k m l a b = b

  dispatch_each-Relayed :
      (rs : List Route) (partial : Bool)
      → All IsKept rs
      → Relayed lib settings now request
          (dispatch lib settings client now correlation_id request rs partial []).1
  unfolding dispatch
  dispatch_each-Relayed [] partial ks = nothing
  dispatch_each-Relayed (r ∷ rs) partial (k, ks) =
      choose-Relayed r _ _ _ _ k refl refl (dispatch_each-Relayed rs partial ks)
        (dispatch_each-Relayed rs true ks)

  -- For any request, the gateway makes one call or none, whatever the services answer. A call has
  -- the request's method, its parameters and its body, and the pieces of its path without the prefix
  -- `api`, and goes to the service of that path, which is never an internal one. It is a registration
  -- or a login, or the first Authorization header of the request, which is the one that the gateway
  -- checks, has a bearer token that decodes to claims with the role USER or ADMIN. Under the name
  -- `authorization` the call has the last value that the request has there.
  pub dispatch-Relayed :
      Relayed lib settings now request
        (dispatch lib settings client now correlation_id request public_routes false []).1
  dispatch-Relayed = dispatch_each-Relayed public_routes false public_routes-IsKept
