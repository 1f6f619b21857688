-- ===== src/Gateway/Routes.antt =====
-- The routes of app/api/public.py, in their order, and the way through the application of one
-- request.
use trabalho_devops.Prelude.{
  ℕ, String, Text, text_eq, codes, Bool, true, false, ◌||◌, Option, none, some, List, [], ◌∷◌,
  if◌then◌else◌,
}
use trabalho_devops.Exec.{Result, raise, ◌>>◌}
use trabalho_devops.Gateway.Models.{
  Method, get, post, patch, put, delete, head, options, ServiceName, auth, item, matching, recovery,
  Request, Upstream, Response, Failure, internal_route_blocked, not_found, method_not_allowed,
  Settings,
}
use trabalho_devops.Gateway.Security.{Op, Libraries, is_empty, require_roles}
use trabalho_devops.Gateway.Proxy.{forward}

-- A piece of a path template.
pub data Piece : Type 0 where
  fixed : String → Piece
  param : Piece

-- What the function of a route does with the values of its parameters.
pub data Endpoint : Type 0 where
  -- the upstream path is a template too, and the guard `require_roles("USER", "ADMIN")` or none
  forwarding : (guarded : Bool) → ServiceName → (upstream_path : List Piece) → Endpoint
  blocking : Endpoint

-- `below`: the template ends in `{…:path}`.
pub record Route : Type 0 where
  pub methods : List Method
  pub template : List Piece
  pub below : Bool
  pub endpoint : Endpoint

abbrev route : List Method → List Piece → Bool → Endpoint → Route
route methods template below endpoint = record {
  methods = methods;
  template = template;
  below = below;
  endpoint = endpoint;
}

-- The router's prefix is written out.
unfoldable pub public_routes : List Route
public_routes =
    route (post ∷ []) (fixed "api" ∷ fixed "auth" ∷ fixed "register" ∷ []) false
      (forwarding false auth (fixed "auth" ∷ fixed "register" ∷ []))
    ∷ route (post ∷ []) (fixed "api" ∷ fixed "auth" ∷ fixed "login" ∷ []) false
        (forwarding false auth (fixed "auth" ∷ fixed "login" ∷ []))
    ∷ route (get ∷ []) (fixed "api" ∷ fixed "auth" ∷ fixed "me" ∷ []) false
        (forwarding true auth (fixed "auth" ∷ fixed "me" ∷ []))
    ∷ route (get ∷ post ∷ []) (fixed "api" ∷ fixed "items" ∷ []) false
        (forwarding true item (fixed "items" ∷ []))
    ∷ route (get ∷ patch ∷ []) (fixed "api" ∷ fixed "items" ∷ param ∷ []) false
        (forwarding true item (fixed "items" ∷ param ∷ []))
    ∷ route (patch ∷ []) (fixed "api" ∷ fixed "items" ∷ param ∷ fixed "status" ∷ []) false
        (forwarding true item (fixed "items" ∷ param ∷ fixed "status" ∷ []))
    ∷ route (get ∷ []) (fixed "api" ∷ fixed "items" ∷ param ∷ fixed "history" ∷ []) false
        (forwarding true item (fixed "items" ∷ param ∷ fixed "history" ∷ []))
    ∷ route (get ∷ []) (fixed "api" ∷ fixed "matches" ∷ []) false
        (forwarding true matching (fixed "matches" ∷ []))
    ∷ route (get ∷ []) (fixed "api" ∷ fixed "matches" ∷ param ∷ []) false
        (forwarding true matching (fixed "matches" ∷ param ∷ []))
    ∷ route (post ∷ []) (fixed "api" ∷ fixed "matches" ∷ param ∷ fixed "accept" ∷ []) false
        (forwarding true matching (fixed "matches" ∷ param ∷ fixed "accept" ∷ []))
    ∷ route (post ∷ []) (fixed "api" ∷ fixed "matches" ∷ param ∷ fixed "reject" ∷ []) false
        (forwarding true matching (fixed "matches" ∷ param ∷ fixed "reject" ∷ []))
    ∷ route (get ∷ []) (fixed "api" ∷ fixed "recovery-cases" ∷ []) false
        (forwarding true recovery (fixed "recovery-cases" ∷ []))
    ∷ route (get ∷ []) (fixed "api" ∷ fixed "recovery-cases" ∷ param ∷ []) false
        (forwarding true recovery (fixed "recovery-cases" ∷ param ∷ []))
    ∷ route (post ∷ []) (fixed "api" ∷ fixed "recovery-cases" ∷ param ∷ fixed "cancel" ∷ []) false
        (forwarding true recovery (fixed "recovery-cases" ∷ param ∷ fixed "cancel" ∷ []))
    ∷ route (post ∷ []) (fixed "api" ∷ fixed "recovery-cases" ∷ param ∷ fixed "complete" ∷ []) false
        (forwarding true recovery (fixed "recovery-cases" ∷ param ∷ fixed "complete" ∷ []))
    ∷ route (get ∷ post ∷ patch ∷ put ∷ delete ∷ []) (fixed "api" ∷ fixed "internal" ∷ []) true
        blocking
    ∷ []

abbrev pub method_eq : Method → Method → Bool
method_eq get get = true
method_eq post post = true
method_eq patch patch = true
method_eq put put = true
method_eq delete delete = true
method_eq head head = true
method_eq options options = true
method_eq _ _ = false

abbrev pub method_in : Method → List Method → Bool
method_in m [] = false
method_in m (n ∷ ns) = method_eq m n || method_in m ns

abbrev pub with_param : Text → Option (List Text) → Option (List Text)
with_param x none = none
with_param x (some xs) = some (x ∷ xs)

-- The values of the parameters, if the path is one of the template's; a parameter stands for one
-- piece of the path, which is not empty.
abbrev pub match_path : List Piece → Bool → List Text → Option (List Text)
match_path [] false [] = some []
match_path [] false (x ∷ xs) = none
match_path [] true [] = none
match_path [] true (x ∷ xs) = some []
match_path (p ∷ ps) below [] = none
match_path (fixed s ∷ ps) below (x ∷ xs) =
    let rest = match_path ps below xs in if text_eq x (codes s) then rest else none
match_path (param ∷ ps) below (x ∷ xs) =
    let rest = match_path ps below xs in if is_empty x then none else with_param x rest

-- The path that an f-string puts together.
abbrev pub fill : List Piece → List Text → List Text
fill [] xs = []
fill (fixed s ∷ ps) xs = codes s ∷ fill ps xs
fill (param ∷ ps) [] = fill ps []
fill (param ∷ ps) (x ∷ xs) = x ∷ fill ps xs

-- One step of the router: whether the path is the route's, and the method is.
abbrev pub choose :
    Option (List Text) → Bool → (List Text → Op Response) → Op Response → Op Response → Op Response
choose none listed run rest rest_partial = rest
choose (some values) true run rest rest_partial = run values
choose (some values) false run rest rest_partial = rest_partial

module _ {J : Type 0} (lib : Libraries J) (settings : Settings)
    (client : Upstream → Result Failure Response) (now : ℕ) (correlation_id : Text)
    (request : Request) where
  unfoldable pub endpoint : Endpoint → List Text → Op Response
  unfolding forward require_roles
  endpoint blocking values = raise internal_route_blocked
  endpoint (forwarding false service_name upstream_path) values =
      forward client correlation_id request service_name (fill upstream_path values)
  endpoint (forwarding true service_name upstream_path) values = do
    require_roles lib settings now ("USER" ∷ "ADMIN" ∷ []) request
    forward client correlation_id request service_name (fill upstream_path values)

  -- The framework's router: the first route of the path and the method; a route of the path alone
  -- makes the difference between its two answers to a request that has none.
  unfoldable pub dispatch : List Route → Bool → Op Response
  unfolding endpoint
  dispatch [] partial = raise (if partial then method_not_allowed else not_found)
  dispatch (r ∷ rs) partial =
      choose (match_path r.template r.below request.path) (method_in request.method r.methods)
        (endpoint r.endpoint) (dispatch rs partial) (dispatch rs true)
