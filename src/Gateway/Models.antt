-- ===== src/Gateway/Models.antt =====
-- The data of gateway: requests, what is sent to the services and what comes back
-- (app/schemas/auth.py, app/core/exceptions.py, app/core/config.py, the handlers of app/main.py).
use trabalho_devops.Prelude.{ℕ, String, Text, Option, List}

pub data Method : Type 0 where
  get post patch put delete head options : Method

-- The names that `base_urls` maps to the services' addresses.
pub data ServiceName : Type 0 where
  auth item matching recovery : ServiceName

abbrev pub Headers : Type 0
Headers = List (Text × Text)

-- A request as the web server hands it on: the path between its slashes, and the names of the
-- headers in lower case.
pub record Request : Type 0 where
  pub method : Method
  pub path : List Text
  pub query_params : List (Text × Text)
  pub headers : Headers
  pub body : Text

-- A request to a service.
pub record Upstream : Type 0 where
  pub service_name : ServiceName
  pub method : Method
  pub path : List Text
  pub params : List (Text × Text)
  pub headers : Headers
  pub content : Text

pub record Response : Type 0 where
  pub status_code : ℕ
  pub content_type : Option Text
  pub content : Text

-- What httpx raises when a service does not answer: a TimeoutException, or another HTTPError.
pub data Failure : Type 0 where
  timeout failed : Failure

pub record GatewayTokenClaims : Type 0 where
  pub sub : ℕ
  pub role : String
  pub exp : ℕ

-- The exceptions, and the framework's answers to a path or a method that no route has.
pub data Error : Type 0 where
  authentication : String → Error
  authorization internal_route_blocked downstream_timeout downstream_unavailable : Error
  not_found method_not_allowed : Error

-- The status that the exception handlers answer with.
unfoldable pub status_of : Error → ℕ
status_of (authentication detail) = 401
status_of authorization = 403
status_of internal_route_blocked = 404
status_of downstream_timeout = 504
status_of downstream_unavailable = 502
status_of not_found = 404
status_of method_not_allowed = 405

pub record Settings : Type 0 where
  pub jwt_secret : Text
  pub jwt_algorithm : String
