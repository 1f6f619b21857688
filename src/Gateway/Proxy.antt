-- ===== src/Gateway/Proxy.antt =====
-- `GatewayProxyService` of app/services/proxy_service.py.
use trabalho_devops.Prelude.{
  Text, text_eq, codes, lower, Bool, false, ◌||◌, List, [], ◌∷◌, ◌++◌, get_or, if◌then◌else◌,
}
use trabalho_devops.Exec.{Result, ok, err, pure, raise, modify, ◌>>◌}
use trabalho_devops.Gateway.Models.{
  Headers, Request, ServiceName, Upstream, Response, Failure, timeout, failed, downstream_timeout,
  downstream_unavailable,
}
use trabalho_devops.Gateway.Security.{Op, header}

abbrev pub name_in : Text → List Text → Bool
name_in name [] = false
name_in name (n ∷ ns) = text_eq name n || name_in name ns

unfoldable pub hop_by_hop_headers : List Text
hop_by_hop_headers =
    codes "connection"
    ∷ codes "content-length"
    ∷ codes "host"
    ∷ codes "keep-alive"
    ∷ codes "proxy-authenticate"
    ∷ codes "proxy-authorization"
    ∷ codes "te"
    ∷ codes "trailer"
    ∷ codes "transfer-encoding"
    ∷ codes "upgrade"
    ∷ []

abbrev pub forwarded_headers : List Text
forwarded_headers = codes "accept" ∷ codes "authorization" ∷ codes "content-type" ∷ []

-- `headers[name] = value` on a dictionary
abbrev pub set_header : Text → Text → Headers → Headers
set_header name value [] = (name, value) ∷ []
set_header name value ((n, v) ∷ hs) =
    let rest = set_header name value hs in if text_eq n name then (n, value) ∷ hs else (n, v) ∷ rest

unfoldable pub is_forwarded : Text → Bool
unfolding hop_by_hop_headers
is_forwarded name =
    if name_in (lower name) hop_by_hop_headers
    then false
    else name_in (lower name) forwarded_headers

-- The loop, from the headers that are set so far.
unfoldable pub copy_headers : Headers → Headers → Headers
unfolding is_forwarded
copy_headers headers [] = headers
copy_headers headers ((name, value) ∷ hs) =
    copy_headers (if is_forwarded name then set_header name value headers else headers) hs

unfoldable pub build_downstream_headers : Text → Request → Headers
unfolding copy_headers
build_downstream_headers correlation_id request =
    set_header (codes "X-Correlation-ID")
      (get_or (header (codes "x-correlation-id") request.headers) correlation_id)
      (copy_headers [] request.headers)

-- What `client.request` is given.
unfoldable pub call_of : Text → Request → ServiceName → List Text → Upstream
unfolding build_downstream_headers
call_of correlation_id request service_name upstream_path = record {
  service_name = service_name;
  method = request.method;
  path = upstream_path;
  params = request.query_params;
  headers = build_downstream_headers correlation_id request;
  content = request.body;
}

-- `client` stands for httpx and the services behind it.
module _ (client : Upstream → Result Failure Response) where
  unfoldable pub relay : Result Failure Response → Op Response
  relay (err timeout) = raise downstream_timeout
  relay (err failed) = raise downstream_unavailable
  relay (ok response) = pure response

  unfoldable pub forward : Text → Request → ServiceName → List Text → Op Response
  unfolding call_of relay
  forward correlation_id request service_name upstream_path = do
    let call = call_of correlation_id request service_name upstream_path
    modify (λ sent. sent ++ call ∷ [])
    relay (client call)
