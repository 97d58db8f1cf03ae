-- ===== src/Influx2http/FluxQuery.antt =====
-- FluxQueryService and FluxService of influx2http/query_handler.go.
use jaeger_influxdb.Prelude.{ℕ, false, [], ◌∷◌, Option, some, Text, codes}
use jaeger_influxdb.Prelude.Outcome.{Outcome, ok, ◌>>=◌, ◌>>◌, or_error, bad_encoding, bad_body}
use jaeger_influxdb.Influx2http.Http.{
  set_value, Url, Response, Net, Service, new_url, new_request, set_token, set_header, do_request,
  check_error,
}
use jaeger_influxdb.Influx2http.QueryRequest.{
  QueryRequest, ProxyRequest, Compiler, CsvDialect, query_request_from_proxy_request,
}

-- `csv.DefaultDialect`
abbrev pub default_dialect : CsvDialect
default_dialect = record {
  no_header = false;
  delimiter = b',';
  annotations = codes "datatype" ∷ codes "group" ∷ codes "default" ∷ [];
}

module _ {File Spec Package : Type 0} (net : Net)
    (encode : QueryRequest File Spec Package → Option Text) where
  -- The request of both services, which differ in the query of the URL.
  unfoldable pub query_request : Service → Url → ProxyRequest File Spec Package → Outcome Response
  query_request s u preq = do
    qreq ← query_request_from_proxy_request preq
    body ← or_error bad_encoding (encode qreq)
    req ← new_request net (codes "POST") u body
    let signed = set_token net s.token req
    let typed = set_header net (codes "Content-Type") (codes "application/json") signed
    let accepting = set_header net (codes "Accept") (codes "text/csv") typed
    resp ← do_request net s u accepting
    check_error net resp
    ok resp

  -- The results that the decoder gives are those of an argument; the tracing is left out.
  unfoldable pub flux_query {ℓ} :
      {Result : Type ℓ}
      → (Text → Option Result)
      → Service
      → ℕ
      → Compiler File Spec Package
      → Outcome Result
  flux_query decode s organization_id compiler = do
    u ← new_url net s.addr (codes "/api/v2/query")
    let url : Url = record u {
      query = set_value (codes "orgID") (net.id_string organization_id) [];
    }
    resp ← query_request s url (record {
      organization_id = organization_id;
      compiler = compiler;
      dialect = some default_dialect;
    })
    or_error bad_body (decode resp.body)

  -- `FluxService.Query`: the organization is added to a copy of the URL's query, so the request
  -- does not have it. The body of the answer is copied to the writer.
  unfoldable pub proxy_query : Service → ProxyRequest File Spec Package → Outcome Text
  proxy_query s preq = do
    u ← new_url net s.addr (codes "/api/v2/query")
    resp ← query_request s u preq
    ok resp.body
