-- ===== src/Influx2http/WriteService/Total.antt =====
-- Write returns, with an error or without one.
use jaeger_influxdb.Prelude.{ℕ, ◌/◌, Bool, true, false, ◌||◌, nat_eq, Text, codes, if◌then◌else◌}
use jaeger_influxdb.Prelude.Outcome.{
  ok, err, ◌>>=◌, server_error, bad_body, bad_status, IsCalm, bind-IsCalm, guard, guard-IsCalm,
  or_error, or_error-IsCalm, invalid_precision, bad_encoding, bad_url, bad_request, bad_transport,
}
use jaeger_influxdb.Influx2http.Http.{
  Url, Request, Response, Net, Service, new_url, new_request, do_request, check_error,
}
use jaeger_influxdb.Influx2http.WriteService.{precision_or_ns, write}

module _ (net : Net) where
  new_url-IsCalm : (addr path : Text) → IsCalm (new_url net addr path)
  unfolding new_url
  new_url-IsCalm addr path =
      bind-IsCalm (or_error bad_url (net.parse_url addr)) _ (or_error-IsCalm bad_url _) (λ u. tt)

  new_request-IsCalm :
      (method : Text) (u : Url) (body : Text) → IsCalm (new_request net method u body)
  new_request-IsCalm method u body =
      bind-IsCalm (guard (net.can_request method u) bad_request) _ (guard-IsCalm _ bad_request)
        (λ done. tt)

  check_error-IsCalm : (resp : Response) → IsCalm (check_error net resp)
  unfolding check_error
  check_error-IsCalm resp =
      let class = resp.status_code / 100 in
      go (nat_eq class 4 || nat_eq class 5) (net.decodes_error resp.body) (nat_eq class 2)
    where
      go :
          (bad decoded good : Bool)
          → IsCalm {A = Unit {0}} (
              if bad
              then (if decoded then err server_error else err bad_body)
              else if good
              then ok tt
              else err bad_status)
      go true true good = tt
      go true false good = tt
      go false decoded true = tt
      go false decoded false = tt

  answer-IsCalm :
      (s : Service) (u : Url) (req : Request)
      → IsCalm (do_request net s u req >>= λ resp. check_error net resp)
  unfolding do_request
  answer-IsCalm s u req =
      bind-IsCalm (or_error bad_transport (net.send _)) _ (or_error-IsCalm _ _) check_error-IsCalm

  -- Write returns, with an error or without one: whatever the server answers, it never panics.
  pub write-IsCalm :
      (valid_precision : Text → Bool) (s : Service) (precision : Text) (org_id bucket_id : ℕ)
      (points : Text)
      → IsCalm (write net valid_precision s precision org_id bucket_id points)
  unfolding write
  write-IsCalm valid_precision s precision org_id bucket_id points =
      bind-IsCalm (guard (valid_precision (precision_or_ns precision)) invalid_precision) _
        (guard-IsCalm _ _)
        λ _. bind-IsCalm (new_url net s.addr (codes "/api/v2/write")) _ (new_url-IsCalm _ _) λ u.
          bind-IsCalm (new_request net (codes "POST") u (net.gzip points)) _
            (new_request-IsCalm _ u _)
            λ req.
              bind-IsCalm (or_error bad_encoding (net.encode_id org_id)) _ (or_error-IsCalm _ _)
                λ org.
                  bind-IsCalm (or_error bad_encoding (net.encode_id bucket_id)) _
                    (or_error-IsCalm _ _) λ bucket. answer-IsCalm s u _
