-- ===== src/Influx2http/WriteService/Delivered.antt =====
-- What the request was where Write returns no error.
use jaeger_influxdb.Prelude.{
  ℕ, ◌/◌, ◌≡◌, refl, sym, ◌∙◌, ap, Bool, true, false, [], ◌∷◌, some, Text, codes,
}
use jaeger_influxdb.Prelude.Dict.{lookup, insert, lookup-insert}
use jaeger_influxdb.Prelude.Eq.{Text_eq, text_eq}
use jaeger_influxdb.Prelude.Outcome.{
  ok, guard, >>=-eq-ok, or_error, or_error-eq-ok, invalid_precision, bad_encoding, Error,
  bad_transport, ok_eq,
}
use jaeger_influxdb.Influx2http.Http.{
  Values, set_value, Url, Request, Response, Net, Service, new_url, new_request, set_token,
  do_request,
}
use jaeger_influxdb.Influx2http.Http.Answers.{check_error_ok}
use jaeger_influxdb.Influx2http.WriteService.{precision_or_ns, write_params, write}

params_lem :
    (org bucket unit : Text) (vs : Values)
    → (lookup (codes "org") (write_params org bucket unit vs) ≡ some (org ∷ []))
      × (lookup (codes "bucket") (write_params org bucket unit vs) ≡ some (bucket ∷ []))
      × (lookup (codes "precision") (write_params org bucket unit vs) ≡ some (unit ∷ []))
unfolding write_params set_value text_eq
params_lem org bucket unit vs =
    let with_org = insert (codes "org") (org ∷ []) vs in
    let with_bucket = insert (codes "bucket") (bucket ∷ []) with_org in
    (
      lookup-insert (codes "precision") (codes "org") (unit ∷ []) with_bucket
          ∙ lookup-insert (codes "bucket") (codes "org") (bucket ∷ []) with_org
          ∙ lookup-insert (codes "org") (codes "org") (org ∷ []) vs,
      lookup-insert (codes "precision") (codes "bucket") (unit ∷ []) with_bucket
          ∙ lookup-insert (codes "bucket") (codes "bucket") (bucket ∷ []) with_org,
      lookup-insert (codes "precision") (codes "precision") (unit ∷ []) with_bucket,
    )

guard_ok : (b : Bool) (e : Error) (u : Unit {0}) → guard b e ≡ ok u → b ≡ true
guard_ok true e u h = refl
guard_ok false e u h = cc

module _ (net : Net) (valid_precision : Text → Bool) where
  -- A request that was answered with a status of the class 2, and its parameters and body.
  pub record Delivered (org_id bucket_id : ℕ) (unit points : Text) : Type 0 where
    pub request : Request
    pub response : Response
    pub org : Text
    pub bucket : Text
    pub sent : net.send request ≡ some response
    pub accepted : response.status_code / 100 ≡ 2
    pub body : request.body ≡ net.gzip points
    pub valid : valid_precision unit ≡ true
    pub org_encoded : net.encode_id org_id ≡ some org
    pub bucket_encoded : net.encode_id bucket_id ≡ some bucket
    pub org_sent : lookup (codes "org") request.url.query ≡ some (org ∷ [])
    pub bucket_sent : lookup (codes "bucket") request.url.query ≡ some (bucket ∷ [])
    pub unit_sent : lookup (codes "precision") request.url.query ≡ some (unit ∷ [])

  body_of :
      (method : Text) (u : Url) (body : Text) (req : Request)
      → new_request net method u body ≡ ok req
      → req.body ≡ body
  body_of method u body req e =
      let (done, _, same) = >>=-eq-ok (guard (net.can_request method u) _) _ e in
      ap (λ r. r.body) (ok_eq (sym same))

  -- Where Write returns no error, a request was answered with a status of the class 2. The body of
  -- the request is the compressed points, and its parameters include the encoded organization and
  -- bucket, each alone under its name, and a valid precision, which is nanoseconds where the
  -- service has none.
  pub write-Delivered :
      (s : Service) (precision : Text) (org_id bucket_id : ℕ) (points : Text) (done : Unit {0})
      → write net valid_precision s precision org_id bucket_id points ≡ ok done
      → Delivered org_id bucket_id (precision_or_ns precision) points
  unfolding write do_request set_token
  write-Delivered s precision org_id bucket_id points done e =
      let unit = precision_or_ns precision in
      let (_, e0, r0) = >>=-eq-ok (guard (valid_precision unit) invalid_precision) _ e in
      let (u, e1, r1) = >>=-eq-ok (new_url net s.addr (codes "/api/v2/write")) _ r0 in
      let (req, e2, r2) = >>=-eq-ok (new_request net (codes "POST") u (net.gzip points)) _ r1 in
      let (org, e3, r3) = >>=-eq-ok (or_error bad_encoding (net.encode_id org_id)) _ r2 in
      let (bucket, e4, r4) = >>=-eq-ok (or_error bad_encoding (net.encode_id bucket_id)) _ r3 in
      let (resp, e5, r5) = >>=-eq-ok (or_error bad_transport (net.send _)) _ r4 in
      let (by_org, by_bucket, by_unit) = params_lem org bucket unit u.query in
      record {
        request = _;
        response = resp;
        org = org;
        bucket = bucket;
        sent = or_error-eq-ok bad_transport _ resp e5;
        accepted = check_error_ok net resp done r5;
        body = body_of (codes "POST") u (net.gzip points) req e2;
        valid = guard_ok (valid_precision unit) invalid_precision _ e0;
        org_encoded = or_error-eq-ok bad_encoding _ org e3;
        bucket_encoded = or_error-eq-ok bad_encoding _ bucket e4;
        org_sent = by_org;
        bucket_sent = by_bucket;
        unit_sent = by_unit;
      }
