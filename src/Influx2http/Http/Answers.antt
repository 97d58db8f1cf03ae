-- ===== src/Influx2http/Http/Answers.antt =====
-- The answers that the services accept.
use jaeger_influxdb.Prelude.{
  ◌/◌, ◌≡◌, refl, sym, ap, Text, Bool, ◌||◌, ◌&&◌, some, nat_eq, nat_eq_iff, if◌then◌else◌, arith,
  Bool-cases, inl, inr, codes,
}
use jaeger_influxdb.Prelude.Eq.{Text_eq, text_eq}
use jaeger_influxdb.Prelude.Outcome.{
  ok, err, Error, guard, >>=-eq-ok, ok_eq, bad_request, server_error, bad_body, bad_status,
  bad_transport, or_error-eq-ok,
}
use jaeger_influxdb.Influx2http.Http.{
  Net, Url, Request, Response, Service, new_request, check_error, do_request,
}

module _ (net : Net) where
  -- The error of an answer that is not of the class 2.
  abbrev pub answer_error : Response → Bool → Error
  answer_error resp client_or_server =
      if client_or_server
      then (if net.decodes_error resp.body then server_error else bad_body)
      else bad_status

  -- An answer passes exactly if its status code is of the class 2; an answer of the classes 4 and 5
  -- gives the server's error, where its body can be read as one, and one of any other class an error
  -- of its own.
  pub check_error_lem :
      (resp : Response)
      → check_error net resp ≡ (
          if nat_eq (resp.status_code / 100) 2
          then ok tt
          else err (
              answer_error resp
                (nat_eq (resp.status_code / 100) 4 || nat_eq (resp.status_code / 100) 5)))
  unfolding check_error
  check_error_lem resp = ground arith

  pub check_error_ok :
      (resp : Response) (u : Unit {0}) → check_error net resp ≡ ok u → resp.status_code / 100 ≡ 2
  check_error_ok resp u e = elim (Bool-cases (nat_eq (resp.status_code / 100) 2)) [
    | inl two ↦ (nat_eq_iff (resp.status_code / 100) 2).0 two
    | inr other ↦ absurd (err_ok (rw (check_error_lem resp, other) at e))
  ]
    where
      err_ok : {x : Error} → err x ≡ ok u → ⊥
      err_ok e = cc

  pub do_request_ok :
      (s : Service) (u : Url) (req : Request) (resp : Response)
      → do_request net s u req ≡ ok resp
      → (sent : Request) × (net.send sent ≡ some resp)
  unfolding do_request
  do_request_ok s u req resp e = (
    record req { skip_verify = text_eq u.scheme (codes "https") && s.insecure_skip_verify },
    or_error-eq-ok bad_transport _ resp e,
  )

  -- The request that is sent goes to the URL of the request.
  pub do_request_url :
      (s : Service) (u : Url) (req : Request) (resp : Response)
      → do_request net s u req ≡ ok resp
      → (sent : Request) × (net.send sent ≡ some resp) × (sent.url ≡ req.url)
  unfolding do_request
  do_request_url s u req resp e = (
    record req { skip_verify = text_eq u.scheme (codes "https") && s.insecure_skip_verify },
    or_error-eq-ok bad_transport _ resp e,
    refl,
  )

  pub new_request_url :
      (method : Text) (u : Url) (body : Text) (req : Request)
      → new_request net method u body ≡ ok req
      → req.url ≡ u
  new_request_url method u body req e =
      let (_, _, same) = >>=-eq-ok (guard (net.can_request method u) bad_request) _ e in
      ap (λ r. r.url) (ok_eq (sym same))
