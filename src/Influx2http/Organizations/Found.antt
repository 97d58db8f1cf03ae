-- ===== src/Influx2http/Organizations/Found.antt =====
-- What was asked and answered where an organization is found.
use jaeger_influxdb.Prelude.{
  ℕ, ◌/◌, ◌≡◌, ap, ◌∙◌, List, [], ◌∷◌, ◌++◌, Option, none, some, Text, codes,
}
use jaeger_influxdb.Prelude.Dict.{lookup, lookup-insert_self}
use jaeger_influxdb.Prelude.Eq.{Text_eq}
use jaeger_influxdb.Prelude.Outcome.{ok, >>=-eq-ok, ok_eq, or_error, or_error-eq-ok, bad_body}
use jaeger_influxdb.Influx2http.Http.{
  add_value, Url, Request, Response, Net, Service, new_url, new_request, set_token, do_request,
  check_error,
}
use jaeger_influxdb.Influx2http.Http.Answers.{check_error_ok, do_request_url, new_request_url}
use jaeger_influxdb.Influx2http.Organizations.{
  Organization, service_at, add_name, add_org_id, to_influxdb, find_organizations, has_filter,
  first_organization, find_organization, find_org_id,
}

module _ (net : Net) (decode : Text → Option (List (Option Organization))) where
  -- A request for the organizations of a name, and an answer that begins with an organization.
  pub record Named (name : Text) (o : Organization) : Type 0 where
    pub request : Request
    pub response : Response
    pub before : List Text
    pub others : List (Option Organization)
    pub asked : lookup (codes "org") request.url.query ≡ some (before ++ name ∷ [])
    pub sent : net.send request ≡ some response
    pub accepted : response.status_code / 100 ≡ 2
    pub decoded : decode response.body ≡ some (some o ∷ others)

  first_of :
      (os : List (Option Organization)) (found : List Organization) (o : Organization)
      → to_influxdb net decode os ≡ ok found
      → first_organization net decode found ≡ ok o
      → (rest : List (Option Organization)) × (os ≡ some o ∷ rest)
  unfolding to_influxdb first_organization
  first_of [] [] o e f = cc
  first_of [] (p ∷ found) o e f = cc
  first_of (none ∷ os) found o e f = cc
  first_of (some p ∷ os) found o e f =
      let (rest, q, e') = >>=-eq-ok (to_influxdb net decode os) _ e in
      (os, ap (λ x. some x ∷ os) (ok_eq (ap (first_organization net decode) (ok_eq e') ∙ f)))

  find_organization-Named :
      (s : Service) (name : Text) (o : Organization)
      → find_organization net decode s (record { id = none; name = some name }) ≡ ok o
      → Named name o
  unfolding find_organization find_organizations has_filter add_name add_org_id add_value set_token
  find_organization-Named s name o e =
      let (os, found, first) =
        >>=-eq-ok (find_organizations net decode s (record { id = none; name = some name })) _ e in
      let (u, e1, r1) = >>=-eq-ok (new_url net s.addr (codes "/api/v2/orgs")) _ found in
      let url : Url = record u { query = add_value (codes "org") name u.query } in
      let (req, e2, r2) = >>=-eq-ok (new_request net (codes "GET") url []) _ r1 in
      let (resp, e3, r3) = >>=-eq-ok (do_request net s url _) _ r2 in
      let (done, e4, r4) = >>=-eq-ok (check_error net resp) _ r3 in
      let (bs, e5, r5) = >>=-eq-ok (or_error bad_body (decode resp.body)) _ r4 in
      let (rest, split) = first_of bs os o r5 first in
      let (sent, e6, same) = do_request_url net s url _ resp e3 in
      record {
        request = sent;
        response = resp;
        before = _;
        others = rest;
        asked =
            ap (λ (v : Url). lookup (codes "org") v.query)
              (same ∙ new_request_url net (codes "GET") url [] req e2)
            ∙ lookup-insert_self (codes "org") _ u.query;
        sent = e6;
        accepted = check_error_ok net resp done e4;
        decoded = or_error-eq-ok bad_body _ bs e5 ∙ ap some split;
      }

  -- Where findOrgID returns an ID, a request for the organizations of the name was answered with a
  -- status of the class 2, and the ID is that of the first organization of the answer.
  pub find_org_id-Named :
      (host token org : Text) (id : ℕ)
      → find_org_id net decode host token org ≡ ok id
      → (o : Organization) × (o.id ≡ id) × Named org o
  unfolding find_org_id
  find_org_id-Named host token org id e =
      let (o, found, same) =
        >>=-eq-ok
          (find_organization net decode (service_at host token)
            (record { id = none; name = some org }))
          _ e in
      (o, ok_eq same, find_organization-Named (service_at host token) org o found)
