-- ===== src/Influx2http/Organizations.antt =====
-- OrganizationService of influx2http/org_service.go, and the two look-ups of storev2/store.go.
pub mod Found
use jaeger_influxdb.Prelude.{ℕ, false, List, [], ◌∷◌, Option, none, some, Text, codes}
use jaeger_influxdb.Prelude.Outcome.{
  Outcome, ok, err, ◌>>=◌, ◌>>◌, or_error, or_panic, not_found, no_filter, bad_body,
}
use jaeger_influxdb.Influx2http.Http.{
  Values, add_value, Url, Net, Service, new_url, new_request, set_token, do_request, check_error,
}
use jaeger_influxdb.Influx2http.Buckets.{BucketJson, find_bucket}

-- `influxdb.Organization`
pub record Organization : Type 0 where
  pub id : ℕ
  pub name : Text

pub record OrganizationFilter : Type 0 where
  pub id : Option ℕ
  pub name : Option Text

abbrev pub service_at : Text → Text → Service
service_at host token = record { addr = host; token = token; insecure_skip_verify = false }

module _ (net : Net) (decode : Text → Option (List (Option Organization))) where
  pub add_name : Option Text → Values → Values
  add_name none vs = vs
  add_name (some name) vs = add_value (codes "org") name vs

  pub add_org_id : Option ℕ → Values → Values
  add_org_id none vs = vs
  add_org_id (some id) vs = add_value (codes "orgID") (net.id_string id) vs

  -- `Toinfluxdb` takes the address of a field of each answer, and panics at a nil pointer.
  pub to_influxdb : List (Option Organization) → Outcome (List Organization)
  to_influxdb [] = ok []
  to_influxdb (o ∷ os) = do org ← or_panic o; orgs ← to_influxdb os; ok (org ∷ orgs)

  unfoldable pub find_organizations : Service → OrganizationFilter → Outcome (List Organization)
  unfolding add_name add_org_id to_influxdb
  find_organizations s filter = do
    u ← new_url net s.addr (codes "/api/v2/orgs")
    let url : Url = record u { query = add_org_id filter.id (add_name filter.name u.query) }
    req ← new_request net (codes "GET") url []
    resp ← do_request net s url (set_token net s.token req)
    check_error net resp
    os ← or_error bad_body (decode resp.body)
    to_influxdb os

  has_filter : Option ℕ → Option Text → Outcome (Unit {0})
  has_filter none none = err no_filter
  has_filter none (some name) = ok tt
  has_filter (some id) name = ok tt

  pub first_organization : List Organization → Outcome Organization
  first_organization [] = err not_found
  first_organization (o ∷ os) = ok o

  -- An error of the look-up is passed on within another error, which the model leaves out.
  unfoldable pub find_organization : Service → OrganizationFilter → Outcome Organization
  unfolding has_filter first_organization
  find_organization s filter = do
    has_filter filter.id filter.name
    os ← find_organizations s filter
    first_organization os

  -- The fields of the services that are not given are Go's zero values.
  unfoldable pub find_org_id : Text → Text → Text → Outcome ℕ
  find_org_id host token org = do
    o ← find_organization (service_at host token) (record { id = none; name = some org })
    ok o.id

  unfoldable pub find_bucket_id :
      (Text → Option (List (Option BucketJson))) → Text → Text → ℕ → Text → Outcome ℕ
  find_bucket_id decode_buckets host token org_id bucket = do
    b ←
        find_bucket net decode_buckets (service_at host token)
          (record { id = none; name = some bucket; organization_id = some org_id; org = none })
    ok b.id
