-- ===== src/Influx2http/Buckets.antt =====
-- BucketService of influx2http/bucket_service.go. No caller passes options, so the paging is left
-- out.
pub mod Retention
pub mod Found
use jaeger_influxdb.Prelude.{
  ℕ, suc, ◌*◌, ◌-◌, ◌+◌, ◌≡◌, Bool, true, false, List, [], ◌∷◌, ◌++◌, Option, none, some, Text,
  codes, if◌then◌else◌,
}
use jaeger_influxdb.Prelude.Int.{ℤ, pos, negsuc, wrap64, ltb_ℤ}
use jaeger_influxdb.Prelude.Outcome.{
  Outcome, ok, err, panic, ◌>>=◌, ◌>>◌, or_error, or_panic, unprocessable, not_found, bad_body,
}
use jaeger_influxdb.Influx2http.Http.{
  Values, add_value, Url, Request, Response, Net, Service, new_url, new_request, set_token,
  do_request, check_error,
}

pub record RetentionRule : Type 0 where
  pub rule_type : Text
  pub every_seconds : ℤ  -- int64

-- `bucket`, as the server sends it.
pub record BucketJson : Type 0 where
  pub id : ℕ
  pub org_id : ℕ
  pub description : Text
  pub name : Text
  pub retention_policy_name : Text
  pub retention_rules : List RetentionRule

-- `influxdb.Bucket`
pub record Bucket : Type 0 where
  pub id : ℕ
  pub org_id : ℕ
  pub description : Text
  pub name : Text
  pub retention_policy_name : Text
  pub retention_period : ℤ

abbrev pub seconds : ℤ → ℤ
seconds (pos n) = pos (n * 1000000000)
seconds (negsuc n) = negsuc ((n + 1) * 1000000000 - 1)

pub bucket_with : BucketJson → ℤ → Bucket
bucket_with b d = record {
  id = b.id;
  org_id = b.org_id;
  description = b.description;
  name = b.name;
  retention_policy_name = b.retention_policy_name;
  retention_period = d;
}

-- The retention period; the product is an `int64` product.
retention : List RetentionRule → Outcome ℤ
retention [] = ok (pos 0)
retention (r ∷ rs) =
    let d = wrap64 (seconds r.every_seconds) in
    if ltb_ℤ d (pos 1000000000) then err unprocessable else ok d

unfoldable pub to_influxdb : BucketJson → Outcome Bucket
unfolding retention bucket_with
to_influxdb b = do d ← retention b.retention_rules; ok (bucket_with b d)

pub record BucketFilter : Type 0 where
  pub id : Option ℕ
  pub name : Option Text
  pub organization_id : Option ℕ
  pub org : Option Text

add_some : Text → Option Text → Values → Values
add_some k none vs = vs
add_some k (some v) vs = add_value k v vs

module _ (net : Net) (decode : Text → Option (List (Option BucketJson))) where
  add_id : Text → Option ℕ → Values → Values
  add_id k none vs = vs
  add_id k (some n) vs = add_value k (net.id_string n) vs

  bucket_query : BucketFilter → Values → Values
  unfolding add_id add_some
  bucket_query filter vs =
      let by_org_id = add_id (codes "orgID") filter.organization_id vs in
      let by_org = add_some (codes "org") filter.org by_org_id in
      let by_id = add_id (codes "id") filter.id by_org in add_some (codes "name") filter.name by_id

  -- A null bucket is a nil pointer, which the loop dereferences.
  pub to_buckets : List (Option BucketJson) → Outcome (List Bucket)
  to_buckets [] = ok []
  to_buckets (b ∷ bs) = do j ← or_panic b; pb ← to_influxdb j; pbs ← to_buckets bs; ok (pb ∷ pbs)

  unfoldable pub find_buckets : Service → BucketFilter → Outcome (List Bucket)
  unfolding bucket_query to_buckets
  find_buckets s filter = do
    u ← new_url net s.addr (codes "/api/v2/buckets")
    req ← new_request net (codes "GET") u []
    let queried : Request = record req { url = record u { query = bucket_query filter u.query } }
    resp ← do_request net s u (set_token net s.token queried)
    check_error net resp
    bs ← or_error bad_body (decode resp.body)
    to_buckets bs

  -- The name that is missing in the message of the one error is left out.
  first_bucket : List Bucket → Outcome Bucket
  first_bucket [] = err not_found
  first_bucket (b ∷ bs) = ok b

  unfoldable pub find_bucket : Service → BucketFilter → Outcome Bucket
  unfolding first_bucket
  find_bucket s filter = do bs ← find_buckets s filter; first_bucket bs
