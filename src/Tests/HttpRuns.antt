-- ===== src/Tests/HttpRuns.antt =====
-- The theorems on the client of InfluxDB 2 with a server that always gives one answer.
use jaeger_influxdb.Prelude.{
  ℕ, ◌≡◌, refl, true, false, List, [], ◌∷◌, Option, none, some, Text, codes, arith,
}
use jaeger_influxdb.Prelude.Int.{pos, wrap64}
use jaeger_influxdb.Prelude.Outcome.{ok, ◌>>=◌}
use jaeger_influxdb.Prelude.Eq.{text_eq}
use jaeger_influxdb.Influx2http.Http.{Net, Response, Service, check_error, new_url, do_request}
use jaeger_influxdb.Influx2http.Buckets.{
  RetentionRule, BucketJson, BucketFilter, bucket_with, to_influxdb, find_bucket, find_buckets,
}
use jaeger_influxdb.Influx2http.Buckets.Retention.{kept_for, to_influxdb_lem}
use jaeger_influxdb.Influx2http.Buckets.Found.{Answer, find_bucket-Answer}
use jaeger_influxdb.Influx2http.WriteService.{write}
use jaeger_influxdb.Influx2http.WriteService.Delivered.{Delivered, write-Delivered}
use jaeger_influxdb.Influx2http.QueryRequest.{
  CsvDialect, ast_compiler, proxy_request, query_request_from_proxy_request, is_annotation,
}
use jaeger_influxdb.Influx2http.QueryRequest.Valid.{
  IsDialect, recompiled, proxy_request-query_request_from_proxy_request,
}

abbrev pub answer : Response
answer = record { status_code = 204; body = [] }

abbrev pub net : Net
net = record {
  parse_url = λ s. some (record { scheme = codes "http"; host = s; path = []; query = [] });
  can_request = λ method url. true;
  send = λ req. some answer;
  decodes_error = λ s. false;
  id_string = λ n. codes "id";
  encode_id = λ n. some (codes "id");
  gzip = λ s. s;
}

abbrev pub service : Service
service = record { addr = codes "localhost"; token = codes "t"; insecure_skip_verify = false }

abbrev pub day : RetentionRule
day = record { rule_type = codes "expire"; every_seconds = pos 86400 }

abbrev pub day_json : BucketJson
day_json = record {
  id = 1;
  org_id = 2;
  description = [];
  name = codes "jaeger";
  retention_policy_name = [];
  retention_rules = day ∷ [];
}

to_influxdb_lem_example :
    to_influxdb day_json ≡ (kept_for (pos 86400) >>= λ d. ok (bucket_with day_json d))
to_influxdb_lem_example = to_influxdb_lem day_json day [] refl (omega arith)

abbrev by_name : BucketFilter
by_name = record { id = none; name = some (codes "jaeger"); organization_id = some 2; org = none }

abbrev pub one_bucket : Text → Option (List (Option BucketJson))
one_bucket body = some (some day_json ∷ [])

found : find_bucket net one_bucket service by_name ≡ ok (bucket_with day_json (pos 86400000000000))
unfolding find_bucket find_buckets new_url do_request check_error to_influxdb wrap64 text_eq
found = refl

find_bucket-Answer_example :
    Answer net one_bucket by_name (bucket_with day_json (pos 86400000000000))
find_bucket-Answer_example = find_bucket-Answer net one_bucket service by_name _ found

written : write net (λ s. true) service [] 1 2 (codes "a 1") ≡ ok tt
unfolding write new_url do_request check_error text_eq
written = refl

write-Delivered_example : Delivered net (λ s. true) 1 2 (codes "ns") (codes "a 1")
write-Delivered_example = write-Delivered net (λ s. true) service [] 1 2 (codes "a 1") tt written

abbrev plain : CsvDialect
plain = record { no_header = false; delimiter = b','; annotations = codes "group" ∷ [] }

plain-IsDialect : IsDialect plain
unfolding is_annotation text_eq
plain-IsDialect = record { ascii = omega arith; known = (refl, tt) }

proxy_request-query_request_from_proxy_request_example :
    (query_request_from_proxy_request {File = ℕ} {Spec = ℕ} {Package = ℕ}
        (record { organization_id = 4; compiler = ast_compiler 7 1 (8 ∷ []); dialect = some plain })
      >>= λ r. proxy_request (λ s. none) (record r { org = some 4 }) 9)
    ≡ (recompiled {File = ℕ} {Spec = ℕ} (λ s. none) (ast_compiler 7 1 (8 ∷ [])) 9 >>= λ c'.
        ok (record { organization_id = 4; compiler = c'; dialect = some plain }))
proxy_request-query_request_from_proxy_request_example =
    proxy_request-query_request_from_proxy_request (λ s. none) 4 9 (ast_compiler 7 1 (8 ∷ [])) plain
      plain-IsDialect
