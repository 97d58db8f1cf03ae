-- ===== src/Stores/V2/Wired.antt =====
-- How the parts of a store of InfluxDB 2 fit together.
use mathlib.Core.Path.{subst}
use jaeger_influxdb.Prelude.{ℕ, ◌≡◌, refl, Bool, List, Option, none, some, Text, codes}
use jaeger_influxdb.Prelude.Outcome.{ok, >>=-eq-ok, ok_eq}
use jaeger_influxdb.Influx2http.Http.{Net}
use jaeger_influxdb.Influx2http.Buckets.{BucketJson, Bucket, find_bucket}
use jaeger_influxdb.Influx2http.Buckets.Found.{Answer, find_bucket-Answer}
use jaeger_influxdb.Influx2http.Organizations.{
  Organization, service_at, find_org_id, find_bucket_id,
}
use jaeger_influxdb.Influx2http.Organizations.Found.{Named, find_org_id-Named}
use jaeger_influxdb.Reader.Flux.{Reader}
use jaeger_influxdb.Writer.Spans.{Measurements}
use jaeger_influxdb.Writer.Send.Delivery.{ReportedV2, write_batch_v2-Reported}
use jaeger_influxdb.Stores.Config.{Configuration}
use jaeger_influxdb.Stores.V2.{Store, new_store}

-- The reader asks for the measurements that the writer writes.
pub record SameNames (r : Reader) (names : Measurements) : Type 0 where
  pub spans : r.span_measurement ≡ names.span
  pub metas : r.span_meta_measurement ≡ names.span_meta
  pub logs : r.log_measurement ≡ names.log

module _ (net : Net) (decode_organizations : Text → Option (List (Option Organization)))
    (decode_buckets : Text → Option (List (Option BucketJson))) where
  pub record Wired (conf : Configuration) (store : Store) : Type 0 where
    pub organization : Organization
    pub found : Named net decode_organizations conf.organization organization
    pub same_organization : organization.id ≡ store.writer.org_id
    pub asked_organization : store.org_id ≡ store.writer.org_id
    pub bucket : Bucket
    pub answer :
        Answer net decode_buckets
          (record {
            id = none;
            name = some conf.bucket;
            organization_id = some store.writer.org_id;
            org = none;
          })
          bucket
    pub same_bucket : bucket.id ≡ store.writer.bucket_id
    pub asked_bucket : store.reader.bucket ≡ conf.bucket
    pub same_service : store.query_service ≡ store.writer.write_service
    pub nanoseconds : store.writer.precision ≡ codes "ns"
    pub names : SameNames store.reader store.writer.names
    pub writes :
        (valid_precision : Text → Bool) (batch : List Text)
        → ReportedV2 net valid_precision store.writer.write_service store.writer.precision
            store.writer.org_id store.writer.bucket_id batch

  found_bucket :
      (host token name : Text) (org_id id : ℕ)
      → find_bucket_id net decode_organizations decode_buckets host token org_id name ≡ ok id
      → (b : Bucket) × (b.id ≡ id)
        × Answer net decode_buckets
            (record { id = none; name = some name; organization_id = some org_id; org = none })
            b
  unfolding find_bucket_id
  found_bucket host token name org_id id e =
      let (b, found, same) =
        >>=-eq-ok
          (find_bucket net decode_buckets (service_at host token)
            (record { id = none; name = some name; organization_id = some org_id; org = none }))
          _ e in
      (b, ok_eq same, find_bucket-Answer net decode_buckets (service_at host token) _ b found)

  -- Where NewStore of storev2 returns a store: the organization of its reader and its writer is the
  -- first that the server answered with for the configured name, the writer's bucket is the first
  -- that it answered with to a request for the configured bucket name in this organization, and the
  -- reader asks for the configured bucket; reader and writer use one server and token, and the same
  -- measurements. The writer's precision is nanoseconds, and each batch that the writer writes is accepted in a
  -- request for this organization and bucket, in this precision, or its error is logged.
  pub new_store_v2-Wired :
      (conf : Configuration) (store : Store)
      → new_store net decode_organizations decode_buckets conf ≡ ok store
      → Wired conf store
  unfolding new_store
  new_store_v2-Wired conf store e =
      let (org_id, o, e1) =
        >>=-eq-ok (find_org_id net decode_organizations conf.host conf.token conf.organization) _
          e in
      let (bucket_id, b, e2) =
        >>=-eq-ok
          (find_bucket_id net decode_organizations decode_buckets conf.host conf.token org_id
            conf.bucket)
          _ e1 in
      let (organization, same_o, named) =
        find_org_id-Named net decode_organizations conf.host conf.token conf.organization org_id
          o in
      let (bucket, same_b, answer) =
        found_bucket conf.host conf.token conf.bucket org_id bucket_id b in
      subst (Wired conf) (ok_eq e2) (record {
        organization = organization;
        found = named;
        same_organization = same_o;
        asked_organization = refl;
        bucket = bucket;
        answer = answer;
        same_bucket = same_b;
        asked_bucket = refl;
        same_service = refl;
        nanoseconds = refl;
        names = record { spans = refl; metas = refl; logs = refl };
        writes = λ valid_precision batch.
            write_batch_v2-Reported net valid_precision (service_at conf.host conf.token)
              (codes "ns") org_id bucket_id batch;
      })
