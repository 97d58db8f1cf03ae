-- ===== src/Stores/V2.antt =====
-- NewStore of storev2/store.go and NewWriter of storev2/writer.go.
pub mod Wired
use jaeger_influxdb.Prelude.{ℕ, List, Option, Text, codes}
use jaeger_influxdb.Prelude.Outcome.{Outcome, ok, ◌>>=◌}
use jaeger_influxdb.Common.{
  default_span_measurement, default_span_meta_measurement, default_log_measurement,
}
use jaeger_influxdb.Influx2http.Http.{Net, Service}
use jaeger_influxdb.Influx2http.Buckets.{BucketJson}
use jaeger_influxdb.Influx2http.Organizations.{
  Organization, service_at, find_org_id, find_bucket_id,
}
use jaeger_influxdb.Reader.Flux.{Reader}
use jaeger_influxdb.Writer.Spans.{Measurements, SpanWriter, new_writer}
use jaeger_influxdb.Stores.Config.{Configuration}
use jaeger_influxdb.Stores.V1.{default_names}

-- The writer, with its state as in Writer/Spans.antt.
pub record Writer : Type 0 where
  pub write_service : Service
  pub precision : Text
  pub org_id : ℕ
  pub bucket_id : ℕ
  pub names : Measurements
  pub state : SpanWriter

-- The query service and the organization are fields of the reader.
pub record Store : Type 0 where
  pub query_service : Service
  pub org_id : ℕ
  pub reader : Reader
  pub writer : Writer

unfoldable pub new_store :
    (net : Net)
    → (Text → Option (List (Option Organization)))
    → (Text → Option (List (Option BucketJson)))
    → Configuration
    → Outcome Store
unfolding new_writer
new_store net decode_organizations decode_buckets conf = do
  org_id ← find_org_id net decode_organizations conf.host conf.token conf.organization
  bucket_id ←
      find_bucket_id net decode_organizations decode_buckets conf.host conf.token org_id conf.bucket
  let reader : Reader = record {
    bucket = conf.bucket;
    span_measurement = default_span_measurement;
    span_meta_measurement = default_span_meta_measurement;
    log_measurement = default_log_measurement;
    default_lookback = conf.default_lookback;
  }
  let writer : Writer = record {
    write_service = service_at conf.host conf.token;
    precision = codes "ns";
    org_id = org_id;
    bucket_id = bucket_id;
    names = default_names;
    state = new_writer;
  }
  ok (record {
    query_service = service_at conf.host conf.token;
    org_id = org_id;
    reader = reader;
    writer = writer;
  })
