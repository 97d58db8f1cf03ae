-- ===== src/Tests/ReaderRuns.antt =====
-- The theorem on the reader of InfluxDB 2 with a database that holds one span.
use jaeger_influxdb.Prelude.{ℕ, List, [], ◌∷◌, Text, codes}
use jaeger_influxdb.Prelude.Eq.{Text_eq}
use jaeger_influxdb.Prelude.Int.{pos}
use jaeger_influxdb.Dbmodel.Model.{Time, zero_time}
use jaeger_influxdb.Dbmodel.Flux.Traces.{Trace}
use jaeger_influxdb.Dbmodel.Queries.{TraceQueryParameters}
use jaeger_influxdb.Reader.Flux.{Answer, tables, Reader}
use jaeger_influxdb.Tests.TraceRuns.{span_table, read_span}

abbrev reader : Reader
reader = record {
  bucket = codes "jaeger";
  span_measurement = codes "span";
  span_meta_measurement = codes "span-meta";
  log_measurement = codes "log";
  default_lookback = pos 0;
}

abbrev pub any_trace : TraceQueryParameters
any_trace = record {
  service_name = codes "cart";
  operation_name = [];
  tags = [];
  start_time_min = pos 1;
  start_time_max = zero_time;
  duration_min = pos 0;
  duration_max = pos 0;
  num_traces = pos 20;
}

abbrev one_span : Text → Answer ℕ
one_span s = tables (span_table ∷ [])

abbrev text_of_time : Time → Text
text_of_time t = codes "2020-01-01T00:00:00Z"

abbrev found_traces : List (Trace ℕ)
found_traces = record { spans = record read_span { logs = [] } ∷ [] } ∷ []
