-- ===== src/Tests/QueryRuns.antt =====
-- The builders of queries at concrete parameters.
use jaeger_influxdb.Prelude.{or_else, ◌≡◌, refl, [], ◌∷◌, none, codes}
use jaeger_influxdb.Prelude.Dict.{lookup, insert}
use jaeger_influxdb.Prelude.Eq.{Text_eq, text_eq}
use jaeger_influxdb.Prelude.Int.{pos, wrap64}
use jaeger_influxdb.Go.Decimal.{format_int}
use jaeger_influxdb.Go.Strings.{join}
use jaeger_influxdb.Dbmodel.Model.{zero_time}
use jaeger_influxdb.Common.{service_name_key, operation_name_key}
use jaeger_influxdb.Dbmodel.Queries.{
  TraceQueryParameters, tags_from_tqp, influxql_trace_query_from_tqp, build_influxql_trace_id_query,
}
use jaeger_influxdb.Dbmodel.Queries.Tags.{last_value, given, lookup-tags_from_tqp}

abbrev parameters : TraceQueryParameters
parameters = record {
  service_name = codes "cart";
  operation_name = [];
  tags = (codes "host", codes "a") ∷ [];
  start_time_min = zero_time;
  start_time_max = pos 9;
  duration_min = pos 5;
  duration_max = pos 0;
  num_traces = pos 20;
}

cart_query :
    build_influxql_trace_id_query
      (λ m. m)
      (influxql_trace_query_from_tqp (λ m. m) (codes "span") parameters)
    ≡ codes
        "select \"trace_id\" from (select \"duration\" from span where \"service_name\" = 'cart' and \"host\" = 'a' and \"duration\" >= 5 group by \"trace_id\" order by time desc limit 1) where time <= 9 order by time desc limit 20"
unfolding build_influxql_trace_id_query influxql_trace_query_from_tqp lookup insert text_eq join
    format_int wrap64
cart_query = refl

lookup-tags_from_tqp_example :
    lookup (codes "service_name") (tags_from_tqp (codes "cart") [] ((codes "host", codes "a") ∷ []))
    ≡ or_else (last_value (codes "service_name") ((codes "host", codes "a") ∷ [])) (
        or_else
          (given (codes "service_name") operation_name_key [])
          (or_else (given (codes "service_name") service_name_key (codes "cart")) none))
lookup-tags_from_tqp_example =
    lookup-tags_from_tqp (codes "cart") [] ((codes "host", codes "a") ∷ []) (codes "service_name")
