-- ===== src/Dbmodel/Queries.antt =====
-- The query builders: dbmodel/tracequery_influxql.go, dbmodel/logquery_influxql.go and
-- dbmodel/tracequery_flux.go. The setters of the builders are record updates.
pub mod Tags
use jaeger_influxdb.Prelude.{
  ℕ, Bool, true, false, not, ◌||◌, List, [], ◌∷◌, ◌++◌, map, Option, none, some, Text, codes,
  if◌then◌else◌,
}
use jaeger_influxdb.Prelude.Dict.{Dict, insert}
use jaeger_influxdb.Prelude.Eq.{Text_eq}
use jaeger_influxdb.Prelude.Int.{ℤ, pos, ltb_ℤ, wrap64, ◌+ℤ◌, ◌-ℤ◌}
use jaeger_influxdb.Common.{
  time_v2_key, trace_id_key, service_name_key, operation_name_key, duration_key, measurement_key,
  field_key, value_key,
}
use jaeger_influxdb.Go.Decimal.{format_int}
use jaeger_influxdb.Go.Strings.{join}
use jaeger_influxdb.Dbmodel.Model.{TraceId, Time, zero_time, is_zero_time, Ids}

-- `spanstore.TraceQueryParameters`
pub record TraceQueryParameters : Type 0 where
  pub service_name : Text
  pub operation_name : Text
  pub tags : Dict Text Text
  pub start_time_min : Time
  pub start_time_max : Time
  pub duration_min : ℤ
  pub duration_max : ℤ
  pub num_traces : ℤ

pub record InfluxQlTraceQuery : Type 0 where
  pub measurement : Text
  pub start_time_min : Time
  pub start_time_max : Time
  pub duration_min : ℤ
  pub duration_max : ℤ
  pub tags : Dict Text Text
  pub num_traces : ℤ

pub record FluxTraceQuery : Type 0 where
  pub bucket : Text
  pub span_measurement : Text
  pub log_measurement : Text
  pub start_time_min : Time
  pub start_time_max : Time
  pub duration_min : ℤ
  pub duration_max : ℤ
  pub tags : Dict Text Text
  pub num_traces : ℤ

abbrev pub positive : ℤ → Bool
positive n = ltb_ℤ (pos 0) n

abbrev pub positive_or_zero : ℤ → ℤ
positive_or_zero n = if positive n then n else pos 0

abbrev pub time_or_zero : Time → Time
time_or_zero t = if is_zero_time t then zero_time else t

abbrev pub tag_if_given : Text → Text → Dict Text Text → Dict Text Text
tag_if_given key [] m = m
tag_if_given key (c ∷ s) m = insert key (c ∷ s) m

add_tags : Dict Text Text → List (Text × Text) → Dict Text Text
add_tags m [] = m
add_tags m ((k, v) ∷ rest) = add_tags (insert k v m) rest

-- The tags of both builders; `tags` are those of the parameters in the order of the range.
unfoldable pub tags_from_tqp : Text → Text → List (Text × Text) → Dict Text Text
unfolding add_tags
tags_from_tqp service_name operation_name tags =
    add_tags
      (tag_if_given operation_name_key operation_name
        (tag_if_given service_name_key service_name []))
      tags

unfoldable pub influxql_trace_query_from_tqp :
    (Dict Text Text → List (Text × Text)) → Text → TraceQueryParameters → InfluxQlTraceQuery
unfolding tags_from_tqp
influxql_trace_query_from_tqp range measurement query = record {
  measurement = measurement;
  start_time_min = time_or_zero query.start_time_min;
  start_time_max = time_or_zero query.start_time_max;
  duration_min = positive_or_zero query.duration_min;
  duration_max = positive_or_zero query.duration_max;
  tags = tags_from_tqp query.service_name query.operation_name (range query.tags);
  num_traces = positive_or_zero query.num_traces;
}

unfoldable pub flux_trace_query_from_tqp :
    (Dict Text Text → List (Text × Text))
    → Text
    → Text
    → Text
    → TraceQueryParameters
    → FluxTraceQuery
unfolding tags_from_tqp
flux_trace_query_from_tqp range bucket span_measurement log_measurement query = record {
  bucket = bucket;
  span_measurement = span_measurement;
  log_measurement = log_measurement;
  start_time_min = query.start_time_min;
  start_time_max = time_or_zero query.start_time_max;
  duration_min = positive_or_zero query.duration_min;
  duration_max = positive_or_zero query.duration_max;
  tags = tags_from_tqp query.service_name query.operation_name (range query.tags);
  num_traces = positive_or_zero query.num_traces;
}

-- `"key" = 'value'` and `r.key == "value"`; nothing is escaped.
abbrev pub influxql_equals : Text → Text → Text
influxql_equals k v = codes "\"" ++ (k ++ (codes "\" = '" ++ (v ++ codes "'")))

abbrev pub flux_equals : Text → Text → Text
flux_equals k v = codes "r." ++ (k ++ (codes " == \"" ++ (v ++ codes "\"")))

-- A part that stands only where a test holds.
abbrev pub part_if : Bool → Text → List Text
part_if true s = s ∷ []
part_if false s = []

-- ` where ` and the predicates, if there are any.
where_all : List Text → List Text
where_all [] = []
where_all (p ∷ ps) = (codes "where " ++ join (p ∷ ps) (codes " and ")) ∷ []

unfoldable pub build_influxql_trace_id_query :
    (Dict Text Text → List (Text × Text)) → InfluxQlTraceQuery → Text
unfolding where_all
build_influxql_trace_id_query range q =
    let tests =
      map (λ (e : Text × Text). influxql_equals e.0 e.1) (range q.tags)
      ++ (part_if (positive q.duration_min) (codes "\"duration\" >= " ++ format_int q.duration_min)
          ++ part_if (positive q.duration_max)
              (codes "\"duration\" <= " ++ format_int q.duration_max)) in
    let inner =
      join
        ((codes "select \"duration\" from " ++ q.measurement)
          ∷ (where_all tests ++ codes "group by \"trace_id\" order by time desc limit 1" ∷ []))
        (codes " ") in
    let times =
      part_if (not (is_zero_time q.start_time_min))
        (codes "time >= " ++ format_int (wrap64 q.start_time_min))
      ++ part_if (not (is_zero_time q.start_time_max))
          (codes "time <= " ++ format_int (wrap64 q.start_time_max)) in
    join
      ((codes "select \"trace_id\" from (" ++ (inner ++ codes ")"))
        ∷ (where_all times
            ++ codes "order by time desc"
              ∷ part_if (positive q.num_traces) (codes "limit " ++ format_int q.num_traces)))
      (codes " ")

-- BuildTraceQuery and BuildLogQuery, which differ only in the measurement.
unfoldable pub build_influxql_trace_query : Ids → Text → List TraceId → Text
build_influxql_trace_query ids measurement trace_ids =
    join
      ((codes "select * from " ++ (measurement ++ codes " where"))
        ∷ join (map (λ t. influxql_equals trace_id_key (ids.trace_id_string t)) trace_ids)
            (codes " or ")
        ∷ codes "group by trace_id"
        ∷ [])
      (codes " ")

abbrev pub hour : ℤ
hour = pos 3600000000000

-- `format` is the text of a time in UTC with `time.RFC3339Nano`.
range_part : (Time → Text) → Time → Time → Bool → Text
range_part format start stop stopped =
    if stopped
    then codes "range(start: " ++ (format start ++ (codes ", stop: " ++ (format stop ++ codes ")")))
    else codes "range(start: " ++ (format start ++ codes ")")

abbrev pub pipe : Text
pipe = codes "\n |> "

unfoldable pub build_flux_trace_query : Ids → (Time → Text) → FluxTraceQuery → List TraceId → Text
unfolding range_part
build_flux_trace_query ids format q trace_ids =
    let measurements =
      flux_equals measurement_key q.span_measurement
      ∷ flux_equals measurement_key q.log_measurement
      ∷ [] in
    let traces = map (λ t. flux_equals trace_id_key (ids.trace_id_string t)) trace_ids in
    join
      ((codes "from(bucket: \"" ++ (q.bucket ++ codes "\")"))
        ∷ range_part format (q.start_time_min -ℤ hour) (q.start_time_max +ℤ hour)
            (not (is_zero_time q.start_time_max))
        ∷ (codes "filter(fn: (r) => ("
            ++ (join measurements (codes " or ")
                ++ (codes ") and (" ++ (join traces (codes " or ") ++ codes "))"))))
        ∷ codes "pivot(rowKey:[\"_time\"], columnKey:[\"_field\"], valueColumn:\"_value\")"
        ∷ codes "group(columns: [\"_measurement\", \"trace_id\"])"
        ∷ codes "drop(columns: [\"_start\", \"_stop\"])"
        ∷ [])
      pipe

duration_parts : ℤ → ℤ → List Text
duration_parts least most =
    if positive least || positive most
    then (codes "filter(fn: (r) => "
        ++ (join
              (part_if (positive least) (codes "r._value >= " ++ format_int least)
                ++ part_if (positive most) (codes "r._value <= " ++ format_int most))
              (codes " and ")
            ++ codes ")"))
      ∷ codes "pivot(rowKey:[\"trace_id\"], columnKey:[\"_field\"], valueColumn:\"_value\")"
      ∷ []
    else []

limit_parts : ℤ → List Text
limit_parts n =
    if positive n
    then (codes "limit(n: " ++ (format_int n ++ codes ")"))
      ∷ codes "keep(columns: [\"trace_id\"])"
      ∷ []
    else []

unfoldable pub build_flux_trace_id_query :
    (Dict Text Text → List (Text × Text)) → (Time → Text) → FluxTraceQuery → Text
unfolding range_part duration_parts limit_parts
build_flux_trace_id_query range format q =
    let filters =
      flux_equals measurement_key q.span_measurement
      ∷ flux_equals field_key duration_key
      ∷ map (λ (e : Text × Text). flux_equals e.0 e.1) (range q.tags) in
    join
      ((codes "from(bucket: \"" ++ (q.bucket ++ codes "\")"))
        ∷ range_part format q.start_time_min q.start_time_max (not (is_zero_time q.start_time_max))
        ∷ (codes "filter(fn: (r) => " ++ (join filters (codes " and ") ++ codes ")"))
        ∷ codes "group(columns:[\"trace_id\"])"
        ∷ codes "max()"
        ∷ (duration_parts q.duration_min q.duration_max
            ++ codes "keep(columns: [\"_time\", \"trace_id\"])"
              ∷ codes "group()"
              ∷ codes "sort(columns: [\"_time\"], desc: true)"
              ∷ limit_parts q.num_traces))
      pipe
