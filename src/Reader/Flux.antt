-- ===== src/Reader/Flux.antt =====
-- Reader of storev2/reader.go. What a query answers is an argument; FluxQueryService.Query, which
-- the code calls for it, is modelled in Influx2http/FluxQuery.antt.
pub mod Found
use jaeger_influxdb.Prelude.{
  ℕ, List, [], ◌∷◌, ◌++◌, map, Option, none, some, Text, codes, if◌then◌else◌,
}
use jaeger_influxdb.Prelude.Dict.{Dict}
use jaeger_influxdb.Prelude.Int.{ℤ, pos, ◌+ℤ◌, ◌-ℤ◌}
use jaeger_influxdb.Prelude.Outcome.{
  Outcome, ok, err, panic, ◌>>=◌, or_panic, Error, trace_not_found,
}
use jaeger_influxdb.Common.{service_name_key, operation_name_key}
use jaeger_influxdb.Dbmodel.Model.{SpanId, TraceId, Time, zero_time, Floats, Ids}
use jaeger_influxdb.Dbmodel.Flux.{Column, Row, strings}
use jaeger_influxdb.Dbmodel.Flux.Traces.{
  Table, Trace, ended, traces_from_flux_result, trace_ids_from_flux_result,
}
use jaeger_influxdb.Dbmodel.Dependencies.{DependencyLink, dependency_links_from_result_v2}
use jaeger_influxdb.Dbmodel.Queries.{
  TraceQueryParameters, FluxTraceQuery, time_or_zero, flux_trace_query_from_tqp,
  build_flux_trace_query, build_flux_trace_id_query,
}

-- What the query service returns: the error `io.EOF`, another error, or the tables of a result.
pub data Answer (F : Type 0) : Type 0 where
  eof : Answer F
  failed : Error → Answer F
  tables : List (Table F) → Answer F

pub record Reader : Type 0 where
  pub bucket : Text
  pub span_measurement : Text
  pub span_meta_measurement : Text
  pub log_measurement : Text
  pub default_lookback : ℤ

-- `NewFluxTraceQuery`, with the end of the range where there is one.
pub new_flux_trace_query : Reader → Time → Time → FluxTraceQuery
new_flux_trace_query r start stop = record {
  bucket = r.bucket;
  span_measurement = r.span_measurement;
  log_measurement = r.log_measurement;
  start_time_min = start;
  start_time_max = stop;
  duration_min = pos 0;
  duration_max = pos 0;
  tags = [];
  num_traces = pos 0;
}

-- An answer without a result: the end of the input is no error, and gives the nil value.
abbrev pub from_answer {ℓ} :
    {A : Type ℓ} {F : Type 0} → A → (List (Table F) → Outcome A) → Answer F → Outcome A
from_answer nil read eof = ok nil
from_answer nil read (failed e) = err e
from_answer nil read (tables ts) = read ts

-- `range` is the order in which the tags are ranged over, `format` the text of a time in UTC.
module _ {F : Type 0} (floats : Floats F) (ids : Ids) (range : Dict Text Text → List (Text × Text))
    (format : Time → Text) (run : Text → Answer F) where
  -- `reader.Strings(0)` of each row.
  first_strings : List (Row F) → Outcome (List Text)
  first_strings [] = ok []
  first_strings ([] ∷ rows) = panic
  first_strings ((c ∷ cs) ∷ rows) = do s ← strings c.cell; rest ← first_strings rows; ok (s ∷ rest)

  first_columns : List (Table F) → Outcome (List Text)
  unfolding first_strings
  first_columns [] = ok []
  first_columns (t ∷ ts) = do
    read ← first_strings t.rows
    names ← ended t.fault read
    rest ← first_columns ts
    ok (names ++ rest)

  unfoldable pub get_services : Reader → Outcome (List Text)
  unfolding first_columns
  get_services r = from_answer [] first_columns (
      run (
        codes "\nimport \"influxdata/influxdb/v1\"\nv1.measurementTagValues(bucket: \""
        ++ (r.bucket
            ++ (codes "\", measurement: \""
                ++ (r.span_meta_measurement
                    ++ (codes "\", tag: \"" ++ (service_name_key ++ codes "\")\n")))))))

  -- An operation is its name and the kind of the span that was asked for.
  unfoldable pub get_operations : Reader → Text → Text → Outcome (List (Text × Text))
  unfolding first_columns
  get_operations r service_name span_kind = do
    names ← from_answer [] first_columns (
        run (
          codes "\nimport \"influxdata/influxdb/v1\"\nv1.tagValues(bucket:\""
          ++ (r.bucket
              ++ (codes "\", tag:\""
                  ++ (operation_name_key
                      ++ (codes "\", predicate: (r) => r._measurement==\""
                          ++ (r.span_meta_measurement
                              ++ (codes "\" and r."
                                  ++ (service_name_key
                                      ++ (codes "==\"" ++ (service_name ++ codes "\")\n")))))))))))
    ok (map (λ name. (name, span_kind)) names)

  pub read_traces : Reader → List (Table F) → Outcome (List (Trace F))
  read_traces r ts = traces_from_flux_result floats ids r.span_measurement r.log_measurement ts

  -- More traces than one are a panic of the code's own.
  single_trace : List (Trace F) → Outcome (Option (Trace F))
  single_trace [] = err trace_not_found
  single_trace (t ∷ []) = ok (some t)
  single_trace (t ∷ u ∷ ts) = panic

  unfoldable pub get_trace : Reader → Time → TraceId → Outcome (Option (Trace F))
  unfolding new_flux_trace_query read_traces single_trace
  get_trace r now trace_id =
      from_answer none (λ ts. read_traces r ts >>= single_trace)
        (run (
          build_flux_trace_query ids format
            (new_flux_trace_query r (now +ℤ r.default_lookback) zero_time) (trace_id ∷ [])))

  -- The query for the IDs of the traces that are looked for.
  abbrev pub trace_ids_query : Reader → TraceQueryParameters → Text
  trace_ids_query r query =
      build_flux_trace_id_query range format
        (flux_trace_query_from_tqp range r.bucket r.span_measurement r.log_measurement query)

  unfoldable pub find_trace_ids : Reader → TraceQueryParameters → Outcome (List TraceId)
  find_trace_ids r query =
      from_answer [] (λ ts. trace_ids_from_flux_result floats ids ts)
        (run (trace_ids_query r query))

  -- The query for the traces that were found.
  pub traces_query : Reader → TraceQueryParameters → List TraceId → Text
  unfolding new_flux_trace_query
  traces_query r query trace_ids =
      build_flux_trace_query ids format
        (new_flux_trace_query r query.start_time_min (time_or_zero query.start_time_max)) trace_ids

  pub traces_of : Reader → TraceQueryParameters → List TraceId → Outcome (List (Trace F))
  unfolding read_traces traces_query
  traces_of r query [] = ok []
  traces_of r query (t ∷ ts) = from_answer [] (read_traces r) (run (traces_query r query (t ∷ ts)))

  unfoldable pub find_traces : Reader → TraceQueryParameters → Outcome (List (Trace F))
  unfolding traces_of
  find_traces r query = do trace_ids ← find_trace_ids r query; traces_of r query trace_ids

  unfoldable pub get_dependencies :
      (Dict SpanId SpanId → List (SpanId × SpanId))
      → (Dict Text DependencyLink → List (Text × DependencyLink))
      → Reader
      → Time
      → ℤ
      → Outcome (List DependencyLink)
  get_dependencies range_calls range_links r end lookback =
      from_answer [] (dependency_links_from_result_v2 ids range_calls range_links) (
        run (
          codes "\nfrom(bucket: \""
          ++ (r.bucket
              ++ (codes "\")\n |> range(start: "
                  ++ (format (end -ℤ lookback)
                      ++ (codes ", stop: "
                          ++ (format end
                              ++ (codes ")\n |> filter(fn: (r) => r._measurement == \""
                                  ++ (r.span_measurement
                                      ++ codes
                                          "\" and (r._field == \"span_id\" or r._field == \"references\"))\n |> pivot(rowKey:[\"_time\"], columnKey: [\"_field\"], valueColumn: \"_value\")\n |> group()\n |> keep(columns: [\"span_id\", \"references\", \"service_name\"])\n")))))))))
