-- ===== src/Tests/InfluxQlReaderRuns.antt =====
-- The theorems on the reader of InfluxDB 1 with a database that holds one span and one log.
use jaeger_influxdb.Prelude.{
  ℕ, ◌≡◌, ◌≤◌, ◌⊎◌, refl, List, [], ◌∷◌, none, codes, map, take, if◌then◌else◌,
}
use jaeger_influxdb.Prelude.Dict.{lookup, insert}
use jaeger_influxdb.Prelude.Eq.{Text_eq, text_eq}
use jaeger_influxdb.Prelude.Int.{pos}
use jaeger_influxdb.Prelude.Outcome.{Outcome, ok}
use jaeger_influxdb.Go.Strings.{join, split, split_two}
use jaeger_influxdb.Dbmodel.Model.{TraceId, Span}
use jaeger_influxdb.Dbmodel.KeyValue.{strings_to_key_value}
use jaeger_influxdb.Dbmodel.LogText.{show_newlines}
use jaeger_influxdb.Dbmodel.SpanTime.{remove_span_id_from_time}
use jaeger_influxdb.Dbmodel.References.{references_from_string}
use jaeger_influxdb.Dbmodel.Flux.Traces.{Trace}
use jaeger_influxdb.Dbmodel.InfluxQl.{string_json, Result, column, row_trace_id, other_columns}
use jaeger_influxdb.Dbmodel.InfluxQl.Links.{trace_ids_from_influxql_result}
use jaeger_influxdb.Dbmodel.InfluxQl.Traces.{trace_from_influxql_row, traces_from_influxql_response}
use jaeger_influxdb.Dbmodel.InfluxQl.SpanLogs.{
  append_span_logs_from_influxql_response, append_span_logs_from_influxql_row, place_traces,
}
use jaeger_influxdb.Dbmodel.Queries.{
  build_influxql_trace_query, build_influxql_trace_id_query, influxql_trace_query_from_tqp,
}
use jaeger_influxdb.Reader.InfluxQl.{
  Reader, Query, Reply, response, query, find_trace_ids, traces_of, find_traces, get_trace,
  ask_traces, ask_logs,
}
use jaeger_influxdb.Reader.InfluxQl.Found.{Source, find_traces_v1-Source, get_trace_v1-Source}
use jaeger_influxdb.Reader.InfluxQl.Concurrent.{
  Find, new_find, query_done, logs_done, query_traces, query_logs, Step, Reach, start, later,
}
use jaeger_influxdb.Reader.InfluxQl.Concurrent.Undisturbed.{
  Undisturbed, Ended, Reach-Undisturbed, Reach-ends,
}
use jaeger_influxdb.Tests.Hex.{value_of, backwards, halves, below, hex_ids}
use jaeger_influxdb.Tests.Samples.{nat_floats, string_tag}
use jaeger_influxdb.Tests.InfluxQlRuns.{at_one_time, in_order, span_row, log_results, row_trace}
use jaeger_influxdb.Tests.ReaderRuns.{any_trace}

abbrev reader : Reader
reader = record {
  database = codes "jaeger";
  retention_policy = [];
  span_measurement = codes "span";
  span_meta_measurement = codes "span-meta";
  log_measurement = codes "log";
  default_lookback = pos 0;
}

abbrev trace_3 : TraceId
trace_3 = record { high = 0; low = 3 }

abbrev span_results : List Result
span_results = record { series = span_row ∷ []; fault = none } ∷ []

traces_from_influxql_response-read :
    traces_from_influxql_response nat_floats hex_ids at_one_time in_order span_results
    ≡ ok (row_trace ∷ [])
unfolding traces_from_influxql_response trace_from_influxql_row row_trace_id other_columns text_eq
    lookup insert value_of backwards below halves references_from_string split split_two column
    strings_to_key_value remove_span_id_from_time
traces_from_influxql_response-read = refl

abbrev id_results : List Result
id_results =
    record {
      series =
          record {
            tags = [];
            columns = codes "time" ∷ codes "trace_id" ∷ [];
            values = (string_json (codes "t") ∷ string_json (codes "3") ∷ []) ∷ [];
          }
          ∷ [];
      fault = none;
    }
    ∷ []

-- The database tells the queries apart by their beginning.
abbrev database : Query → Reply
database q =
    if text_eq (take 18 q.command) (codes "select * from span")
    then response none span_results
    else if text_eq (take 17 q.command) (codes "select * from log")
    then response none log_results
    else response none id_results

abbrev logged_trace : Trace ℕ
logged_trace = record {
  spans =
      map
        (λ (s : Span ℕ). record s {
          logs =
              record {
                timestamp = pos 2000;
                fields = string_tag (codes "event") (codes "retry") ∷ [];
              }
              ∷ [];
        })
        row_trace.spans;
}

found :
    find_traces nat_floats hex_ids at_one_time (λ s. 0) in_order database (λ m. m) reader any_trace
    ≡ ok (logged_trace ∷ [])
unfolding find_traces traces_of query find_trace_ids trace_ids_from_influxql_result
    build_influxql_trace_query build_influxql_trace_id_query influxql_trace_query_from_tqp join
    traces_from_influxql_response trace_from_influxql_row row_trace_id other_columns text_eq lookup
    insert value_of backwards below halves references_from_string split split_two column
    strings_to_key_value remove_span_id_from_time append_span_logs_from_influxql_response
    append_span_logs_from_influxql_row place_traces show_newlines
found = refl

find_traces_v1-Source_example :
    (trace_ids : List TraceId) × (find_trace_ids hex_ids database (λ m. m) reader any_trace
      ≡ ok trace_ids)
    × Source nat_floats hex_ids at_one_time
        (λ s. 0)
        in_order
        database
        reader
        trace_ids
        (logged_trace ∷ [])
find_traces_v1-Source_example =
    find_traces_v1-Source nat_floats hex_ids at_one_time (λ s. 0) in_order database reader (λ m. m)
      any_trace (logged_trace ∷ []) found (λ e. cc)

got :
    get_trace nat_floats hex_ids at_one_time (λ s. 0) in_order database reader trace_3
    ≡ ok logged_trace
unfolding get_trace query build_influxql_trace_query join traces_from_influxql_response
    trace_from_influxql_row row_trace_id other_columns text_eq lookup insert value_of backwards
    below halves references_from_string split split_two column strings_to_key_value
    remove_span_id_from_time append_span_logs_from_influxql_response
    append_span_logs_from_influxql_row place_traces show_newlines
got = refl

get_trace_v1-Source_example :
    Source nat_floats hex_ids at_one_time
      (λ s. 0)
      in_order
      database
      reader
      (trace_3 ∷ [])
      (logged_trace ∷ [])
get_trace_v1-Source_example =
    get_trace_v1-Source nat_floats hex_ids at_one_time (λ s. 0) in_order database reader trace_3
      logged_trace got

abbrev spans_asked : Outcome (List Result)
spans_asked = ask_traces hex_ids database reader (trace_3 ∷ [])

abbrev logs_asked : Outcome (List Result)
logs_asked = ask_logs hex_ids database reader (trace_3 ∷ [])

-- The logs are asked for before the traces.
abbrev logs_first : Find ℕ
logs_first = query_done (record new_find { caller = logs_done logs_asked }) spans_asked

logs_first-Reach :
    Reach nat_floats hex_ids at_one_time
      (λ s. 0)
      in_order
      database
      reader
      (trace_3 ∷ [])
      2
      logs_first
unfolding new_find
logs_first-Reach = later (later start (query_logs refl refl)) (query_traces refl refl)

Reach-Undisturbed_example :
    Undisturbed nat_floats hex_ids at_one_time
      (λ s. 0)
      in_order
      database
      reader
      (trace_3 ∷ [])
      logs_first
Reach-Undisturbed_example =
    Reach-Undisturbed nat_floats hex_ids at_one_time (λ s. 0) in_order database reader
      (trace_3 ∷ []) logs_first-Reach

Reach-ends_example :
    (2 ≤ 4)
    × (Ended nat_floats hex_ids at_one_time
          (λ s. 0)
          in_order
          database
          reader
          (trace_3 ∷ [])
          logs_first
        ⊎ ((t : Find ℕ) × Step nat_floats hex_ids at_one_time
              (λ s. 0)
              in_order
              database
              reader
              (trace_3 ∷ [])
              logs_first
              t))
Reach-ends_example =
    Reach-ends nat_floats hex_ids at_one_time (λ s. 0) in_order database reader (trace_3 ∷ [])
      logs_first-Reach
