-- ===== src/Tests/TraceRuns.antt =====
-- The theorem on the traces of a Flux result at a span table and a log table.
use jaeger_influxdb.Prelude.{ℕ, ◌≡◌, refl, List, [], ◌∷◌, map, none, codes}
use jaeger_influxdb.Prelude.Dict.{lookup, insert}
use jaeger_influxdb.Prelude.Eq.{Text_eq, text_eq}
use jaeger_influxdb.Prelude.Int.{pos}
use jaeger_influxdb.Prelude.Outcome.{ok}
use jaeger_influxdb.Go.Strings.{split_two}
use jaeger_influxdb.Dbmodel.Model.{Span}
use jaeger_influxdb.Dbmodel.LogText.{show_newlines}
use jaeger_influxdb.Dbmodel.KeyValue.{strings_to_key_value}
use jaeger_influxdb.Dbmodel.Flux.{is_null, string_cell, time_cell}
use jaeger_influxdb.Dbmodel.Flux.Span.{span_from_flux_col_reader, empty_span}
use jaeger_influxdb.Dbmodel.Flux.Logs.{logs_from_rows}
use jaeger_influxdb.Dbmodel.Flux.Traces.{
  Table, Trace, get_measurement, trace_from_flux_table, logs_from_flux_table,
  traces_from_flux_result,
}
use jaeger_influxdb.Dbmodel.Flux.Traces.Attach.{span_traces, last_rows, logged}
use jaeger_influxdb.Dbmodel.Flux.Traces.Complete.{traces_from_flux_result_lem}
use jaeger_influxdb.Tests.Hex.{value_of, backwards, below, halves, hex_ids}
use jaeger_influxdb.Tests.Samples.{nat_floats, string_tag}

abbrev pub span_table : Table ℕ
span_table = record {
  key = (codes "_measurement", string_cell (codes "span")) ∷ [];
  labels = codes "trace_id" ∷ codes "span_id" ∷ codes "host" ∷ [];
  rows =
      (record { label = codes "trace_id"; cell = string_cell (codes "3") }
        ∷ record { label = codes "span_id"; cell = string_cell (codes "9") }
        ∷ record { label = codes "host"; cell = string_cell (codes "s:a") }
        ∷ [])
      ∷ [];
  fault = none;
}

abbrev log_table : Table ℕ
log_table = record {
  key =
      (codes "_measurement", string_cell (codes "log"))
      ∷ (codes "trace_id", string_cell (codes "3"))
      ∷ [];
  labels = [];
  rows =
      (record { label = codes "_time"; cell = time_cell (pos 1500) }
        ∷ record { label = codes "trace_id"; cell = string_cell (codes "3") }
        ∷ record { label = codes "span_id"; cell = string_cell (codes "9") }
        ∷ record { label = codes "event"; cell = string_cell (codes "sretry") }
        ∷ [])
      ∷ [];
  fault = none;
}

abbrev two_tables : List (Table ℕ)
two_tables = span_table ∷ log_table ∷ []

abbrev pub read_span : Span ℕ
read_span = record (empty_span nat_floats hex_ids) {
  trace_id = record { high = 0; low = 3 };
  span_id = 9;
  tags = string_tag (codes "host") (codes "a") ∷ [];
  logs =
      record { timestamp = pos 1500; fields = string_tag (codes "event") (codes "retry") ∷ [] }
      ∷ [];
}

one_trace :
    traces_from_flux_result nat_floats hex_ids (codes "span") (codes "log") two_tables
    ≡ ok (record { spans = read_span ∷ [] } ∷ [])
unfolding traces_from_flux_result get_measurement trace_from_flux_table logs_from_flux_table
    span_from_flux_col_reader logs_from_rows is_null text_eq lookup insert value_of backwards below
    halves show_newlines strings_to_key_value split_two
one_trace = refl

traces_from_flux_result_lem_example :
    record { spans = read_span ∷ [] } ∷ []
    ≡ map
        (λ (tr : Trace ℕ). record tr {
          spans =
              map
                (λ (s : Span ℕ).
                  logged nat_floats hex_ids
                    (codes "span")
                    (codes "log")
                    (last_rows nat_floats hex_ids
                      (codes "span")
                      (codes "log")
                      s.trace_id
                      two_tables
                      none)
                    s)
                tr.spans;
        })
        (span_traces nat_floats hex_ids (codes "span") (codes "log") two_tables)
traces_from_flux_result_lem_example =
    traces_from_flux_result_lem nat_floats hex_ids (codes "span") (codes "log") two_tables
      (record { spans = read_span ∷ [] } ∷ []) one_trace
