-- ===== src/Tests/InfluxQlRuns.antt =====
-- The theorems on InfluxQL responses at concrete rows.
use mathlib.Core.List.Permᴰ
use jaeger_influxdb.Prelude.{ℕ, ◌≡◌, refl, List, [], ◌∷◌, Option, some, none, Text, codes}
use jaeger_influxdb.Prelude.Dict.{Dict, lookup, insert}
use jaeger_influxdb.Prelude.Eq.{Text_eq, text_eq}
use jaeger_influxdb.Prelude.Int.{pos}
use jaeger_influxdb.Prelude.Outcome.{ok}
use jaeger_influxdb.Go.Strings.{split, split_two}
use jaeger_influxdb.Dbmodel.Model.{Time, child_of}
use jaeger_influxdb.Dbmodel.LogText.{show_newlines}
use jaeger_influxdb.Dbmodel.References.{references_from_string}
use jaeger_influxdb.Dbmodel.Dependencies.{DependencyLink, add_call, dependency_links}
use jaeger_influxdb.Dbmodel.Flux.Traces.{Trace}
use jaeger_influxdb.Dbmodel.InfluxQl.{
  Value, nil_value, string_json, Row, Result, column, row_trace_id, other_columns,
}
use jaeger_influxdb.Dbmodel.InfluxQl.Links.{dependency_links_from_result_v1}
use jaeger_influxdb.Dbmodel.InfluxQl.Links.Complete.{
  LinksOfRows, dependency_links_from_result_v1-perm,
}
use jaeger_influxdb.Dbmodel.InfluxQl.SpanLogs.{
  append_span_logs_from_influxql_response, append_span_logs_from_influxql_row, place_traces,
}
use jaeger_influxdb.Dbmodel.InfluxQl.SpanLogs.Unchanged.{
  bare_traces, bare-append_span_logs_from_influxql_response,
}
use jaeger_influxdb.Tests.Hex.{
  print_hex, value_of, backwards, below, halves, hex_ids, hex_ids-IdLaws,
}
use jaeger_influxdb.Tests.Samples.{nat_floats, string_tag, some_span}

abbrev pub call_values : Text → Text → Value → List Value
call_values id service references = string_json id ∷ string_json service ∷ references ∷ []

abbrev pub two_call_results : List Result
two_call_results =
    record {
      series =
          record {
            tags = [];
            columns = codes "span_id" ∷ codes "service_name" ∷ codes "references" ∷ [];
            values =
                call_values (codes "1") (codes "cart") nil_value
                ∷ call_values (codes "2") (codes "stock") (string_json (codes "1:ChildOf"))
                ∷ call_values (codes "3") (codes "stock") (string_json (codes "1:FollowsFrom"))
                ∷ call_values (codes "4") (codes "stock") (string_json (codes "2:ChildOf"))
                ∷ [];
          }
          ∷ [];
      fault = none;
    }
    ∷ []

abbrev call_link : DependencyLink
call_link = record { parent = codes "cart"; child = codes "stock"; call_count = 1 }

call_link_read :
    dependency_links_from_result_v1 hex_ids (λ m. m) (λ m. m) two_call_results ≡ ok (call_link ∷ [])
unfolding dependency_links_from_result_v1 dependency_links text_eq lookup insert value_of backwards
    below print_hex references_from_string split split_two column add_call
call_link_read = refl

dependency_links_from_result_v1-perm_example :
    LinksOfRows hex_ids hex_ids-IdLaws two_call_results (call_link ∷ [])
dependency_links_from_result_v1-perm_example =
    dependency_links_from_result_v1-perm hex_ids hex_ids-IdLaws {range = λ m. m}
      {range_links = λ m. m} two_call_results (call_link ∷ []) (λ m. Permᴰ.refl m)
      (λ m. Permᴰ.refl m) call_link_read

abbrev pub at_one_time : Text → Option Time
at_one_time s = some (pos 2000)

abbrev pub in_order : List Value → Dict ℕ Text → List (ℕ × Text)
in_order v m = m

abbrev pub span_row : Row
span_row = record {
  tags = (codes "trace_id", codes "3") ∷ [];
  columns =
      codes "time"
      ∷ codes "span_id"
      ∷ codes "service_name"
      ∷ codes "operation_name"
      ∷ codes "references"
      ∷ codes "host"
      ∷ [];
  values =
      (string_json (codes "t")
        ∷ string_json (codes "9")
        ∷ string_json (codes "cart")
        ∷ string_json (codes "get")
        ∷ string_json (codes "7:ChildOf")
        ∷ string_json (codes "s:a")
        ∷ [])
      ∷ [];
}

abbrev pub row_trace : Trace ℕ
row_trace = record {
  spans =
      record {
        trace_id = record { high = 0; low = 3 };
        span_id = 9;
        operation_name = codes "get";
        references =
            record { trace_id = record { high = 0; low = 3 }; span_id = 7; ref_type = child_of }
            ∷ [];
        flags = 0;
        start_time = pos 2000;
        duration = pos 0;
        tags = string_tag (codes "host") (codes "a") ∷ [];
        logs = [];
        process = record { service_name = codes "cart"; tags = [] };
      }
      ∷ [];
}

abbrev pub log_results : List Result
log_results =
    record {
      series =
          record {
            tags = (codes "trace_id", codes "3") ∷ [];
            columns = codes "time" ∷ codes "span_id" ∷ codes "event" ∷ [];
            values =
                (string_json (codes "t")
                  ∷ string_json (codes "9")
                  ∷ string_json (codes "sretry")
                  ∷ [])
                ∷ [];
          }
          ∷ [];
      fault = none;
    }
    ∷ []

abbrev traces_before : List (Trace ℕ)
traces_before = record { spans = record some_span { logs = [] } ∷ [] } ∷ []

abbrev traces_after : List (Trace ℕ)
traces_after =
    record {
      spans =
          record some_span {
            logs =
                record {
                  timestamp = pos 2000;
                  fields = string_tag (codes "event") (codes "retry") ∷ [];
                }
                ∷ [];
          }
          ∷ [];
    }
    ∷ []

log_appended :
    append_span_logs_from_influxql_response nat_floats hex_ids at_one_time
      (λ s. 0)
      in_order
      log_results
      traces_before
    ≡ ok traces_after
unfolding append_span_logs_from_influxql_response append_span_logs_from_influxql_row place_traces
    row_trace_id other_columns text_eq lookup insert value_of backwards below halves column
    show_newlines
log_appended = refl

bare-append_span_logs_from_influxql_response_example :
    bare_traces traces_after ≡ bare_traces traces_before
bare-append_span_logs_from_influxql_response_example =
    bare-append_span_logs_from_influxql_response nat_floats hex_ids at_one_time (λ s. 0) in_order
      log_results traces_before traces_after log_appended
