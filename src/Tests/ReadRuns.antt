-- ===== src/Tests/ReadRuns.antt =====
-- The theorems on what is read back at concrete rows.
use mathlib.Core.List.{Perm, reverse}
use mathlib.Core.List.Permᴰ
use jaeger_influxdb.Prelude.{
  ℕ, ◌≡◌, refl, Bool, true, List, [], ◌∷◌, ◌++◌, keep, none, Text, codes, if◌then◌else◌,
}
use jaeger_influxdb.Prelude.Dict.{lookup, insert}
use jaeger_influxdb.Prelude.Eq.{Text_eq, ℕ_eq, text_eq}
use jaeger_influxdb.Prelude.Int.{pos}
use jaeger_influxdb.Prelude.Outcome.{ok}
use jaeger_influxdb.Dbmodel.Model.{KeyValue}
use jaeger_influxdb.Dbmodel.LogText.{show_newlines}
use jaeger_influxdb.Dbmodel.Flux.{is_null, Row, string_cell, time_cell, t_string, null_cell}
use jaeger_influxdb.Go.Strings.{split, split_two}
use jaeger_influxdb.Dbmodel.References.{references_from_string}
use jaeger_influxdb.Dbmodel.Flux.Span.{move_tags}
use jaeger_influxdb.Dbmodel.Flux.Span.ProcessTags.{of_process, of_span, move_tags_lem}
use jaeger_influxdb.Dbmodel.Flux.Logs.{logs_from_rows}
use jaeger_influxdb.Dbmodel.Flux.Logs.Grouping.{under, logs_of, under-logs_from_rows}
use jaeger_influxdb.Dbmodel.Flux.Traces.{Table, last_column}
use jaeger_influxdb.Dbmodel.Dependencies.{
  Calls, add_call, DependencyLink, dependency_links, dependency_links_from_result_v2,
}
use jaeger_influxdb.Dbmodel.Dependencies.Result.{LinksOf, dependency_links_from_result_v2-perm}
use jaeger_influxdb.Tests.Hex.{
  print_hex, value_of, backwards, below, halves, hex_ids, hex_ids-IdLaws,
}
use jaeger_influxdb.Tests.Samples.{nat_floats, string_tag}

abbrev three_tags : List (KeyValue ℕ)
three_tags =
    string_tag (codes "host") (codes "a")
    ∷ string_tag (codes "method") (codes "GET")
    ∷ string_tag (codes "ip") (codes "::1")
    ∷ []

abbrev is_process_key : Text → Bool
is_process_key k = if text_eq k (codes "host") then true else text_eq k (codes "ip")

move_tags_lem_example :
    Perm (move_tags is_process_key 3 three_tags []).0 (keep (of_span is_process_key) three_tags)
    × ((move_tags is_process_key 3 three_tags []).1
        ≡ reverse (keep (of_process is_process_key) three_tags))
move_tags_lem_example = move_tags_lem is_process_key three_tags

abbrev log_row : Text → Row ℕ
log_row event =
    record { label = codes "_time"; cell = time_cell (pos 1500) }
    ∷ record { label = codes "trace_id"; cell = string_cell (codes "03") }
    ∷ record { label = codes "span_id"; cell = string_cell (codes "09") }
    ∷ record { label = codes "event"; cell = string_cell event }
    ∷ record { label = codes "level"; cell = null_cell t_string }
    ∷ []

abbrev log_rows : List (Row ℕ)
log_rows = log_row (codes "sretry") ∷ log_row (codes "unknown") ∷ log_row (codes "sdone") ∷ []

two_logs :
    logs_from_rows nat_floats hex_ids [] log_rows
    ≡ ok ((9, logs_of nat_floats hex_ids 9 log_rows) ∷ [])
unfolding logs_from_rows is_null text_eq lookup insert value_of backwards below halves show_newlines
two_logs = refl

under-logs_from_rows_example :
    under nat_floats hex_ids ((9, logs_of nat_floats hex_ids 9 log_rows) ∷ []) 9
    ≡ under nat_floats hex_ids [] 9 ++ logs_of nat_floats hex_ids 9 log_rows
under-logs_from_rows_example = under-logs_from_rows nat_floats hex_ids log_rows [] two_logs 9

-- Two spans, of which the second is a child of the first.
abbrev two_calls : Calls
two_calls = record {
  parent_by_child = (2, 1) ∷ [];
  service_name_by_span_id = (1, codes "cart") ∷ (2, codes "stock") ∷ [];
}

abbrev span_row : Text → Text → Text → Row ℕ
span_row id service references =
    record { label = codes "span_id"; cell = string_cell id }
    ∷ record { label = codes "service_name"; cell = string_cell service }
    ∷ record { label = codes "references"; cell = string_cell references }
    ∷ []

abbrev span_tables : List (Table ℕ)
span_tables =
    record {
      key = [];
      labels = [];
      rows =
          span_row (codes "1") (codes "cart") []
          ∷ span_row (codes "2") (codes "stock") (codes "1:ChildOf")
          ∷ span_row (codes "3") (codes "stock") (codes "1:FollowsFrom")
          ∷ span_row (codes "4") (codes "stock") (codes "2:ChildOf")
          ∷ [];
      fault = none;
    }
    ∷ []

abbrev one_call : DependencyLink
one_call = record { parent = codes "cart"; child = codes "stock"; call_count = 1 }

one_call_read :
    dependency_links_from_result_v2 hex_ids (λ m. m) (λ m. m) span_tables ≡ ok (one_call ∷ [])
unfolding dependency_links_from_result_v2 dependency_links text_eq lookup insert value_of backwards
    below print_hex references_from_string split split_two last_column add_call
one_call_read = refl

dependency_links_from_result_v2-perm_example : LinksOf hex_ids span_tables (one_call ∷ [])
dependency_links_from_result_v2-perm_example =
    dependency_links_from_result_v2-perm hex_ids hex_ids-IdLaws {range = λ m. m}
      {range_links = λ m. m} span_tables (one_call ∷ []) (λ m. Permᴰ.refl m) (λ m. Permᴰ.refl m)
      one_call_read
