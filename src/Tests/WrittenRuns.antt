-- ===== src/Tests/WrittenRuns.antt =====
-- A written span is read back from a row that shows its point.
use mathlib.Core.Path.{subst}
use mathlib.Core.List.Permᴰ
use jaeger_influxdb.Prelude.{
  ℕ, ◌≡◌, refl, Bool, true, false, List, [], ◌∷◌, Option, some, Text, codes, All, arith,
  if◌then◌else◌,
}
use jaeger_influxdb.Prelude.Dict.{Dict, lookup, insert}
use jaeger_influxdb.Prelude.Eq.{Text_eq, text_eq, text_eq_iff}
use jaeger_influxdb.Prelude.Int.{pos}
use jaeger_influxdb.Prelude.Outcome.{ok}
use jaeger_influxdb.Go.Decimal.{format_int}
use jaeger_influxdb.Go.Strings.{join}
use jaeger_influxdb.Common.{trace_id_key}
use jaeger_influxdb.Dbmodel.Model.{TraceId, Time}
use jaeger_influxdb.Dbmodel.KeyValue.{key_value_as_strings}
use jaeger_influxdb.Dbmodel.References.{references_field}
use jaeger_influxdb.Dbmodel.References.RoundTrip.{field_or_empty}
use jaeger_influxdb.Dbmodel.SpanTime.{merge_time_and_span_id}
use jaeger_influxdb.Dbmodel.ToPoints.{span_tags, span_fields}
use jaeger_influxdb.Dbmodel.Flux.Traces.{Trace}
use jaeger_influxdb.Dbmodel.InfluxQl.{
  Value, string_json, number_json, Row, At, column, other_columns,
}
use jaeger_influxdb.Dbmodel.InfluxQl.Traces.{trace_from_influxql_row}
use jaeger_influxdb.Dbmodel.InfluxQl.Written.{IsWritable, json_of, Shows}
use jaeger_influxdb.Dbmodel.InfluxQl.Written.Row.{
  IsTrace, nothing, and_one, ReadAll, trace_from_influxql_row-ReadAll,
}
use jaeger_influxdb.Tests.Hex.{hex_ids, hex_ids-IdLaws}
use jaeger_influxdb.Tests.Samples.{
  nat_floats, nat_floats-FloatLaws, dict_models, dict_models-ModelLaws, some_references, some_span,
}
use jaeger_influxdb.Tests.InfluxQlRuns.{in_order}

abbrev time_9 : Text → Option Time
time_9 s = some (merge_time_and_span_id (pos 1000000) 9)

abbrev columns : List Text
columns =
    codes "time"
    ∷ codes "span_id"
    ∷ codes "duration"
    ∷ codes "flags"
    ∷ codes "process_tag_keys"
    ∷ codes "references"
    ∷ codes "service_name"
    ∷ codes "operation_name"
    ∷ codes "http.method"
    ∷ codes "host"
    ∷ []

abbrev values : List Value
values =
    string_json (codes "t")
    ∷ string_json (hex_ids.span_id_string 9)
    ∷ number_json (format_int (pos 2000))
    ∷ number_json (format_int (pos 1))
    ∷ string_json (codes "host")
    ∷ string_json (field_or_empty (references_field hex_ids some_references))
    ∷ string_json (codes "cart")
    ∷ string_json (codes "get")
    ∷ string_json (codes "s:GET")
    ∷ string_json (codes "s:a")
    ∷ []

some_eq {ℓ} : {A : Type ℓ} {a b : A} → some a ≡ some b → a ≡ b
some_eq h = cc

-- A statement on all entries of a map, for what a look-up gives.
lookup-All {ℓ} :
    {V : Type 0} (P : Text → V → Type ℓ) (m : Dict Text V)
    → All (λ e. P e.0 e.1) m
    → (k : Text) (x : V) → lookup k m ≡ some x
    → P k x
unfolding lookup
lookup-All P [] h k x e = cc
lookup-All P ((j, y) ∷ m) h k x e = go (λ found. lookup-All P m h.1 k x found) (text_eq j k) refl e
  where
    go :
        (lookup k m ≡ some x → P k x)
        → (b : Bool) → text_eq j k ≡ b
        → (if b then some y else lookup k m) ≡ some x
        → P k x
    go rest true same found =
        subst (λ i. P i x) ((text_eq_iff j k).0 same) (subst (P j) (some_eq found) h.0)
    go rest false other found = rest found

some_span-IsWritable : IsWritable some_span
unfolding text_eq
some_span-IsWritable = record {
  id = omega arith;
  nanoseconds = 1000000;
  start = refl;
  storable = omega arith;
  duration = (omega arith, omega arith);
  flags = omega arith;
  references = (omega arith, (omega arith, (omega arith, tt)));
  commas = ((omega arith, (omega arith, (omega arith, (omega arith, tt)))), tt);
  service = λ e. cc;
  operation = λ e. cc;
  plain = (
    (refl, (refl, (refl, (refl, (refl, (refl, (refl, (refl, (refl, tt))))))))),
    ((refl, (refl, (refl, (refl, (refl, (refl, (refl, (refl, (refl, tt))))))))), tt),
  );
  unique = ((refl, tt), (tt, tt));
  written = (
    record { typed = tt; fits = record { int = (omega arith, omega arith); bytes = tt } },
    (record { typed = tt; fits = record { int = (omega arith, omega arith); bytes = tt } }, tt),
  );
}

row-Shows : Shows nat_floats hex_ids dict_models time_9 in_order columns values some_span
unfolding column other_columns text_eq insert span_fields span_tags references_field
    key_value_as_strings merge_time_and_span_id lookup join
row-Shows = record {
  time_text = codes "t";
  time = (0, refl, refl);
  parsed = refl;
  fields =
      lookup-All
        (λ k f. At columns values k (json_of nat_floats hex_ids dict_models time_9 in_order f))
        (span_fields nat_floats hex_ids dict_models some_span)
        (
          (1, refl, refl),
          ((2, refl, refl), ((3, refl, refl), ((4, refl, refl), ((5, refl, refl), tt)))),
        );
  no_keys = λ e. cc;
  no_references = λ e. cc;
  tags = λ k s other given e.
      lookup-All (λ k s. text_eq k trace_id_key ≡ false → At columns values k (string_json s))
        (span_tags nat_floats hex_ids dict_models some_span)
        (
          (λ h. cc),
          (
            (λ h. (6, refl, refl)),
            ((λ h. (7, refl, refl)), ((λ h. (8, refl, refl)), ((λ h. (9, refl, refl)), tt))),
          ),
        )
        k s e other;
  grouped = (refl, (refl, (refl, (refl, (refl, (refl, (refl, (refl, (refl, (refl, tt))))))))));
  distinct = (((λ e. cc), tt), (tt, tt));
  others = (refl, (refl, tt));
}

abbrev trace_3 : TraceId
trace_3 = record { high = 0; low = 3 }

trace_3-IsTrace : IsTrace trace_3
trace_3-IsTrace = record { high = omega arith; low = omega arith; given = refl }

abbrev written_row : Row
written_row = record {
  tags = (codes "trace_id", hex_ids.trace_id_string trace_3) ∷ [];
  columns = columns;
  values = values ∷ [];
}

trace_from_influxql_row-ReadAll_example :
    (trace : Trace ℕ) × (trace_from_influxql_row nat_floats hex_ids time_9 in_order written_row
      ≡ ok trace)
    × ReadAll nat_floats hex_ids dict_models time_9 in_order trace_3 (some_span ∷ []) trace.spans
trace_from_influxql_row-ReadAll_example =
    trace_from_influxql_row-ReadAll nat_floats hex_ids dict_models time_9 in_order
      (λ v m. Permᴰ.refl m) nat_floats-FloatLaws hex_ids-IdLaws dict_models-ModelLaws written_row
      trace_3 (some_span ∷ []) trace_3-IsTrace (unfold lookup text_eq in refl)
      (and_one some_span-IsWritable row-Shows nothing)
