-- ===== src/Dbmodel/InfluxQl/Written.antt =====
-- A span that was written as a point is read back from a row of values that shows the point: what
-- the database has to show, and what is read.
pub mod Tags
pub mod Parts
pub mod Spread
pub mod Order
pub mod RoundTrip
pub mod Row
use mathlib.Core.List.{Permᴰ}
use jaeger_influxdb.Prelude.{
  ℕ, ◌-◌, ◌%◌, ◌<◌, ◌≡◌, ◌≢◌, false, List, [], ◌∷◌, ◌++◌, map, Option, none, some, Text, get_elem?,
  All, Lacks,
}
use jaeger_influxdb.Prelude.Dict.{Dict, lookup}
use jaeger_influxdb.Prelude.Eq.{Text_eq, text_eq}
use jaeger_influxdb.Prelude.Int.{pos, Int64, two64}
use jaeger_influxdb.Prelude.Outcome.{ok}
use jaeger_influxdb.Go.Decimal.{format_int}
use jaeger_influxdb.Common.{time_v1_key, trace_id_key, process_tag_keys_key, references_key}
use jaeger_influxdb.Dbmodel.Model.{KeyValue, SpanRef, TraceId, Span, Time, Floats, Ids}
use jaeger_influxdb.Dbmodel.KeyValue.{
  FieldValue, string_value, bool_value, int_value, float_value, uint_value,
}
use jaeger_influxdb.Dbmodel.References.RoundTrip.{SpanIds, written}
use jaeger_influxdb.Dbmodel.SpanTime.{merge_time_and_span_id}
use jaeger_influxdb.Dbmodel.SpanTime.Laws.{Storable}
use jaeger_influxdb.Dbmodel.ToPoints.{Models, span_tags, span_fields}
use jaeger_influxdb.Dbmodel.Flux.Span.{contains}
use jaeger_influxdb.Dbmodel.InfluxQl.{
  Value, nil_value, string_json, number_json, bool_json, column, At, optional_at, other_columns,
}
use jaeger_influxdb.Dbmodel.InfluxQl.Traces.{span_columns}
use jaeger_influxdb.Dbmodel.InfluxQl.Columns.{named}
use jaeger_influxdb.Dbmodel.InfluxQl.Written.Tags.{normal}
use jaeger_influxdb.Dbmodel.InfluxQl.Written.Spread.{shown, UniqueKeys, IsTag}
use jaeger_influxdb.Prelude.Orders.{Distinct}

-- A span whose values fit in their types, that starts in or after 1970, that has a service and an
-- operation name, and whose tags can be written and told from one another: no two have one key, none
-- has a key that the code uses itself, and those of the process have keys without a comma.
pub record IsWritable {F : Type 0} (span : Span F) : Type 0 where
  pub id : span.span_id < two64
  pub nanoseconds : ℕ
  pub start : span.start_time ≡ pos nanoseconds
  pub storable : Storable nanoseconds
  pub duration : Int64 span.duration
  pub flags : span.flags < 4294967296
  pub references : SpanIds span.references
  pub service : span.process.service_name ≢ []
  pub operation : span.operation_name ≢ []
  pub commas : All (Lacks b',') (map (λ kv. kv.key) span.process.tags)
  pub plain :
      All
        (λ kv. All (λ k. text_eq kv.key k ≡ false) (trace_id_key ∷ span_columns))
        (span.tags ++ span.process.tags)
  pub unique : UniqueKeys (span.tags ++ span.process.tags)
  pub written : All IsTag (span.tags ++ span.process.tags)

module _ {F Tags Point : Type 0} (floats : Floats F) (ids : Ids) (models : Models F Tags Point)
    (parse_time : Text → Option Time) (range : List Value → Dict ℕ Text → List (ℕ × Text)) where
  -- A field as JSON.
  abbrev pub json_of : FieldValue F → Value
  json_of (string_value s) = string_json s
  json_of (bool_value b) = bool_json b
  json_of (int_value n) = number_json (format_int n)
  json_of (float_value x) = number_json (floats.format_float x)
  json_of (uint_value n) = number_json (format_int (pos n))

  -- The row shows the point of the span: its timestamp as a text that is parsed as the time, each
  -- field and each tag but the trace ID and the empty ones under its name, and nil in the columns of
  -- the process keys and the references where it has none. No column is the trace ID's, by which the
  -- rows are grouped, and no two columns that are not the code's own have one name. Each of these
  -- shows the tag that the point has under its name, and nil where it has none or an empty one.
  pub record Shows (columns : List Text) (v : List Value) (span : Span F) : Type 0 where
    pub time_text : Text
    pub time : At columns v time_v1_key (string_json time_text)
    pub parsed : parse_time time_text ≡ some (merge_time_and_span_id span.start_time span.span_id)
    pub fields :
        (k : Text) (f : FieldValue F)
        → lookup k (span_fields floats ids models span) ≡ some f
        → At columns v k (json_of f)
    pub no_keys :
        lookup process_tag_keys_key (span_fields floats ids models span) ≡ none
        → optional_at v (column process_tag_keys_key columns) ≡ ok nil_value
    pub no_references :
        lookup references_key (span_fields floats ids models span) ≡ none
        → optional_at v (column references_key columns) ≡ ok nil_value
    pub tags :
        (k s : Text)
        → text_eq k trace_id_key ≡ false
        → s ≢ []
        → models.tag (span_tags floats ids models span) k ≡ some s
        → At columns v k (string_json s)
    pub grouped : All (λ k. text_eq k trace_id_key ≡ false) columns
    pub distinct : Distinct (map named (other_columns span_columns 0 columns))
    pub others :
        All
          (λ c. get_elem? v c.0 ≡ some (shown (models.tag (span_tags floats ids models span) c.1)))
          (other_columns span_columns 0 columns)

  -- What is read of a span: all but its logs and the trace IDs of its references; its start in
  -- whole microseconds; its references that are written; its tags and those of its process, each
  -- with the value of its type, in some order.
  pub record ReadBack (t : TraceId) (span out : Span F) : Type 0 where
    pub trace : out.trace_id ≡ t
    pub id : out.span_id ≡ span.span_id
    pub operation : out.operation_name ≡ span.operation_name
    pub references :
        out.references ≡ map (λ (r : SpanRef). record r { trace_id = t }) (written span.references)
    pub flags : out.flags ≡ span.flags
    pub start : (n : ℕ) → span.start_time ≡ pos n → out.start_time ≡ pos (n - n % 1000)
    pub duration : out.duration ≡ span.duration
    pub service : out.process.service_name ≡ span.process.service_name
    pub tags : Permᴰ out.tags (map (normal floats) span.tags)
    pub process_tags : Permᴰ out.process.tags (map (normal floats) span.process.tags)
    pub logs : out.logs ≡ []
