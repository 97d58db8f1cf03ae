-- ===== src/Dbmodel/InfluxQl/Written/Order.antt =====
-- The order in which the tags of a written span stand in a row.
use mathlib.Core.List.{Permᴰ}
use mathlib.Core.List.Permᴰ
use jaeger_influxdb.Prelude.{
  or_else-none, ℕ, ◌≡◌, ap, ◌∙◌, true, false, List, [], ◌∷◌, ◌++◌, Option, some, Text, All,
  get_elem?,
}
use jaeger_influxdb.Prelude.Dict.{Dict}
use jaeger_influxdb.Prelude.Eq.{Text_eq, text_eq, text_ne_swap}
use jaeger_influxdb.Common.{trace_id_key, service_name_key, operation_name_key}
use jaeger_influxdb.Dbmodel.Model.{KeyValue, Span, Time, Floats, Ids}
use jaeger_influxdb.Dbmodel.ToPoints.{Models, ModelLaws, span_tags}
use jaeger_influxdb.Dbmodel.ToPoints.Tags.{last_tag, tag-span_tags}
use jaeger_influxdb.Prelude.Orders.{IsRange, All-perm, Distinct-perm}
use jaeger_influxdb.Dbmodel.InfluxQl.Columns.{
  named, names, other_columns-All, column-other_columns, contains-perm,
}
use jaeger_influxdb.Dbmodel.InfluxQl.Written.Spread.{shown, spread, last_tags}
use jaeger_influxdb.Dbmodel.Flux.Span.{contains}
use jaeger_influxdb.Dbmodel.InfluxQl.{Value, other_columns}
use jaeger_influxdb.Dbmodel.InfluxQl.Traces.{span_columns}
use jaeger_influxdb.Dbmodel.InfluxQl.Written.{IsWritable, Shows}
use jaeger_influxdb.Dbmodel.InfluxQl.Written.Parts.{All-mono}
use jaeger_influxdb.Dbmodel.InfluxQl.Written.Tags.{Lists}

module _ {F Tags Point : Type 0} (floats : Floats F) (ids : Ids) (models : Models F Tags Point)
    (parse_time : Text → Option Time) (range : List Value → Dict ℕ Text → List (ℕ × Text)) where
  module _ (ranges : (v : List Value) → IsRange (range v)) (laws : ModelLaws models)
      (columns : List Text) (v : List Value) (span : Span F) (w : IsWritable span)
      (s : Shows floats ids models parse_time range columns v span) where
    abbrev all_tags : List (KeyValue F)
    all_tags = span.tags ++ span.process.tags

    -- What the point has under a name that is not the code's own.
    tag_of :
        (k : Text)
        → text_eq k trace_id_key ≡ false
        → All (λ n. text_eq k n ≡ false) span_columns
        → models.tag (span_tags floats ids models span) k ≡ last_tag floats ids models k all_tags
    tag_of k no_trace free =
        tag-span_tags floats ids models laws span k
        ∙ rw
            (
              text_ne_swap k operation_name_key free.1.1.0,
              text_ne_swap k service_name_key free.1.0,
              text_ne_swap k trace_id_key no_trace,
            )
            (or_else-none (last_tag floats ids models k all_tags))

    abbrev cols : List (ℕ × Text)
    cols = other_columns span_columns 0 columns

    show_last :
        (cs : List (ℕ × Text))
        → All
            (λ c.
              (text_eq c.1 trace_id_key ≡ false) × All (λ n. text_eq c.1 n ≡ false) span_columns)
            cs
        → All
            (λ c.
              get_elem? v c.0 ≡ some (shown (models.tag (span_tags floats ids models span) c.1)))
            cs
        → All (λ c. get_elem? v c.0 ≡ some (shown (last_tag floats ids models c.1 all_tags))) cs
    show_last [] free h = tt
    show_last (c ∷ cs) free h =
        (h.0 ∙ ap (λ o. some (shown o)) (tag_of c.1 free.0.0 free.0.1), show_last cs free.1 h.1)

    -- Each tag of the span has a column.
    in_columns :
        (kvs : List (KeyValue F))
        → All (λ kv. All (λ k. text_eq kv.key k ≡ false) (trace_id_key ∷ span_columns)) kvs
        → All
            (λ kv.
              (c : ℕ) × (rest : Text) × (last_tag floats ids models kv.key all_tags
                ≡ some (c ∷ rest)))
            kvs
        → All (λ kv. contains (names cols) kv.key ≡ true) kvs
    in_columns [] plain h = tt
    in_columns (kv ∷ kvs) plain h =
        let (c, rest, e) = h.0 in
        let (i, at, got) =
          s.tags kv.key (c ∷ rest) plain.0.0 (λ e. cc) (tag_of kv.key plain.0.0 plain.0.1 ∙ e) in
        (
          column-other_columns span_columns columns kv.key i at plain.0.1,
          in_columns kvs plain.1 h.1,
        )

    -- The tags in the order in which the loop over the columns finds them.
    pub tags_in_order :
        (order : List (KeyValue F)) × Permᴰ order all_tags × Lists floats v (range v cols) order
    tags_in_order =
        let back = Permᴰ.symm (ranges v cols) in
        spread floats ids models v (range v cols) all_tags
          (Distinct-perm (Permᴰ.map named back) s.distinct) w.unique w.written
          (All-perm _ back (
            show_last cols
              (other_columns-All (λ k. text_eq k trace_id_key ≡ false) span_columns 0 columns
                s.grouped)
              s.others))
          (All-mono _ _
            (λ kv h. contains-perm kv.key (Permᴰ.map (λ (c : ℕ × Text). c.1) (ranges v cols)) ∙ h)
            all_tags
            (in_columns all_tags w.plain (last_tags floats ids models all_tags w.unique w.written)))
