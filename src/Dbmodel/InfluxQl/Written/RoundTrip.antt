-- ===== src/Dbmodel/InfluxQl/Written/RoundTrip.antt =====
-- One written span is read back.
use mathlib.Core.Path.{subst}
use mathlib.Core.List.{Permᴰ}
use mathlib.Core.List.Permᴰ
use jaeger_influxdb.Prelude.{
  ℕ, ◌-◌, ◌%◌, ◌≡◌, refl, sym, ap, ◌∙◌, true, false, not, List, [], ◌∷◌, ◌++◌, map, Option, none,
  some, Text, keep, All,
}
use jaeger_influxdb.Prelude.Dict.{Dict, lookup}
use jaeger_influxdb.Prelude.Eq.{Text_eq, text_eq}
use jaeger_influxdb.Prelude.Int.{pos}
use jaeger_influxdb.Prelude.Outcome.{Outcome, ok, ◌>>=◌}
use jaeger_influxdb.Go.Strings.{split}
use jaeger_influxdb.Common.{
  service_name_key, operation_name_key, span_id_key, duration_key, flags_key, process_tag_keys_key,
  references_key,
}
use jaeger_influxdb.Dbmodel.Model.{
  KeyValue, SpanRef, TraceId, Span, Time, Floats, FloatLaws, Ids, IdLaws,
}
use jaeger_influxdb.Dbmodel.KeyValue.{string_value}
use jaeger_influxdb.Dbmodel.References.{references_field, references_from_string, nonempty_join}
use jaeger_influxdb.Dbmodel.References.RoundTrip.{
  written, field_or_empty, references_from_string-references_field,
}
use jaeger_influxdb.Dbmodel.ToPoints.{Models, ModelLaws, span_tags, span_fields}
use jaeger_influxdb.Dbmodel.ToPoints.Tags.{own_tag, tag-span_tags}
use jaeger_influxdb.Dbmodel.ToPoints.Fields.{text_field, span_fields-HasFields}
use jaeger_influxdb.Prelude.Orders.{IsRange}
use jaeger_influxdb.Dbmodel.InfluxQl.Written.Spread.{unique-apart}
use jaeger_influxdb.Dbmodel.InfluxQl.{
  Value, nil_value, string_json, At, column, optional_at, other_columns,
}
use jaeger_influxdb.Dbmodel.InfluxQl.Traces.{
  span_columns, row_references, rest_of_span, span_round, note, behind,
}
use jaeger_influxdb.Dbmodel.InfluxQl.Written.Order.{tags_in_order}
use jaeger_influxdb.Dbmodel.InfluxQl.Written.{IsWritable, Shows, ReadBack}
use jaeger_influxdb.Dbmodel.InfluxQl.Written.Parts.{
  optional_value, process_keys_back, All-mono, all_in_keys, optional_int_back, u32_back, flags_fit,
  start_back, last_tag-none,
}
use jaeger_influxdb.Dbmodel.InfluxQl.Written.Tags.{
  Lists, normal, in_keys, keep-perm, keep_front, keep_back, row_tags-Lists,
}

pos_eq : {a b : ℕ} → pos a ≡ pos b → a ≡ b
pos_eq h = cc

module _ {F Tags Point : Type 0} (floats : Floats F) (ids : Ids) (models : Models F Tags Point)
    (parse_time : Text → Option Time) (range : List Value → Dict ℕ Text → List (ℕ × Text)) where
  module _ (ranges : (v : List Value) → IsRange (range v)) (float_laws : FloatLaws floats)
      (id_laws : IdLaws ids) (laws : ModelLaws models) (t : TraceId) (columns : List Text)
      (v : List Value) (span : Span F) (w : IsWritable span)
      (s : Shows floats ids models parse_time range columns v span) where
    abbrev all_tags : List (KeyValue F)
    all_tags = span.tags ++ span.process.tags

    own_shown :
        (k : Text) {value : Option Text}
        → All (λ kv. text_eq kv.key k ≡ false) all_tags
        → own_tag floats ids models span k ≡ value
        → models.tag (span_tags floats ids models span) k ≡ value
    own_shown k free e =
        tag-span_tags floats ids models laws span k
        ∙ rw (last_tag-none floats ids models k all_tags free) e

    service_shown : At columns v service_name_key (string_json span.process.service_name)
    service_shown = s.tags service_name_key _ (unfold text_eq in refl) w.service (
        own_shown service_name_key (All-mono _ _ (λ kv h. h.1.1.0) all_tags w.plain)
          (unfold text_eq in refl))

    operation_shown : At columns v operation_name_key (string_json span.operation_name)
    operation_shown = s.tags operation_name_key _ (unfold text_eq in refl) w.operation (
        own_shown operation_name_key (All-mono _ _ (λ kv h. h.1.1.1.0) all_tags w.plain)
          (unfold text_eq in refl))

    abbrev cols : List (ℕ × Text)
    cols = other_columns span_columns 0 columns

    -- The tags in the order in which the loop over the columns finds them.
    pub ordered :
        (order : List (KeyValue F)) × Permᴰ order all_tags × Lists floats v (range v cols) order
    ordered = tags_in_order floats ids models parse_time range ranges laws columns v span w s

    text_shown :
        (k : Text) (o : Option Text)
        → lookup k (span_fields floats ids models span) ≡ text_field o
        → (lookup k (span_fields floats ids models span) ≡ none
            → optional_at v (column k columns) ≡ ok nil_value)
        → optional_at v (column k columns) ≡ ok (optional_value o)
    text_shown k none e absent = absent e
    text_shown k (some text) e absent =
        let (i, c, g) = s.fields k (string_value text) e in rw (c, g) refl

    abbrev pub keys : List Text
    keys = map (λ kv. kv.key) span.process.tags

    keys_shown :
        optional_at v (column process_tag_keys_key columns)
        ≡ ok (optional_value (nonempty_join keys))
    keys_shown =
        text_shown process_tag_keys_key (nonempty_join keys)
          (span_fields-HasFields floats ids models span).keys_field s.no_keys

    references_shown :
        optional_at v (column references_key columns)
        ≡ ok (optional_value (references_field ids span.references))
    references_shown =
        text_shown references_key (references_field ids span.references)
          (span_fields-HasFields floats ids models span).references_text s.no_references

    abbrev pub with_trace : List SpanRef → List SpanRef
    with_trace = map (λ (r : SpanRef). record r { trace_id = t })

    references_back :
        row_references floats ids parse_time range t
          (optional_value (references_field ids span.references))
        ≡ ok (with_trace (written span.references))
    unfolding row_references references_from_string split
    references_back =
        go (references_field ids span.references)
          (references_from_string-references_field ids id_laws span.references w.references)
      where
        go :
            (o : Option Text)
            → references_from_string ids (field_or_empty o) ≡ ok (written span.references)
            → row_references floats ids parse_time range t (optional_value o)
              ≡ ok (with_trace (written span.references))
        go none e = ap (λ (m : Outcome (List SpanRef)). m >>= λ rs. ok (with_trace rs)) e
        go (some text) e = ap (λ (m : Outcome (List SpanRef)). m >>= λ rs. ok (with_trace rs)) e

    rest_back :
        (read : Span F)
        → rest_of_span floats ids parse_time range columns v read
          ≡ ok (
            record read {
              flags = span.flags;
              duration = span.duration;
              operation_name = span.operation_name;
            }
                ∷ [],
            [],
          )
    unfolding rest_of_span
    rest_back read =
        let f = span_fields-HasFields floats ids models span in
        let (fi, fc, fg) = s.fields flags_key _ f.flags_field in
        let (di, dc, dg) = s.fields duration_key _ f.duration_field in
        let (oi, oc, og) = operation_shown in
        rw
          (
            fc,
            fg,
            dc,
            dg,
            oc,
            og,
            optional_int_back (pos span.flags) (flags_fit span.flags w.flags),
            optional_int_back span.duration w.duration,
            u32_back span.flags w.flags,
          )
          refl

    -- What is read before the flags, the duration and the operation name are.
    abbrev pub read_first : Span F
    read_first = record {
      trace_id = t;
      span_id = span.span_id;
      operation_name = [];
      references = with_trace (written span.references);
      flags = 0;
      start_time = pos (w.nanoseconds - w.nanoseconds % 1000);
      duration = pos 0;
      tags = map (normal floats) (keep (λ kv. not (in_keys keys kv)) ordered.0);
      logs = [];
      process = record {
        service_name = span.process.service_name;
        tags = map (normal floats) (keep (in_keys keys) ordered.0);
      };
    }

    abbrev pub read_span : Span F
    read_span = record read_first {
      flags = span.flags;
      duration = span.duration;
      operation_name = span.operation_name;
    }

    pub span_round_back :
        span_round floats ids parse_time range columns t v ≡ ok (read_span ∷ [], [])
    unfolding span_round
    span_round_back =
        let (ti, tc, tg) = s.time in
        let (ii, ic, ig) =
          s.fields span_id_key _ (span_fields-HasFields floats ids models span).id_field in
        let (si, sc, sg) = service_shown in
        rw
          (
            tc,
            tg,
            s.parsed,
            ic,
            ig,
            id_laws.span_id span.span_id w.id,
            references_shown,
            references_back,
            sc,
            sg,
            keys_shown,
            process_keys_back keys w.commas,
            row_tags-Lists floats ids parse_time range float_laws keys v ordered.2
                (record { process = []; tags = []; errs = [] }),
            w.start,
            start_back w.nanoseconds span.span_id w.storable,
          )
          (ap (λ o. note (behind [] (note o))) (rest_back read_first))

    not_flip :
        (kvs : List (KeyValue F))
        → All (λ kv. in_keys keys kv ≡ false) kvs
        → All (λ kv. not (in_keys keys kv) ≡ true) kvs
    not_flip kvs h = All-mono _ _ (λ kv e. rw e refl) kvs h

    own_flip :
        (kvs : List (KeyValue F))
        → All (λ kv. in_keys keys kv ≡ true) kvs
        → All (λ kv. not (in_keys keys kv) ≡ false) kvs
    own_flip kvs h = All-mono _ _ (λ kv e. rw e refl) kvs h

    tags_back : Permᴰ (keep (λ kv. not (in_keys keys kv)) ordered.0) span.tags
    tags_back =
        subst (Permᴰ (keep (λ kv. not (in_keys keys kv)) ordered.0))
          (keep_front _ span.tags span.process.tags
            (not_flip span.tags (unique-apart span.tags span.process.tags w.unique))
            (own_flip span.process.tags (all_in_keys span.process.tags)))
          (keep-perm (λ kv. not (in_keys keys kv)) ordered.1)

    process_tags_back : Permᴰ (keep (in_keys keys) ordered.0) span.process.tags
    process_tags_back =
        subst (Permᴰ (keep (in_keys keys) ordered.0))
          (keep_back _ span.tags span.process.tags
            (unique-apart span.tags span.process.tags w.unique) (all_in_keys span.process.tags))
          (keep-perm (in_keys keys) ordered.1)

    pub read_span-ReadBack : ReadBack floats ids models parse_time range t span read_span
    read_span-ReadBack = record {
      trace = refl;
      id = refl;
      operation = refl;
      references = refl;
      flags = refl;
      start = λ n e. ap (λ m. pos (m - m % 1000)) (pos_eq (sym w.start ∙ e));
      duration = refl;
      service = refl;
      tags = Permᴰ.map (normal floats) tags_back;
      process_tags = Permᴰ.map (normal floats) process_tags_back;
      logs = refl;
    }
