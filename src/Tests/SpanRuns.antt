-- ===== src/Tests/SpanRuns.antt =====
-- The theorems on written spans at concrete spans.
use jaeger_influxdb.Prelude.{
  or_else, ℕ, ◌≡◌, ◌↔◌, ◌/◌, ◌%◌, true, [], ◌∷◌, ◌++◌, some, codes, arith,
}
use jaeger_influxdb.Prelude.Dict.{lookup}
use jaeger_influxdb.Prelude.Eq.{Text_eq}
use jaeger_influxdb.Prelude.Int.{pos, sub_ℕ}
use jaeger_influxdb.Prelude.Outcome.{ok, ◌>>=◌}
use jaeger_influxdb.Common.{span_id_key}
use jaeger_influxdb.Dbmodel.Model.{KeyValue}
use jaeger_influxdb.Dbmodel.KeyValue.{string_value, key_value_as_strings, strings_to_key_value}
use jaeger_influxdb.Dbmodel.KeyValue.TagRoundTrip.{
  FitsTypes, strings_to_key_value-key_value_as_strings,
}
use jaeger_influxdb.Dbmodel.LogText.{hide_newlines, show_newlines, is_clean}
use jaeger_influxdb.Dbmodel.LogText.RoundTrip.{show_newlines-hide_newlines}
use jaeger_influxdb.Dbmodel.References.{references_from_string, references_field}
use jaeger_influxdb.Dbmodel.References.RoundTrip.{
  written, SpanIds, field_or_empty, references_from_string-references_field,
}
use jaeger_influxdb.Dbmodel.SpanTime.{merge_time_and_span_id, remove_span_id_from_time}
use jaeger_influxdb.Dbmodel.SpanTime.Laws.{
  remove_span_id_from_time-merge_time_and_span_id, merge_time_and_span_id_eq_iff,
  remove_span_id_from_time_before_1970,
}
use jaeger_influxdb.Dbmodel.ToPoints.{span_tags, log_fields}
use jaeger_influxdb.Dbmodel.ToPoints.Tags.{last_tag, own_tag, tag-span_tags, lookup-log_fields}
use jaeger_influxdb.Tests.Hex.{hex_ids, hex_ids-IdLaws}
use jaeger_influxdb.Tests.Samples.{
  nat_floats, nat_floats-FloatLaws, dict_models, dict_models-ModelLaws, binary_tag, some_references,
  some_span, first_log,
}

abbrev key_binary : KeyValue ℕ
key_binary = binary_tag (codes "key") (1 ∷ 255 ∷ [])

key_binary-FitsTypes : FitsTypes key_binary
key_binary-FitsTypes = record { int = omega arith; bytes = (omega arith, (omega arith, tt)) }

strings_to_key_value-key_value_as_strings_example :
    (key_value_as_strings nat_floats key_binary >>= λ p. strings_to_key_value nat_floats p.0 p.1)
    ≡ ok (some key_binary)
strings_to_key_value-key_value_as_strings_example =
    strings_to_key_value-key_value_as_strings nat_floats nat_floats-FloatLaws key_binary
      key_binary-FitsTypes

show_newlines-hide_newlines_example :
    (show_newlines (hide_newlines (codes "NEWLI\nB")) ≡ codes "NEWLI\nB")
    ↔ (is_clean (codes "NEWLI\nB") ≡ true)
show_newlines-hide_newlines_example = show_newlines-hide_newlines (codes "NEWLI\nB")

some_references-SpanIds : SpanIds some_references
some_references-SpanIds = (omega arith, (omega arith, (omega arith, tt)))

references_from_string-references_field_example :
    references_from_string hex_ids (field_or_empty (references_field hex_ids some_references))
    ≡ ok (written some_references)
references_from_string-references_field_example =
    references_from_string-references_field hex_ids hex_ids-IdLaws some_references
      some_references-SpanIds

remove_span_id_from_time-merge_time_and_span_id_example :
    remove_span_id_from_time (merge_time_and_span_id (pos 1234567) 5000) ≡ pos 1234000
remove_span_id_from_time-merge_time_and_span_id_example =
    remove_span_id_from_time-merge_time_and_span_id 1234567 5000 (omega arith)

merge_time_and_span_id_eq_iff_example :
    (merge_time_and_span_id (pos 1234567) 5 ≡ merge_time_and_span_id (pos 1234001) 1002)
    ↔ ((1234567 / 1000 ≡ 1234001 / 1000) × (5 % 997 ≡ 1002 % 997))
merge_time_and_span_id_eq_iff_example =
    merge_time_and_span_id_eq_iff 1234567 1234001 5 1002 (omega arith) (omega arith)

remove_span_id_from_time_before_1970_example :
    remove_span_id_from_time (merge_time_and_span_id (sub_ℕ 0 3000) 5) ≡ sub_ℕ 0 2000
remove_span_id_from_time_before_1970_example =
    remove_span_id_from_time_before_1970 2 5 (omega arith) (omega arith)

tag-span_tags_example :
    dict_models.tag (span_tags nat_floats hex_ids dict_models some_span) (codes "host")
    ≡ or_else
        (last_tag nat_floats hex_ids dict_models
          (codes "host")
          (some_span.tags ++ some_span.process.tags))
        (own_tag nat_floats hex_ids dict_models some_span (codes "host"))
tag-span_tags_example =
    tag-span_tags nat_floats hex_ids dict_models dict_models-ModelLaws some_span (codes "host")

lookup-log_fields_example :
    lookup span_id_key (log_fields nat_floats hex_ids dict_models some_span first_log)
    ≡ some (string_value (hex_ids.span_id_string 9))
lookup-log_fields_example = lookup-log_fields nat_floats hex_ids dict_models some_span first_log
