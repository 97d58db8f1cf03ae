-- ===== src/Tests/SentRuns.antt =====
-- The theorems on the spans that a writer sends at concrete spans.
use jaeger_influxdb.Prelude.{[], ◌∷◌, codes}
use jaeger_influxdb.Writer.Spans.{Measurements, new_writer, write_span_v1, write_span_v2, write_all}
use jaeger_influxdb.Writer.Spans.Account.{
  ReportSpaced, accepted, points_v1, points_v2, write_all-write_span_v1, write_all-write_span_v2,
}
use jaeger_influxdb.Tests.Hex.{hex_ids}
use jaeger_influxdb.Tests.Samples.{nat_floats, dict_models, some_span}

abbrev pub names : Measurements
names = record { span = codes "span"; span_meta = codes "span-meta"; log = codes "log" }

write_all-write_span_v1_example :
    ReportSpaced nat_floats hex_ids dict_models names
      (points_v1 nat_floats hex_ids dict_models names)
      (write_all
        (write_span_v1 nat_floats hex_ids dict_models names)
        new_writer
        (some_span ∷ some_span ∷ []))
      (accepted nat_floats hex_ids dict_models names
        (points_v1 nat_floats hex_ids dict_models names)
        []
        (some_span ∷ some_span ∷ []))
write_all-write_span_v1_example =
    write_all-write_span_v1 nat_floats hex_ids dict_models names (some_span ∷ some_span ∷ [])

write_all-write_span_v2_example :
    ReportSpaced nat_floats hex_ids dict_models names
      (points_v2 nat_floats hex_ids dict_models names)
      (write_all
        (write_span_v2 nat_floats hex_ids dict_models names)
        new_writer
        (some_span ∷ some_span ∷ []))
      (accepted nat_floats hex_ids dict_models names
        (points_v2 nat_floats hex_ids dict_models names)
        []
        (some_span ∷ some_span ∷ []))
write_all-write_span_v2_example =
    write_all-write_span_v2 nat_floats hex_ids dict_models names (some_span ∷ some_span ∷ [])
