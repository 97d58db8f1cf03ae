-- ===== src/Common.antt =====
-- Package `common`: the names of columns and measurements (common/common.go) and the cache that
-- throttles the writing of span meta data.
pub mod MetaCache
use jaeger_influxdb.Prelude.{ℕ, Text, codes, ◌*◌}
use jaeger_influxdb.Prelude.Int.{ℤ, pos}

abbrev pub time_v1_key : Text
time_v1_key = codes "time"

abbrev pub time_v2_key : Text
time_v2_key = codes "_time"

abbrev pub trace_id_key : Text
trace_id_key = codes "trace_id"

abbrev pub service_name_key : Text
service_name_key = codes "service_name"

abbrev pub operation_name_key : Text
operation_name_key = codes "operation_name"

abbrev pub span_id_key : Text
span_id_key = codes "span_id"

abbrev pub duration_key : Text
duration_key = codes "duration"

abbrev pub flags_key : Text
flags_key = codes "flags"

abbrev pub process_tag_keys_key : Text
process_tag_keys_key = codes "process_tag_keys"

abbrev pub references_key : Text
references_key = codes "references"

abbrev pub default_span_measurement : Text
default_span_measurement = codes "span"

abbrev pub default_span_meta_measurement : Text
default_span_meta_measurement = codes "span-meta"

abbrev pub default_log_measurement : Text
default_log_measurement = codes "log"

abbrev pub measurement_key : Text
measurement_key = codes "_measurement"

abbrev pub field_key : Text
field_key = codes "_field"

abbrev pub value_key : Text
value_key = codes "_value"

abbrev pub max_flush_points : ℕ
max_flush_points = 5000

-- One hour, in nanoseconds.
abbrev pub meta_cache_interval : ℤ
meta_cache_interval = pos 3600000000000
