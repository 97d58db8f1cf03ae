-- ===== src/Tests/Samples.antt =====
-- Numbers, tag sets and spans for the runs.
use jaeger_influxdb.Prelude.{ℕ, refl, false, List, [], ◌∷◌, Text, codes}
use jaeger_influxdb.Prelude.Dict.{Dict, lookup, insert, lookup-insert}
use jaeger_influxdb.Prelude.Eq.{Text_eq}
use jaeger_influxdb.Prelude.Int.{ℤ, pos}
use jaeger_influxdb.Prelude.Outcome.{ok}
use jaeger_influxdb.Go.Decimal.{format_nat, parse_nat, parse_nat-format_nat}
use jaeger_influxdb.Dbmodel.Model.{
  KeyValue, string_type, int64_type, binary_type, SpanRef, child_of, follows_from, no_trace, Log,
  Span, Floats, FloatLaws,
}
use jaeger_influxdb.Dbmodel.ToPoints.{Models, ModelLaws}

-- Natural numbers in the place of `float64` values.
abbrev pub nat_floats : Floats ℕ
nat_floats = record { zero_float = 0; format_float = format_nat; parse_float = parse_nat }

pub nat_floats-FloatLaws : FloatLaws nat_floats
nat_floats-FloatLaws = record { parse-format = parse_nat-format_nat }

-- A point by its measurement.
abbrev pub dict_models : Models ℕ (Dict Text Text) Text
dict_models = record {
  no_tags = [];
  set_string = λ tags k v. insert k v tags;
  tag = λ tags k. lookup k tags;
  new_point = λ measurement tags fields time. ok measurement;
  point_string = λ p. p;
}

pub dict_models-ModelLaws : ModelLaws dict_models
dict_models-ModelLaws = record {
  tag-no_tags = λ k. unfold lookup in refl;
  tag-set_string = λ tags k v j. lookup-insert k j v tags;
}

abbrev pub string_tag : Text → Text → KeyValue ℕ
string_tag k s = record {
  key = k;
  v_type = string_type;
  v_str = s;
  v_bool = false;
  v_int64 = pos 0;
  v_float64 = 0;
  v_binary = [];
}

abbrev pub int_tag : Text → ℤ → KeyValue ℕ
int_tag k n = record (string_tag k []) { v_type = int64_type; v_int64 = n }

abbrev pub binary_tag : Text → Text → KeyValue ℕ
binary_tag k s = record (string_tag k []) { v_type = binary_type; v_binary = s }

abbrev pub first_log : Log ℕ
first_log = record {
  timestamp = pos 1500000;
  fields = string_tag (codes "event") (codes "retry") ∷ int_tag (codes "span_id") (pos 7) ∷ [];
}

abbrev pub some_references : List SpanRef
some_references =
    record { trace_id = no_trace; span_id = 7; ref_type = child_of }
    ∷ record { trace_id = no_trace; span_id = 0; ref_type = child_of }
    ∷ record { trace_id = no_trace; span_id = 8; ref_type = follows_from }
    ∷ []

abbrev pub some_span : Span ℕ
some_span = record {
  trace_id = record { high = 0; low = 3 };
  span_id = 9;
  operation_name = codes "get";
  references = some_references;
  flags = 1;
  start_time = pos 1000000;
  duration = pos 2000;
  tags = string_tag (codes "http.method") (codes "GET") ∷ [];
  logs = first_log ∷ [];
  process = record {
    service_name = codes "cart";
    tags = string_tag (codes "host") (codes "a") ∷ [];
  };
}
