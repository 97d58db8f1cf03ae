-- ===== src/Dbmodel/Model.antt =====
-- Jaeger's data model, as far as the plugin touches it, and what the plugin calls of it.
use jaeger_influxdb.Prelude.{
  ℕ, ◌≤◌, ◌<◌, ◌≡◌, ◌↔◌, ◌⊎◌, Bool, true, ◌&&◌, List, Option, some, arith, Text, All, length,
  nat_eq,
}
use jaeger_influxdb.Prelude.Eq.{Eq}
use jaeger_influxdb.Prelude.Int.{ℤ, negsuc, int_eq, two64}

-- `model.SpanID` is a `uint64`.
abbrev pub SpanId : Type 0
SpanId = ℕ

pub record TraceId : Type 0 where
  pub high : ℕ
  pub low : ℕ

abbrev pub no_trace : TraceId
no_trace = record { high = 0; low = 0 }

abbrev pub trace_eq : TraceId → TraceId → Bool
trace_eq a b = nat_eq a.high b.high && nat_eq a.low b.low

pub trace_eq_iff : (a b : TraceId) → (trace_eq a b ≡ true) ↔ (a ≡ b)
trace_eq_iff a b = ground arith

instance abbrev pub TraceId_eq : Eq TraceId
TraceId_eq = record { same = trace_eq; same_iff = trace_eq_iff }

-- `model.ValueType`; `other` stands for the numbers that name no type.
pub data ValueType : Type 0 where
  string_type bool_type int64_type float64_type binary_type : ValueType
  other_type : ℕ → ValueType

-- `model.KeyValue`, over the type of `float64` values.
pub record KeyValue (F : Type 0) : Type 0 where
  pub key : Text
  pub v_type : ValueType
  pub v_str : Text
  pub v_bool : Bool
  pub v_int64 : ℤ
  pub v_float64 : F
  pub v_binary : Text

-- `model.SpanRefType`; `other_ref` stands for the numbers that name no type.
pub data SpanRefType : Type 0 where
  child_of follows_from : SpanRefType
  other_ref : ℕ → SpanRefType

pub record SpanRef : Type 0 where
  pub trace_id : TraceId
  pub span_id : SpanId
  pub ref_type : SpanRefType

-- A `time.Time` is its nanoseconds since 1970, on an unbounded scale.
abbrev pub Time : Type 0
Time = ℤ

-- Go's zero time, the start of the year 1.
abbrev pub zero_time : Time
zero_time = negsuc 62135596799999999999

abbrev pub is_zero_time : Time → Bool
is_zero_time t = int_eq t zero_time

pub record Log (F : Type 0) : Type 0 where
  pub timestamp : Time
  pub fields : List (KeyValue F)

pub record Process (F : Type 0) : Type 0 where
  pub service_name : Text
  pub tags : List (KeyValue F)

pub record Span (F : Type 0) : Type 0 where
  pub trace_id : TraceId
  pub span_id : SpanId
  pub operation_name : Text
  pub references : List SpanRef
  pub flags : ℕ  -- uint32
  pub start_time : Time
  pub duration : ℤ  -- int64
  pub tags : List (KeyValue F)
  pub logs : List (Log F)
  pub process : Process F

-- `float64` values and their text form: `FormatFloat(x, 'E', -1, 64)` and `ParseFloat(s, 64)`.
pub record Floats (F : Type 0) : Type 0 where
  pub zero_float : F
  pub format_float : F → Text
  pub parse_float : Text → Option F

-- The shortest form of a number is read back as that number.
pub record FloatLaws {F : Type 0} (f : Floats F) : Type 0 where
  pub parse-format : (x : F) → f.parse_float (f.format_float x) ≡ some x

-- `SpanID.String`, `SpanIDFromString`, `TraceID.String` and `TraceIDFromString`.
pub record Ids : Type 0 where
  pub span_id_string : SpanId → Text
  pub span_id_from_string : Text → Option SpanId
  pub trace_id_string : TraceId → Text
  pub trace_id_from_string : Text → Option TraceId

abbrev pub IsHex : ℕ → Type 0
IsHex c = ((b'0' ≤ c) × (c ≤ b'9')) ⊎ ((b'a' ≤ c) × (c ≤ b'f'))

-- A span ID is printed as 16 hexadecimal digits and read back from them; a trace ID is read back.
pub record IdLaws (ids : Ids) : Type 0 where
  pub span_id : (n : SpanId) → n < two64 → ids.span_id_from_string (ids.span_id_string n) ≡ some n
  pub span_id_bound : (s : Text) {n : SpanId} → ids.span_id_from_string s ≡ some n → n < two64
  pub span_id_width : (n : SpanId) → n < two64 → length (ids.span_id_string n) ≡ 16
  pub span_id_hex : (n : SpanId) → All IsHex (ids.span_id_string n)
  pub trace_id :
      (t : TraceId)
      → t.high < two64
      → t.low < two64
      → ids.trace_id_from_string (ids.trace_id_string t) ≡ some t
