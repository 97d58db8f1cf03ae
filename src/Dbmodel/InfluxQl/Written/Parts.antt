-- ===== src/Dbmodel/InfluxQl/Written/Parts.antt =====
-- The parts of a written span that are read back one by one.
use jaeger_influxdb.Prelude.{
  ℕ, ◌-◌, ◌%◌, ◌<◌, ◌≡◌, refl, ap, Bool-cases, inl, inr, true, false, List, [], ◌∷◌, map, Option,
  none, some, Text, All, Lacks, arith,
}
use jaeger_influxdb.Prelude.Eq.{Text_eq, text_eq, text_eq_iff}
use jaeger_influxdb.Prelude.Int.{ℤ, pos, Int64, wrap64, wrap64_lem}
use jaeger_influxdb.Prelude.Outcome.{Outcome, ok, err, panic}
use jaeger_influxdb.Go.Decimal.{format_int, parse_int-format_int}
use jaeger_influxdb.Go.Strings.{join, split-join}
use jaeger_influxdb.Dbmodel.Model.{KeyValue, Floats, Ids}
use jaeger_influxdb.Dbmodel.KeyValue.{key_value_as_strings}
use jaeger_influxdb.Dbmodel.KeyValue.TagRoundTrip.{key-key_value_as_strings}
use jaeger_influxdb.Dbmodel.References.{nonempty_join}
use jaeger_influxdb.Dbmodel.SpanTime.{merge_time_and_span_id, remove_span_id_from_time}
use jaeger_influxdb.Dbmodel.SpanTime.Laws.{
  Storable, merge_time_and_span_id-Int64, remove_span_id_from_time-merge_time_and_span_id,
}
use jaeger_influxdb.Dbmodel.ToPoints.{Models}
use jaeger_influxdb.Dbmodel.ToPoints.Tags.{value_under, last_tag}
use jaeger_influxdb.Dbmodel.Flux.{u32}
use jaeger_influxdb.Dbmodel.Flux.Span.{contains}
use jaeger_influxdb.Dbmodel.InfluxQl.{Value, nil_value, string_json, number_json}
use jaeger_influxdb.Dbmodel.InfluxQl.Traces.{optional_int, process_keys}
use jaeger_influxdb.Dbmodel.InfluxQl.Written.Tags.{in_keys}

-- The value in the column of a field that may be missing.
abbrev pub optional_value : Option Text → Value
optional_value none = nil_value
optional_value (some s) = string_json s

-- The keys of a process are read back.
pub process_keys_back :
    (keys : List Text)
    → All (Lacks b',') keys
    → process_keys (optional_value (nonempty_join keys)) ≡ ok keys
unfolding process_keys join
process_keys_back [] h = refl
process_keys_back (k ∷ ks) h = ap ok (split-join b',' (k ∷ ks) (λ e. cc) h)

contains_more : (ks : List Text) (x k : Text) → contains ks k ≡ true → contains (x ∷ ks) k ≡ true
contains_more ks x k h =
    rw h (elim (Bool-cases (text_eq x k)) [ inl e ↦ rw e refl | inr e ↦ rw e refl ])

contains_self : (ks : List Text) (k : Text) → contains (k ∷ ks) k ≡ true
contains_self ks k = rw ((text_eq_iff k k).1 refl) refl

pub All-mono {ℓ κ ρ} :
    {A : Type ℓ} (P : A → Type κ) (Q : A → Type ρ)
    → ((a : A) → P a → Q a)
    → (xs : List A) → All P xs
    → All Q xs
All-mono P Q f [] h = tt
All-mono P Q f (x ∷ xs) h = (f x h.0, All-mono P Q f xs h.1)

-- The tags of a process are told by the keys of the process.
pub all_in_keys :
    {F : Type 0} (kvs : List (KeyValue F))
    → All (λ kv. in_keys (map (λ t. t.key) kvs) kv ≡ true) kvs
all_in_keys [] = tt
all_in_keys (kv ∷ kvs) = (
  contains_self (map (λ t. t.key) kvs) kv.key,
  All-mono _ _ (λ u h. contains_more (map (λ t. t.key) kvs) kv.key u.key h) kvs (all_in_keys kvs),
)

pub optional_int_back : (n : ℤ) → Int64 n → optional_int (number_json (format_int n)) ≡ ok n
unfolding optional_int
optional_int_back n h = rw (parse_int-format_int n h) refl

pub u32_back : (n : ℕ) → n < 4294967296 → u32 (pos n) ≡ n
u32_back n h = omega arith

pub flags_fit : (n : ℕ) → n < 4294967296 → Int64 (pos n)
flags_fit n h = (omega arith, omega arith)

pub start_back :
    (n : ℕ) (span_id : ℕ)
    → Storable n
    → remove_span_id_from_time (wrap64 (merge_time_and_span_id (pos n) span_id))
      ≡ pos (n - n % 1000)
start_back n span_id h =
    rw
      (wrap64_lem (merge_time_and_span_id (pos n) span_id)
        (merge_time_and_span_id-Int64 (pos n) span_id))
      (remove_span_id_from_time-merge_time_and_span_id n span_id h)

module _ {F Tags Point : Type 0} (floats : Floats F) (ids : Ids)
    (models : Models F Tags Point) where
  -- No tag has the key, so none is written under it.
  pub last_tag-none :
      (k : Text) (kvs : List (KeyValue F))
      → All (λ kv. text_eq kv.key k ≡ false) kvs
      → last_tag floats ids models k kvs ≡ none
  last_tag-none k [] h = refl
  last_tag-none k (kv ∷ kvs) h =
      rw (last_tag-none k kvs h.1) (go (key_value_as_strings floats kv) refl)
    where
      go :
          (o : Outcome (Text × Text))
          → key_value_as_strings floats kv ≡ o
          → value_under k (key_value_as_strings floats kv) ≡ none
      go (ok p) e = rw (e, ← key-key_value_as_strings floats kv e, h.0) refl
      go (err x) e = rw e refl
      go panic e = rw e refl
