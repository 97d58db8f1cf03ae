-- ===== src/Dbmodel/Flux/Span.antt =====
-- SpanFromFluxColReader of dbmodel/to_domain_v2.go: a row of a span table as a Jaeger span.
pub mod ProcessTags
use jaeger_influxdb.Prelude.{
  ℕ, zero, suc, ◌-◌, ◌≡◌, Bool, true, false, ◌||◌, List, [], ◌∷◌, ◌++◌, map, Option, none, some,
  Text, length, get_elem?, set, take, if◌then◌else◌,
}
use jaeger_influxdb.Prelude.Eq.{text_eq}
use jaeger_influxdb.Prelude.Int.{ℤ, pos}
use jaeger_influxdb.Prelude.Outcome.{
  Outcome, ok, err, panic, ◌>>=◌, or_error, or_panic, Error, bad_trace_id, bad_span_id,
}
use jaeger_influxdb.Go.Strings.{split}
use jaeger_influxdb.Common.{
  measurement_key, time_v2_key, trace_id_key, service_name_key, operation_name_key, span_id_key,
  duration_key, flags_key, process_tag_keys_key, references_key,
}
use jaeger_influxdb.Dbmodel.Model.{
  KeyValue, Process, Span, SpanRef, TraceId, no_trace, zero_time, Floats, Ids,
}
use jaeger_influxdb.Dbmodel.KeyValue.{strings_to_key_value}
use jaeger_influxdb.Dbmodel.References.{references_from_string}
use jaeger_influxdb.Dbmodel.SpanTime.{remove_span_id_from_time}
use jaeger_influxdb.Dbmodel.Flux.{Cell, Column, Row, strings, ints, times, is_null, u32, wrap}

-- `processTagKeys` as a set: whether a key is in the list.
abbrev pub contains : List Text → Text → Bool
contains [] k = false
contains (x ∷ xs) k = text_eq x k || contains xs k

-- `tags[i] = tags[len(tags)-1]; tags = tags[:len(tags)-1]`
pub swap_remove {ℓ} : {A : Type ℓ} → ℕ → List A → List A
swap_remove i tags =
    let last = length tags - 1 in
    elim (get_elem? tags last) [ none ↦ tags | some y ↦ take last (set tags i y) ]

-- The loop over `span.Tags` from the last index down: the first argument is the index plus one.
pub move_tags :
    {F : Type 0}
    → (Text → Bool)
    → ℕ
    → List (KeyValue F)
    → List (KeyValue F)
    → List (KeyValue F) × List (KeyValue F)
unfolding swap_remove
move_tags p zero tags moved = (tags, moved)
move_tags p (suc i) tags moved = elim (get_elem? tags i) [
  | none ↦ (tags, moved)
  | some kv ↦ elim (p kv.key) [
    | true ↦ move_tags p i (swap_remove i tags) (moved ++ kv ∷ [])
    | false ↦ move_tags p i tags moved
  ]
]

-- What the loop over the columns has gathered.
pub record Gathered (F : Type 0) : Type 0 where
  pub span : Span F
  pub process_tag_keys : List Text
  pub errs : List Error

module _ {F : Type 0} (floats : Floats F) (ids : Ids) where
  abbrev pub empty_span : Span F
  empty_span = record {
    trace_id = no_trace;
    span_id = 0;
    operation_name = [];
    references = [];
    flags = 0;
    start_time = zero_time;
    duration = pos 0;
    tags = [];
    logs = [];
    process = record { service_name = []; tags = [] };
  }

  abbrev pub nothing_gathered : Gathered F
  nothing_gathered = record { span = empty_span; process_tag_keys = []; errs = [] }

  -- An error is noted, and the loop goes on.
  abbrev failed : Gathered F → Error → Gathered F
  failed g e = record g { errs = g.errs ++ e ∷ [] }

  trace_id_column : Gathered F → Option TraceId → Gathered F
  trace_id_column g none = record g {
    span = record (g.span) { trace_id = no_trace };
    errs = g.errs ++ bad_trace_id ∷ [];
  }
  trace_id_column g (some t) = record g { span = record (g.span) { trace_id = t } }

  span_id_column : Gathered F → Option ℕ → Gathered F
  span_id_column g none = record g {
    span = record (g.span) { span_id = 0 };
    errs = g.errs ++ bad_span_id ∷ [];
  }
  span_id_column g (some n) = record g { span = record (g.span) { span_id = n } }

  references_column : Gathered F → Outcome (List SpanRef) → Outcome (Gathered F)
  references_column g (ok rs) = ok (record g { span = record (g.span) { references = rs } })
  references_column g (err e) = ok (failed g e)
  references_column g panic = panic

  -- The result is dereferenced, which panics at the nil of an empty value.
  tag_column : Gathered F → Outcome (Option (KeyValue F)) → Outcome (Gathered F)
  tag_column g (ok none) = panic
  tag_column g (ok (some kv)) =
      ok (record g { span = record (g.span) { tags = g.span.tags ++ kv ∷ [] } })
  tag_column g (err e) = ok (failed g e)
  tag_column g panic = panic

  -- The `switch` on the label of a column that is not null.
  span_column : Gathered F → Text → Cell F → Outcome (Gathered F)
  unfolding trace_id_column span_id_column references_column tag_column
  span_column g label cell =
      if text_eq label measurement_key
      then ok g
      else if text_eq label time_v2_key
      then (do
        t ← times cell
        ok (record g { span = record (g.span) { start_time = remove_span_id_from_time t } }))
      else if text_eq label trace_id_key
      then (do s ← strings cell; ok (trace_id_column g (ids.trace_id_from_string s)))
      else if text_eq label service_name_key
      then (do
        s ← strings cell
        ok (record g {
          span = record (g.span) { process = record (g.span.process) { service_name = s } };
        }))
      else if text_eq label operation_name_key
      then (do s ← strings cell; ok (record g { span = record (g.span) { operation_name = s } }))
      else if text_eq label span_id_key
      then (do s ← strings cell; ok (span_id_column g (ids.span_id_from_string s)))
      else if text_eq label duration_key
      then (do n ← ints cell; ok (record g { span = record (g.span) { duration = n } }))
      else if text_eq label flags_key
      then (do n ← ints cell; ok (record g { span = record (g.span) { flags = u32 n } }))
      else if text_eq label process_tag_keys_key
      then (do
        s ← strings cell
        ok (record g { process_tag_keys = g.process_tag_keys ++ split s b',' }))
      else if text_eq label references_key
      then (do s ← strings cell; references_column g (references_from_string ids s))
      else (do s ← strings cell; tag_column g (strings_to_key_value floats label s))

  -- Null cells are passed over.
  span_columns : Gathered F → Row F → Outcome (Gathered F)
  unfolding span_column
  span_columns g [] = ok g
  span_columns g (c ∷ cs) = do
    skip ← is_null c.cell
    g' ← (if skip then ok g else span_column g c.label c.cell)
    span_columns g' cs

  -- What follows the loop: the references get the span's trace ID, and the tags of the process are
  -- moved to it.
  finish_span : Gathered F → Span F
  unfolding move_tags
  finish_span g =
      let s = g.span in
      let (tags, moved) = move_tags (contains g.process_tag_keys) (length s.tags) s.tags [] in
      record s {
        references = map (λ (r : SpanRef). record r { trace_id = s.trace_id }) s.references;
        tags = tags;
        process = record (s.process) { tags = s.process.tags ++ moved };
      }

  unfoldable pub span_from_flux_col_reader : Row F → Outcome (Span F)
  unfolding span_columns finish_span
  span_from_flux_col_reader row = do
    g ← span_columns nothing_gathered row
    wrap g.errs (finish_span g)
