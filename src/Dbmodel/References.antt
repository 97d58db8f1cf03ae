-- ===== src/Dbmodel/References.antt =====
-- Span references as one string: the loop of SpanToPointsV1 and SpanToPointsV2 that writes it
-- (dbmodel/from_domain_v1.go, dbmodel/from_domain_v2.go), and referencesFromString of
-- dbmodel/common.go that reads it.
pub mod Bounds
pub mod RoundTrip
use jaeger_influxdb.Prelude.{
  ℕ, zero, suc, Bool, true, false, List, [], ◌∷◌, ◌++◌, Option, none, some, Text, codes,
  if◌then◌else◌,
}
use jaeger_influxdb.Prelude.Eq.{text_eq}
use jaeger_influxdb.Prelude.Outcome.{
  Outcome, ok, err, panic, ◌>>=◌, or_error, invalid_reference, unknown_reference_type, bad_span_id,
}
use jaeger_influxdb.Go.Strings.{split, split_two, join}
use jaeger_influxdb.Dbmodel.Model.{
  SpanId, SpanRef, SpanRefType, child_of, follows_from, other_ref, no_trace, Ids,
}

-- `common.ReferenceTypeChildOf` and `common.ReferenceTypeFollowsFrom`.
abbrev pub child_of_name : Text
child_of_name = codes "ChildOf"

abbrev pub follows_from_name : Text
follows_from_name = codes "FollowsFrom"

ref_type_from : Text → Outcome SpanRefType
ref_type_from s =
    if text_eq s child_of_name
    then ok child_of
    else if text_eq s follows_from_name
    then ok follows_from
    else err unknown_reference_type

abbrev pub add_text : Option Text → List Text → List Text
add_text none ts = ts
add_text (some s) ts = s ∷ ts

abbrev pub nonempty_join : List Text → Option Text
unfolding join
nonempty_join [] = none
nonempty_join (t ∷ ts) = some (join (t ∷ ts) (codes ","))

module _ (ids : Ids) where
  open ids use {span_id_string, span_id_from_string}

  -- One round of the loop that reads; the trace ID is filled in by the caller.
  reference_from_string : Text → Outcome SpanRef
  unfolding ref_type_from
  reference_from_string reference = do
    (id_text, type_text) ← or_error invalid_reference (split_two reference b':')
    id ← or_error bad_span_id (span_id_from_string id_text)
    t ← ref_type_from type_text
    ok (record { trace_id = no_trace; span_id = id; ref_type = t })

  -- Empty parts are skipped, and the first error ends the loop.
  references_from : List Text → Outcome (List SpanRef)
  unfolding reference_from_string
  references_from [] = ok []
  references_from ([] ∷ parts) = references_from parts
  references_from ((c ∷ s) ∷ parts) = do
    r ← reference_from_string (c ∷ s)
    rs ← references_from parts
    ok (r ∷ rs)

  unfoldable pub references_from_string : Text → Outcome (List SpanRef)
  unfolding references_from
  references_from_string s = references_from (split s b',')

  -- The text of one reference, if it is written.
  reference_text : SpanId → SpanRefType → Option Text
  reference_text zero t = none
  reference_text (suc n) child_of = some (span_id_string (suc n) ++ b':' ∷ child_of_name)
  reference_text (suc n) follows_from = some (span_id_string (suc n) ++ b':' ∷ follows_from_name)
  reference_text (suc n) (other_ref k) = none

  reference_texts : List SpanRef → List Text
  unfolding reference_text
  reference_texts [] = []
  reference_texts (r ∷ rs) = add_text (reference_text r.span_id r.ref_type) (reference_texts rs)

  -- The value of the references field, which is set only if a reference is written.
  unfoldable pub references_field : List SpanRef → Option Text
  unfolding reference_texts
  references_field rs = nonempty_join (reference_texts rs)
