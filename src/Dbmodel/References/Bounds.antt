-- ===== src/Dbmodel/References/Bounds.antt =====
-- The references that are read have IDs that are `uint64` values.
use jaeger_influxdb.Prelude.{◌<◌, List, [], ◌∷◌, Text, All}
use jaeger_influxdb.Prelude.Int.{two64}
use jaeger_influxdb.Prelude.Outcome.{
  or_error, bad_span_id, invalid_reference, Returns, bind-Returns, Returns-eq, or_error-eq-ok,
}
use jaeger_influxdb.Go.Strings.{split, split_two}
use jaeger_influxdb.Dbmodel.Model.{SpanRef, Ids, IdLaws}
use jaeger_influxdb.Dbmodel.References.{
  ref_type_from, reference_from_string, references_from, references_from_string,
}

abbrev IdBound : SpanRef → Type 0
IdBound r = r.span_id < two64

module _ (ids : Ids) (laws : IdLaws ids) where
  reference-bound : (s : Text) → Returns IdBound (reference_from_string ids s)
  unfolding reference_from_string
  reference-bound s =
      bind-Returns IdBound (or_error invalid_reference (split_two s b':')) _ λ parts p.
        bind-Returns IdBound (or_error bad_span_id (ids.span_id_from_string parts.0)) _ λ id q.
          bind-Returns IdBound (ref_type_from parts.1) _ λ t w.
            laws.span_id_bound parts.0
              (or_error-eq-ok bad_span_id (ids.span_id_from_string parts.0) id q)

  references_from-bound : (ts : List Text) → Returns (All IdBound) (references_from ids ts)
  unfolding references_from
  references_from-bound [] = tt
  references_from-bound ([] ∷ ts) = references_from-bound ts
  references_from-bound ((c ∷ s) ∷ ts) =
      bind-Returns (All IdBound) (reference_from_string ids (c ∷ s)) _ λ r p.
        bind-Returns (All IdBound) (references_from ids ts) _ λ rs q. (
          Returns-eq IdBound _ r (reference-bound (c ∷ s)) p,
          Returns-eq (All IdBound) _ rs (references_from-bound ts) q,
        )

  pub references_from_string-bound :
      (s : Text) → Returns (All (λ r. r.span_id < two64)) (references_from_string ids s)
  unfolding references_from_string
  references_from_string-bound s = references_from-bound (split s b',')
