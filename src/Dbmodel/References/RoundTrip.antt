-- ===== src/Dbmodel/References/RoundTrip.antt =====
-- The references that are written are read back, in order.
use jaeger_influxdb.Prelude.{
  ℕ, zero, suc, ◌<◌, ◌≡◌, ◌≢◌, refl, Bool, true, false, List, [], ◌∷◌, ◌++◌, Option, none, some,
  Text, if◌then◌else◌, arith, All, All-append, Lacks,
}
use jaeger_influxdb.Prelude.Eq.{text_eq}
use jaeger_influxdb.Prelude.Int.{two64}
use jaeger_influxdb.Prelude.Outcome.{ok}
use jaeger_influxdb.Go.Strings.{split, join, split-join, split_two-append}
use jaeger_influxdb.Dbmodel.Model.{
  SpanId, SpanRef, SpanRefType, child_of, follows_from, other_ref, no_trace, Ids, IdLaws, IsHex,
}
use jaeger_influxdb.Dbmodel.References.{
  ref_type_from, reference_from_string, references_from, references_from_string, reference_text,
  reference_texts, references_field, child_of_name, follows_from_name, nonempty_join, add_text,
}

-- The references that can be written, without their trace IDs: those with an ID and a known type.
abbrev pub known : SpanId → SpanRefType → Bool
known zero t = false
known (suc n) (other_ref k) = false
known (suc n) _ = true

abbrev pub written : List SpanRef → List SpanRef
written [] = []
written (r ∷ rs) =
    if known r.span_id r.ref_type then record r { trace_id = no_trace } ∷ written rs else written rs

abbrev pub SpanIds : List SpanRef → Type 0
SpanIds = All (λ r. r.span_id < two64)

abbrev pub field_or_empty : Option Text → Text
field_or_empty none = []
field_or_empty (some s) = s

append-ne-nil : (s : Text) (c : ℕ) (t : Text) → s ++ c ∷ t ≢ []
append-ne-nil [] c t e = cc
append-ne-nil (x ∷ s) c t e = cc

module _ (ids : Ids) (laws : IdLaws ids) where
  open ids use {span_id_string}

  hex-Lacks_comma : (s : Text) → All IsHex s → Lacks b',' s
  hex-Lacks_comma [] _ = tt
  hex-Lacks_comma (c ∷ s) (hc, hs) = (omega arith, hex-Lacks_comma s hs)

  hex-Lacks_colon : (s : Text) → All IsHex s → Lacks b':' s
  hex-Lacks_colon [] _ = tt
  hex-Lacks_colon (c ∷ s) (hc, hs) = (omega arith, hex-Lacks_colon s hs)

  -- One reference, whose type has this name.
  reference_from_named :
      (id : SpanId) (t : SpanRefType) (name : Text)
      → id < two64
      → ref_type_from name ≡ ok t
      → reference_from_string ids (span_id_string id ++ b':' ∷ name)
        ≡ ok (record { trace_id = no_trace; span_id = id; ref_type = t })
  unfolding reference_from_string
  reference_from_named id t name h e = rw (
    split_two-append b':' (span_id_string id) name (hex-Lacks_colon _ (laws.span_id_hex id)),
    laws.span_id id h,
    e,
  )

  -- A written reference reads back, and holds neither a comma nor nothing.
  record Reads (id : SpanId) (t : SpanRefType) (s : Text) : Type 0 where
    back :
        reference_from_string ids s
        ≡ ok (record { trace_id = no_trace; span_id = id; ref_type = t })
    lacks : Lacks b',' s
    nonempty : s ≢ []

  Reads-named :
      (id : SpanId) (t : SpanRefType) (name : Text)
      → id < two64
      → ref_type_from name ≡ ok t
      → Lacks b',' name
      → Reads id t (span_id_string id ++ b':' ∷ name)
  Reads-named id t name h e l = record {
    back = reference_from_named id t name h e;
    lacks =
        All-append (λ c. c ≢ b',') (span_id_string id) (b':' ∷ name)
          (hex-Lacks_comma _ (laws.span_id_hex id)) (omega arith, l);
    nonempty = append-ne-nil (span_id_string id) b':' name;
  }

  references_from_cons :
      (s : Text) (ts : List Text) {r : SpanRef} {rs : List SpanRef}
      → s ≢ []
      → reference_from_string ids s ≡ ok r
      → references_from ids ts ≡ ok rs
      → references_from ids (s ∷ ts) ≡ ok (r ∷ rs)
  unfolding references_from
  references_from_cons [] ts h _ _ = absurd (h refl)
  references_from_cons (c ∷ s) ts _ e es = rw (e, es)

  -- The texts `ts` read back as `rs`, and can be split at commas.
  record ReadAs (ts : List Text) (rs : List SpanRef) : Type 0 where
    back : references_from ids ts ≡ ok rs
    lacks : All (Lacks b',') ts

  ReadAs-named :
      (id : SpanId) (t : SpanRefType) (name : Text) (ts : List Text) (rs : List SpanRef)
      → Reads id t (span_id_string id ++ b':' ∷ name)
      → ReadAs ts rs
      → ReadAs
          ((span_id_string id ++ b':' ∷ name) ∷ ts)
          (record { trace_id = no_trace; span_id = id; ref_type = t } ∷ rs)
  ReadAs-named id t name ts rs one many = record {
    back = references_from_cons _ ts one.nonempty one.back many.back;
    lacks = (one.lacks, many.lacks);
  }

  ReadAs-step :
      (id : SpanId) (t : SpanRefType) (ts : List Text) (rs : List SpanRef)
      → id < two64
      → ReadAs ts rs
      → ReadAs (add_text (reference_text ids id t) ts) (
          if known id t
          then record { trace_id = no_trace; span_id = id; ref_type = t } ∷ rs
          else rs)
  unfolding reference_text ref_type_from text_eq
  ReadAs-step zero t ts rs h many = many
  ReadAs-step (suc n) child_of ts rs h many =
      ReadAs-named (suc n) child_of child_of_name ts rs
        (Reads-named (suc n) child_of child_of_name h refl (omega arith)) many
  ReadAs-step (suc n) follows_from ts rs h many =
      ReadAs-named (suc n) follows_from follows_from_name ts rs
        (Reads-named (suc n) follows_from follows_from_name h refl (omega arith)) many
  ReadAs-step (suc n) (other_ref k) ts rs h many = many

  texts-ReadAs : (rs : List SpanRef) → SpanIds rs → ReadAs (reference_texts ids rs) (written rs)
  unfolding reference_texts
  texts-ReadAs [] _ = record { back = unfold references_from in refl; lacks = tt }
  texts-ReadAs (r ∷ rs) (h, hs) = ReadAs-step r.span_id r.ref_type _ _ h (texts-ReadAs rs hs)

  joined_texts :
      (ts : List Text) (rs : List SpanRef)
      → ReadAs ts rs
      → references_from_string ids (field_or_empty (nonempty_join ts)) ≡ ok rs
  unfolding references_from_string
  joined_texts [] rs h = unfold split references_from join in h.back
  joined_texts (s ∷ ts) rs h = unfold join in rw (split-join b',' (s ∷ ts) (cc) h.lacks) h.back

  -- Where the span IDs of the references are `uint64` and the laws on the text of IDs hold: the
  -- written field of a span's references, or the empty text where no field is written, is read as
  -- all references with an ID other than 0 and a known type, in their order and without trace IDs.
  pub references_from_string-references_field :
      (rs : List SpanRef)
      → SpanIds rs
      → references_from_string ids (field_or_empty (references_field ids rs)) ≡ ok (written rs)
  unfolding references_field
  references_from_string-references_field rs h =
      joined_texts (reference_texts ids rs) (written rs) (texts-ReadAs rs h)
