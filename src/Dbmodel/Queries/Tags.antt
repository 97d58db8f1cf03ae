-- ===== src/Dbmodel/Queries/Tags.antt =====
-- Which tags a query of the two builders asks for.
use jaeger_influxdb.Prelude.{
  or_else, or_else_assoc, ◌≡◌, refl, ◌∙◌, List, [], ◌∷◌, Option, none, some, Text, if◌then◌else◌,
  Bool-cases, inl, inr, ap,
}
use jaeger_influxdb.Prelude.Dict.{Dict, lookup, insert, lookup-insert}
use jaeger_influxdb.Prelude.Eq.{Text_eq, text_eq}
use jaeger_influxdb.Common.{service_name_key, operation_name_key}
use jaeger_influxdb.Dbmodel.Queries.{tag_if_given, add_tags, tags_from_tqp}

-- The value of the last of several tags with the key.
abbrev pub last_value : Text → List (Text × Text) → Option Text
last_value k [] = none
last_value k (e ∷ rest) = or_else (last_value k rest) (if text_eq e.0 k then some e.1 else none)

abbrev pub given : Text → Text → Text → Option Text
given k key [] = none
given k key (c ∷ s) = if text_eq key k then some (c ∷ s) else none

lookup-add_tags :
    (tags : List (Text × Text)) (m : Dict Text Text) (k : Text)
    → lookup k (add_tags m tags) ≡ or_else (last_value k tags) (lookup k m)
unfolding add_tags
lookup-add_tags [] m k = refl
lookup-add_tags ((j, v) ∷ rest) m k =
    lookup-add_tags rest (insert j v m) k
    ∙ rw (lookup-insert j k v m) (elim (Bool-cases (text_eq j k)) [
      | inl e ↦ rw e (or_else_assoc (last_value k rest) (some v) (lookup k m))
      | inr e ↦ rw e (or_else_assoc (last_value k rest) none (lookup k m))
    ])

lookup-tag_if_given :
    (key value : Text) (m : Dict Text Text) (k : Text)
    → lookup k (tag_if_given key value m) ≡ or_else (given k key value) (lookup k m)
lookup-tag_if_given key [] m k = refl
lookup-tag_if_given key (c ∷ s) m k =
    lookup-insert key k (c ∷ s) m
    ∙ elim (Bool-cases (text_eq key k)) [ inl e ↦ rw e refl | inr e ↦ rw e refl ]

-- Under each key a query asks for the value of the last tag of the parameters with that key, in the
-- order of the range; under a key that no such tag has, for the operation name and for the service
-- name under their keys, where they are given, and for nothing under any other.
pub lookup-tags_from_tqp :
    (service_name operation_name : Text) (tags : List (Text × Text)) (k : Text)
    → lookup k (tags_from_tqp service_name operation_name tags)
      ≡ or_else (last_value k tags) (
          or_else
            (given k operation_name_key operation_name)
            (or_else (given k service_name_key service_name) none))
unfolding tags_from_tqp lookup
lookup-tags_from_tqp service_name operation_name tags k =
    lookup-add_tags tags
      (tag_if_given operation_name_key operation_name
        (tag_if_given service_name_key service_name []))
      k
    ∙ ap (or_else (last_value k tags)) (
        lookup-tag_if_given operation_name_key operation_name
          (tag_if_given service_name_key service_name []) k
        ∙ ap (or_else (given k operation_name_key operation_name))
            (lookup-tag_if_given service_name_key service_name [] k))
