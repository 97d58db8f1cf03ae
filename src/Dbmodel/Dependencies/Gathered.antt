-- ===== src/Dbmodel/Dependencies/Gathered.antt =====
-- The calls between services in terms of the rows that were read: which span has which parent and
-- which service, and which links they make.
use mathlib.Core.Option
use mathlib.Core.List.{Permᴰ}
use mathlib.Core.Path.{subst}
use jaeger_influxdb.Prelude.{
  or_else-none, ◌≡◌, refl, sym, ap, ◌∙◌, not, List, [], ◌∷◌, ◌++◌, map, Option, none, some, Text,
  keep, nat_eq, or_else, or_else_assoc, if◌then◌else◌, Bool-cases, inl, inr,
}
use jaeger_influxdb.Prelude.Dict.{Dict, lookup, lookup-insert}
use jaeger_influxdb.Prelude.Orders.{Distinct, IsRange}
use jaeger_influxdb.Prelude.Eq.{ℕ_eq, Text_eq, text_eq}
use jaeger_influxdb.Dbmodel.Model.{
  SpanId, SpanRef, SpanRefType, child_of, follows_from, other_ref, Ids, IdLaws,
}
use jaeger_influxdb.Dbmodel.Dependencies.{
  DependencyLink, Calls, no_calls, set_parent, set_parents, add_call, service_of, cross_links,
  dependency_links,
}
use jaeger_influxdb.Dbmodel.Dependencies.Links.{one_link, dependency_links-perm}
use jaeger_influxdb.Dbmodel.Dependencies.Parents.{IsCalls}

-- A row that was read: a span, its service and its references.
pub record CallRow : Type 0 where
  pub span : SpanId
  pub service : Text
  pub references : List SpanRef

-- A reference names a parent if it is a CHILD_OF reference.
abbrev pub parent_by : SpanRefType → SpanId → Option SpanId
parent_by child_of s = some s
parent_by follows_from s = none
parent_by (other_ref n) s = none

-- The parent that the last CHILD_OF reference names.
abbrev pub parent_in : List SpanRef → Option SpanId
parent_in [] = none
parent_in (r ∷ rs) = or_else (parent_in rs) (parent_by r.ref_type r.span_id)

-- The parent of a span: the one that its last row with a CHILD_OF reference names.
abbrev pub parent_of : List CallRow → SpanId → Option SpanId
parent_of [] s = none
parent_of (c ∷ cs) s =
    or_else (parent_of cs s) (if nat_eq c.span s then parent_in c.references else none)

-- The service of a span: that of its last row, and no text where it has none.
abbrev pub last_service : List CallRow → SpanId → Option Text
last_service [] s = none
last_service (c ∷ cs) s =
    or_else (last_service cs s) (if nat_eq c.span s then some c.service else none)

abbrev pub service_in : List CallRow → SpanId → Text
service_in cs s = Option.get_or (last_service cs s) []

-- The link of a span and its parent.
abbrev pub link_of : List CallRow → SpanId × SpanId → DependencyLink
link_of cs e = record { parent = service_in cs e.1; child = service_in cs e.0; call_count = 1 }

-- What the links say of the rows: there is a list of the spans that have a parent, each once and
-- with its parent, and there is one link for each of them, in some order, but for those whose
-- parent has the same service.
pub record Linked (cs : List CallRow) (links : List DependencyLink) : Type 0 where
  pub parents : List (SpanId × SpanId)
  pub distinct : Distinct parents
  pub has_parent : (s : SpanId) → lookup s parents ≡ parent_of cs s
  pub links_perm :
      Permᴰ links (keep (λ dl. not (text_eq dl.parent dl.child)) (map (link_of cs) parents))

-- What is gathered of the rows.
abbrev pub gather : List CallRow → Calls → Calls
gather [] calls = calls
gather (c ∷ cs) calls = gather cs (add_call calls c.span c.service c.references)

pub gather-append :
    (cs ds : List CallRow) (calls : Calls) → gather (cs ++ ds) calls ≡ gather ds (gather cs calls)
gather-append [] ds calls = refl
gather-append (c ∷ cs) ds calls = gather-append cs ds (add_call calls c.span c.service c.references)

lookup-set_parent :
    (m : Dict SpanId SpanId) (span : SpanId) (t : SpanRefType) (p s : SpanId)
    → lookup s (set_parent m span t p)
      ≡ or_else (if nat_eq span s then parent_by t p else none) (lookup s m)
unfolding set_parent
lookup-set_parent m span child_of p s =
    lookup-insert span s p m
    ∙ elim (Bool-cases (nat_eq span s)) [ inl e ↦ rw e refl | inr e ↦ rw e refl ]
lookup-set_parent m span follows_from p s = elim (Bool-cases (nat_eq span s)) [
  | inl e ↦ rw e refl
  | inr e ↦ rw e refl
]
lookup-set_parent m span (other_ref n) p s = elim (Bool-cases (nat_eq span s)) [
  | inl e ↦ rw e refl
  | inr e ↦ rw e refl
]

lookup-set_parents :
    (rs : List SpanRef) (m : Dict SpanId SpanId) (span s : SpanId)
    → lookup s (set_parents m span rs)
      ≡ or_else (if nat_eq span s then parent_in rs else none) (lookup s m)
unfolding set_parents
lookup-set_parents [] m span s = elim (Bool-cases (nat_eq span s)) [
  | inl e ↦ rw e refl
  | inr e ↦ rw e refl
]
lookup-set_parents (r ∷ rs) m span s =
    lookup-set_parents rs (set_parent m span r.ref_type r.span_id) span s
    ∙ rw (lookup-set_parent m span r.ref_type r.span_id s) (elim (Bool-cases (nat_eq span s)) [
      | inl e ↦ rw e (or_else_assoc (parent_in rs) _ _)
      | inr e ↦ rw e refl
    ])

lookup-gather-parents :
    (cs : List CallRow) (calls : Calls) (s : SpanId)
    → lookup s (gather cs calls).parent_by_child
      ≡ or_else (parent_of cs s) (lookup s calls.parent_by_child)
unfolding add_call
lookup-gather-parents [] calls s = refl
lookup-gather-parents (c ∷ cs) calls s =
    lookup-gather-parents cs (add_call calls c.span c.service c.references) s
    ∙ rw (lookup-set_parents c.references calls.parent_by_child c.span s)
        (or_else_assoc (parent_of cs s) _ _)

lookup-gather-services :
    (cs : List CallRow) (calls : Calls) (s : SpanId)
    → lookup s (gather cs calls).service_name_by_span_id
      ≡ or_else (last_service cs s) (lookup s calls.service_name_by_span_id)
unfolding add_call
lookup-gather-services [] calls s = refl
lookup-gather-services (c ∷ cs) calls s =
    lookup-gather-services cs (add_call calls c.span c.service c.references) s
    ∙ rw (lookup-insert c.span s c.service calls.service_name_by_span_id)
        (elim (Bool-cases (nat_eq c.span s)) [
          | inl e ↦ rw e (or_else_assoc (last_service cs s) _ _)
          | inr e ↦ rw e (or_else_assoc (last_service cs s) _ _)
        ])

service_of-gather :
    (cs : List CallRow) (s : SpanId) → service_of (gather cs no_calls) s ≡ service_in cs s
unfolding lookup
service_of-gather cs s =
    ap (λ (o : Option Text). Option.get_or o [])
      (lookup-gather-services cs no_calls s ∙ or_else-none (last_service cs s))

module _ (ids : Ids) (laws : IdLaws ids) where
  cross_links-keep :
      (cs : List CallRow) (parents : List (SpanId × SpanId))
      → cross_links ids (map (one_link ids laws (gather cs no_calls)) parents)
        ≡ keep (λ dl. not (text_eq dl.parent dl.child)) (map (link_of cs) parents)
  unfolding cross_links
  cross_links-keep cs [] = refl
  cross_links-keep cs (e ∷ es) =
      rw (service_of-gather cs e.0, service_of-gather cs e.1)
        (elim (Bool-cases (text_eq (service_in cs e.1) (service_in cs e.0))) [
          | inl same ↦ rw (same, keep) (cross_links-keep cs es)
          | inr other ↦ rw (other, keep) (ap (◌∷◌ (link_of cs e)) (cross_links-keep cs es))
        ])

  -- The links of what was gathered, in terms of the rows.
  gather-Linked :
      (cs : List CallRow) (links : List DependencyLink)
      → Distinct (gather cs no_calls).parent_by_child
      → Permᴰ links (
          cross_links ids
            (map (one_link ids laws (gather cs no_calls)) (gather cs no_calls).parent_by_child))
      → Linked cs links
  unfolding lookup
  gather-Linked cs links distinct p = record {
    parents = (gather cs no_calls).parent_by_child;
    distinct = distinct;
    has_parent = λ s. lookup-gather-parents cs no_calls s ∙ or_else-none (parent_of cs s);
    links_perm = subst (Permᴰ links) (cross_links-keep cs _) p;
  }

  -- The links that the end of both functions makes of what was gathered of the rows.
  pub dependency_links-Linked :
      {range : Dict SpanId SpanId → List (SpanId × SpanId)}
      {range_links : Dict Text DependencyLink → List (Text × DependencyLink)} (cs : List CallRow)
      (calls : Calls) (links : List DependencyLink)
      → IsRange range
      → IsRange range_links
      → gather cs no_calls ≡ calls
      → IsCalls calls
      → dependency_links ids range range_links calls ≡ links
      → Linked cs links
  dependency_links-Linked {range} {range_links} cs calls links hr hl gathered is_calls made =
      let v = subst IsCalls (sym gathered) is_calls in
      gather-Linked cs links v.distinct (
        subst
          (λ ls. Permᴰ ls (
            cross_links ids
              (map (one_link ids laws (gather cs no_calls)) (gather cs no_calls).parent_by_child)))
          (ap (dependency_links ids range range_links) gathered ∙ made)
          (dependency_links-perm ids laws (gather cs no_calls) hr hl v.bounded v.distinct))
