-- ===== src/Dbmodel/Dependencies/Parents.antt =====
-- The calls that are gathered from rows: one parent for each span, and IDs that are `uint64`.
use mathlib.Core.Path.{subst}
use jaeger_influxdb.Common.{span_id_key, service_name_key, references_key}
use jaeger_influxdb.Prelude.{
  ℕ, ◌<◌, ◌≡◌, ◌≢◌, List, [], ◌∷◌, Option, none, some, Text, All, Bool-cases, inl, inr, arith,
  nat_eq, nat_eq_iff,
}
use jaeger_influxdb.Prelude.Dict.{Dict, insert}
use jaeger_influxdb.Prelude.Orders.{Fresh, Distinct}
use jaeger_influxdb.Prelude.Eq.{ℕ_eq}
use jaeger_influxdb.Prelude.Int.{two64}
use jaeger_influxdb.Prelude.Outcome.{
  ok, Error, or_error, ok_eq, Returns, bind-Returns, Returns-eq, or_panic, or_error-eq-ok,
  bad_span_id,
}
use jaeger_influxdb.Dbmodel.Model.{
  SpanId, SpanRef, SpanRefType, child_of, follows_from, other_ref, Ids, IdLaws,
}
use jaeger_influxdb.Dbmodel.References.Bounds.{references_from_string-bound}
use jaeger_influxdb.Dbmodel.Flux.{Cell, Row, strings}
use jaeger_influxdb.Dbmodel.Flux.Traces.{Table, last_column, ended}
use jaeger_influxdb.Dbmodel.Dependencies.{
  Calls, set_parent, set_parents, add_call, flux_references, flux_row, flux_rows, flux_tables,
}

Fresh-insert : (k v : ℕ) (e : ℕ × ℕ) (m : Dict ℕ ℕ) → k ≢ e.0 → Fresh e m → Fresh e (insert k v m)
unfolding insert
Fresh-insert k v e [] h _ = (h, tt)
Fresh-insert k v e ((j, w) ∷ m) h (n, ns) = elim (Bool-cases (nat_eq j k)) [
  | inl same ↦ rw same (n, ns)
  | inr other ↦ rw other (n, Fresh-insert k v e m h ns)
]

-- A dictionary with one entry for a key, whose keys and values are `uint64`.
pub record IsParents (m : Dict SpanId SpanId) : Type 0 where
  pub distinct : Distinct m
  pub bounded : All (λ e. (e.0 < two64) × (e.1 < two64)) m

insert-IsParents :
    (k v : SpanId) (m : Dict SpanId SpanId)
    → k < two64
    → v < two64
    → IsParents m
    → IsParents (insert k v m)
unfolding insert
insert-IsParents k v [] hk hv h = record { distinct = (tt, tt); bounded = ((hk, hv), tt) }
insert-IsParents k v ((j, w) ∷ m) hk hv h = elim (Bool-cases (nat_eq j k)) [
  | inl same ↦
      rw same (record { distinct = h.distinct; bounded = ((h.bounded.0.0, hv), h.bounded.1) })
  | inr other ↦
      let ih =
        insert-IsParents k v m hk hv (record { distinct = h.distinct.1; bounded = h.bounded.1 }) in
      rw other (record {
        distinct =
            (Fresh-insert k v (j, w) m (ground (arith, nat_eq_iff j k)) h.distinct.0, ih.distinct);
        bounded = (h.bounded.0, ih.bounded);
      })
]

abbrev pub RefIds : List SpanRef → Type 0
RefIds = All (λ r. r.span_id < two64)

set_parent-IsParents :
    (m : Dict SpanId SpanId) (span : SpanId) (t : SpanRefType) (parent : SpanId)
    → span < two64
    → parent < two64
    → IsParents m
    → IsParents (set_parent m span t parent)
unfolding set_parent
set_parent-IsParents m span child_of parent hs hp h = insert-IsParents span parent m hs hp h
set_parent-IsParents m span follows_from parent hs hp h = h
set_parent-IsParents m span (other_ref n) parent hs hp h = h

set_parents-IsParents :
    (rs : List SpanRef) (m : Dict SpanId SpanId) (span : SpanId)
    → span < two64
    → RefIds rs
    → IsParents m
    → IsParents (set_parents m span rs)
unfolding set_parents
set_parents-IsParents [] m span hs _ h = h
set_parents-IsParents (r ∷ rs) m span hs (hr, hrs) h =
    set_parents-IsParents rs (set_parent m span r.ref_type r.span_id) span hs hrs
      (set_parent-IsParents m span r.ref_type r.span_id hs hr h)

pub ended_eq :
    {calls next : Calls} (fault : Option Error) → ended fault calls ≡ ok next → calls ≡ next
ended_eq none e = ok_eq e
ended_eq (some x) e = cc

pub add_call-IsParents :
    (calls : Calls) (span : SpanId) (service : Text) (rs : List SpanRef)
    → span < two64
    → RefIds rs
    → IsParents calls.parent_by_child
    → IsParents (add_call calls span service rs).parent_by_child
unfolding add_call
add_call-IsParents calls span service rs hs hr h =
    set_parents-IsParents rs calls.parent_by_child span hs hr h

abbrev pub IsCalls : Calls → Type 0
IsCalls calls = IsParents calls.parent_by_child

module _ (ids : Ids) (laws : IdLaws ids) {F : Type 0} where
  flux_references-bound : (o : Option (Cell F)) → Returns RefIds (flux_references ids o)
  unfolding flux_references
  flux_references-bound none = tt
  flux_references-bound (some cell) =
      bind-Returns RefIds (strings cell) _ λ s p. references_from_string-bound ids laws s

  flux_row-IsCalls :
      (calls : Calls) (row : Row F) → IsCalls calls → Returns IsCalls (flux_row ids calls row)
  unfolding flux_row
  flux_row-IsCalls calls row h =
      bind-Returns IsCalls (or_panic (last_column span_id_key row)) _ λ id_cell _.
        bind-Returns IsCalls (strings id_cell) _ λ id_text _.
          bind-Returns IsCalls (or_error bad_span_id (ids.span_id_from_string id_text)) _ λ id q.
            bind-Returns IsCalls (or_panic (last_column service_name_key row)) _ λ service_cell _.
              bind-Returns IsCalls (strings service_cell) _ λ service _.
                bind-Returns IsCalls (flux_references ids (last_column references_key row)) _
                  λ rs w.
                    add_call-IsParents calls id service rs
                      (laws.span_id_bound id_text (or_error-eq-ok bad_span_id _ id q))
                      (Returns-eq RefIds _ rs
                        (flux_references-bound (last_column references_key row)) w)
                      h

  flux_rows-IsCalls :
      (rows : List (Row F)) (calls : Calls)
      → IsCalls calls
      → Returns IsCalls (flux_rows ids calls rows)
  unfolding flux_rows
  flux_rows-IsCalls [] calls h = h
  flux_rows-IsCalls (row ∷ rows) calls h = bind-Returns IsCalls (flux_row ids calls row) _ λ next p.
      flux_rows-IsCalls rows next (Returns-eq IsCalls _ next (flux_row-IsCalls calls row h) p)

  pub flux_tables-IsCalls :
      (tables : List (Table F)) (calls : Calls)
      → IsCalls calls
      → Returns IsCalls (flux_tables ids calls tables)
  unfolding flux_tables
  flux_tables-IsCalls [] calls h = h
  flux_tables-IsCalls (table ∷ tables) calls h =
      bind-Returns IsCalls (flux_rows ids calls table.rows) _ λ read p.
        bind-Returns IsCalls (ended table.fault read) _ λ next q. flux_tables-IsCalls tables next (
          subst IsCalls (ended_eq table.fault q)
            (Returns-eq IsCalls _ read (flux_rows-IsCalls table.rows calls h) p))
