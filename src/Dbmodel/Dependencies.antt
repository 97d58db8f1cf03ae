-- ===== src/Dbmodel/Dependencies.antt =====
-- DependencyLinksFromResultV1 and DependencyLinksFromResultV2 (dbmodel/to_domain_v1.go,
-- dbmodel/to_domain_v2.go): the calls between services. The two read their rows in their own way
-- and go on with the same text.
pub mod Parents
pub mod Links
pub mod Gathered
pub mod Result
use mathlib.Core.Option
use jaeger_influxdb.Prelude.{
  ℕ, suc, ◌+◌, ◌≡◌, Bool, true, false, List, [], ◌∷◌, ◌++◌, Option, none, some, Text, if◌then◌else◌,
}
use jaeger_influxdb.Prelude.Dict.{Dict, lookup, insert}
use jaeger_influxdb.Prelude.Eq.{ℕ_eq, Text_eq, text_eq}
use jaeger_influxdb.Prelude.Outcome.{
  Outcome, ok, err, panic, ◌>>=◌, or_error, or_panic, Error, bad_span_id,
}
use jaeger_influxdb.Common.{span_id_key, service_name_key, references_key}
use jaeger_influxdb.Dbmodel.Model.{
  SpanId, SpanRef, SpanRefType, child_of, follows_from, other_ref, Ids,
}
use jaeger_influxdb.Dbmodel.References.{references_from_string}
use jaeger_influxdb.Dbmodel.Flux.{Cell, Row, strings}
use jaeger_influxdb.Dbmodel.Flux.Traces.{Table, last_column, ended}

-- `model.DependencyLink`
pub record DependencyLink : Type 0 where
  pub parent : Text
  pub child : Text
  pub call_count : ℕ

-- `parentByChild` and `serviceNameBySpanID`
pub record Calls : Type 0 where
  pub parent_by_child : Dict SpanId SpanId
  pub service_name_by_span_id : Dict SpanId Text

abbrev pub no_calls : Calls
no_calls = record { parent_by_child = []; service_name_by_span_id = [] }

set_parent : Dict SpanId SpanId → SpanId → SpanRefType → SpanId → Dict SpanId SpanId
set_parent parents span child_of parent = insert span parent parents
set_parent parents span follows_from parent = parents
set_parent parents span (other_ref n) parent = parents

set_parents : Dict SpanId SpanId → SpanId → List SpanRef → Dict SpanId SpanId
unfolding set_parent
set_parents parents span [] = parents
set_parents parents span (r ∷ rs) =
    set_parents (set_parent parents span r.ref_type r.span_id) span rs

-- What one row adds: the service of its span, and the parents that its references name.
unfoldable pub add_call : Calls → SpanId → Text → List SpanRef → Calls
unfolding set_parents
add_call calls span service references = record {
  parent_by_child = set_parents calls.parent_by_child span references;
  service_name_by_span_id = insert span service calls.service_name_by_span_id;
}

-- A missing key of a map of strings is the empty string.
abbrev pub service_of : Calls → SpanId → Text
service_of calls span = Option.get_or (lookup span calls.service_name_by_span_id) []

module _ (ids : Ids) where
  open ids use {span_id_string, span_id_from_string}

  pub new_link : Calls → SpanId → SpanId → DependencyLink
  new_link calls child parent = record {
    parent = service_of calls parent;
    child = service_of calls child;
    call_count = 0;
  }

  -- The loop over `parentByChild`, in the order of the range, with the links by the joined IDs.
  pub count_calls :
      Calls → Dict Text DependencyLink → List (SpanId × SpanId) → Dict Text DependencyLink
  unfolding new_link
  count_calls calls links [] = links
  count_calls calls links ((child, parent) ∷ rest) =
      let k = span_id_string child ++ span_id_string parent in
      let dl = Option.get_or (lookup k links) (new_link calls child parent) in
      count_calls calls (insert k (record dl { call_count = dl.call_count + 1 }) links) rest

  -- The loop over the links, in the order of the range.
  pub cross_links : List (Text × DependencyLink) → List DependencyLink
  cross_links [] = []
  cross_links ((k, dl) ∷ rest) =
      if text_eq dl.parent dl.child then cross_links rest else dl ∷ cross_links rest

  -- The end of both functions; `range` and `range_links` give the orders of the two ranges.
  unfoldable pub dependency_links :
      (Dict SpanId SpanId → List (SpanId × SpanId))
      → (Dict Text DependencyLink → List (Text × DependencyLink))
      → Calls
      → List DependencyLink
  unfolding count_calls cross_links
  dependency_links range range_links calls =
      cross_links (range_links (count_calls calls [] (range calls.parent_by_child)))

  module _ {F : Type 0} where
    -- The references of a row of a Flux table: none where the table has no such column.
    flux_references : Option (Cell F) → Outcome (List SpanRef)
    flux_references none = ok []
    flux_references (some cell) = do s ← strings cell; references_from_string ids s

    -- A column that is missing has the index -1, at which the reader panics.
    flux_row : Calls → Row F → Outcome Calls
    unfolding flux_references
    flux_row calls row = do
      id_cell ← or_panic (last_column span_id_key row)
      id_text ← strings id_cell
      id ← or_error bad_span_id (span_id_from_string id_text)
      service_cell ← or_panic (last_column service_name_key row)
      service ← strings service_cell
      references ← flux_references (last_column references_key row)
      ok (add_call calls id service references)

    flux_rows : Calls → List (Row F) → Outcome Calls
    unfolding flux_row
    flux_rows calls [] = ok calls
    flux_rows calls (row ∷ rows) = do calls' ← flux_row calls row; flux_rows calls' rows

    pub flux_tables : Calls → List (Table F) → Outcome Calls
    unfolding flux_rows
    flux_tables calls [] = ok calls
    flux_tables calls (table ∷ tables) = do
      read ← flux_rows calls table.rows
      calls' ← ended table.fault read
      flux_tables calls' tables

    unfoldable pub dependency_links_from_result_v2 :
        (Dict SpanId SpanId → List (SpanId × SpanId))
        → (Dict Text DependencyLink → List (Text × DependencyLink))
        → List (Table F)
        → Outcome (List DependencyLink)
    unfolding flux_tables
    dependency_links_from_result_v2 range range_links tables = do
      calls ← flux_tables no_calls tables
      ok (dependency_links range range_links calls)
