-- ===== src/Dbmodel/Flux/Rows.antt =====
-- What the rows of a result hold.
use jaeger_influxdb.Prelude.{◌≡◌, refl, List, [], ◌∷◌, ◌++◌, Option, none, some, Text}
use jaeger_influxdb.Prelude.Outcome.{ok, Error}
use jaeger_influxdb.Dbmodel.Flux.{Cell, Row, strings}
use jaeger_influxdb.Dbmodel.Flux.Traces.{Table, last_column, ended}

-- The text in the last column of a row with the label.
abbrev pub TextAt : {F : Type 0} → Text → Row F → Text → Type 0
TextAt {F} label row s =
    (cell : Cell F) × (last_column label row ≡ some cell) × (strings cell ≡ ok s)

-- The rows of all tables, in order.
abbrev pub table_rows : {F : Type 0} → List (Table F) → List (Row F)
table_rows [] = []
table_rows (table ∷ tables) = table.rows ++ table_rows tables

pub no_fault : {A : Type 0} (a b : A) (fault : Option Error) → ended fault a ≡ ok b → fault ≡ none
no_fault a b none e = refl
no_fault a b (some x) e = cc
