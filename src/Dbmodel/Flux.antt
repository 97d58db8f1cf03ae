-- ===== src/Dbmodel/Flux.antt =====
-- What dbmodel/to_domain_v2.go reads of a Flux query's result: a row as its columns with their
-- labels and cells, and the accessors of `flux.ColReader`, which panic at a column of another type.
pub mod Span
pub mod Logs
pub mod Traces
pub mod Rows
use jaeger_influxdb.Prelude.{
  ℕ, ◌%◌, ◌^◌, ◌-◌, Bool, true, false, List, [], ◌∷◌, Text, Option, none, some,
}
use jaeger_influxdb.Prelude.Int.{ℤ, pos, negsuc}
use jaeger_influxdb.Prelude.Outcome.{Outcome, ok, err, panic, Error}

-- `flux.ColType`
pub data ColType : Type 0 where
  t_bool t_int t_uint t_float t_string t_time t_other : ColType

-- A cell with its column's type; `other_cell` has a type that the code does not know.
pub data Cell (F : Type 0) : Type 0 where
  null_cell : ColType → Cell F
  bool_cell : Bool → Cell F
  int_cell : ℤ → Cell F
  uint_cell : ℕ → Cell F
  float_cell : F → Cell F
  string_cell : Text → Cell F
  time_cell : ℤ → Cell F
  other_cell : Cell F

pub record Column (F : Type 0) : Type 0 where
  pub label : Text
  pub cell : Cell F

abbrev pub Row : Type 0 → Type 0
Row F = List (Column F)

module _ {F : Type 0} where
  -- `reader.Strings(colI).ValueString(rowI)`, which is empty at a null.
  abbrev pub strings : Cell F → Outcome Text
  strings (string_cell s) = ok s
  strings (null_cell t_string) = ok []
  strings _ = panic

  -- `reader.Ints(colI).Value(rowI)`
  abbrev pub ints : Cell F → Outcome ℤ
  ints (int_cell n) = ok n
  ints (null_cell t_int) = ok (pos 0)
  ints _ = panic

  -- `reader.Times(colI).Value(rowI)`
  abbrev pub times : Cell F → Outcome ℤ
  times (time_cell n) = ok n
  times (null_cell t_time) = ok (pos 0)
  times _ = panic

  unfoldable pub is_null : Cell F → Outcome Bool
  is_null (null_cell t_other) = panic
  is_null other_cell = panic
  is_null (null_cell _) = ok true
  is_null _ = ok false

-- The conversions `int64(x)` of a `uint64` and `uint32(x)` of an `int64`.
abbrev pub u32 : ℤ → ℕ
u32 (pos n) = n % 4294967296
u32 (negsuc n) = 4294967295 - n % 4294967296

-- `multierror.Wrap`, of which the model keeps the first error.
abbrev pub wrap {ℓ} : {A : Type ℓ} → List Error → A → Outcome A
wrap [] a = ok a
wrap (e ∷ es) a = err e
