-- ===== src/Prelude/Outcome.antt =====
-- What a Go call does: it returns a value, returns an error, or panics.
use mathlib.Core.Path.{◌≡◌, refl, subst}
use mathlib.Core.Option.{Option, none, some}
use mathlib.Core.Bool.{Bool, true, false}

-- The errors that the code makes, one constructor for each place that makes one.
pub data Error : Type 0 where
  invalid_reference unknown_reference_type bad_span_id bad_trace_id : Error
  bad_kv_value bad_bool_value bad_int_value bad_float_value bad_binary_value bad_kv_type : Error
  bad_prefix bad_base64 unknown_value_type : Error
  no_timestamp no_trace_id no_span_id : Error
  no_measurement unknown_measurement no_column : Error
  no_time bad_time no_service_name no_operation_name bad_number unsupported_type : Error
  point_error meta_point_error response_error query_error trace_not_found : Error
  bad_url bad_request bad_transport bad_status bad_body server_error : Error
  invalid_precision unprocessable not_found no_filter bad_encoding : Error
  no_query spec_and_extern unknown_type bad_comment bad_delimiter bad_annotation : Error
  bad_date_format unsupported_compiler unsupported_dialect parse_error missing_flags : Error
  client_error config_error : Error

pub data Outcome {ℓ} (A : Type ℓ) : Type ℓ where
  ok : A → Outcome A
  err : Error → Outcome A
  panic : Outcome A

infixl 5 ◌>>=◌ ◌>>◌
abbrev pub ◌>>=◌ {ℓ κ} : {A : Type ℓ} {B : Type κ} → Outcome A → (A → Outcome B) → Outcome B
ok a >>= next = next a
err e >>= next = err e
panic >>= next = panic

abbrev pub ◌>>◌ {ℓ} : {B : Type ℓ} → Outcome (Unit {0}) → Outcome B → Outcome B
call >> next = call >>= λ done. next

abbrev pub guard : Bool → Error → Outcome (Unit {0})
guard false otherwise = err otherwise
guard true otherwise = ok tt

-- An optional result, with the error to return where there is none.
abbrev pub or_error {ℓ} : {A : Type ℓ} → Error → Option A → Outcome A
or_error e none = err e
or_error e (some a) = ok a

-- A checked access, such as an index or a dereference, which panics where there is no value.
abbrev pub or_panic {ℓ} : {A : Type ℓ} → Option A → Outcome A
or_panic none = panic
or_panic (some a) = ok a

-- Inversion of a successful bind, for proofs where the parts stay shut.
pub >>=-eq-ok {ℓ κ} :
    {A : Type ℓ} {B : Type κ} (call : Outcome A) (next : A → Outcome B) {b : B}
    → (call >>= next) ≡ ok b
    → (a : A) × (call ≡ ok a) × (next a ≡ ok b)
>>=-eq-ok (err x) next same = cc
>>=-eq-ok panic next same = cc
>>=-eq-ok (ok a) next same = (a, refl, same)

pub ok_eq {ℓ} : {A : Type ℓ} {a b : A} → ok a ≡ ok b → a ≡ b
ok_eq h = cc

-- A property of the value that is returned, if one is.
abbrev pub Returns {ℓ κ} : {A : Type ℓ} → (A → Type κ) → Outcome A → Type κ
Returns P (ok a) = P a
Returns P (err e) = Unit
Returns P panic = Unit

module _ {ℓ κ ρ} {A : Type ℓ} {B : Type κ} (P : B → Type ρ) where
  pub bind-Returns :
      (m : Outcome A) (f : A → Outcome B)
      → ((a : A) → m ≡ ok a → Returns P (f a))
      → Returns P (m >>= f)
  bind-Returns (ok a) f h = h a refl
  bind-Returns (err e) f h = tt
  bind-Returns panic f h = tt

module _ {ℓ κ} {A : Type ℓ} (P : A → Type κ) where
  pub Returns-eq : (m : Outcome A) (a : A) → Returns P m → m ≡ ok a → P a
  Returns-eq (ok b) a h e = subst P (ok_eq e) h
  Returns-eq (err x) a h e = cc
  Returns-eq panic a h e = cc

pub or_panic-eq-ok {ℓ} : {A : Type ℓ} (o : Option A) (a : A) → or_panic o ≡ ok a → o ≡ some a
or_panic-eq-ok none a h = cc
or_panic-eq-ok (some b) a h = cc

pub or_error-eq-ok {ℓ} :
    {A : Type ℓ} (e : Error) (o : Option A) (a : A) → or_error e o ≡ ok a → o ≡ some a
or_error-eq-ok e none a h = cc
or_error-eq-ok e (some b) a h = cc

-- No panic.
abbrev pub IsCalm {ℓ} : {A : Type ℓ} → Outcome A → Type 0
IsCalm (ok a) = Unit
IsCalm (err e) = Unit
IsCalm panic = ⊥

pub bind-IsCalm {ℓ κ} :
    {A : Type ℓ} {B : Type κ} (m : Outcome A) (f : A → Outcome B)
    → IsCalm m
    → ((a : A) → IsCalm (f a))
    → IsCalm (m >>= f)
bind-IsCalm (ok a) f h k = k a
bind-IsCalm (err e) f h k = tt
bind-IsCalm panic f h k = h

pub guard-IsCalm : (b : Bool) (e : Error) → IsCalm (guard b e)
guard-IsCalm false e = tt
guard-IsCalm true e = tt

pub or_error-IsCalm {ℓ} : {A : Type ℓ} (e : Error) (o : Option A) → IsCalm (or_error e o)
or_error-IsCalm e none = tt
or_error-IsCalm e (some a) = tt
