-- ===== src/Dbmodel/SpanTime/Laws.antt =====
-- What the timestamps of stored spans say of the spans.
use jaeger_influxdb.Prelude.{ℕ, suc, ◌+◌, ◌-◌, ◌*◌, ◌/◌, ◌%◌, ◌≤◌, ◌<◌, ◌≡◌, ◌≢◌, ◌↔◌, arith, ap}
use jaeger_influxdb.Prelude.Int.{
  pos, negsuc, two63, sub_ℕ, Int64, wrap64, wrap64-Int64, rem, ◌-ℤ◌, ◌+ℤ◌,
}
use jaeger_influxdb.Dbmodel.Model.{SpanId, Time}
use jaeger_influxdb.Dbmodel.SpanTime.{merge_time_and_span_id, remove_span_id_from_time}

-- A time from 1970 on whose stored form fits in an `int64`.
abbrev pub Storable : ℕ → Type 0
Storable t = t + 1000 ≤ two63

merge_parts :
    (t : ℕ) (span_id : SpanId)
    → Storable t
    → merge_time_and_span_id (pos t) span_id ≡ pos (t - t % 1000 + span_id % 997)
unfolding merge_time_and_span_id
merge_parts t span_id h = ground arith

remove_parts : (n : ℕ) → n < two63 → remove_span_id_from_time (pos n) ≡ pos (n - n % 1000)
unfolding remove_span_id_from_time
remove_parts n h = ground arith

-- From 1970 on, and up to a microsecond below the largest `int64`, reading back a stored timestamp
-- gives the time in whole microseconds, for every span ID.
pub remove_span_id_from_time-merge_time_and_span_id :
    (t : ℕ) (span_id : SpanId)
    → Storable t
    → remove_span_id_from_time (merge_time_and_span_id (pos t) span_id) ≡ pos (t - t % 1000)
remove_span_id_from_time-merge_time_and_span_id t span_id h =
    rw (merge_parts t span_id h, remove_parts (t - t % 1000 + span_id % 997) (omega arith))
      (ground arith)

pub merge_time_and_span_id-Int64 :
    (t : Time) (span_id : SpanId) → Int64 (merge_time_and_span_id t span_id)
unfolding merge_time_and_span_id
merge_time_and_span_id-Int64 t span_id =
    let n = wrap64 t in wrap64-Int64 (wrap64 (n -ℤ rem n 1000) +ℤ pos (span_id % 997))

pos_eq : {a b : ℕ} → pos a ≡ pos b → a ≡ b
pos_eq h = cc

-- From 1970 on, and up to a microsecond below the largest `int64`: two spans are stored at one
-- timestamp exactly when they start in the same microsecond and their IDs agree modulo 997.
pub merge_time_and_span_id_eq_iff :
    (t u : ℕ) (a b : SpanId)
    → Storable t
    → Storable u
    → (merge_time_and_span_id (pos t) a ≡ merge_time_and_span_id (pos u) b)
      ↔ ((t / 1000 ≡ u / 1000) × (a % 997 ≡ b % 997))
merge_time_and_span_id_eq_iff t u a b ht hu = (
  (λ e.
      let e' : t - t % 1000 + a % 997 ≡ u - u % 1000 + b % 997 =
        pos_eq (rw (merge_parts t a ht, merge_parts u b hu) at e) in
      omega arith),
  λ p. rw (merge_parts t a ht, merge_parts u b hu) (ground arith),
)

merge_before :
    (n : ℕ) (span_id : SpanId)
    → n < two63
    → n % 1000 ≡ 999
    → merge_time_and_span_id (negsuc n) span_id ≡ negsuc (n - span_id % 997)
unfolding merge_time_and_span_id
merge_before n span_id h e = ground arith

remove_before :
    (n : ℕ) → n < two63 → remove_span_id_from_time (negsuc n) ≡ sub_ℕ 0 (suc n - suc n % 1000)
unfolding remove_span_id_from_time
remove_before n h = ground arith

-- Before 1970 the stored time of a span whose ID is no multiple of 997 reads back a microsecond
-- late: a start of k + 1 microseconds before 1970, if its nanoseconds are an `int64`, is read back
-- as k microseconds before.
pub remove_span_id_from_time_before_1970 :
    (k : ℕ) (span_id : SpanId)
    → (k + 1) * 1000 ≤ two63
    → span_id % 997 ≢ 0
    → remove_span_id_from_time (merge_time_and_span_id (sub_ℕ 0 ((k + 1) * 1000)) span_id)
      ≡ sub_ℕ 0 (k * 1000)
remove_span_id_from_time_before_1970 k span_id h ne =
    let n : ℕ = (k + 1) * 1000 - 1 in
    let e : sub_ℕ 0 ((k + 1) * 1000) ≡ negsuc n = ground arith in
    rw
      (
        e,
        merge_before n span_id (omega arith) (omega arith),
        remove_before (n - span_id % 997) (omega arith),
      )
      (ap (sub_ℕ 0) (omega arith))
