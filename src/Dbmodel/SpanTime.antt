-- ===== src/Dbmodel/SpanTime.antt =====
-- The span ID hashed into the unused digits of a timestamp (dbmodel/spanid.go).
pub mod Laws
use jaeger_influxdb.Prelude.{ℕ, ◌%◌}
use jaeger_influxdb.Prelude.Int.{ℤ, pos, ◌+ℤ◌, ◌-ℤ◌, wrap64, rem}
use jaeger_influxdb.Dbmodel.Model.{SpanId, Time}

-- `primeDenominator`.
abbrev pub prime_denominator : ℕ
prime_denominator = 997

-- `Time.UnixNano` wraps to an `int64`; the sums are `int64` sums.
unfoldable pub merge_time_and_span_id : Time → SpanId → Time
unfolding wrap64 ◌-ℤ◌ ◌+ℤ◌ rem
merge_time_and_span_id t span_id =
    let nanoseconds = wrap64 t in
    let whole = wrap64 (nanoseconds -ℤ rem nanoseconds 1000) in
    let span_suffix = pos (span_id % prime_denominator) in wrap64 (whole +ℤ span_suffix)

unfoldable pub remove_span_id_from_time : ℤ → Time
unfolding wrap64 ◌-ℤ◌ rem
remove_span_id_from_time t = wrap64 (t -ℤ rem t 1000)
