-- ===== src/Influx2http/Buckets/Retention.antt =====
-- The retention period of a bucket.
use jaeger_influxdb.Prelude.{zero, suc, ◌*◌, ◌+◌, ◌≤◌, ◌≡◌, refl, List, ◌∷◌, arith}
use jaeger_influxdb.Prelude.Int.{ℤ, pos, negsuc, wrap64}
use jaeger_influxdb.Prelude.Outcome.{Outcome, ok, err, ◌>>=◌, unprocessable}
use jaeger_influxdb.Influx2http.Buckets.{
  RetentionRule, BucketJson, bucket_with, retention, to_influxdb,
}

-- The seconds whose nanoseconds are an `int64`.
abbrev pub InSeconds : ℤ → Type 0
InSeconds (pos n) = n ≤ 9223372036
InSeconds (negsuc n) = n + 1 ≤ 9223372036

-- What a rule of so many seconds gives.
abbrev pub kept_for : ℤ → Outcome ℤ
kept_for (pos zero) = err unprocessable
kept_for (pos (suc n)) = ok (pos (suc n * 1000000000))
kept_for (negsuc n) = err unprocessable

retention_lem :
    (r : RetentionRule) (rs : List RetentionRule) (e : ℤ)
    → r.every_seconds ≡ e
    → InSeconds e
    → retention (r ∷ rs) ≡ kept_for e
unfolding retention wrap64
retention_lem r rs (pos zero) e h = rw e refl
retention_lem r rs (pos (suc n)) e h = rw e (ground arith)
retention_lem r rs (negsuc n) e h = rw e (ground arith)

-- While the nanoseconds of the first rule fit in an `int64`, a bucket is accepted exactly if the
-- rule has at least one second, and keeps its data for exactly these seconds; the other rules do
-- not matter, and everything else of the bucket is passed on.
pub to_influxdb_lem :
    (b : BucketJson) (r : RetentionRule) (rs : List RetentionRule)
    → b.retention_rules ≡ r ∷ rs
    → InSeconds r.every_seconds
    → to_influxdb b ≡ (kept_for r.every_seconds >>= λ d. ok (bucket_with b d))
unfolding to_influxdb
to_influxdb_lem b r rs e h = rw (e, retention_lem r rs r.every_seconds refl h) refl
