-- ===== src/Common/MetaCache.antt =====
-- WriterMetaCache of common/write_meta_cache.go. `should_write` is one call with no other call in
-- between; `Step` interleaves any number of callers at the boundaries of the locks.
pub mod Throttle
use jaeger_influxdb.Prelude.{
  ℕ, ◌≡◌, Bool, true, false, List, [], ◌∷◌, ◌++◌, Option, none, some, Text, if◌then◌else◌,
  ℕ_discrete,
}
use jaeger_influxdb.Prelude.Dict.{Dict, lookup, insert}
use jaeger_influxdb.Prelude.Eq.{Text_eq}
use jaeger_influxdb.Prelude.Int.{ℤ, ◌+ℤ◌, ltb_ℤ}
use jaeger_influxdb.Dbmodel.Model.{Time}
use mathlib.Core.Logic.{ite}

pub record WriterMetaCache : Type 0 where
  pub m : Dict Text Time
  pub max_age : ℤ

unfoldable pub new_writer_meta_cache : ℤ → WriterMetaCache
new_writer_meta_cache max_age = record { m = []; max_age = max_age }

abbrev pub cache_key : Text → Text → Text
cache_key service_name operation_name = service_name ++ b'-' ∷ operation_name

-- `!found || startTime.After(v)`
abbrev pub is_expired : Option Time → Time → Bool
is_expired none start_time = true
is_expired (some v) start_time = ltb_ℤ v start_time

-- The section under the write lock.
unfoldable pub recheck : WriterMetaCache → Text → Time → WriterMetaCache × Bool
recheck c k start_time =
    if is_expired (lookup k c.m) start_time
    then (record c { m = insert k (start_time +ℤ c.max_age) c.m }, true)
    else (c, false)

unfoldable pub should_write : WriterMetaCache → Text → Text → Time → WriterMetaCache × Bool
unfolding recheck
should_write c service_name operation_name start_time =
    let k = cache_key service_name operation_name in
    if is_expired (lookup k c.m) start_time then recheck c k start_time else (c, false)

-- Where a caller stands: outside, before the read lock, or before the write lock.
pub data Phase : Type 0 where
  outside : Phase
  reading : Text → Text → Time → Phase
  locking : Text → Text → Time → Phase

-- A call that has returned.
pub record Returned : Type 0 where
  pub service_name : Text
  pub operation_name : Text
  pub start_time : Time
  pub result : Bool

-- The callers by number, and the calls that have returned, the latest first.
pub record Callers : Type 0 where
  pub cache : WriterMetaCache
  pub phase : ℕ → Phase
  pub returned : List Returned

abbrev pub update : (ℕ → Phase) → ℕ → Phase → ℕ → Phase
update f i a j = ite (ℕ_discrete i j) a (f j)

abbrev pub returning : Callers → ℕ → Text → Text → Time → Bool → Callers
returning s i service operation start b = record s {
  phase = update s.phase i outside;
  returned =
      record { service_name = service; operation_name = operation; start_time = start; result = b }
      ∷ s.returned;
}

-- One step of one caller. The sections under the locks are atomic.
pub data Step (s : Callers) : Callers → Type 0 where
  enter :
      (i : ℕ) (service operation : Text) (start : Time)
      → s.phase i ≡ outside
      → Step s (record s { phase = update s.phase i (reading service operation start) })
  read_fresh :
      (i : ℕ) (service operation : Text) (start : Time)
      → s.phase i ≡ reading service operation start
      → is_expired (lookup (cache_key service operation) s.cache.m) start ≡ false
      → Step s (returning s i service operation start false)
  read_expired :
      (i : ℕ) (service operation : Text) (start : Time)
      → s.phase i ≡ reading service operation start
      → is_expired (lookup (cache_key service operation) s.cache.m) start ≡ true
      → Step s (record s { phase = update s.phase i (locking service operation start) })
  write :
      (i : ℕ) (service operation : Text) (start : Time) {c : WriterMetaCache} {b : Bool}
      → s.phase i ≡ locking service operation start
      → recheck s.cache (cache_key service operation) start ≡ (c, b)
      → Step s (record (returning s i service operation start b) { cache = c })

pub data Reach (max_age : ℤ) : Callers → Type 0 where
  idle :
      Reach max_age
        (record { cache = new_writer_meta_cache max_age; phase = λ _. outside; returned = [] })
  later : {s t : Callers} → Reach max_age s → Step s t → Reach max_age t
