-- ===== src/Tests/WriterRuns.antt =====
-- The theorems on the writer's loop and its cache at concrete runs.
use jaeger_influxdb.Prelude.{◌≡◌, refl, true, List, [], ◌∷◌, ◌++◌, Text, codes, arith, ℕ_discrete}
use jaeger_influxdb.Prelude.Dict.{lookup, insert}
use jaeger_influxdb.Prelude.Eq.{Text_eq, text_eq}
use jaeger_influxdb.Prelude.Int.{ℤ, pos, ◌+ℤ◌}
use jaeger_influxdb.Writer.Batch.{Event, point, timer, closed, new_batcher, batch_and_write}
use jaeger_influxdb.Writer.Batch.Flow.{
  IsOpen, IsValid, new_batcher-IsValid, points, gathered, batch_and_write-IsValid,
  batch_and_write-gathered,
}
use jaeger_influxdb.Writer.Batch.Closing.{Done, blank, batch_and_write-closed}
use jaeger_influxdb.Common.MetaCache.{
  new_writer_meta_cache, cache_key, is_expired, recheck, reading, locking, outside, Callers, update,
  returning, enter, read_expired, write, Reach, idle, later,
}
use jaeger_influxdb.Common.MetaCache.Throttle.{
  Sequential, Spaced, writes, Reach-Sequential, Reach-Spaced,
}

abbrev three_points : List Event
three_points = point (codes "a") ∷ point (codes "b") ∷ timer ∷ point (codes "c") ∷ []

three_points-IsOpen : IsOpen three_points
three_points-IsOpen = ((λ e. cc), ((λ e. cc), ((λ e. cc), ((λ e. cc), tt))))

batch_and_write-closed_example :
    Done
      (batch_and_write 2 (batch_and_write 2 new_batcher three_points) (closed ∷ closed ∷ []))
      (points three_points ++ blank (batch_and_write 2 new_batcher three_points))
batch_and_write-closed_example =
    batch_and_write-closed 2 three_points (omega arith) three_points-IsOpen

batch_and_write-gathered_example :
    gathered (batch_and_write 2 new_batcher three_points) ≡ codes "a" ∷ codes "b" ∷ codes "c" ∷ []
batch_and_write-gathered_example = batch_and_write-gathered 2 three_points three_points-IsOpen

batch_and_write-IsValid_example : IsValid 2 (batch_and_write 2 new_batcher three_points)
batch_and_write-IsValid_example =
    batch_and_write-IsValid 2 new_batcher three_points (new_batcher-IsValid 2 (omega arith))

abbrev cart : Text
cart = codes "cart"

abbrev get : Text
get = codes "get"

-- A caller is told to write at time 1, and again at time 9, with 5 as the greatest age.
abbrev start : Callers
start = record { cache = new_writer_meta_cache (pos 5); phase = λ _. outside; returned = [] }

abbrev in_call : Callers → ℤ → Callers
in_call s t = record s { phase = update s.phase 0 (reading cart get t) }

abbrev at_lock : Callers → ℤ → Callers
at_lock s t = record s { phase = update s.phase 0 (locking cart get t) }

abbrev told : Callers → ℤ → Callers
told s t = record (returning s 0 cart get t true) {
  cache = record s.cache { m = insert (cache_key cart get) (t +ℤ s.cache.max_age) s.cache.m };
}

abbrev once : Callers
once = told (at_lock (in_call start (pos 1)) (pos 1)) (pos 1)

abbrev twice : Callers
twice = told (at_lock (in_call once (pos 9)) (pos 9)) (pos 9)

-- One whole call under an expired or missing entry.
told-Reach :
    (s : Callers) (t : ℤ)
    → Reach (pos 5) s
    → s.phase 0 ≡ outside
    → is_expired (lookup (cache_key cart get) s.cache.m) t ≡ true
    → Reach (pos 5) (told (at_lock (in_call s t) t) t)
unfolding recheck ℕ_discrete
told-Reach s t r free e =
    later (later (later r (enter 0 cart get t free)) (read_expired 0 cart get t refl e))
      (write 0 cart get t refl (rw e refl))

twice-Reach : Reach (pos 5) twice
unfolding new_writer_meta_cache lookup insert ◌+ℤ◌ text_eq ℕ_discrete
twice-Reach = told-Reach once (pos 9) (told-Reach start (pos 1) idle refl refl) refl refl

Reach-Sequential_example : Sequential (pos 5) twice.returned twice.cache
Reach-Sequential_example = Reach-Sequential twice-Reach

Reach-Spaced_example : Spaced (pos 5) (writes (codes "cart-get") twice.returned)
Reach-Spaced_example = Reach-Spaced (codes "cart-get") twice-Reach
