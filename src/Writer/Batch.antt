-- ===== src/Writer/Batch.antt =====
-- The loop batchAndWrite, which the two writers have in the same text: a goroutine that takes
-- points from the channel writeCh, gathers them in a batch, and writes the batch when it is full,
-- when its timer fires, and when the channel is closed.
pub mod Closing
pub mod Flow
use jaeger_influxdb.Prelude.{
  ℕ, zero, suc, ◌<◌, Bool, true, false, not, ◌||◌, List, [], ◌∷◌, ◌++◌, Text, codes, length, ltb,
  nat_eq, if◌then◌else◌,
}

-- What the `select` yields: a point, the zero value of the closed channel, or the timer.
pub data Event : Type 0 where
  point : Text → Event
  closed : Event
  timer : Event

-- `armed` says that the timer channel is not nil; `written` holds the batches in the order of the
-- calls of `writeBatch`; `stopped` says that the loop has returned.
pub record Batcher : Type 0 where
  pub batch : List Text
  pub armed : Bool
  pub stopped : Bool
  pub written : List (List Text)

unfoldable pub new_batcher : Batcher
new_batcher = record { batch = []; armed = false; stopped = false; written = [] }

-- The body behind the test of `ok`: the timer is started, the point is appended, and a full batch
-- is written.
pub append_point : ℕ → Batcher → Text → Batcher
append_point capacity b p =
    let batch = b.batch ++ p ∷ [] in
    if nat_eq (length batch) capacity
    then record b { batch = []; armed = false; written = b.written ++ batch ∷ [] }
    else record b { batch = batch; armed = true }

-- A nil timer channel is never ready, so `timer` does nothing then. A closed channel yields the
-- empty string. The local variables are gone when the loop has returned.
pub batch_step : ℕ → Batcher → Event → Batcher
unfolding append_point
batch_step capacity b (point p) = if b.stopped then b else append_point capacity b p
batch_step capacity b closed =
    if b.stopped
    then b
    else if ltb 0 (length b.batch)
    then record b { batch = []; stopped = true; written = b.written ++ b.batch ∷ [] }
    else append_point capacity b []
batch_step capacity b timer =
    if b.stopped || not b.armed
    then b
    else record b { batch = []; armed = false; written = b.written ++ b.batch ∷ [] }

unfoldable pub batch_and_write : ℕ → Batcher → List Event → Batcher
unfolding batch_step
batch_and_write capacity b [] = b
batch_and_write capacity b (e ∷ es) = batch_and_write capacity (batch_step capacity b e) es

-- The text that `writeBatch` sends: each point on a line of its own.
unfoldable pub batch_text : List Text → Text
batch_text [] = []
batch_text (p ∷ batch) = p ++ b'\n' ∷ batch_text batch
