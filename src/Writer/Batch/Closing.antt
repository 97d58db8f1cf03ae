-- ===== src/Writer/Batch/Closing.antt =====
-- The shutdown of the loop: what Close leads to.
use jaeger_influxdb.Prelude.{
  ℕ, ◌≤◌, ◌≡◌, refl, true, false, List, [], ◌∷◌, ◌++◌, Text, length, length-append, ltb,
  if◌then◌else◌, arith, append-nil, ◌∙◌, Bool-cases, inl, inr,
}
use jaeger_influxdb.Writer.Batch.{
  Event, closed, Batcher, new_batcher, append_point, batch_step, batch_and_write,
}
use jaeger_influxdb.Writer.Batch.Flow.{
  concat, points, IsOpen, Running, Running-open, Running-point, flush-gathered, step_last,
  step_blank, step_stopped,
}

-- The empty point that the loop takes from a closed channel when it holds no point.
abbrev pub blank : Batcher → List Text
blank b = if ltb 0 (length b.batch) then [] else [] ∷ []

-- The loop has returned, and has written these points.
pub record Done (b : Batcher) (ps : List Text) : Type 0 where
  pub returned : b.stopped ≡ true
  pub wrote : concat b.written ≡ ps

Done-last :
    (capacity : ℕ) (b : Batcher) (ps : List Text)
    → Running b ps
    → ltb 0 (length b.batch) ≡ true
    → Done (batch_step capacity b closed) ps
Done-last capacity b ps r full =
    rw (step_last capacity b r.runs full)
      (record { returned = refl; wrote = flush-gathered b ∙ r.holds })

append_point_holds :
    (capacity : ℕ) (b : Batcher) (p : Text)
    → 2 ≤ capacity
    → ltb 0 (length b.batch) ≡ false
    → ltb 0 (length (append_point capacity b p).batch) ≡ true
unfolding append_point
append_point_holds capacity b p h e = ground (arith, length-append b.batch (p ∷ []))

two_rounds :
    (capacity : ℕ) (b : Batcher)
    → batch_and_write capacity b (closed ∷ closed ∷ [])
      ≡ batch_step capacity (batch_step capacity b closed) closed
unfolding batch_and_write
two_rounds capacity b = refl

Done-closed :
    (capacity : ℕ) (b : Batcher) (ps : List Text)
    → 2 ≤ capacity
    → Running b ps
    → Done (batch_and_write capacity b (closed ∷ closed ∷ [])) (ps ++ blank b)
Done-closed capacity b ps h r = elim (Bool-cases (ltb 0 (length b.batch))) [
  | inl full ↦
      let d = Done-last capacity b ps r full in
      rw
        (
          two_rounds,
          full,
          append-nil,
          step_stopped capacity (batch_step capacity b closed) closed d.returned,
        )
        d
  | inr empty ↦
      rw (two_rounds, empty, step_blank capacity b r.runs empty)
        (Done-last capacity (append_point capacity b []) (ps ++ [] ∷ [])
          (Running-point capacity b [] ps r) (append_point_holds capacity b [] h empty))
]

-- With room for two points or more in a batch, closing the channel ends the loop within two rounds,
-- after any points and timers on a new loop. Every point received has then been written, in order
-- and once; where the loop held no point when the channel was closed, one empty point is written
-- behind them.
pub batch_and_write-closed :
    (capacity : ℕ) (es : List Event)
    → 2 ≤ capacity
    → IsOpen es
    → Done
        (batch_and_write capacity (batch_and_write capacity new_batcher es) (closed ∷ closed ∷ []))
        (points es ++ blank (batch_and_write capacity new_batcher es))
batch_and_write-closed capacity es h open_es =
    Done-closed capacity (batch_and_write capacity new_batcher es) (points es) h (
      Running-open capacity new_batcher es [] open_es
        (unfold new_batcher in record { runs = refl; holds = refl }))
