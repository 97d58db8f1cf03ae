-- ===== src/Writer/Batch/Flow.antt =====
-- No point is lost, repeated or moved, and the loop ends.
use jaeger_influxdb.Prelude.{
  ℕ, ◌≤◌, ◌<◌, ◌≡◌, ◌≢◌, refl, true, false, List, [], ◌∷◌, ◌++◌, Text, length, length-append, ltb,
  nat_eq, arith, All, All-append, append_assoc, append-nil, ◌∙◌, Bool-cases, inl, inr, ap, ltb→lt,
  sym,
}
use jaeger_influxdb.Writer.Batch.{
  Event, point, closed, timer, Batcher, new_batcher, append_point, batch_step, batch_and_write,
}

-- The points of all written batches, in order, and behind them the points in hand.
abbrev pub concat : List (List Text) → List Text
concat [] = []
concat (b ∷ bs) = b ++ concat bs

concat-append : (a b : List (List Text)) → concat (a ++ b) ≡ concat a ++ concat b
concat-append [] b = refl
concat-append (x ∷ a) b = simp (concat-append a, append_assoc)

abbrev pub gathered : Batcher → List Text
gathered b = concat b.written ++ b.batch

-- A batch that can be written: it holds a point, and no more than fit.
abbrev pub Fits : ℕ → List Text → Type 0
Fits capacity batch = (0 < length batch) × (length batch ≤ capacity)

pub record IsValid (capacity : ℕ) (b : Batcher) : Type 0 where
  pub room : length b.batch < capacity
  pub timed : b.stopped ≡ false → b.armed ≡ ltb 0 (length b.batch)
  pub fit : All (Fits capacity) b.written

pub new_batcher-IsValid : (capacity : ℕ) → 0 < capacity → IsValid capacity new_batcher
unfolding new_batcher
new_batcher-IsValid capacity h = record { room = h; timed = λ _. refl; fit = tt }

Fits-append :
    (capacity : ℕ) (bs : List (List Text)) (b : List Text)
    → All (Fits capacity) bs
    → Fits capacity b
    → All (Fits capacity) (bs ++ b ∷ [])
Fits-append capacity bs b hs h = All-append (Fits capacity) bs (b ∷ []) hs (h, tt)

append_point-IsValid :
    (capacity : ℕ) (b : Batcher) (p : Text)
    → IsValid capacity b
    → IsValid capacity (append_point capacity b p)
unfolding append_point
append_point-IsValid capacity b p v =
    let l = length-append b.batch (p ∷ []) in
    elim (Bool-cases (nat_eq (length (b.batch ++ p ∷ [])) capacity)) [
      | inl full ↦ rw full (record {
        room = omega (arith, v.room);
        timed = λ _. refl;
        fit =
            Fits-append capacity b.written (b.batch ++ p ∷ []) v.fit
              (ground (arith, l), ground (arith, l));
      })
      | inr less ↦
          rw less (record {
            room = ground (arith, l, v.room);
            timed = λ _. ground (arith, l);
            fit = v.fit;
          })
    ]

written-fit :
    (capacity : ℕ) (b : Batcher)
    → IsValid capacity b
    → 0 < length b.batch
    → All (Fits capacity) (b.written ++ b.batch ∷ [])
written-fit capacity b v h = Fits-append capacity b.written b.batch v.fit (h, omega (arith, v.room))

-- The equations of a step, one for each branch.
module _ (capacity : ℕ) (b : Batcher) where
  pub step_stopped : (e : Event) → b.stopped ≡ true → batch_step capacity b e ≡ b
  unfolding batch_step
  step_stopped (point p) s = simp s
  step_stopped closed s = simp s
  step_stopped timer s = simp s

  pub step_point :
      (p : Text) → b.stopped ≡ false → batch_step capacity b (point p) ≡ append_point capacity b p
  unfolding batch_step
  step_point p s = simp s

  pub step_blank :
      b.stopped ≡ false
      → ltb 0 (length b.batch) ≡ false
      → batch_step capacity b closed ≡ append_point capacity b []
  unfolding batch_step
  step_blank s e = simp (s, e)

  pub step_last :
      b.stopped ≡ false
      → ltb 0 (length b.batch) ≡ true
      → batch_step capacity b closed
        ≡ record b { batch = []; stopped = true; written = b.written ++ b.batch ∷ [] }
  unfolding batch_step
  step_last s e = simp (s, e)

  pub step_idle : b.armed ≡ false → batch_step capacity b timer ≡ b
  unfolding batch_step
  step_idle a = elim (Bool-cases b.stopped) [ inl s ↦ simp s | inr s ↦ simp (s, a) ]

  pub step_timer :
      b.stopped ≡ false
      → b.armed ≡ true
      → batch_step capacity b timer
        ≡ record b { batch = []; armed = false; written = b.written ++ b.batch ∷ [] }
  unfolding batch_step
  step_timer s a = simp (s, a)

batch_step-IsValid :
    (capacity : ℕ) (b : Batcher) (e : Event)
    → IsValid capacity b
    → b.stopped ≡ false
    → IsValid capacity (batch_step capacity b e)
batch_step-IsValid capacity b (point p) v s =
    rw (step_point capacity b p s) (append_point-IsValid capacity b p v)
batch_step-IsValid capacity b closed v s = elim (Bool-cases (ltb 0 (length b.batch))) [
  | inl full ↦ rw (step_last capacity b s full) (record {
    room = omega (arith, v.room);
    timed = λ x. cc;
    fit = written-fit capacity b v (ltb→lt 0 _ full);
  })
  | inr empty ↦ rw (step_blank capacity b s empty) (append_point-IsValid capacity b [] v)
]
batch_step-IsValid capacity b timer v s = elim (Bool-cases b.armed) [
  | inl a ↦ rw (step_timer capacity b s a) (record {
    room = omega (arith, v.room);
    timed = λ _. refl;
    fit = written-fit capacity b v (ltb→lt 0 _ (sym (v.timed s) ∙ a));
  })
  | inr a ↦ rw (step_idle capacity b a) v
]

-- However points, the closing of the channel and the timer follow one another on a valid loop, it
-- stays valid: the batch in hand has room, until the loop returns the timer runs exactly while it
-- holds a point, and every batch that is written holds at least one point and at most as many as
-- fit.
pub batch_and_write-IsValid :
    (capacity : ℕ) (b : Batcher) (es : List Event)
    → IsValid capacity b
    → IsValid capacity (batch_and_write capacity b es)
unfolding batch_and_write
batch_and_write-IsValid capacity b [] v = v
batch_and_write-IsValid capacity b (e ∷ es) v =
    batch_and_write-IsValid capacity (batch_step capacity b e) es (elim (Bool-cases b.stopped) [
      | inl s ↦ rw (step_stopped capacity b e s) v
      | inr s ↦ batch_step-IsValid capacity b e v s
    ])

-- The points that the events bring.
abbrev pub points : List Event → List Text
points [] = []
points (point p ∷ es) = p ∷ points es
points (_ ∷ es) = points es

-- The channel is not closed yet.
abbrev pub IsOpen : List Event → Type 0
IsOpen = All (λ e. e ≢ closed)

pub append_point-gathered :
    (capacity : ℕ) (b : Batcher) (p : Text)
    → gathered (append_point capacity b p) ≡ gathered b ++ p ∷ []
unfolding append_point
append_point-gathered capacity b p =
    elim (Bool-cases (nat_eq (length (b.batch ++ p ∷ [])) capacity)) [
      | inl full ↦ rw full (simp (concat-append, append_assoc, append-nil))
      | inr less ↦ rw less (simp append_assoc)
    ]

pub flush-gathered : (b : Batcher) → concat (b.written ++ b.batch ∷ []) ≡ gathered b
flush-gathered b = simp (concat-append, append-nil)

pub append_point_runs :
    (capacity : ℕ) (b : Batcher) (p : Text) → (append_point capacity b p).stopped ≡ b.stopped
unfolding append_point
append_point_runs capacity b p = ground arith

-- While the channel is open the loop runs on, and holds or has written all points so far.
pub record Running (b : Batcher) (ps : List Text) : Type 0 where
  pub runs : b.stopped ≡ false
  pub holds : gathered b ≡ ps

Running-timer :
    (capacity : ℕ) (b : Batcher) (ps : List Text)
    → Running b ps
    → Running (batch_step capacity b timer) ps
Running-timer capacity b ps r = elim (Bool-cases b.armed) [
  | inl a ↦
      rw (step_timer capacity b r.runs a)
        (record { runs = r.runs; holds = append-nil _ ∙ flush-gathered b ∙ r.holds })
  | inr a ↦ rw (step_idle capacity b a) r
]

pub Running-point :
    (capacity : ℕ) (b : Batcher) (p : Text) (ps : List Text)
    → Running b ps
    → Running (append_point capacity b p) (ps ++ p ∷ [])
Running-point capacity b p ps r = record {
  runs = append_point_runs capacity b p ∙ r.runs;
  holds = append_point-gathered capacity b p ∙ ap (λ qs. qs ++ p ∷ []) r.holds;
}

pub Running-open :
    (capacity : ℕ) (b : Batcher) (es : List Event) (ps : List Text)
    → IsOpen es
    → Running b ps
    → Running (batch_and_write capacity b es) (ps ++ points es)
unfolding batch_and_write
Running-open capacity b [] ps _ r = rw append-nil r
Running-open capacity b (point p ∷ es) ps (_, h) r =
    rw (step_point capacity b p r.runs, ← append_assoc ps (p ∷ []) (points es))
      (Running-open capacity (append_point capacity b p) es (ps ++ p ∷ []) h
        (Running-point capacity b p ps r))
Running-open capacity b (closed ∷ es) ps (h, _) r = absurd (h refl)
Running-open capacity b (timer ∷ es) ps (_, h) r =
    Running-open capacity (batch_step capacity b timer) es ps h (Running-timer capacity b ps r)

-- On a new loop and while the channel is open, the written batches and the batch in hand hold
-- exactly the points that were received, in their order.
pub batch_and_write-gathered :
    (capacity : ℕ) (es : List Event)
    → IsOpen es
    → gathered (batch_and_write capacity new_batcher es) ≡ points es
batch_and_write-gathered capacity es h =
    (Running-open capacity new_batcher es [] h
      (unfold new_batcher in record { runs = refl; holds = refl })).holds
