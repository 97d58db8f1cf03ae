-- ===== src/Writer/Senders/InOrder.antt =====
-- The points of each caller reach the loop in their order, and none is lost.
use jaeger_influxdb.Prelude.{
  ℕ, ◌≡◌, refl, sym, ap, ◌∙◌, Bool, true, false, List, [], ◌∷◌, ◌++◌, map, Text, length, ltb, All,
  All-append, nat_eq, nat_eq_iff, append-nil, append_assoc, Bool-cases, inl, inr,
}
use jaeger_influxdb.Writer.Batch.{
  point, closed, timer, Batcher, new_batcher, append_point, batch_step,
}
use jaeger_influxdb.Writer.Batch.Flow.{
  concat, gathered, flush-gathered, append_point-gathered, append_point_runs, step_stopped,
  step_point, step_blank, step_last, step_idle, step_timer,
}
use jaeger_influxdb.Writer.Senders.{
  System, new_system, update, Step, call, send, send_closed, fire, close, take_closed, Reach, start,
  later,
}

abbrev pub keep_if : Bool → Text → List Text → List Text
keep_if true p ps = p ∷ ps
keep_if false p ps = ps

-- The points of one caller, in order.
abbrev pub points_of : ℕ → List (ℕ × Text) → List Text
points_of i [] = []
points_of i ((j, p) ∷ taken) = keep_if (nat_eq j i) p (points_of i taken)

keep_if-append :
    (b : Bool) (p : Text) (ps qs : List Text) → keep_if b p (ps ++ qs) ≡ keep_if b p ps ++ qs
keep_if-append true p ps qs = refl
keep_if-append false p ps qs = refl

points_of-append :
    (i : ℕ) (a b : List (ℕ × Text)) → points_of i (a ++ b) ≡ points_of i a ++ points_of i b
points_of-append i [] b = refl
points_of-append i ((j, p) ∷ a) b =
    ap (keep_if (nat_eq j i) p) (points_of-append i a b)
    ∙ keep_if-append (nat_eq j i) p (points_of i a) (points_of i b)

map-append_one :
    (a : List (ℕ × Text)) (i : ℕ) (p : Text)
    → map (λ e. e.1) (a ++ (i, p) ∷ []) ≡ map (λ e. e.1) a ++ p ∷ []
map-append_one [] i p = refl
map-append_one (x ∷ a) i p = ap (◌∷◌ x.1) (map-append_one a i p)

abbrev pub AllBlank : List Text → Type 0
AllBlank = All (λ p. p ≡ [])

-- What a step of the loop adds.
record Adds (b : Batcher) (ps : List Text) (c : Batcher) : Type 0 where
  more : gathered c ≡ gathered b ++ ps
  empty : c.stopped ≡ true → c.batch ≡ []

append_point-Adds :
    (capacity : ℕ) (b : Batcher) (p : Text)
    → b.stopped ≡ false
    → Adds b (p ∷ []) (append_point capacity b p)
append_point-Adds capacity b p s = record {
  more = append_point-gathered capacity b p;
  empty = λ x. let same = append_point_runs capacity b p in cc;
}

idle-Adds : (b : Batcher) → (b.stopped ≡ true → b.batch ≡ []) → Adds b [] b
idle-Adds b h = record { more = sym (append-nil (gathered b)); empty = h }

step_timer-Adds :
    (capacity : ℕ) (b : Batcher)
    → (b.stopped ≡ true → b.batch ≡ [])
    → Adds b [] (batch_step capacity b timer)
step_timer-Adds capacity b h = elim (Bool-cases b.stopped) [
  | inl s ↦ rw (step_stopped capacity b timer s) (idle-Adds b h)
  | inr s ↦ elim (Bool-cases b.armed) [
    | inl a ↦
        rw (step_timer capacity b s a)
          (record { more = ap (λ ps. ps ++ []) (flush-gathered b); empty = λ _. refl })
    | inr a ↦ rw (step_idle capacity b a) (idle-Adds b h)
  ]
]

step_closed-Adds :
    (capacity : ℕ) (b : Batcher)
    → (b.stopped ≡ true → b.batch ≡ [])
    → (ps : List Text) × AllBlank ps × Adds b ps (batch_step capacity b closed)
step_closed-Adds capacity b h = elim (Bool-cases b.stopped) [
  | inl s ↦ ([], tt, rw (step_stopped capacity b closed s) (idle-Adds b h))
  | inr s ↦ elim (Bool-cases (ltb 0 (length b.batch))) [
    | inl full ↦ (
      [],
      tt,
      rw (step_last capacity b s full)
          (record { more = ap (λ ps. ps ++ []) (flush-gathered b); empty = λ _. refl }),
    )
    | inr empty ↦ (
      [] ∷ [],
      (refl, tt),
      rw (step_blank capacity b s empty) (append_point-Adds capacity b [] s),
    )
  ]
]

timer_runs :
    (capacity : ℕ) (b : Batcher) → b.stopped ≡ false → (batch_step capacity b timer).stopped ≡ false
timer_runs capacity b s = elim (Bool-cases b.armed) [
  | inl a ↦ rw (step_timer capacity b s a) s
  | inr a ↦ rw (step_idle capacity b a) s
]

-- What the loop holds and has written are the points that it has taken, and behind them none but
-- empty points, and none while the channel is open.
record Kept (s : System) : Type 0 where
  runs : s.is_closed ≡ false → s.batcher.stopped ≡ false
  empty : s.batcher.stopped ≡ true → s.batcher.batch ≡ []
  blanks : List Text
  blank : AllBlank blanks
  open_none : s.is_closed ≡ false → blanks ≡ []
  holds : gathered s.batcher ≡ map (λ e. e.1) s.taken ++ blanks
  each : (i : ℕ) → points_of i s.taken ++ s.pending i ≡ s.given i

new_system-Kept : Kept new_system
unfolding new_system new_batcher
new_system-Kept = record {
  runs = λ _. refl;
  empty = λ x. refl;
  blanks = [];
  blank = tt;
  open_none = λ _. refl;
  holds = refl;
  each = λ i. refl;
}

call-each :
    (s : System) (i j : ℕ) (texts : List Text)
    → s.pending i ≡ []
    → points_of j s.taken ++ s.pending j ≡ s.given j
    → points_of j s.taken ++ update s.pending i texts j ≡ update s.given i (s.given i ++ texts) j
call-each s i j texts e h = elim (Bool-cases (nat_eq i j)) [
  | inl t ↦
      let same = (nat_eq_iff i j).0 t in
      let all_sent =
        sym (append-nil (points_of j s.taken))
        ∙ ap (◌++◌ (points_of j s.taken)) (sym (ap s.pending (sym same) ∙ e))
        ∙ h
        ∙ ap s.given (sym same) in
      rw t (ap (λ qs. qs ++ texts) all_sent)
  | inr f ↦ rw f h
]

send-each :
    (s : System) (i j : ℕ) (p : Text) (ps : List Text)
    → s.pending i ≡ p ∷ ps
    → points_of j s.taken ++ s.pending j ≡ s.given j
    → points_of j (s.taken ++ (i, p) ∷ []) ++ update s.pending i ps j ≡ s.given j
send-each s i j p ps e h =
    rw (points_of-append j s.taken ((i, p) ∷ []), append_assoc)
      (elim (Bool-cases (nat_eq i j)) [
        | inl t ↦ rw t (
            ap (◌++◌ (points_of j s.taken)) (sym (ap s.pending (sym ((nat_eq_iff i j).0 t)) ∙ e))
            ∙ h)
        | inr f ↦ rw f h
      ])

Step-Kept : {capacity : ℕ} {s t : System} → Kept s → Step capacity s t → Kept t
Step-Kept {capacity} {s} k (call i texts c e) = record {
  runs = k.runs;
  empty = k.empty;
  blanks = k.blanks;
  blank = k.blank;
  open_none = k.open_none;
  holds = k.holds;
  each = λ j. call-each s i j texts e (k.each j);
}
Step-Kept {capacity} {s} k (send i p ps c o e) =
    let runs = k.runs o in
    let adds : Adds s.batcher (p ∷ []) (batch_step capacity s.batcher (point p)) =
      rw (step_point capacity s.batcher p runs) (append_point-Adds capacity s.batcher p runs) in
    record {
      runs = λ _.
          rw (step_point capacity s.batcher p runs) (append_point_runs capacity s.batcher p ∙ runs);
      empty = adds.empty;
      blanks = [];
      blank = tt;
      open_none = λ _. refl;
      holds =
          adds.more
          ∙ ap (λ ps. ps ++ p ∷ [])
              (k.holds
                ∙ ap (◌++◌ (map (λ e. e.1) s.taken)) (k.open_none o)
                ∙ append-nil (map (λ e. e.1) s.taken))
          ∙ sym (map-append_one s.taken i p)
          ∙ sym (append-nil (map (λ e. e.1) (s.taken ++ (i, p) ∷ [])));
      each = λ j. send-each s i j p ps e (k.each j);
    }
Step-Kept k (send_closed i p ps c o e) = record {
  runs = k.runs;
  empty = k.empty;
  blanks = k.blanks;
  blank = k.blank;
  open_none = k.open_none;
  holds = k.holds;
  each = k.each;
}
Step-Kept {capacity} {s} k (fire c) =
    let adds = step_timer-Adds capacity s.batcher k.empty in
    record {
      runs = λ o. timer_runs capacity s.batcher (k.runs o);
      empty = adds.empty;
      blanks = k.blanks;
      blank = k.blank;
      open_none = k.open_none;
      holds = adds.more ∙ append-nil (gathered s.batcher) ∙ k.holds;
      each = k.each;
    }
Step-Kept k (close c o) = record {
  runs = λ x. cc;
  empty = k.empty;
  blanks = k.blanks;
  blank = k.blank;
  open_none = λ x. cc;
  holds = k.holds;
  each = k.each;
}
Step-Kept {capacity} {s} k (take_closed c o) =
    let (ps, blank, adds) = step_closed-Adds capacity s.batcher k.empty in
    record {
      runs = λ x. cc;
      empty = adds.empty;
      blanks = k.blanks ++ ps;
      blank = All-append _ k.blanks ps k.blank blank;
      open_none = λ x. cc;
      holds =
          adds.more
          ∙ ap (λ qs. qs ++ ps) k.holds
          ∙ append_assoc (map (λ e. e.1) s.taken) k.blanks ps;
      each = k.each;
    }

Reach-Kept : {capacity : ℕ} {s : System} → Reach capacity s → Kept s
Reach-Kept start = new_system-Kept
Reach-Kept (later h st) = Step-Kept (Reach-Kept h) st

-- The points that the loop has taken are held or written, in their order, behind them only empty
-- points that it has taken from the closed channel; and the points that each caller was given are
-- those that the loop has taken from it and those that it has still to send.
pub record InOrder (s : System) : Type 0 where
  pub blanks : List Text
  pub blank : AllBlank blanks
  pub open_none : s.is_closed ≡ false → blanks ≡ []
  pub holds : gathered s.batcher ≡ map (λ e. e.1) s.taken ++ blanks
  pub written :
      s.batcher.stopped ≡ true → concat s.batcher.written ≡ map (λ e. e.1) s.taken ++ blanks
  pub each : (i : ℕ) → points_of i s.taken ++ s.pending i ≡ s.given i

-- However the callers of WriteSpan, the loop, its timer and Close are interleaved, also where a
-- caller sends on the closed channel and the program ends: the points of each caller are taken in
-- its order, and all but those that it has still to send; the loop holds or has written what it has
-- taken, in order and once, with only empty points behind, and none of these while the channel is
-- open. When it has returned, all has been written.
pub Reach-InOrder : {capacity : ℕ} {s : System} → Reach capacity s → InOrder s
Reach-InOrder {capacity} {s} h =
    let k = Reach-Kept h in
    record {
      blanks = k.blanks;
      blank = k.blank;
      open_none = k.open_none;
      holds = k.holds;
      written = λ done.
          sym (append-nil (concat s.batcher.written))
          ∙ ap (◌++◌ (concat s.batcher.written)) (sym (k.empty done))
          ∙ k.holds;
      each = k.each;
    }
