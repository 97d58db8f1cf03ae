-- ===== src/Reader/InfluxQl/Concurrent/Undisturbed.antt =====
-- Whatever the order of the steps, FindTraces returns what it would return if its two queries were
-- made one after the other, and it ends.
use mathlib.Core.Path.{subst}
use jaeger_influxdb.Prelude.{
  ℕ, ◌+◌, ◌≤◌, ◌<◌, ◌≡◌, refl, ◌∙◌, true, false, List, Option, none, Text, arith, ◌⊎◌, inl, inr,
  Bool-cases, if◌then◌else◌,
}
use jaeger_influxdb.Prelude.Dict.{Dict}
use jaeger_influxdb.Prelude.Outcome.{Outcome, ok, err, panic, Error, ◌>>=◌}
use jaeger_influxdb.Dbmodel.Model.{TraceId, Time, Floats, Ids}
use jaeger_influxdb.Dbmodel.Flux.Traces.{Trace}
use jaeger_influxdb.Dbmodel.InfluxQl.{Value, Result}
use jaeger_influxdb.Reader.InfluxQl.{Reader, Query, Reply, ask_traces, ask_logs, traces_of}
use jaeger_influxdb.Reader.InfluxQl.Concurrent.{
  Task, querying, reading, finished, Caller, asking, waiting, returned, Find, new_find, read_done,
  query_done, logs_done, wait_done, read, append, Step, query_traces, read_results, query_logs,
  wait, Reach, start, later,
}

module _ {F : Type 0} (floats : Floats F) (ids : Ids) (parse_time : Text → Option Time)
    (json_float : Text → F) (range : List Value → Dict ℕ Text → List (ℕ × Text))
    (run : Query → Reply) (r : Reader) (trace_ids : List TraceId) where
  abbrev asked : Outcome (List Result)
  asked = ask_traces ids run r trace_ids

  abbrev logs_asked : Outcome (List Result)
  logs_asked = ask_logs ids run r trace_ids

  abbrev read_one : List Result → Outcome (List (Trace F))
  read_one = read floats ids parse_time json_float range run r trace_ids

  abbrev append_to : List Result → List (Trace F) → Outcome (List (Trace F))
  append_to = append floats ids parse_time json_float range run r trace_ids

  -- The goroutine without the caller.
  abbrev pub traces_read : Outcome (List (Trace F))
  traces_read = asked >>= read_one

  -- FindTraces behind the trace IDs, its queries one after the other.
  abbrev pub undisturbed : Outcome (List (Trace F))
  undisturbed = traces_of floats ids parse_time json_float range run r trace_ids

  -- What the goroutine has done so far.
  abbrev TaskHolds : Task → List (Trace F) → Option Error → Type 0
  TaskHolds querying traces e = e ≡ none
  TaskHolds (reading results) traces e = (e ≡ none) × (asked ≡ ok results)
  TaskHolds finished traces e =
      (logs : List Result) → wait_done (append_to logs) traces e ≡ (traces_read >>= append_to logs)

  abbrev CallerHolds : Caller F → Type 0
  CallerHolds asking = Unit
  CallerHolds (waiting logs) = logs_asked ≡ ok logs
  CallerHolds (returned o) = o ≡ undisturbed

  record Kept (s : Find F) : Type 0 where
    task : s.crashed ≡ false → TaskHolds s.task s.traces s.traces_err
    caller : CallerHolds s.caller
    crash : s.crashed ≡ true → traces_read ≡ panic

  abbrev StepOf : Find F → Find F → Type 0
  StepOf = Step floats ids parse_time json_float range run r trace_ids

  new_find-Kept : Kept new_find
  unfolding new_find
  new_find-Kept = record { task = λ _. refl; caller = tt; crash = λ e. cc }

  task_at :
      {s : Find F} {t : Task}
      → Kept s
      → s.crashed ≡ false
      → s.task ≡ t
      → TaskHolds t s.traces s.traces_err
  task_at {s} k c e = subst (λ t. TaskHolds t s.traces s.traces_err) e (k.task c)

  query_done-Kept :
      (s : Find F) (o : Outcome (List Result))
      → Kept s
      → s.crashed ≡ false
      → s.task ≡ querying
      → asked ≡ o
      → Kept (query_done s o)
  unfolding query_done wait_done
  query_done-Kept s (ok results) k c t e = record {
    task = λ _. (task_at k c t, e);
    caller = k.caller;
    crash = k.crash;
  }
  query_done-Kept s (err x) k c t e = record {
    task = λ _ logs. rw e refl;
    caller = k.caller;
    crash = k.crash;
  }
  query_done-Kept s panic k c t e = record {
    task = λ x. cc;
    caller = k.caller;
    crash = λ _. rw e refl;
  }

  read_done-Kept :
      (s : Find F) (results : List Result) (o : Outcome (List (Trace F)))
      → Kept s
      → s.crashed ≡ false
      → s.task ≡ reading results
      → read_one results ≡ o
      → Kept (read_done s o)
  unfolding read_done wait_done
  read_done-Kept s results (ok traces) k c t e =
      let (no_err, a) = task_at k c t in
      record { task = λ _ logs. rw (no_err, a, e) refl; caller = k.caller; crash = k.crash }
  read_done-Kept s results (err x) k c t e =
      let (no_err, a) = task_at k c t in
      record { task = λ _ logs. rw (a, e) refl; caller = k.caller; crash = k.crash }
  read_done-Kept s results panic k c t e =
      let (no_err, a) = task_at k c t in
      record { task = λ x. cc; caller = k.caller; crash = λ _. rw (a, e) refl }

  logs_done-Holds : (o : Outcome (List Result)) → logs_asked ≡ o → CallerHolds (logs_done o)
  unfolding logs_done traces_of
  logs_done-Holds (ok logs) e = e
  logs_done-Holds (err x) e = rw e refl
  logs_done-Holds panic e = rw e refl

  bind_assoc {ℓ} :
      {A B : Type ℓ} (o : Outcome (List Result)) (f : List Result → Outcome A) (g : A → Outcome B)
      → ((o >>= f) >>= g) ≡ (o >>= λ x. f x >>= g)
  bind_assoc (ok x) f g = refl
  bind_assoc (err e) f g = refl
  bind_assoc panic f g = refl

  wait-Holds :
      (logs : List Result) → logs_asked ≡ ok logs → (traces_read >>= append_to logs) ≡ undisturbed
  unfolding traces_of
  wait-Holds logs e = rw e (bind_assoc asked read_one (append_to logs))

  Step-Kept : {s t : Find F} → Kept s → StepOf s t → Kept t
  Step-Kept {s} k (query_traces c t) = query_done-Kept s asked k c t refl
  Step-Kept {s} k (read_results results c t) = read_done-Kept s results _ k c t refl
  Step-Kept k (query_logs c e) = record {
    task = k.task;
    caller = logs_done-Holds logs_asked refl;
    crash = k.crash;
  }
  Step-Kept k (wait logs c e t) = record {
    task = k.task;
    caller = task_at k c t logs ∙ wait-Holds logs (subst CallerHolds e k.caller);
    crash = k.crash;
  }

  Reach-Kept :
      {n : ℕ} {s : Find F}
      → Reach floats ids parse_time json_float range run r trace_ids n s
      → Kept s
  Reach-Kept start = new_find-Kept
  Reach-Kept (later h st) = Step-Kept (Reach-Kept h) st

  -- What the goroutine and the caller have done agrees with the two queries one after the other.
  pub record Undisturbed (s : Find F) : Type 0 where
    pub returns : (o : Outcome (List (Trace F))) → s.caller ≡ returned o → o ≡ undisturbed
    pub crashes : s.crashed ≡ true → traces_read ≡ panic

  -- However the steps of the goroutine of FindTraces and of its caller are interleaved, what the
  -- caller returns is what it would return if the logs and the traces were asked for one after the
  -- other; and the program crashes only where reading the traces panics.
  pub Reach-Undisturbed :
      {n : ℕ} {s : Find F}
      → Reach floats ids parse_time json_float range run r trace_ids n s
      → Undisturbed s
  Reach-Undisturbed h =
      let k = Reach-Kept h in
      record { returns = λ o e. subst CallerHolds e k.caller; crashes = k.crash }

  abbrev task_left : Task → ℕ
  task_left querying = 2
  task_left (reading results) = 1
  task_left finished = 0

  abbrev caller_left : Caller F → ℕ
  caller_left asking = 2
  caller_left (waiting logs) = 1
  caller_left (returned o) = 0

  -- How many steps are left, at most.
  abbrev left : Find F → ℕ
  left s = if s.crashed then 0 else task_left s.task + caller_left s.caller

  query_done-left :
      (s : Find F) (o : Outcome (List Result))
      → s.crashed ≡ false
      → s.task ≡ querying
      → left (query_done s o) < left s
  unfolding query_done
  query_done-left s (ok results) c t = rw (c, t) (omega arith)
  query_done-left s (err e) c t = rw (c, t) (omega arith)
  query_done-left s panic c t = rw (c, t) (omega arith)

  read_done-left :
      (s : Find F) (results : List Result) (o : Outcome (List (Trace F)))
      → s.crashed ≡ false
      → s.task ≡ reading results
      → left (read_done s o) < left s
  unfolding read_done
  read_done-left s results (ok traces) c t = rw (c, t) (omega arith)
  read_done-left s results (err e) c t = rw (c, t) (omega arith)
  read_done-left s results panic c t = rw (c, t) (omega arith)

  logs_done-left : (o : Outcome (List Result)) → caller_left (logs_done o) < 2
  unfolding logs_done
  logs_done-left (ok logs) = omega arith
  logs_done-left (err e) = omega arith
  logs_done-left panic = omega arith

  Step-left : {s t : Find F} → StepOf s t → left t < left s
  Step-left {s} (query_traces c t) = query_done-left s asked c t
  Step-left {s} (read_results results c t) = read_done-left s results _ c t
  Step-left (query_logs c e) = rw (c, e) (omega (arith, logs_done-left logs_asked))
  Step-left (wait logs c e t) = rw (c, e, t) (omega arith)

  Reach-left :
      {n : ℕ} {s : Find F}
      → Reach floats ids parse_time json_float range run r trace_ids n s
      → n + left s ≤ 4
  unfolding new_find
  Reach-left start = omega arith
  Reach-left (later h st) = omega (arith, Reach-left h, Step-left st)

  -- Nothing is left to do: the program has crashed, or both have ended.
  pub data Ended (s : Find F) : Type 0 where
    crash : s.crashed ≡ true → Ended s
    both : (o : Outcome (List (Trace F))) → s.task ≡ finished → s.caller ≡ returned o → Ended s

  caller_next :
      (s : Find F) (c : Caller F)
      → s.crashed ≡ false
      → s.task ≡ finished
      → s.caller ≡ c
      → Ended s ⊎ ((t : Find F) × StepOf s t)
  caller_next s asking c t e = inr (_, query_logs c e)
  caller_next s (waiting logs) c t e = inr (_, wait logs c e t)
  caller_next s (returned o) c t e = inl (both o t e)

  next :
      (s : Find F) (task : Task)
      → s.crashed ≡ false
      → s.task ≡ task
      → Ended s ⊎ ((t : Find F) × StepOf s t)
  next s querying c t = inr (_, query_traces c t)
  next s (reading results) c t = inr (_, read_results results c t)
  next s finished c t = caller_next s s.caller c t refl

  -- FindTraces ends: in any interleaving at most four steps are made, and wherever the program has
  -- not crashed and the goroutine or the caller has not ended there is a next step, so that neither
  -- waits for ever.
  pub Reach-ends :
      {n : ℕ} {s : Find F}
      → Reach floats ids parse_time json_float range run r trace_ids n s
      → (n ≤ 4)
        × (Ended s
            ⊎ ((t : Find F) × Step floats ids parse_time json_float range run r trace_ids s t))
  Reach-ends {n} {s} h = (
    omega (arith, Reach-left h),
    elim (Bool-cases s.crashed) [ inl c ↦ inl (crash c) | inr c ↦ next s s.task c refl ],
  )
