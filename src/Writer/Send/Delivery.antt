-- ===== src/Writer/Send/Delivery.antt =====
-- What becomes of the points of the spans when the writer has been closed.
use mathlib.Core.Path.{subst}
use jaeger_influxdb.Prelude.{
  ℕ, ◌≤◌, ◌≡◌, refl, sym, ap, ◌∙◌, Bool, true, List, [], ◌∷◌, ◌++◌, none, Text, append_assoc, All,
  ◌⊎◌, inl, inr,
}
use jaeger_influxdb.Prelude.Outcome.{Outcome, ok, err, panic, Error, IsCalm}
use jaeger_influxdb.Influx2http.Http.{Net, Service}
use jaeger_influxdb.Influx2http.WriteService.{precision_or_ns, write}
use jaeger_influxdb.Influx2http.WriteService.Delivered.{Delivered, write-Delivered}
use jaeger_influxdb.Influx2http.WriteService.Total.{write-IsCalm}
use jaeger_influxdb.Dbmodel.Model.{Span, Floats, Ids}
use jaeger_influxdb.Dbmodel.ToPoints.{Models}
use jaeger_influxdb.Writer.Batch.{Event, closed, Batcher, new_batcher, batch_and_write, batch_text}
use jaeger_influxdb.Writer.Batch.Flow.{concat, points, IsOpen}
use jaeger_influxdb.Writer.Batch.Closing.{blank, Done, batch_and_write-closed}
use jaeger_influxdb.Writer.Spans.{Measurements, new_writer, write_all, write_span_v2}
use jaeger_influxdb.Writer.Send.{
  failed_batch, LineWrite, LineReply, no_response, response, noted_v2, line_write, write_batch_v1,
  write_batch_v2,
}

-- The text of all batches is the text of all their points.
batch_text-append : (a b : List Text) → batch_text (a ++ b) ≡ batch_text a ++ batch_text b
unfolding batch_text
batch_text-append [] b = refl
batch_text-append (p ∷ a) b = simp (batch_text-append a b, append_assoc)

abbrev pub all_text : List (List Text) → Text
all_text [] = []
all_text (b ∷ bs) = batch_text b ++ all_text bs

batch_text-concat : (bs : List (List Text)) → all_text bs ≡ batch_text (concat bs)
unfolding batch_text
batch_text-concat [] = refl
batch_text-concat (b ∷ bs) =
    ap (◌++◌ (batch_text b)) (batch_text-concat bs) ∙ sym (batch_text-append b (concat bs))

All-every {ℓ κ} : {A : Type ℓ} (P : A → Type κ) → ((a : A) → P a) → (xs : List A) → All P xs
All-every P h [] = tt
All-every P h (x ∷ xs) = (h x, All-every P h xs)

-- A batch that the client of InfluxDB 1 wrote without an error.
pub data Accepted : LineReply → Type 0 where
  silent : Accepted no_response
  fine : Accepted (response none)

module _ (write_line_protocol : LineWrite → LineReply) (database retention_policy : Text) where
  abbrev pub ReportedV1 : List Text → Type 0
  ReportedV1 batch =
      ((e : Error) × (write_batch_v1 write_line_protocol database retention_policy batch
          ≡ failed_batch e))
      ⊎ Accepted (write_line_protocol (line_write database retention_policy batch))

module _ (net : Net) (valid_precision : Text → Bool) (s : Service) (precision : Text)
    (org_id bucket_id : ℕ) where
  -- The batch was not written, as a line of the log says, or a request with its text was accepted.
  abbrev pub ReportedV2 : List Text → Type 0
  ReportedV2 batch =
      ((e : Error) × (write_batch_v2 net valid_precision s precision org_id bucket_id batch
          ≡ failed_batch e))
      ⊎ Delivered net valid_precision org_id bucket_id (precision_or_ns precision)
          (batch_text batch)

  pub write_batch_v2-Reported : (batch : List Text) → ReportedV2 batch
  unfolding write_batch_v2 noted_v2
  write_batch_v2-Reported batch =
      go (write net valid_precision s precision org_id bucket_id (batch_text batch)) refl
    where
      go :
          (o : Outcome (Unit {0}))
          → write net valid_precision s precision org_id bucket_id (batch_text batch) ≡ o
          → ReportedV2 batch
      go (ok done) h = inr (
          write-Delivered net valid_precision s precision org_id bucket_id (batch_text batch) done
            h)
      go (err e) h = inl (e, rw h refl)
      go panic h = absurd (
          subst IsCalm h
            (write-IsCalm net valid_precision s precision org_id bucket_id (batch_text batch)))

-- The loop behind the closing of the channel has returned. The texts of its batches together are
-- that of all points that were sent, and each batch has been dealt with.
pub record Delivery (Reported : List Text → Type 0) (sent last : List Text) (b : Batcher)
    : Type 0 where
  pub returned : b.stopped ≡ true
  pub wrote : concat b.written ≡ sent ++ last
  pub text : all_text b.written ≡ batch_text sent ++ batch_text last
  pub reported : All Reported b.written

Done-Delivery :
    (Reported : List Text → Type 0) (sent last : List Text) (b : Batcher)
    → ((batch : List Text) → Reported batch)
    → Done b (sent ++ last)
    → Delivery Reported sent last b
Done-Delivery Reported sent last b h d = record {
  returned = d.returned;
  wrote = d.wrote;
  text = batch_text-concat b.written ∙ ap batch_text d.wrote ∙ batch_text-append sent last;
  reported = All-every Reported h b.written;
}

-- The loop after the events and the closing of the channel.
abbrev pub closed_after : ℕ → List Event → Batcher
closed_after capacity es =
    batch_and_write capacity (batch_and_write capacity new_batcher es) (closed ∷ closed ∷ [])

module _ {F Tags Point : Type 0} (floats : Floats F) (ids : Ids) (models : Models F Tags Point)
    (names : Measurements) (capacity : ℕ) (es : List Event) (spans : List (Span F)) where
  abbrev pub Delivers : (List Text → Type 0) → List Text → Type 0
  Delivers Reported sent =
      Delivery Reported sent (blank (batch_and_write capacity new_batcher es))
        (closed_after capacity es)

  -- Where the loop of a writer of InfluxDB 2, with room for two points or more in a batch, takes
  -- the points that WriteSpan sends for any spans, with timers anywhere between, and the channel is
  -- closed then: the loop returns, and the texts of its batches are together the lines of the sent
  -- points, in order and once, with an empty line behind them where it held no point at the end.
  -- Each batch was accepted in a request of its own for the organization and the bucket, or its
  -- error was logged.
  pub close-Delivery_v2 :
      (net : Net) (valid_precision : Text → Bool) (s : Service) (precision : Text)
      (org_id bucket_id : ℕ)
      → 2 ≤ capacity
      → IsOpen es
      → points es ≡ (write_all (write_span_v2 floats ids models names) new_writer spans).sent
      → Delivers
          (ReportedV2 net valid_precision s precision org_id bucket_id)
          (write_all (write_span_v2 floats ids models names) new_writer spans).sent
  close-Delivery_v2 net valid_precision s precision org_id bucket_id h open_es same =
      Done-Delivery _ _ _ _
        (write_batch_v2-Reported net valid_precision s precision org_id bucket_id)
        (rw (← same) (batch_and_write-closed capacity es h open_es))
