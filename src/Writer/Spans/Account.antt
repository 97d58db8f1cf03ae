-- ===== src/Writer/Spans/Account.antt =====
-- What a writer has sent after any spans.
use jaeger_influxdb.Prelude.{
  ◌≡◌, refl, ap, ◌∙◌, Bool, true, false, List, [], ◌∷◌, ◌++◌, map, Text, append_assoc, append-nil,
  if◌then◌else◌, Bool-cases, inl, inr,
}
use jaeger_influxdb.Prelude.Outcome.{Outcome, ok, err, panic}
use jaeger_influxdb.Common.{meta_cache_interval}
use jaeger_influxdb.Common.MetaCache.{Returned, WriterMetaCache, should_write}
use jaeger_influxdb.Common.MetaCache.Throttle.{Sequential, Spaced, writes, Sequential-Spaced}
use jaeger_influxdb.Dbmodel.Model.{Span, Floats, Ids}
use jaeger_influxdb.Dbmodel.ToPoints.{Models, span_to_points_v1, span_to_points_v2}
use jaeger_influxdb.Writer.Spans.{
  Measurements, SpanWriter, new_writer, meta_point, send_meta, send_points, write_span_v1,
  write_span_v2, write_all,
}

-- A span whose points were sent, and whether a meta point was due.
pub record Entry (F : Type 0) : Type 0 where
  pub span : Span F
  pub told : Bool

module _ {F Tags Point : Type 0} (floats : Floats F) (ids : Ids)
    (models : Models F Tags Point) where
  abbrev pub point_texts : Outcome (List Point) → List Text
  point_texts (ok ps) = map models.point_string ps
  point_texts (err e) = []
  point_texts panic = []

  abbrev pub meta_texts : Outcome Point → List Text
  meta_texts (ok p) = models.point_string p ∷ []
  meta_texts (err e) = []
  meta_texts panic = []

  abbrev pub returned : Entry F → Returned
  returned e = record {
    service_name = e.span.process.service_name;
    operation_name = e.span.operation_name;
    start_time = e.span.start_time;
    result = e.told;
  }

  module _ (names : Measurements) (to_points : Span F → Outcome (List Point)) where
    -- The texts of the entries, the latest first.
    abbrev pub texts : List (Entry F) → List Text
    texts [] = []
    texts (e ∷ es) =
        texts es
        ++ (point_texts (to_points e.span)
            ++ (if e.told then meta_texts (meta_point floats ids models names e.span) else []))

    -- The entries, the latest first, account for all that was sent and for the cache.
    pub record Account (w : SpanWriter) (entries : List (Entry F)) : Type 0 where
      pub sent : w.sent ≡ texts entries
      pub cached : Sequential meta_cache_interval (map returned entries) w.meta_cache

    abbrev told_by : SpanWriter → Span F → WriterMetaCache × Bool
    told_by w span =
        should_write w.meta_cache span.process.service_name span.operation_name span.start_time

    Account-meta :
        (w : SpanWriter) (entries : List (Entry F)) (span : Span F) (c : WriterMetaCache)
        (ps : List Point) (o : Outcome Point)
        → Account w entries
        → to_points span ≡ ok ps
        → meta_point floats ids models names span ≡ o
        → told_by w span ≡ (c, true)
        → Account
            (send_meta floats ids models
              (record { meta_cache = c; sent = w.sent ++ map models.point_string ps })
              o).0
            (record { span = span; told = true } ∷ entries)
    unfolding send_meta
    Account-meta w entries span c ps (ok p) a e m t = record {
      sent = rw (e, m, ← a.sent) (append_assoc w.sent _ _);
      cached = (w.meta_cache, a.cached, t);
    }
    Account-meta w entries span c ps (err x) a e m t = record {
      sent = rw (e, m, ← a.sent, append-nil) refl;
      cached = (w.meta_cache, a.cached, t);
    }
    Account-meta w entries span c ps panic a e m t = record {
      sent = rw (e, m, ← a.sent, append-nil) refl;
      cached = (w.meta_cache, a.cached, t);
    }

    abbrev pub accept : Outcome (List Point) → Span F → List (Span F) → List (Span F)
    accept (ok ps) span done = span ∷ done
    accept (err e) span done = done
    accept panic span done = done

    -- The spans whose points can be made, the latest first.
    abbrev pub accepted : List (Span F) → List (Span F) → List (Span F)
    accepted done [] = done
    accepted done (span ∷ spans) = accepted (accept (to_points span) span done) spans

    -- An account of these spans, the latest first.
    pub record Report (w : SpanWriter) (done : List (Span F)) : Type 0 where
      pub entries : List (Entry F)
      pub account : Account w entries
      pub spans : map (λ e. e.span) entries ≡ done

    send_points_told :
        (w : SpanWriter) (span : Span F) (ps : List Point) (c : WriterMetaCache)
        → told_by w span ≡ (c, true)
        → send_points floats ids models names w span (ok ps)
          ≡ send_meta floats ids models
              (record { meta_cache = c; sent = w.sent ++ map models.point_string ps })
              (meta_point floats ids models names span)
    unfolding send_points
    send_points_told w span ps c t = rw t refl

    send_points_untold :
        (w : SpanWriter) (span : Span F) (ps : List Point) (c : WriterMetaCache)
        → told_by w span ≡ (c, false)
        → send_points floats ids models names w span (ok ps)
          ≡ (record { meta_cache = c; sent = w.sent ++ map models.point_string ps }, ok tt)
    unfolding send_points
    send_points_untold w span ps c t = rw t refl

    told_cases :
        (w : SpanWriter) (span : Span F)
        → (c : WriterMetaCache) × (b : Bool) × (told_by w span ≡ (c, b))
    told_cases w span = ((told_by w span).0, (told_by w span).1, refl)

    send_points-Report :
        (w : SpanWriter) (done : List (Span F)) (span : Span F) (o : Outcome (List Point))
        → Report w done
        → to_points span ≡ o
        → Report (send_points floats ids models names w span o).0 (accept o span done)
    send_points-Report w done span (ok ps) r e =
        let (c, b, t) = told_cases w span in
        elim (Bool-cases b) [
          | inl told ↦
              let t' = t ∙ ap (λ x. (c, x)) told in
              rw (send_points_told w span ps c t') (record {
                entries = record { span = span; told = true } ∷ r.entries;
                account = Account-meta w r.entries span c ps _ r.account e refl t';
                spans = ap (◌∷◌ span) r.spans;
              })
          | inr untold ↦
              let t' = t ∙ ap (λ x. (c, x)) untold in
              rw (send_points_untold w span ps c t') (record {
                entries = record { span = span; told = false } ∷ r.entries;
                account = record {
                  sent = rw (e, ← r.account.sent, append-nil) refl;
                  cached = (w.meta_cache, r.account.cached, t');
                };
                spans = ap (◌∷◌ span) r.spans;
              })
        ]
    send_points-Report w done span (err x) r e = unfold send_points in r
    send_points-Report w done span panic r e = unfold send_points in r

    new_writer-Report : Report new_writer []
    unfolding new_writer
    new_writer-Report = record {
      entries = [];
      account = record { sent = refl; cached = refl };
      spans = refl;
    }

    write_all-Report :
        (write : SpanWriter → Span F → SpanWriter × Outcome (Unit {0}))
        → ((w : SpanWriter) (span : Span F)
            → write w span ≡ send_points floats ids models names w span (to_points span))
        → (spans : List (Span F)) (w : SpanWriter) (done : List (Span F)) → Report w done
        → Report (write_all write w spans) (accepted done spans)
    unfolding write_all
    write_all-Report write same [] w done r = r
    write_all-Report write same (span ∷ spans) w done r =
        write_all-Report write same spans (write w span).0 (accept (to_points span) span done)
          (rw same (send_points-Report w done span (to_points span) r refl))

    -- The meta points of the entries of one key are more than the interval of the cache apart.
    pub record ReportSpaced (w : SpanWriter) (done : List (Span F)) : Type 0 where
      pub report : Report w done
      pub spaced : (k : Text) → Spaced meta_cache_interval (writes k (map returned report.entries))

    spaced_of : (w : SpanWriter) (done : List (Span F)) → Report w done → ReportSpaced w done
    spaced_of w done r = record {
      report = r;
      spaced = λ k. Sequential-Spaced meta_cache_interval k _ w.meta_cache r.account.cached;
    }

  module _ (names : Measurements) where
    abbrev pub points_v1 : Span F → Outcome (List Point)
    points_v1 span = span_to_points_v1 floats ids models span names.span names.log

    abbrev pub points_v2 : Span F → Outcome (List Point)
    points_v2 span = span_to_points_v2 floats ids models span names.span names.log

    -- After any spans are written on a new writer of InfluxDB 1, it has sent exactly the points of
    -- the spans whose points can be made, in order, each followed by the meta point where the cache
    -- asks for one and it can be made. What the cache asks for is what calls of ShouldWrite for
    -- these spans, one after the other, return, and of two spans under one key that it asks a meta
    -- point for, the later starts more than an hour after the earlier.
    pub write_all-write_span_v1 :
        (spans : List (Span F))
        → ReportSpaced names points_v1
            (write_all (write_span_v1 floats ids models names) new_writer spans)
            (accepted names points_v1 [] spans)
    unfolding write_span_v1
    write_all-write_span_v1 spans = spaced_of names points_v1 _ _ (
        write_all-Report names points_v1 _ (λ w span. refl) spans new_writer []
          (new_writer-Report names points_v1))

    -- After any spans are written on a new writer of InfluxDB 2, it has sent exactly the points of
    -- the spans whose points can be made, in order, each followed by the meta point where the cache
    -- asks for one and it can be made. What the cache asks for is what calls of ShouldWrite for
    -- these spans, one after the other, return, and of two spans under one key that it asks a meta
    -- point for, the later starts more than an hour after the earlier.
    pub write_all-write_span_v2 :
        (spans : List (Span F))
        → ReportSpaced names points_v2
            (write_all (write_span_v2 floats ids models names) new_writer spans)
            (accepted names points_v2 [] spans)
    unfolding write_span_v2
    write_all-write_span_v2 spans = spaced_of names points_v2 _ _ (
        write_all-Report names points_v2 _ (λ w span. refl) spans new_writer []
          (new_writer-Report names points_v2))
