-- ===== src/Tests/SenderRuns.antt =====
-- The theorems on the sending of points at concrete runs.
use jaeger_influxdb.Prelude.{◌≡◌, refl, ap, true, none, List, [], ◌∷◌, map, Text, codes, arith}
use jaeger_influxdb.Writer.Batch.{point}
use jaeger_influxdb.Writer.Batch.Flow.{IsOpen, points}
use jaeger_influxdb.Writer.Spans.{new_writer, write_span_v1, write_span_v2, write_all}
use jaeger_influxdb.Writer.Send.{LineWrite, LineReply, response}
use jaeger_influxdb.Writer.Send.Delivery.{Delivers, ReportedV2, close-Delivery_v2}
use jaeger_influxdb.Writer.Senders.{
  System, new_system, call, send, close, take_closed, Reach, start, later,
}
use jaeger_influxdb.Writer.Senders.InOrder.{InOrder, Reach-InOrder}
use jaeger_influxdb.Tests.Hex.{hex_ids}
use jaeger_influxdb.Tests.Samples.{nat_floats, dict_models, some_span}
use jaeger_influxdb.Tests.SentRuns.{names}
use jaeger_influxdb.Tests.HttpRuns.{net, service}

points-map : (ps : List Text) → points (map point ps) ≡ ps
points-map [] = refl
points-map (p ∷ ps) = ap (◌∷◌ p) (points-map ps)

map-IsOpen : (ps : List Text) → IsOpen (map point ps)
map-IsOpen [] = tt
map-IsOpen (p ∷ ps) = ((λ e. cc), map-IsOpen ps)

abbrev sent_v1 : List Text
sent_v1 =
    (write_all (write_span_v1 nat_floats hex_ids dict_models names) new_writer
      (some_span ∷ some_span ∷ [])).sent

abbrev sent_v2 : List Text
sent_v2 =
    (write_all (write_span_v2 nat_floats hex_ids dict_models names) new_writer
      (some_span ∷ some_span ∷ [])).sent

abbrev all_written : LineWrite → LineReply
all_written w = response none

close-Delivery_v2_example :
    Delivers nat_floats hex_ids dict_models names 5000
      (map point sent_v2)
      (some_span ∷ some_span ∷ [])
      (ReportedV2 net (λ s. true) service (codes "ns") 1 2)
      sent_v2
close-Delivery_v2_example =
    close-Delivery_v2 nat_floats hex_ids dict_models names 5000 (map point sent_v2)
      (some_span ∷ some_span ∷ []) net (λ s. true) service (codes "ns") 1 2 (omega arith)
      (map-IsOpen sent_v2) (points-map sent_v2)

-- The second caller is faster than the first.
two_calls-Reach : (s : System) × Reach 3 s
unfolding new_system
two_calls-Reach = (
  _,
  later
      (later
        (later
          (later
            (later (later start (call 0 (codes "a" ∷ codes "b" ∷ []) refl refl))
              (call 1 (codes "c" ∷ []) refl refl))
            (send 1 (codes "c") [] refl refl refl))
          (send 0 (codes "a") (codes "b" ∷ []) refl refl refl))
        (close refl refl))
      (take_closed refl refl),
)

Reach-InOrder_example : InOrder (two_calls-Reach.0)
Reach-InOrder_example = Reach-InOrder two_calls-Reach.1
