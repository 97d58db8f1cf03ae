-- ===== src/Writer/Send.antt =====
-- writeBatch of storev1/writer.go and storev2/writer.go: the sending of a batch, and what is logged
-- about it.
pub mod Delivery
use jaeger_influxdb.Prelude.{ℕ, Bool, List, [], ◌∷◌, Option, none, some, Text, codes, length}
use jaeger_influxdb.Prelude.Outcome.{Outcome, ok, err, panic, Error}
use jaeger_influxdb.Influx2http.Http.{Net, Service}
use jaeger_influxdb.Influx2http.WriteService.{write}
use jaeger_influxdb.Writer.Batch.{batch_text}

-- The line that is logged: an error, or the number of points that were written. `crashed` stands
-- for a panic of the call.
pub data Note : Type 0 where
  failed_batch : Error → Note
  wrote_points : ℕ → Note
  crashed : Note

-- The arguments of `WriteLineProtocol` of the client of InfluxDB 1.
pub record LineWrite : Type 0 where
  pub text : Text
  pub database : Text
  pub retention_policy : Text
  pub precision : Text
  pub write_consistency : Text

-- What it returns: an error, or a response, which may be nil and may hold an error.
pub data LineReply : Type 0 where
  failed : Error → LineReply
  no_response : LineReply
  response : Option Error → LineReply

noted_v1 : ℕ → LineReply → Note
noted_v1 n (failed e) = failed_batch e
noted_v1 n no_response = wrote_points n
noted_v1 n (response none) = wrote_points n
noted_v1 n (response (some e)) = failed_batch e

abbrev pub line_write : Text → Text → List Text → LineWrite
line_write database retention_policy batch = record {
  text = batch_text batch;
  database = database;
  retention_policy = retention_policy;
  precision = codes "ns";
  write_consistency = codes "any";
}

-- `write_line_protocol` is the method of the client.
unfoldable pub write_batch_v1 : (LineWrite → LineReply) → Text → Text → List Text → Note
unfolding noted_v1
write_batch_v1 write_line_protocol database retention_policy batch =
    noted_v1 (length batch) (write_line_protocol (line_write database retention_policy batch))

noted_v2 : ℕ → Outcome (Unit {0}) → Note
noted_v2 n (ok done) = wrote_points n
noted_v2 n (err e) = failed_batch e
noted_v2 n panic = crashed

unfoldable pub write_batch_v2 :
    (net : Net) → (Text → Bool) → Service → Text → ℕ → ℕ → List Text → Note
unfolding noted_v2
write_batch_v2 net valid_precision s precision org_id bucket_id batch =
    noted_v2 (length batch)
      (write net valid_precision s precision org_id bucket_id (batch_text batch))
