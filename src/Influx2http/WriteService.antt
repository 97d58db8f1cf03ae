-- ===== src/Influx2http/WriteService.antt =====
-- WriteService of influx2http/write_handler.go, with which the writer of storev2 sends a batch.
pub mod Delivered
pub mod Total
use jaeger_influxdb.Prelude.{
  ℕ, ◌≡◌, Bool, true, false, ◌||◌, List, [], ◌∷◌, Option, none, some, Text, codes, if◌then◌else◌,
}
use jaeger_influxdb.Prelude.Eq.{text_eq}
use jaeger_influxdb.Prelude.Outcome.{
  Outcome, ok, err, panic, ◌>>=◌, ◌>>◌, guard, or_error, invalid_precision, bad_encoding,
}
use jaeger_influxdb.Influx2http.Http.{
  Values, set_value, Url, Request, Response, Net, Service, new_url, new_request, set_token,
  set_header, do_request, check_error,
}

-- An empty precision stands for nanoseconds.
abbrev pub precision_or_ns : Text → Text
precision_or_ns [] = codes "ns"
precision_or_ns (c ∷ s) = c ∷ s

-- The parameters of the URL.
pub write_params : Text → Text → Text → Values → Values
write_params org bucket precision vs =
    let with_org = set_value (codes "org") org vs in
    let with_bucket = set_value (codes "bucket") bucket with_org in
    set_value (codes "precision") precision with_bucket

-- `models.ValidPrecision` is an argument. The goroutine that compresses the text sets its error
-- when the request is under way, so `compressWithGzip` itself returns none.
unfoldable pub write :
    (net : Net) → (Text → Bool) → Service → Text → ℕ → ℕ → Text → Outcome (Unit {0})
unfolding write_params
write net valid_precision s precision org_id bucket_id points = do
  let unit = precision_or_ns precision
  guard (valid_precision unit) invalid_precision
  u ← new_url net s.addr (codes "/api/v2/write")
  req ← new_request net (codes "POST") u (net.gzip points)
  let typed = set_header net (codes "Content-Type") (codes "text/plain; charset=utf-8") req
  let encoded = set_header net (codes "Content-Encoding") (codes "gzip") typed
  let signed = set_token net s.token encoded
  org ← or_error bad_encoding (net.encode_id org_id)
  bucket ← or_error bad_encoding (net.encode_id bucket_id)
  let queried : Request = record signed {
    url = record u { query = write_params org bucket unit u.query };
  }
  resp ← do_request net s u queried
  check_error net resp
