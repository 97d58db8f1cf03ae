-- ===== src/Influx2http/Http.antt =====
-- Requests and answers: influx2http/client.go, influx2http/tokens.go and influx2http/errors.go.
pub mod Answers
use mathlib.Core.Option
use jaeger_influxdb.Prelude.{
  ℕ, ◌/◌, ◌≡◌, Bool, true, false, ◌&&◌, ◌||◌, List, [], ◌∷◌, ◌++◌, Option, none, some, Text, codes,
  nat_eq, if◌then◌else◌,
}
use jaeger_influxdb.Prelude.Dict.{Dict, lookup, insert}
use jaeger_influxdb.Prelude.Eq.{Text_eq, text_eq}
use jaeger_influxdb.Prelude.Outcome.{
  Outcome, ok, err, panic, ◌>>=◌, ◌>>◌, guard, or_error, bad_url, bad_request, bad_transport,
  bad_status, bad_body, server_error,
}

-- `url.Values`
abbrev pub Values : Type 0
Values = Dict Text (List Text)

-- `Values.Add` and `Values.Set`
unfoldable pub add_value : Text → Text → Values → Values
add_value k v vs = insert k (Option.get_or (lookup k vs) [] ++ v ∷ []) vs

unfoldable pub set_value : Text → Text → Values → Values
set_value k v vs = insert k (v ∷ []) vs

pub record Url : Type 0 where
  pub scheme : Text
  pub host : Text
  pub path : Text
  pub query : Values

pub record Request : Type 0 where
  pub method : Text
  pub url : Url
  pub header : Dict Text Text
  pub body : Text
  pub skip_verify : Bool

pub record Response : Type 0 where
  pub status_code : ℕ
  pub body : Text

-- Packages `net/url`, `net/http`, `encoding/json` and `compress/gzip`, and the IDs of `influxdb`.
pub record Net : Type 0 where
  pub parse_url : Text → Option Url
  pub can_request : Text → Url → Bool
  pub send : Request → Option Response
  pub decodes_error : Text → Bool
  pub id_string : ℕ → Text
  pub encode_id : ℕ → Option Text
  pub gzip : Text → Text

-- The fields that the services have in common.
pub record Service : Type 0 where
  pub addr : Text
  pub token : Text
  pub insecure_skip_verify : Bool

module _ (net : Net) where
  unfoldable pub new_url : Text → Text → Outcome Url
  new_url addr path = do u ← or_error bad_url (net.parse_url addr); ok (record u { path = path })

  -- `http.NewRequest`
  abbrev pub new_request : Text → Url → Text → Outcome Request
  new_request method url body = do
    guard (net.can_request method url) bad_request
    ok (record { method = method; url = url; header = []; body = body; skip_verify = false })

  unfoldable pub set_token : Text → Request → Request
  set_token token req = record req {
    header = insert (codes "Authorization") (codes "Token " ++ token) req.header;
  }

  abbrev pub set_header : Text → Text → Request → Request
  set_header k v req = record req { header = insert k v req.header }

  -- The client of `NewClient` sends the request.
  unfoldable pub do_request : Service → Url → Request → Outcome Response
  do_request s u req = or_error bad_transport (
      net.send
        (record req { skip_verify = text_eq u.scheme (codes "https") && s.insecure_skip_verify }))

  unfoldable pub check_error : Response → Outcome (Unit {0})
  check_error resp =
      let class = resp.status_code / 100 in
      if nat_eq class 4 || nat_eq class 5
      then (if net.decodes_error resp.body then err server_error else err bad_body)
      else if nat_eq class 2
      then ok tt
      else err bad_status
