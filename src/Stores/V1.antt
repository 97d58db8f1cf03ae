-- ===== src/Stores/V1.antt =====
-- NewStore of storev1/store.go and NewWriter of storev1/writer.go.
pub mod Wired
use jaeger_influxdb.Prelude.{ℕ, Bool, Option, Text, codes}
use jaeger_influxdb.Prelude.Outcome.{Outcome, ok, ◌>>=◌, or_error, bad_url, client_error}
use jaeger_influxdb.Common.{
  default_span_measurement, default_span_meta_measurement, default_log_measurement,
}
use jaeger_influxdb.Influx2http.Http.{Url}
use jaeger_influxdb.Reader.InfluxQl.{Reader}
use jaeger_influxdb.Writer.Spans.{Measurements, SpanWriter, new_writer}
use jaeger_influxdb.Stores.Config.{Configuration}

-- `client.Config`; the timeout is in seconds.
pub record ClientConfig : Type 0 where
  pub url : Url
  pub username : Text
  pub password : Text
  pub timeout : ℕ
  pub unsafe_ssl : Bool
  pub user_agent : Text

-- The writer over the type of the client, with its state as in Writer/Spans.antt.
pub record Writer (Client : Type 0) : Type 0 where
  pub client : Client
  pub database : Text
  pub retention_policy : Text
  pub names : Measurements
  pub state : SpanWriter

pub record Store (Client : Type 0) : Type 0 where
  pub client : Client
  pub reader : Reader
  pub writer : Writer Client

-- The names that both stores use.
abbrev pub default_names : Measurements
default_names = record {
  span = default_span_measurement;
  span_meta = default_span_meta_measurement;
  log = default_log_measurement;
}

unfoldable pub client_config : Url → Configuration → ClientConfig
client_config u conf = record {
  url = u;
  username = conf.username;
  password = conf.password;
  timeout = 5;
  unsafe_ssl = conf.unsafe_ssl;
  user_agent = codes "jaeger-influxdb";
}

-- `url.ParseRequestURI` and `client.NewClient` are arguments.
unfoldable pub new_store :
    {Client : Type 0}
    → (Text → Option Url)
    → (ClientConfig → Option Client)
    → Configuration
    → Outcome (Store Client)
unfolding client_config new_writer
new_store parse_request_uri new_client conf = do
  u ← or_error bad_url (parse_request_uri conf.host)
  client ← or_error client_error (new_client (client_config u conf))
  let reader : Reader = record {
    database = conf.database;
    retention_policy = conf.retention_policy;
    span_measurement = default_span_measurement;
    span_meta_measurement = default_span_meta_measurement;
    log_measurement = default_log_measurement;
    default_lookback = conf.default_lookback;
  }
  let writer : Writer _ = record {
    client = client;
    database = conf.database;
    retention_policy = conf.retention_policy;
    names = default_names;
    state = new_writer;
  }
  ok (record { client = client; reader = reader; writer = writer })
