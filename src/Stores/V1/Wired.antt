-- ===== src/Stores/V1/Wired.antt =====
-- How the parts of a store of InfluxDB 1 fit together.
use mathlib.Core.Path.{subst}
use jaeger_influxdb.Prelude.{◌≡◌, refl, Option, some, Text}
use jaeger_influxdb.Prelude.Outcome.{
  ok, >>=-eq-ok, ok_eq, or_error, or_error-eq-ok, bad_url, client_error,
}
use jaeger_influxdb.Influx2http.Http.{Url}
use jaeger_influxdb.Writer.Spans.{new_writer}
use jaeger_influxdb.Stores.Config.{Configuration}
use jaeger_influxdb.Stores.V1.{ClientConfig, Store, client_config, new_store}

module _ {Client : Type 0} (parse_request_uri : Text → Option Url)
    (new_client : ClientConfig → Option Client) where
  -- The client was made for the parsed host; reader and writer have this client, one database, one
  -- retention policy and the same measurements.
  pub record Wired (conf : Configuration) (store : Store Client) : Type 0 where
    pub url : Url
    pub parsed : parse_request_uri conf.host ≡ some url
    pub made : new_client (client_config url conf) ≡ some store.client
    pub one_client : store.writer.client ≡ store.client
    pub asked : store.reader.database ≡ conf.database
    pub one_database : store.reader.database ≡ store.writer.database
    pub one_policy : store.reader.retention_policy ≡ store.writer.retention_policy
    pub spans : store.reader.span_measurement ≡ store.writer.names.span
    pub metas : store.reader.span_meta_measurement ≡ store.writer.names.span_meta
    pub logs : store.reader.log_measurement ≡ store.writer.names.log
    pub fresh : store.writer.state ≡ new_writer

  -- Where NewStore of storev1 returns a store, its client was made for the configured host, and
  -- reader and writer use this client, the configured database, one retention policy and the same
  -- measurements; the writer is new.
  pub new_store_v1-Wired :
      (conf : Configuration) (store : Store Client)
      → new_store parse_request_uri new_client conf ≡ ok store
      → Wired conf store
  unfolding new_store
  new_store_v1-Wired conf store e =
      let (u, p, e1) = >>=-eq-ok (or_error bad_url (parse_request_uri conf.host)) _ e in
      let (client, m, e2) =
        >>=-eq-ok (or_error client_error (new_client (client_config u conf))) _ e1 in
      subst (Wired conf) (ok_eq e2) (record {
        url = u;
        parsed = or_error-eq-ok bad_url _ u p;
        made = or_error-eq-ok client_error _ client m;
        one_client = refl;
        asked = refl;
        one_database = refl;
        one_policy = refl;
        spans = refl;
        metas = refl;
        logs = refl;
        fresh = refl;
      })
