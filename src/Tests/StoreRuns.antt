-- ===== src/Tests/StoreRuns.antt =====
-- The theorems on the stores and the start of the plugin at concrete configurations.
use jaeger_influxdb.Prelude.{◌≡◌, refl, false, List, [], ◌∷◌, Option, some, Text, codes}
use jaeger_influxdb.Prelude.Int.{pos, wrap64}
use mathlib.Core.Option
use jaeger_influxdb.Prelude.Dict.{Dict, lookup}
use jaeger_influxdb.Prelude.Eq.{Text_eq, text_eq}
use jaeger_influxdb.Prelude.Outcome.{Outcome, ok}
use jaeger_influxdb.Influx2http.Http.{Url, new_url, do_request, check_error}
use jaeger_influxdb.Influx2http.Buckets.{find_bucket, find_buckets, to_influxdb}
use jaeger_influxdb.Influx2http.Organizations.{
  Organization, find_organizations, find_organization, find_org_id, find_bucket_id,
}
use jaeger_influxdb.Writer.Spans.{new_writer}
use jaeger_influxdb.Stores.Config.{Viper, Configuration, init_from_viper}
use jaeger_influxdb.Stores.V1
use jaeger_influxdb.Stores.V1.{ClientConfig, default_names}
use jaeger_influxdb.Stores.V2
use jaeger_influxdb.Stores.V2.Wired.{new_store_v2-Wired}
use jaeger_influxdb.Stores.StartUp.{influxdb_1, served, read_config, open_store, main}
use jaeger_influxdb.Tests.HttpRuns.{net, service, one_bucket}

abbrev configuration : Configuration
configuration = record {
  host = codes "localhost";
  default_lookback = pos 0;
  database = codes "jaeger";
  retention_policy = [];
  username = [];
  password = [];
  unsafe_ssl = false;
  token = codes "t";
  organization = codes "org";
  bucket = codes "jaeger";
}

abbrev one_organization : Text → Option (List (Option Organization))
one_organization body = some (some (record { id = 1; name = codes "org" }) ∷ [])

abbrev local_url : Text → Option Url
local_url s = some (record { scheme = codes "http"; host = s; path = []; query = [] })

-- A client is its configuration.
abbrev store_1 : Outcome (V1.Store ClientConfig)
store_1 = V1.new_store local_url (λ c. some c) configuration

abbrev store_2 : Outcome V2.Store
store_2 = V2.new_store net one_organization one_bucket configuration

org_id_found : find_org_id net one_organization (codes "localhost") (codes "t") (codes "org") ≡ ok 1
unfolding find_org_id find_organization find_organizations new_url do_request check_error text_eq
org_id_found = refl

abbrev opened_1 : V1.Store ClientConfig
unfolding V1.client_config new_writer
opened_1 =
    let u : Url = record {
      scheme = codes "http";
      host = codes "localhost";
      path = [];
      query = [];
    } in
    record {
      client = V1.client_config u configuration;
      reader = record {
        database = codes "jaeger";
        retention_policy = [];
        span_measurement = codes "span";
        span_meta_measurement = codes "span-meta";
        log_measurement = codes "log";
        default_lookback = pos 0;
      };
      writer = record {
        client = V1.client_config u configuration;
        database = codes "jaeger";
        retention_policy = [];
        names = default_names;
        state = new_writer;
      };
    }

store_1_opened : store_1 ≡ ok opened_1
unfolding V1.new_store V1.client_config new_writer
store_1_opened = refl

abbrev opened_2 : V2.Store
unfolding new_writer
opened_2 = record {
  query_service = service;
  org_id = 1;
  reader = record {
    bucket = codes "jaeger";
    span_measurement = codes "span";
    span_meta_measurement = codes "span-meta";
    log_measurement = codes "log";
    default_lookback = pos 0;
  };
  writer = record {
    write_service = service;
    precision = codes "ns";
    org_id = 1;
    bucket_id = 1;
    names = default_names;
    state = new_writer;
  };
}

store_2_opened : store_2 ≡ ok opened_2
unfolding V2.new_store find_org_id find_bucket_id find_organization find_organizations find_bucket
    find_buckets new_url do_request check_error to_influxdb wrap64 text_eq new_writer
store_2_opened = refl

new_store_v2-Wired_example : V2.Wired.Wired net one_organization one_bucket configuration opened_2
new_store_v2-Wired_example =
    new_store_v2-Wired net one_organization one_bucket configuration opened_2 store_2_opened

-- What the flags give, with a configuration file and without one.
abbrev flags_of : Dict Text Text → Viper
flags_of given = record {
  get_string = λ s. Option.get_or (lookup s given) [];
  get_duration = λ s. pos 0;
  get_bool = λ s. false;
}

abbrev file_flags : Viper
file_flags = flags_of (
    (codes "influxdb.host", codes "localhost")
    ∷ (codes "influxdb.database", codes "jaeger")
    ∷ (codes "influxdb.token", codes "t")
    ∷ (codes "influxdb.organization", codes "org")
    ∷ (codes "influxdb.bucket", codes "jaeger")
    ∷ [])

abbrev open_1 : Configuration → Outcome (V1.Store ClientConfig)
open_1 = V1.new_store local_url (λ c. some c)

abbrev open_2 : Configuration → Outcome V2.Store
open_2 = V2.new_store net one_organization one_bucket

main_served :
    main open_1 open_2 (codes "f") (flags_of []) (some file_flags) ≡ served (influxdb_1 opened_1)
unfolding main read_config open_store init_from_viper lookup text_eq V1.new_store V1.client_config
    new_writer
main_served = refl
