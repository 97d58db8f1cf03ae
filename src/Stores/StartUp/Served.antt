-- ===== src/Stores/StartUp/Served.antt =====
-- Which store is served, in terms of the flags.
use jaeger_influxdb.Prelude.{◌≡◌, ◌≢◌, [], Option, some, Text, codes}
use jaeger_influxdb.Prelude.Outcome.{Outcome, ok}
use jaeger_influxdb.Stores.Config.{Viper, Configuration}
use jaeger_influxdb.Stores.StartUp.{Plugin, influxdb_1, influxdb_2}

-- The flags that count: those of the configuration file, where its path is given and it was read,
-- and those of the environment where no path is given.
pub data Flags (config_path : Text) (environment : Viper) (read_in_config : Option Viper)
    : Viper → Type 0 where
  without_file : config_path ≡ [] → Flags config_path environment read_in_config environment
  with_file :
      {v : Viper}
      → config_path ≢ []
      → read_in_config ≡ some v
      → Flags config_path environment read_in_config v

-- A configuration whose parts are the values of their flags.
pub record IsConfigured (v : Viper) (conf : Configuration) : Type 0 where
  pub host : v.get_string (codes "influxdb.host") ≡ conf.host
  pub default_lookback : v.get_duration (codes "influxdb.default-lookback") ≡ conf.default_lookback
  pub database : v.get_string (codes "influxdb.database") ≡ conf.database
  pub retention_policy : v.get_string (codes "influxdb.retention-policy") ≡ conf.retention_policy
  pub username : v.get_string (codes "influxdb.username") ≡ conf.username
  pub password : v.get_string (codes "influxdb.password") ≡ conf.password
  pub unsafe_ssl : v.get_bool (codes "influxdb.unsafe_ssl") ≡ conf.unsafe_ssl
  pub token : v.get_string (codes "influxdb.token") ≡ conf.token
  pub organization : v.get_string (codes "influxdb.organization") ≡ conf.organization
  pub bucket : v.get_string (codes "influxdb.bucket") ≡ conf.bucket

module _ {StoreV1 StoreV2 : Type 0} (new_store_v1 : Configuration → Outcome StoreV1)
    (new_store_v2 : Configuration → Outcome StoreV2) where
  -- A store that was opened under a configuration.
  pub data Opened (conf : Configuration) : Plugin StoreV1 StoreV2 → Type 0 where
    opened_1 :
        {store : StoreV1}
        → conf.database ≢ []
        → new_store_v1 conf ≡ ok store
        → Opened conf (influxdb_1 store)
    opened_2 :
        {store : StoreV2}
        → conf.database ≡ []
        → conf.organization ≢ []
        → conf.bucket ≢ []
        → conf.token ≢ []
        → new_store_v2 conf ≡ ok store
        → Opened conf (influxdb_2 store)

  -- What has to hold where a store is served: which flags count, the configuration that they give,
  -- and the store that is opened under it.
  pub record Serves (config_path : Text) (environment : Viper) (read_in_config : Option Viper)
      (p : Plugin StoreV1 StoreV2) : Type 0 where
    pub flags : Viper
    pub conf : Configuration
    pub counted : Flags config_path environment read_in_config flags
    pub configured : IsConfigured flags conf
    pub opened : Opened conf p
