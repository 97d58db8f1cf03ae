-- ===== src/Stores/StartUp.antt =====
-- `main` of cmd/jaeger-influxdb/main.go, from the parsed flags on. Serving is left out: it returns
-- when the plugin is shut down, and the store is closed then.
pub mod Served
use jaeger_influxdb.Prelude.{
  Bool, true, false, not, ◌&&◌, [], ◌∷◌, Option, none, some, Text, if◌then◌else◌,
}
use jaeger_influxdb.Prelude.Outcome.{
  Outcome, ok, err, panic, ◌>>=◌, ◌>>◌, or_error, Error, missing_flags, config_error,
}
use jaeger_influxdb.Stores.Config.{Viper, Configuration, init_from_viper}

abbrev pub is_given : Text → Bool
is_given [] = false
is_given (c ∷ s) = true

-- The store that is served.
pub data Plugin (StoreV1 StoreV2 : Type 0) : Type 0 where
  influxdb_1 : StoreV1 → Plugin StoreV1 StoreV2
  influxdb_2 : StoreV2 → Plugin StoreV1 StoreV2

-- How the program ends: with status 1 after an error, by a panic, or when the store was served.
pub data Ending (StoreV1 StoreV2 : Type 0) : Type 0 where
  exit_1 : Error → Ending StoreV1 StoreV2
  crash : Ending StoreV1 StoreV2
  served : Plugin StoreV1 StoreV2 → Ending StoreV1 StoreV2

-- The configuration file is read if its path is given. `read_in_config` is the viper that reading
-- it gives, `environment` the one without a file.
unfoldable pub read_config : Text → Viper → Option Viper → Outcome Viper
read_config [] environment read_in_config = ok environment
read_config (c ∷ path) environment read_in_config = or_error config_error read_in_config

module _ {StoreV1 StoreV2 : Type 0} (new_store_v1 : Configuration → Outcome StoreV1)
    (new_store_v2 : Configuration → Outcome StoreV2) where
  unfoldable pub open_store : Configuration → Outcome (Plugin StoreV1 StoreV2)
  open_store conf =
      if is_given conf.database
      then (new_store_v1 conf >>= λ store. ok (influxdb_1 store))
      else if is_given conf.organization && is_given conf.bucket && is_given conf.token
      then (new_store_v2 conf >>= λ store. ok (influxdb_2 store))
      else err missing_flags

  ending_of : Outcome (Plugin StoreV1 StoreV2) → Ending StoreV1 StoreV2
  ending_of (ok plugin) = served plugin
  ending_of (err e) = exit_1 e
  ending_of panic = crash

  -- The error of the file and that of the store both end the program. Close returns no error.
  unfoldable pub main : Text → Viper → Option Viper → Ending StoreV1 StoreV2
  unfolding ending_of read_config
  main config_path environment read_in_config =
      ending_of
        (do v ← read_config config_path environment read_in_config; open_store (init_from_viper v))
