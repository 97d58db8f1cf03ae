-- ===== src/Stores/Config.antt =====
-- Configuration of config/config.go. The look-up of package viper is an interface.
use jaeger_influxdb.Prelude.{Bool, ◌++◌, Text, codes}
use jaeger_influxdb.Prelude.Int.{ℤ}

pub record Viper : Type 0 where
  pub get_string : Text → Text
  pub get_duration : Text → ℤ
  pub get_bool : Text → Bool

pub record Configuration : Type 0 where
  pub host : Text
  pub default_lookback : ℤ
  pub database : Text
  pub retention_policy : Text
  pub username : Text
  pub password : Text
  pub unsafe_ssl : Bool
  pub token : Text
  pub organization : Text
  pub bucket : Text

-- `influxDBPrefix` in front of the name of a flag.
abbrev pub flag_name : Text → Text
flag_name name = codes "influxdb." ++ name

unfoldable pub init_from_viper : Viper → Configuration
init_from_viper v = record {
  host = v.get_string (flag_name (codes "host"));
  default_lookback = v.get_duration (flag_name (codes "default-lookback"));
  database = v.get_string (flag_name (codes "database"));
  retention_policy = v.get_string (flag_name (codes "retention-policy"));
  username = v.get_string (flag_name (codes "username"));
  password = v.get_string (flag_name (codes "password"));
  unsafe_ssl = v.get_bool (flag_name (codes "unsafe_ssl"));
  token = v.get_string (flag_name (codes "token"));
  organization = v.get_string (flag_name (codes "organization"));
  bucket = v.get_string (flag_name (codes "bucket"));
}
