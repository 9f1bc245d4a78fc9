-- ===== src/Config.antt =====
-- config/config.go and config/load.go: the settings, and how Load goes on from what viper reads. What
-- viper makes of the defaults, the file and the environment is an argument. A duration is a number of
-- nanoseconds; the one float stays a text.
pub mod Required
use jobcrawler.Base.{
  ℕ, ℤ, zero, suc, String, Bool, true, false, ◌||◌, Option, none, some, List, [], ◌∷◌, ◌++◌, ◌⧺◌,
  str_eq, join, contains, if◌then◌else◌,
}
use jobcrawler.World.Errors.{Err, failure, wrap, error_text, Result, ok, err}

pub record ServerConfig : Type 0 where
  pub host : String
  pub port : ℤ
  pub read_timeout : ℤ
  pub write_timeout : ℤ
  pub idle_timeout : ℤ

pub record DatabaseConfig : Type 0 where
  pub dsn : String
  pub max_open_conns : ℤ
  pub max_idle_conns : ℤ
  pub conn_max_lifetime : ℤ

pub record RedisConfig : Type 0 where
  pub addr : String
  pub password : String
  pub db : ℤ
  pub pool_size : ℤ
  pub dial_timeout : ℤ
  pub read_timeout : ℤ

pub record KafkaConfig : Type 0 where
  pub brokers : List String
  pub group_id : String
  pub required_acks : ℤ

pub record ElasticsearchConfig : Type 0 where
  pub addresses : List String
  pub index_name : String

pub record CrawlerConfig : Type 0 where
  pub rate_limit_rps : String
  pub max_retries : ℤ
  pub user_agents : List String
  pub max_listing_fanout : ℤ

pub record ProcessorConfig : Type 0 where
  pub max_total_jobs : ℤ
  pub cleanup_enabled : Bool
  pub cleanup_schedule : String
  pub cleanup_retention_days : ℤ

pub record Config : Type 0 where
  pub server : ServerConfig
  pub database : DatabaseConfig
  pub redis : RedisConfig
  pub kafka : KafkaConfig
  pub elasticsearch : ElasticsearchConfig
  pub crawler : CrawlerConfig
  pub processor : ProcessorConfig

abbrev pub no_brokers : List String → Bool
no_brokers [] = true
no_brokers (b ∷ []) = str_eq b ""
no_brokers (a ∷ b ∷ bs) = false

abbrev pub missing_if : Bool → String → List String
missing_if true name = name ∷ []
missing_if false name = []

-- `missing`
unfoldable pub missing_of : Config → List String
missing_of cfg =
    missing_if (str_eq cfg.database.dsn "") "DATABASE_DSN"
    ++ (missing_if (str_eq cfg.redis.addr "") "REDIS_ADDR"
        ++ missing_if (no_brokers cfg.kafka.brokers) "KAFKA_BROKERS")

abbrev pub missing_error : List String → Option Err
missing_error [] = none
missing_error (m ∷ ms) = some (
    failure (
      "missing required environment variables: "
      ⧺ (join ", " (m ∷ ms) ⧺ "\nCopy .env.example to .env and fill in the values.")))

unfoldable pub validate : Config → Option Err
unfolding missing_of
validate cfg = missing_error (missing_of cfg)

-- What viper gives: the error of reading .env, whether an error says that the file was not found, and
-- the settings.
pub record Viper : Type 0 where
  pub read_in_config : Option Err
  pub is_file_not_found : Err → Bool
  pub unmarshal : Result Config

abbrev pub checked : Config → Option Err → Result Config
checked cfg none = ok cfg
checked cfg (some e) = err e

abbrev pub settings : Result Config → Result Config
settings (err e) = err (wrap "unmarshalling config: " e)
settings (ok cfg) = checked cfg (validate cfg)

-- Load
unfoldable pub load : Viper → Result Config
unfolding validate
load v = elim v.read_in_config [
  | none ↦ settings v.unmarshal
  | some e ↦
      if v.is_file_not_found e || contains (error_text e) "no such file"
      then settings v.unmarshal
      else err (wrap "reading .env file: " e)
]
