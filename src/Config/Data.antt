-- ===== src/Config/Data.antt =====
-- internal/config/config.go: the parts of the configuration. `F` stands for Go's float64.
use gps_data_receiver.Prelude.{List, Bool}
use gps_data_receiver.Prelude.Int.{ℤ}
use gps_data_receiver.Parser.Data.{Bytes}

pub record HooshnicsConfig : Type 0 where
  pub enabled : Bool
  pub auth_token : Bytes
  pub raw_url : Bytes
  pub parsed_url : Bytes
  pub buffer_size : ℤ
  pub spill_dir : Bytes
  pub timeout : ℤ
  pub workers : ℤ

pub record ServerConfig : Type 0 where
  pub port : Bytes
  pub host : Bytes
  pub request_timeout : ℤ
  pub max_request_size : ℤ

pub record RedisConfig : Type 0 where
  pub host : Bytes
  pub port : Bytes
  pub password : Bytes
  pub db : ℤ
  pub stream_name : Bytes
  pub consumer_group : Bytes
  pub max_len : ℤ
  pub pool_size : ℤ
  pub queue_backpressure_limit : ℤ

pub record WorkerConfig : Type 0 where
  pub count : ℤ
  pub batch_size : ℤ

pub record RetryConfig : Type 0 where
  pub max_attempts : ℤ
  pub delay_first : ℤ
  pub delay_subsequent : ℤ

pub record HttpConfig : Type 0 where
  pub timeout : ℤ
  pub max_idle_conns : ℤ
  pub max_conns_per_host : ℤ
  pub destination_servers : List Bytes

pub record RateLimitConfig : Type 0 where
  pub requests_per_second : ℤ
  pub burst : ℤ

pub record OutgoingRateLimitConfig : Type 0 where
  pub requests_per_second : ℤ
  pub burst_size : ℤ

pub record LoggingConfig : Type 0 where
  pub level : Bytes
  pub format : Bytes

pub record FilterConfig : Type 0 where
  pub enabled : Bool
  pub redis_sync_interval : ℤ

pub record TrackingConfig (F : Type 0) : Type 0 where
  pub enabled : Bool
  pub sample_rate : F
  pub max_requests : ℤ

pub record PostgresConfig : Type 0 where
  pub enabled : Bool
  pub host : Bytes
  pub port : Bytes
  pub user : Bytes
  pub password : Bytes
  pub db_name : Bytes
  pub ssl_mode : Bytes

pub record TeltonikaConfig : Type 0 where
  pub tcp_enabled : Bool
  pub tcp_host : Bytes
  pub tcp_port : Bytes
  pub timezone_offset : ℤ
  pub imei_whitelist : List Bytes

pub record Config (F : Type 0) : Type 0 where
  pub server : ServerConfig
  pub redis : RedisConfig
  pub worker : WorkerConfig
  pub retry : RetryConfig
  pub http : HttpConfig
  pub rate_limit : RateLimitConfig
  pub outgoing_rate_limit : OutgoingRateLimitConfig
  pub logging : LoggingConfig
  pub filter : FilterConfig
  pub tracking : TrackingConfig F
  pub postgres : PostgresConfig
  pub teltonika : TeltonikaConfig
  pub hooshnics : HooshnicsConfig

pub data ConfigError : Type 0 where
  destination_servers_missing auth_token_missing url_missing : ConfigError
