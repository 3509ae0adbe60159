-- ===== src/Config.antt =====
-- internal/config/config.go: the configuration from the environment. `F` stands for Go's float64.
pub mod Data
pub mod Values
pub mod Valid
mod Tests
use gps_data_receiver.Prelude.{
  ℕ, ◌*◌, ◌==◌, ◌&&◌, List, [], ◌∷◌, ◌++◌, Bool, true, false, if◌then◌else◌, ltb, length, codes,
}
use gps_data_receiver.Prelude.Int.{ℤ, pos, negsuc}
use gps_data_receiver.Prelude.Result.{Result, ok, err}
use gps_data_receiver.Parser.Data.{Bytes}
use gps_data_receiver.Config.Values.{
  Environment, get_env, get_env_any, get_value, get_value_any, get_slice,
}
use gps_data_receiver.Config.Data.{
  Config, ConfigError, destination_servers_missing, auth_token_missing, url_missing, RedisConfig,
  PostgresConfig,
}

-- Durations are in nanoseconds.
abbrev seconds : ℕ → ℤ
seconds n = pos (n * 1_000_000_000)

abbrev pub is_empty : Bytes → Bool
is_empty text = length text == 0

-- n > 0 and m > n, on signed integers
unfoldable pub positive : ℤ → Bool
positive (pos n) = ltb 0 n
positive (negsuc n) = false

unfoldable pub exceeds : ℤ → ℤ → Bool
exceeds (pos m) (pos n) = ltb n m
exceeds (pos m) (negsuc n) = true
exceeds (negsuc m) (pos n) = false
exceeds (negsuc m) (negsuc n) = ltb m n

module _ {F : Type 0} (env : Environment F) where
  abbrev text : Bytes → Bytes → Bytes
  text = get_env env

  abbrev int : Bytes → ℤ → ℤ
  int = get_value env env.parse_int

  abbrev int64 : Bytes → ℤ → ℤ
  int64 = get_value env env.parse_int64

  abbrev duration : Bytes → ℤ → ℤ
  duration = get_value env env.parse_duration

  abbrev get_bool : Bytes → Bool → Bool
  get_bool = get_value env env.parse_bool

  abbrev get_float64 : Bytes → F → F
  get_float64 = get_value env env.parse_float

  -- The names with the spelling that is accepted as well.
  abbrev two : Bytes → List Bytes
  two name = (codes "HOOSHNICS_" ++ name) ∷ (codes "HOOSHNIX_" ++ name) ∷ []

  -- The configuration before it is validated.
  unfoldable pub read_config : Config F
  unfolding get_env get_env_any get_value get_value_any get_slice
  read_config = record {
    server = record {
      port = text (codes "SERVER_PORT") (codes "8080");
      host = text (codes "SERVER_HOST") (codes "0.0.0.0");
      request_timeout = duration (codes "REQUEST_TIMEOUT") (seconds 5);
      max_request_size = int64 (codes "MAX_REQUEST_SIZE") (pos 1_048_576);
    };
    redis = record {
      host = text (codes "REDIS_HOST") (codes "localhost");
      port = text (codes "REDIS_PORT") (codes "6379");
      password = text (codes "REDIS_PASSWORD") [];
      db = int (codes "REDIS_DB") (pos 0);
      stream_name = text (codes "REDIS_STREAM_NAME") (codes "gps:reports");
      consumer_group = text (codes "REDIS_CONSUMER_GROUP") (codes "gps-workers");
      max_len = int64 (codes "REDIS_MAX_LEN") (pos 50_000);
      pool_size = int (codes "REDIS_POOL_SIZE") (pos 500);
      queue_backpressure_limit = int64 (codes "QUEUE_BACKPRESSURE_LIMIT") (pos 0);
    };
    worker = record {
      count = int (codes "WORKER_COUNT") (pos 50);
      batch_size = int (codes "WORKER_BATCH_SIZE") (pos 100);
    };
    retry = record {
      max_attempts = int (codes "MAX_RETRY_ATTEMPTS") (pos 3);
      delay_first = duration (codes "RETRY_DELAY_FIRST") (pos 500_000_000);
      delay_subsequent = duration (codes "RETRY_DELAY_SUBSEQUENT") (seconds 1);
    };
    http = record {
      timeout = duration (codes "HTTP_CLIENT_TIMEOUT") (seconds 10);
      max_idle_conns = int (codes "HTTP_CLIENT_MAX_IDLE_CONNS") (pos 500);
      max_conns_per_host = int (codes "HTTP_CLIENT_MAX_CONNS_PER_HOST") (pos 100);
      destination_servers = get_slice env (codes "DESTINATION_SERVERS") [];
    };
    rate_limit = record {
      requests_per_second = int (codes "RATE_LIMIT_REQUESTS_PER_SECOND") (pos 15_000);
      burst = int (codes "RATE_LIMIT_BURST") (pos 20_000);
    };
    outgoing_rate_limit = record {
      requests_per_second = int (codes "OUTGOING_RATE_LIMIT_RPS") (pos 50);
      burst_size = int (codes "OUTGOING_RATE_LIMIT_BURST") (pos 100);
    };
    logging = record {
      level = text (codes "LOG_LEVEL") (codes "info");
      format = text (codes "LOG_FORMAT") (codes "json");
    };
    filter = record {
      enabled = get_bool (codes "FILTER_ENABLED") false;
      redis_sync_interval = duration (codes "FILTER_REDIS_SYNC_INTERVAL") (seconds 30);
    };
    tracking = record {
      enabled = get_bool (codes "TRACKING_ENABLED") true;
      sample_rate = get_float64 (codes "TRACKING_SAMPLE_RATE") env.one_hundredth;
      max_requests = int (codes "TRACKING_MAX_REQUESTS") (pos 10_000);
    };
    postgres = record {
      enabled = get_bool (codes "POSTGRES_ENABLED") true;
      host = text (codes "POSTGRES_HOST") (codes "localhost");
      port = text (codes "POSTGRES_PORT") (codes "5432");
      user = text (codes "POSTGRES_USER") (codes "gps");
      password = text (codes "POSTGRES_PASSWORD") (codes "gps");
      db_name = text (codes "POSTGRES_DB") (codes "gps_receiver");
      ssl_mode = text (codes "POSTGRES_SSLMODE") (codes "disable");
    };
    teltonika = record {
      tcp_enabled = get_bool (codes "TELTONIKA_TCP_ENABLED") false;
      tcp_host = text (codes "TELTONIKA_TCP_HOST") (codes "0.0.0.0");
      tcp_port = text (codes "TELTONIKA_TCP_PORT") (codes "5055");
      timezone_offset = duration (codes "TELTONIKA_TIMEZONE_OFFSET") (seconds 12_600);
      imei_whitelist = get_slice env (codes "TELTONIKA_IMEI_WHITELIST") [];
    };
    hooshnics = record {
      enabled = get_value_any env env.parse_bool (two (codes "MIRROR_ENABLED")) false;
      auth_token = get_env_any env (two (codes "AUTH_TOKEN")) [];
      raw_url = get_env_any env (two (codes "RAW_URL")) [];
      parsed_url = get_env_any env (two (codes "PARSED_URL")) [];
      buffer_size = get_value_any env env.parse_int (two (codes "BUFFER_SIZE")) (pos 50_000);
      spill_dir = get_env_any env (two (codes "SPILL_DIR")) (codes "logs/hooshnics_spill");
      timeout = get_value_any env env.parse_duration (two (codes "TIMEOUT")) (seconds 15);
      workers = get_value_any env env.parse_int (two (codes "WORKERS")) (pos 4);
    };
  }

  -- No more workers than the destinations may get requests in a second.
  unfoldable pub bound_workers : Config F → Config F
  unfolding positive exceeds
  bound_workers c =
      let rate = (c.outgoing_rate_limit).requests_per_second in
      if positive rate && exceeds (c.worker).count rate
      then record c { worker = record c.worker { count = rate } }
      else c

  unfoldable pub validate : Config F → Result ConfigError (Config F)
  unfolding bound_workers
  validate c =
      if length (c.http).destination_servers == 0
      then err destination_servers_missing
      else if (c.hooshnics).enabled && is_empty (c.hooshnics).auth_token
      then err auth_token_missing
      else if (c.hooshnics).enabled
          && (is_empty (c.hooshnics).raw_url && is_empty (c.hooshnics).parsed_url)
      then err url_missing
      else ok (bound_workers c)

  unfoldable pub load : Result ConfigError (Config F)
  unfolding validate read_config
  load = validate read_config

abbrev pub get_addr : RedisConfig → Bytes
get_addr c = c.host ++ codes ":" ++ c.port

abbrev pub dsn : PostgresConfig → Bytes
dsn c =
    codes "host="
    ++ c.host
    ++ codes " port="
    ++ c.port
    ++ codes " user="
    ++ c.user
    ++ codes " password="
    ++ c.password
    ++ codes " dbname="
    ++ c.db_name
    ++ codes " sslmode="
    ++ c.ssl_mode
