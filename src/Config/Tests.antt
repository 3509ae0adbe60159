-- ===== src/Config/Tests.antt =====
-- internal/config at a concrete environment.
use gps_data_receiver.Prelude.{ℕ, [], none, some, bytes_eq, codes, if◌then◌else◌}
use gps_data_receiver.Parser.Data.{Bytes}
use gps_data_receiver.Config.{read_config, load}
use gps_data_receiver.Config.Values.{Environment}
use gps_data_receiver.Config.Valid.{Decided, load-Decided}

abbrev variables : Bytes → Bytes
variables name =
    if bytes_eq name (codes "DESTINATION_SERVERS")
    then codes "http://a, http://b,"
    else if bytes_eq name (codes "HOOSHNIX_MIRROR_ENABLED")
    then codes "1"
    else if bytes_eq name (codes "HOOSHNICS_AUTH_TOKEN")
    then codes "t"
    else if bytes_eq name (codes "HOOSHNICS_RAW_URL")
    then codes "http://c"
    else []

abbrev environment : Environment ℕ
environment = record {
  getenv = variables;
  parse_int = λ text. none;
  parse_int64 = λ text. none;
  parse_duration = λ text. none;
  parse_bool = λ text. some (bytes_eq text (codes "1"));
  parse_float = λ text. none;
  one_hundredth = 1;
}

load-Decided_example : Decided environment (read_config environment) (load environment)
load-Decided_example = load-Decided environment
