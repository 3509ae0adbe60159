-- ===== src/Sender/Balancer.antt =====
-- internal/sender/load_balancer.go
pub mod Rotation
use gps_data_receiver.Prelude.{
  ℕ, zero, suc, ◌+◌, ◌%◌, ◌^◌, ◌==◌, List, [], ◌∷◌, Option, if◌then◌else◌, length, get_or,
}
use gps_data_receiver.Parser.Data.{Bytes}

-- `counter` is a uint64.
pub record LoadBalancer : Type 0 where
  pub servers : List Bytes
  pub counter : ℕ

abbrev pub new_load_balancer : List Bytes → LoadBalancer
new_load_balancer servers = record { servers = servers; counter = 0 }

unfoldable pub next_server : LoadBalancer → Bytes × LoadBalancer
next_server lb = if length lb.servers == 0 then ([], lb) else (
  get_or lb.servers (lb.counter % length lb.servers) [],
  record { servers = lb.servers; counter = (lb.counter + 1) % 2 ^ 64 },
)

abbrev pub server_count : LoadBalancer → ℕ
server_count lb = length lb.servers
