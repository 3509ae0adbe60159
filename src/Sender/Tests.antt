-- ===== src/Sender/Tests.antt =====
-- internal/sender with concrete servers.
use gps_data_receiver.Prelude.{
  ℕ, ◌+◌, ◌%◌, ◌<◌, ◌≡◌, List, [], ◌∷◌, none, false, arith, length, get_or, ◌==◌, if◌then◌else◌,
}
use gps_data_receiver.Parser.Data.{Bytes}
use gps_data_receiver.Sender.Balancer.Rotation.{next_servers, next_servers_fair}
use gps_data_receiver.Sender.Reply.{Reply, response}
use gps_data_receiver.Sender.Http.{HttpSender, World, send}
use gps_data_receiver.Sender.Http.Attempts.{Truthful, send-Truthful}
use gps_data_receiver.Sender.Http.Paused.{RespectsPauses, send-RespectsPauses}

abbrev two_servers : List Bytes
two_servers = (b'a' ∷ []) ∷ (b'b' ∷ []) ∷ []

abbrev sender : HttpSender
sender = record {
  load_balancer = record { servers = two_servers; counter = 0 };
  max_attempts = 3;
  paused_until = [];
}

-- Each server limits the rate at first, the third attempt goes through.
abbrev replies : ℕ → Bytes → Reply
replies n server = response (if n == 3 then 200 else 429) [] 0

abbrev world : World
world = record {
  message = [];
  library = record { atoi = λ text. none; parse_time = λ text. none };
  look = λ n i. 10_000_000_000;
  reply = replies;
  after_reply = λ n. n;
  cancelled = λ n. false;
}

send-Truthful_example : Truthful world 3 3 1 (send world sender)
send-Truthful_example = send-Truthful world sender

send-RespectsPauses_example : RespectsPauses world (send world sender).attempts
send-RespectsPauses_example = send-RespectsPauses world sender

next_servers_fair_example :
    ((j : ℕ)
      → 0 < length two_servers
      → j < 5
      → get_or (next_servers 5 (record { servers = two_servers; counter = 7 })) j []
        ≡ get_or two_servers ((7 + j) % length two_servers) [])
    × ((i : ℕ)
        → i < length two_servers
        → (j : ℕ) × (j < length two_servers)
          × (get_or (next_servers 5 (record { servers = two_servers; counter = 7 })) j []
              ≡ get_or two_servers i []))
next_servers_fair_example = next_servers_fair two_servers 7 5 (omega arith) (omega arith)
