-- ===== src/Sender/Http.antt =====
-- internal/sender/http_sender.go: `Send`, the delivery with retries. One call runs alone: the balancer
-- and the pauses that calls share are its arguments and results.
pub mod Attempts
pub mod Paused
use gps_data_receiver.Prelude.{
  ℕ, zero, suc, ◌+◌, ◌-◌, ◌%◌, ◌==◌, ◌||◌, List, [], ◌∷◌, ◌++◌, Option, none, some, Bool, true,
  false, not, if◌then◌else◌, ltb, leb, lookup, insert, length,
}
use gps_data_receiver.Parser.Data.{Bytes}
use gps_data_receiver.Sender.Balancer.{LoadBalancer, next_server, server_count}
use gps_data_receiver.Sender.Reply.{
  HeaderLibrary, Reply, Outcome, delivered, rate_limited, failed, SendError, send_to_server,
}

pub record HttpSender : Type 0 where
  pub load_balancer : LoadBalancer
  pub max_attempts : ℕ
  pub paused_until : List (Bytes × ℕ)

-- The message of a call, and what the call meets: the time of each look at a pause (by attempt and candidate), the reply to each
-- attempt, the time after it, and whether the context ends in the wait that follows it.
pub record World : Type 0 where
  pub message : Bytes
  pub library : HeaderLibrary
  pub look : ℕ → ℕ → ℕ
  pub reply : ℕ → Bytes → Reply
  pub after_reply : ℕ → ℕ
  pub cancelled : ℕ → Bool

pub data SendFailure : Type 0 where
  no_servers_available : SendFailure
  err_rate_limited : Bytes → ℕ → SendFailure
  context_cancelled : SendFailure
  max_retry_attempts : Option SendError → SendFailure

-- `error` is none on success.
pub record SendResult : Type 0 where
  pub target_server : Bytes
  pub attempt : ℕ
  pub error : Option SendFailure

-- An attempt as the observers see it, with the message that it carried and what came of it.
pub record Attempt : Type 0 where
  pub server : Bytes
  pub number : ℕ
  pub body : Bytes
  pub outcome : Outcome

before : ℕ → Option ℕ → Bool
before now none = false
before now (some until) = ltb now until

unfoldable pub is_paused : List (Bytes × ℕ) → Bytes → ℕ → Bool
unfolding before
is_paused paused server now = before now (lookup server paused)

-- !ok || until.After(existing)
later : ℕ → Option ℕ → Bool
later until none = true
later until (some existing) = ltb existing until

unfoldable pub pause_server : List (Bytes × ℕ) → Bytes → ℕ → List (Bytes × ℕ)
unfolding later
pause_server paused server until =
    if later until (lookup server paused) then insert server until paused else paused

-- The loop of `nextAvailableServer`: k candidates are left, i went before.
unfoldable pub find_available :
    (ℕ → ℕ) → List (Bytes × ℕ) → ℕ → ℕ → LoadBalancer → Option Bytes × LoadBalancer
unfolding is_paused
find_available look paused zero i lb = (none, lb)
find_available look paused (suc k) i lb =
    let candidate = next_server lb in
    let rest = find_available look paused k (suc i) candidate.1 in
    if not (is_paused paused candidate.0 (look i)) then (some candidate.0, candidate.1) else rest

unfoldable pub next_available_server :
    (ℕ → ℕ) → List (Bytes × ℕ) → LoadBalancer → Option Bytes × LoadBalancer
unfolding find_available
next_available_server look paused lb = find_available look paused (server_count lb) 0 lb

-- The variables of the loop: the server of the last attempt, the last failure other than a rate limit
-- (it is read only when there was no rate limit), and the last rate limit.
pub record Progress : Type 0 where
  pub load_balancer : LoadBalancer
  pub paused_until : List (Bytes × ℕ)
  pub last_server : Bytes
  pub last_err : Option SendError
  pub rate_limit : Option (Bytes × ℕ)

pub record Sent : Type 0 where
  pub attempts : List Attempt
  pub result : SendResult
  pub load_balancer : LoadBalancer
  pub paused_until : List (Bytes × ℕ)

abbrev pub ends : Progress → SendResult → Sent
ends p r = record {
  attempts = [];
  result = r;
  load_balancer = p.load_balancer;
  paused_until = p.paused_until;
}

abbrev pub attempted : Attempt → Sent → Sent
attempted a s = record s { attempts = a ∷ s.attempts }

-- After the loop.
abbrev exhausted_with : Option (Bytes × ℕ) → ℕ → Progress → SendResult
exhausted_with (some rl) n p = record {
  target_server = rl.0;
  attempt = n;
  error = some (err_rate_limited rl.0 rl.1);
}
exhausted_with none n p = record {
  target_server = p.last_server;
  attempt = n;
  error = some (max_retry_attempts p.last_err);
}

-- No server is available: the last rate limit, or the end of the loop.
abbrev no_server : Option (Bytes × ℕ) → ℕ → ℕ → Progress → SendResult
no_server (some rl) n max p = record {
  target_server = rl.0;
  attempt = n - 1;
  error = some (err_rate_limited rl.0 rl.1);
}
no_server none n max p = exhausted_with p.rate_limit max p

module _ (w : World) (max : ℕ) where
  abbrev limited : ℕ → Bytes → ℕ → Progress → Progress
  limited n server delay p = record p {
    paused_until = pause_server p.paused_until server (w.after_reply n + delay);
    last_server = server;
    rate_limit = some (server, delay);
  }

  abbrev unlucky : Bytes → SendError → Progress → Progress
  unlucky server e p = record p { last_server = server; last_err = some e }

  abbrev pub success : Bytes → ℕ → SendResult
  success server n = record { target_server = server; attempt = n; error = none }

  -- What follows an attempt; `next` is the next round of the loop.
  after_attempt : (Progress → Sent) → ℕ → Bytes → Outcome → Progress → Sent
  after_attempt next n server delivered p = ends p (success server n)
  after_attempt next n server (rate_limited delay) p = next (limited n server delay p)
  after_attempt next n server (failed e) p =
      if leb max n
      then ends (unlucky server e p) (exhausted_with p.rate_limit max (unlucky server e p))
      else if w.cancelled n
      then ends (unlucky server e p)
          (record { target_server = server; attempt = n; error = some context_cancelled })
      else next (unlucky server e p)

  try_server : (Progress → Sent) → ℕ → Option Bytes → Progress → Sent
  unfolding after_attempt
  try_server next n none p = ends p (no_server p.rate_limit n max p)
  try_server next n (some server) p =
      let outcome = send_to_server w.library (w.reply n server) in
      attempted (record { server = server; number = n; body = w.message; outcome = outcome })
        (after_attempt next n server outcome p)

  -- The loop: k attempts are left, n is the number of the next.
  unfoldable pub send_loop : ℕ → ℕ → Progress → Sent
  unfolding try_server next_available_server
  send_loop zero n p = ends p (exhausted_with p.rate_limit max p)
  send_loop (suc k) n p =
      let found = next_available_server (w.look n) p.paused_until p.load_balancer in
      try_server (send_loop k (suc n)) n found.0 (record p { load_balancer = found.1 })

unfoldable pub send : World → HttpSender → Sent
unfolding send_loop
send w s =
    let start : Progress = record {
      load_balancer = s.load_balancer;
      paused_until = s.paused_until;
      last_server = [];
      last_err = none;
      rate_limit = none;
    } in
    if server_count s.load_balancer == 0
    then ends start (record { target_server = []; attempt = 0; error = some no_servers_available })
    else send_loop w s.max_attempts s.max_attempts 1 start
