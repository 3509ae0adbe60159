-- ===== src/Sender/Reply.antt =====
-- internal/sender/http_sender.go: `sendToServer` and `parseRetryAfter`. Durations are in nanoseconds.
use gps_data_receiver.Prelude.{
  ℕ, suc, ◌-◌, ◌*◌, ◌%◌, ◌^◌, ◌==◌, [], ◌∷◌, Option, none, some, ◌||◌, not, if◌then◌else◌, ltb,
}
use gps_data_receiver.Prelude.Int.{ℤ, pos, negsuc}
use gps_data_receiver.Parser.Data.{Bytes}

-- What the libraries make of a header's text: strconv.Atoi, and http.ParseTime with the instant read.
pub record HeaderLibrary : Type 0 where
  pub atoi : Bytes → Option ℤ
  pub parse_time : Bytes → Option ℕ

-- int64(w) for a word below 2 ^ 64.
unfoldable pub int64 : ℕ → ℤ
int64 w = if ltb w (2 ^ 63) then pos w else negsuc (2 ^ 64 - w - 1)

-- time.Duration(seconds) * time.Second, which wraps
unfoldable pub seconds : ℤ → ℤ
unfolding int64
seconds (pos n) = int64 (n * 1_000_000_000 % 2 ^ 64)
seconds (negsuc n) = int64 ((2 ^ 64 - suc n * 1_000_000_000 % 2 ^ 64) % 2 ^ 64)

module _ (lib : HeaderLibrary) where
  retry_time : Option ℕ → ℕ → ℤ
  retry_time none now = pos 0
  retry_time (some t) now = pos (t - now)

  retry_seconds : Option ℤ → Bytes → ℕ → ℤ
  unfolding retry_time seconds
  retry_seconds (some n) header now = seconds n
  retry_seconds none header now = retry_time (lib.parse_time header) now

  unfoldable pub parse_retry_after : Bytes → ℕ → ℤ
  unfolding retry_seconds
  parse_retry_after [] now = pos 0
  parse_retry_after (b ∷ bs) now = retry_seconds (lib.atoi (b ∷ bs)) (b ∷ bs) now

-- The wait for a token, the making of the request and the exchange fail, or there is a response: its
-- status, its Retry-After header and the time it came.
pub data Reply : Type 0 where
  wait_failed request_failed exchange_failed : Reply
  response : ℕ → Bytes → ℕ → Reply

pub data SendError : Type 0 where
  rate_limiter_wait failed_to_create failed_to_send : SendError
  non_success_status : ℕ → SendError

-- The result of `sendToServer`; a rate limit with its delay.
pub data Outcome : Type 0 where
  delivered : Outcome
  rate_limited : ℕ → Outcome
  failed : SendError → Outcome

abbrev pub default_retry_after : ℕ
default_retry_after = 5_000_000_000

-- if retryAfter <= 0 { retryAfter = 5 * time.Second }
unfoldable pub positive_delay : ℤ → ℕ
positive_delay (pos n) = if n == 0 then default_retry_after else n
positive_delay (negsuc n) = default_retry_after

unfoldable pub send_to_server : HeaderLibrary → Reply → Outcome
unfolding positive_delay parse_retry_after
send_to_server lib wait_failed = failed rate_limiter_wait
send_to_server lib request_failed = failed failed_to_create
send_to_server lib exchange_failed = failed failed_to_send
send_to_server lib (response status header now) =
    if status == 429
    then rate_limited (positive_delay (parse_retry_after lib header now))
    else if ltb status 200 || not (ltb status 300)
    then failed (non_success_status status)
    else delivered
