-- ===== src/Sender/Http/Attempts.antt =====
-- internal/sender/http_sender.go: what `Send` reports is what happened.
use gps_data_receiver.Prelude.{
  ℕ, zero, suc, ◌≤◌, ◌≡◌, ◌≢◌, refl, List, [], ◌∷◌, Option, none, some, Bool-cases, inl, inr, arith,
  ◌==◌, leb, length,
}
use gps_data_receiver.Parser.Data.{Bytes}
use gps_data_receiver.Sender.Balancer.{server_count}
use gps_data_receiver.Sender.Reply.{
  Outcome, delivered, rate_limited, failed, send_to_server, SendError,
}
use gps_data_receiver.Sender.Http.{
  HttpSender, World, SendResult, Attempt, Sent, Progress, success, exhausted_with, no_server,
  after_attempt, try_server, send_loop, send, limited, unlucky, attempted, ends,
}

-- The attempts are numbered from n on.
unfoldable pub Numbered : ℕ → List Attempt → Type 0
Numbered n [] = Unit
Numbered n (a ∷ attempts) = (a.number ≡ n) × Numbered (suc n) attempts

-- The result is a success just when an attempt delivered the message: it is the last, the only one
-- that did, and the result names it.
unfoldable pub Tells : World → ℕ → List Attempt → SendResult → Type 0
Tells w max [] r = r.error ≢ none
Tells w max (a ∷ attempts) r = elim a.outcome [
  | delivered ↦ (attempts ≡ []) × (a.body ≡ w.message) × (r ≡ success w max a.server a.number)
  | rate_limited delay ↦ Tells w max attempts r
  | failed e ↦ Tells w max attempts r
]

pub record Truthful (w : World) (max k n : ℕ) (s : Sent) : Type 0 where
  pub bounded : length s.attempts ≤ k
  pub numbered : Numbered n s.attempts
  pub tells : Tells w max s.attempts s.result

module _ (w : World) (max : ℕ) where
  exhausted_with-fails :
      (rl : Option (Bytes × ℕ)) (n : ℕ) (p : Progress) → (exhausted_with rl n p).error ≢ none
  exhausted_with-fails (some rl) n p e = cc e
  exhausted_with-fails none n p e = cc e

  no_server-fails :
      (rl : Option (Bytes × ℕ)) (n : ℕ) (p : Progress) → (no_server rl n max p).error ≢ none
  no_server-fails (some rl) n p e = cc e
  no_server-fails none n p e = exhausted_with-fails p.rate_limit max p e

  failed-Truthful :
      (a : Attempt) (e : SendError) (k n : ℕ) (q : Progress) (r : SendResult)
      → a.outcome ≡ failed e
      → a.number ≡ n
      → r.error ≢ none
      → Truthful w max (suc k) n (attempted a (ends q r))
  unfolding Numbered Tells
  failed-Truthful a e k n q r failure number fails = record {
    bounded = omega arith;
    numbered = (number, tt);
    tells = rw failure fails;
  }

  after_attempt-Truthful :
      (next : Progress → Sent) (k n : ℕ) (server : Bytes) (o : Outcome) (p : Progress)
      → ((q : Progress) → Truthful w max k (suc n) (next q))
      → Truthful w max (suc k) n (
          attempted
            (record { server = server; number = n; body = w.message; outcome = o })
            (after_attempt w max next n server o p))
  unfolding Numbered Tells after_attempt
  after_attempt-Truthful next k n server delivered p rest = record {
    bounded = omega arith;
    numbered = (refl, tt);
    tells = (refl, refl, refl);
  }
  after_attempt-Truthful next k n server (rate_limited delay) p rest =
      let t = rest (limited w max n server delay p) in
      record { bounded = omega (arith, t.bounded); numbered = (refl, t.numbered); tells = t.tells }
  after_attempt-Truthful next k n server (failed e) p rest =
      let q : Progress = unlucky w max server e p in
      elim (Bool-cases (leb max n)) [
        | inl last ↦ rw last (
            failed-Truthful _ e k n q (exhausted_with p.rate_limit max q) refl refl
              (exhausted_with-fails p.rate_limit max q))
        | inr more ↦ elim (Bool-cases (w.cancelled n)) [
          | inl cancelled ↦
              rw more (rw cancelled (failed-Truthful _ e k n q _ refl refl (λ h. cc h)))
          | inr waited ↦
              let t = rest q in
              rw more (
                rw waited (record {
                  bounded = omega (arith, t.bounded);
                  numbered = (refl, t.numbered);
                  tells = t.tells;
                }))
        ]
      ]

  try_server-Truthful :
      (next : Progress → Sent) (k n : ℕ) (server : Option Bytes) (p : Progress)
      → ((q : Progress) → Truthful w max k (suc n) (next q))
      → Truthful w max (suc k) n (try_server w max next n server p)
  unfolding try_server Numbered Tells after_attempt
  try_server-Truthful next k n none p rest = record {
    bounded = omega arith;
    numbered = tt;
    tells = no_server-fails p.rate_limit n p;
  }
  try_server-Truthful next k n (some server) p rest =
      after_attempt-Truthful next k n server (send_to_server w.library (w.reply n server)) p rest

  send_loop-Truthful : (k n : ℕ) (p : Progress) → Truthful w max k n (send_loop w max k n p)
  unfolding send_loop Numbered Tells
  send_loop-Truthful zero n p = record {
    bounded = omega arith;
    numbered = tt;
    tells = exhausted_with-fails p.rate_limit max p;
  }
  send_loop-Truthful (suc k) n p =
      try_server-Truthful (send_loop w max k (suc n)) k n _ _ (send_loop-Truthful k (suc n))

-- `Send` makes at most `max_attempts` attempts, numbered from 1, and reports a success just when an
-- attempt delivered the message: that attempt carried the call's message, it is the last, no other
-- delivered it, and the result names its server and number.
pub send-Truthful :
    (w : World) (s : HttpSender) → Truthful w s.max_attempts s.max_attempts 1 (send w s)
unfolding send Numbered Tells
send-Truthful w s = elim (Bool-cases (server_count s.load_balancer == 0)) [
  | inl none_there ↦
      rw none_there (record { bounded = omega arith; numbered = tt; tells = λ e. cc e })
  | inr some_there ↦ rw some_there (send_loop-Truthful w s.max_attempts s.max_attempts 1 _)
]
