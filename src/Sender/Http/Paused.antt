-- ===== src/Sender/Http/Paused.antt =====
-- internal/sender/http_sender.go: servers that asked for a pause.
use gps_data_receiver.Prelude.{
  ℕ, zero, suc, ◌+◌, ◌≤◌, ◌≡◌, refl, sym, ap, ◌∙◌, List, [], ◌∷◌, some, Option-cases, true, false,
  Bool-cases, inl, inr, arith, ◌==◌, leb, ltb, All, lookup, lookup-insert, bytes_eq, bytes_eq→≡,
  bytes_eq_refl,
}
use gps_data_receiver.Parser.Data.{Bytes}
use gps_data_receiver.Sender.Balancer.{LoadBalancer, next_server, server_count}
use gps_data_receiver.Sender.Reply.{Outcome, delivered, rate_limited, failed, send_to_server}
use gps_data_receiver.Sender.Http.{
  HttpSender, World, Attempt, Sent, Progress, after_attempt, try_server, send_loop, send,
  find_available, next_available_server, is_paused, pause_server, limited, unlucky, attempted,
  before, later,
}

-- The server is paused at least until u.
PausedTill : List (Bytes × ℕ) → Bytes → ℕ → Type 0
PausedTill paused server u = (t : ℕ) × (lookup server paused ≡ some t) × (u ≤ t)

pause_server-here :
    (paused : List (Bytes × ℕ)) (server : Bytes) (u : ℕ)
    → PausedTill (pause_server paused server u) server u
unfolding pause_server PausedTill
pause_server-here paused server u = elim (Option-cases (lookup server paused)) [
  | inl absent ↦
      rw absent (u, lookup-insert server server u paused ∙ rw (bytes_eq_refl server), omega arith)
  | inr (t, present) ↦ elim (Bool-cases (ltb t u)) [
    | inl longer ↦ rw present (
        rw longer
          (u, lookup-insert server server u paused ∙ rw (bytes_eq_refl server), omega arith))
    | inr shorter ↦ rw present (rw shorter (t, present, ground arith))
  ]
]

pause_server-keeps :
    (paused : List (Bytes × ℕ)) (server other : Bytes) (u v : ℕ)
    → PausedTill paused server u
    → PausedTill (pause_server paused other v) server u
unfolding pause_server PausedTill later
pause_server-keeps paused server other u v (t, present, long) =
    elim (Bool-cases (later v (lookup other paused))) [
      | inr shorter ↦ rw shorter (t, present, long)
      | inl longer ↦ elim (Bool-cases (bytes_eq server other)) [
        | inr differ ↦ rw longer (t, lookup-insert server other v paused ∙ rw differ present, long)
        | inl same ↦
            let found : lookup other paused ≡ some t =
              ap (λ (x : Bytes). lookup x paused) (sym (bytes_eq→≡ server other same)) ∙ present in
            let less : ltb t v ≡ true = ap (later v) (sym found) ∙ longer in
            rw longer (v, lookup-insert server other v paused ∙ rw same refl, ground arith)
      ]
    ]

-- A server that is paused until u is found only by a look at u or later.
find_available-late :
    (look : ℕ → ℕ) (paused : List (Bytes × ℕ)) (k i : ℕ) (lb : LoadBalancer) (server : Bytes)
    (u : ℕ)
    → PausedTill paused server u
    → (find_available look paused k i lb).0 ≡ some server
    → (j : ℕ) × (u ≤ look j)
unfolding find_available PausedTill is_paused before
find_available-late look paused zero i lb server u (t, present, long) found = absurd (cc found)
find_available-late look paused (suc k) i lb server u (t, present, long) found =
    let candidate : Bytes = (next_server lb).0 in
    elim (Bool-cases (is_paused paused candidate (look i))) [
      | inl paused_now ↦
          find_available-late look paused k (suc i) (next_server lb).1 server u (t, present, long)
            (rw paused_now at found)
      | inr free ↦
          let it : candidate ≡ server = cc (rw free at found) in
          let look_at : ltb (look i) t ≡ false =
            ap (before (look i)) (sym present)
            ∙ ap (λ (x : Bytes). is_paused paused x (look i)) (sym it)
            ∙ free in
          (i, ground arith)
    ]

-- Every attempt at the server is made after a look at u or later.
abbrev pub Waits : World → Bytes → ℕ → Attempt → Type 0
Waits w server u a = a.server ≡ server → (j : ℕ) × (u ≤ w.look a.number j)

module _ (w : World) (max : ℕ) where
  after_attempt-Waits :
      (next : Progress → Sent) (server tried : Bytes) (u n : ℕ) (o : Outcome) (p : Progress)
      → ((q : Progress)
          → PausedTill q.paused_until server u
          → All (Waits w server u) (next q).attempts)
      → PausedTill p.paused_until server u
      → All (Waits w server u) (after_attempt w max next n tried o p).attempts
  unfolding after_attempt
  after_attempt-Waits next server tried u n delivered p rest paused = tt
  after_attempt-Waits next server tried u n (rate_limited delay) p rest paused =
      rest (limited w max n tried delay p)
        (pause_server-keeps p.paused_until server tried u (w.after_reply n + delay) paused)
  after_attempt-Waits next server tried u n (failed e) p rest paused =
      elim (Bool-cases (leb max n)) [
        | inl last ↦ rw last tt
        | inr more ↦ elim (Bool-cases (w.cancelled n)) [
          | inl cancelled ↦ rw more (rw cancelled tt)
          | inr waited ↦ rw more (rw waited (rest (unlucky w max tried e p) paused))
        ]
      ]

  send_loop-Waits :
      (k n : ℕ) (p : Progress) (server : Bytes) (u : ℕ)
      → PausedTill p.paused_until server u
      → All (Waits w server u) (send_loop w max k n p).attempts
  unfolding send_loop try_server next_available_server
  send_loop-Waits zero n p server u paused = tt
  send_loop-Waits (suc k) n p server u paused =
      elim (Option-cases
        (find_available (w.look n) p.paused_until (server_count p.load_balancer) 0
          p.load_balancer).0) [
            | inl nothing ↦ rw nothing tt
            | inr (tried, found) ↦ rw found (
              (λ it.
                  find_available-late (w.look n) p.paused_until (server_count p.load_balancer) 0
                    p.load_balancer server u paused (found ∙ ap some it)),
              after_attempt-Waits (send_loop w max k (suc n)) server tried u n
                  (send_to_server w.library (w.reply n tried)) _
                  (λ q. send_loop-Waits k (suc n) q server u) paused,
            )
          ]

-- After an attempt that was rate limited, its server is tried again only after the delay.
unfoldable pub RespectsPauses : World → List Attempt → Type 0
RespectsPauses w [] = Unit
RespectsPauses w (a ∷ attempts) =
    ((delay : ℕ)
      → a.outcome ≡ rate_limited delay
      → All (Waits w a.server (w.after_reply a.number + delay)) attempts)
    × RespectsPauses w attempts

module _ (w : World) (max : ℕ) where
  after_attempt-RespectsPauses :
      (k n : ℕ) (tried : Bytes) (o : Outcome) (p : Progress)
      → ((q : Progress) → RespectsPauses w (send_loop w max k (suc n) q).attempts)
      → RespectsPauses w
          (attempted
            (record { server = tried; number = n; body = w.message; outcome = o })
            (after_attempt w max (send_loop w max k (suc n)) n tried o p)).attempts
  unfolding after_attempt RespectsPauses
  after_attempt-RespectsPauses k n tried delivered p rest = (λ delay h. tt, tt)
  after_attempt-RespectsPauses k n tried (rate_limited delay) p rest =
      let q : Progress = limited w max n tried delay p in
      (
        (λ d h.
            let same : delay ≡ d = cc h in
            send_loop-Waits w max k (suc n) q tried (w.after_reply n + d)
              (rw (sym same) (pause_server-here p.paused_until tried (w.after_reply n + delay)))),
        rest q,
      )
  after_attempt-RespectsPauses k n tried (failed e) p rest = (
    (λ d h. absurd (cc h)),
    elim (Bool-cases (leb max n)) [
      | inl last ↦ rw last tt
      | inr more ↦ elim (Bool-cases (w.cancelled n)) [
        | inl cancelled ↦ rw more (rw cancelled tt)
        | inr waited ↦ rw more (rw waited (rest (unlucky w max tried e p)))
      ]
    ],
  )

  send_loop-RespectsPauses :
      (k n : ℕ) (p : Progress) → RespectsPauses w (send_loop w max k n p).attempts
  unfolding send_loop try_server next_available_server RespectsPauses
  send_loop-RespectsPauses zero n p = tt
  send_loop-RespectsPauses (suc k) n p =
      elim (Option-cases
        (find_available (w.look n) p.paused_until (server_count p.load_balancer) 0
          p.load_balancer).0) [
            | inl nothing ↦ rw nothing tt
            | inr (tried, found) ↦ rw found (
                after_attempt-RespectsPauses k n tried (send_to_server w.library (w.reply n tried))
                  _ (send_loop-RespectsPauses k (suc n)))
          ]

-- After an attempt that a server answered with a rate limit, the same call of `Send` tries that
-- server again only if it looks at the clock when the delay since that answer is over.
pub send-RespectsPauses : (w : World) (s : HttpSender) → RespectsPauses w (send w s).attempts
unfolding send RespectsPauses
send-RespectsPauses w s = elim (Bool-cases (server_count s.load_balancer == 0)) [
  | inl none_there ↦ rw none_there tt
  | inr some_there ↦ rw some_there (send_loop-RespectsPauses w s.max_attempts s.max_attempts 1 _)
]
