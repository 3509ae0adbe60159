-- ===== src/Sender/Balancer/Rotation.antt =====
-- internal/sender/load_balancer.go: the balancer is fair.
use gps_data_receiver.Prelude.{
  ℕ, zero, suc, ◌+◌, ◌-◌, ◌%◌, ◌^◌, ◌≤◌, ◌<◌, ◌==◌, false, ◌≡◌, sym, ap, ◌∙◌, List, [], ◌∷◌, arith,
  length, get_or, ltb, Bool-cases, inl, inr,
}
use native.Mathlib.Nat.{mod-lt, mod-eq_of_lt, mod-add-mod, add-mod_right}
use gps_data_receiver.Parser.Data.{Bytes}
use gps_data_receiver.Sender.Balancer.{LoadBalancer, next_server}

-- The answers of the next k calls.
unfoldable pub next_servers : ℕ → LoadBalancer → List Bytes
next_servers zero lb = []
next_servers (suc k) lb = (next_server lb).0 ∷ next_servers k (next_server lb).1

next_servers-get_or :
    (servers : List Bytes) (k c j : ℕ)
    → 0 < length servers
    → c + k < 2 ^ 64
    → j < k
    → get_or (next_servers k (record { servers = servers; counter = c })) j []
      ≡ get_or servers ((c + j) % length servers) []
unfolding next_servers next_server
next_servers-get_or [] k c j some_server small inside = absurd (omega arith)
next_servers-get_or (s ∷ ss) zero c j some_server small inside = absurd (omega arith)
next_servers-get_or (s ∷ ss) (suc k) c zero some_server small inside =
    let full : (suc (length ss) == 0) ≡ false = ground arith in
    let still : c ≡ c + 0 = omega arith in
    rw full (ap (λ (x : ℕ). get_or (s ∷ ss) (x % length (s ∷ ss)) []) still)
next_servers-get_or (s ∷ ss) (suc k) c (suc j) some_server small inside =
    let next : (c + 1) % 2 ^ 64 ≡ c + 1 = omega arith in
    let shift : c + suc j ≡ c + 1 + j = omega arith in
    let full : (suc (length ss) == 0) ≡ false = ground arith in
    rw full (
      rw next (
        rw shift
          (next_servers-get_or (s ∷ ss) k (c + 1) j some_server (omega arith) (omega arith))))

-- Some j below n has (c + j) % n ≡ i.
mod-reaches : (n c i : ℕ) → i < n → (j : ℕ) × (j < n) × ((c + j) % n ≡ i)
mod-reaches n c i below =
    let small : c % n < n = mod-lt c (omega arith) in
    elim (Bool-cases (ltb i (c % n))) [
      | inl behind ↦
          let sum : c % n + (i + n - c % n) ≡ i + n = ground arith in
          (
            i + n - c % n,
            ground arith,
            sym (mod-add-mod c n (i + n - c % n))
                ∙ ap (λ (x : ℕ). x % n) sum
                ∙ add-mod_right i n
                ∙ mod-eq_of_lt below,
          )
      | inr ahead ↦
          let sum : c % n + (i - c % n) ≡ i = ground arith in
          (
            i - c % n,
            ground arith,
            sym (mod-add-mod c n (i - c % n)) ∙ ap (λ (x : ℕ). x % n) sum ∙ mod-eq_of_lt below,
          )
    ]

-- Round robin, until the counter wraps: call number j of the next k has the server at (counter + j)
-- mod the number of servers, and each server is among the answers of as many calls as there are
-- servers.
pub next_servers_fair :
    (servers : List Bytes) (c k : ℕ)
    → length servers ≤ k
    → c + k < 2 ^ 64
    → ((j : ℕ)
        → 0 < length servers
        → j < k
        → get_or (next_servers k (record { servers = servers; counter = c })) j []
          ≡ get_or servers ((c + j) % length servers) [])
      × ((i : ℕ)
          → i < length servers
          → (j : ℕ) × (j < length servers)
            × (get_or (next_servers k (record { servers = servers; counter = c })) j []
                ≡ get_or servers i []))
next_servers_fair servers c k enough small = (
  λ j some_server inside. next_servers-get_or servers k c j some_server small inside,
  λ i below.
      let (j, inside, at_i) = mod-reaches (length servers) c i below in
      (
        j,
        inside,
        next_servers-get_or servers k c j (omega arith) small (omega arith)
            ∙ ap (λ (x : ℕ). get_or servers x []) at_i,
      ),
)
