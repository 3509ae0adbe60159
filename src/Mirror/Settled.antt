-- ===== src/Mirror/Settled.antt =====
-- internal/hooshnics/forwarder.go: how a delivery ends.
use gps_data_receiver.Prelude.{
  ℕ, zero, suc, ◌+◌, ◌≤◌, ◌<◌, ◌≡◌, ◌⊎◌, refl, List, [], ◌∷◌, Bool-cases, Bool, true, false, inl,
  inr, arith, ◌||◌, ◌&&◌, ◌==◌,
}
use gps_data_receiver.Mirror.{
  Disk, PostReply, status, post_error, Action, posted, waited, spilled, max_delivery_attempts,
  first_backoff, longest_backoff, is_accepted, is_rejected, next_backoff, spill, deliver_loop,
  deliver,
}

abbrev pub IsSuccess : PostReply → Type 0
IsSuccess (status n) = (200 ≤ n) × (n < 300)
IsSuccess post_error = ⊥

-- After a post with a 2xx status nothing is done; after each other post come a wait or the writing to
-- the disk, and that is the last.
unfoldable pub Settled : Disk → List Action → Type 0
Settled disk [] = ⊥
Settled disk (posted r ∷ actions) =
    (IsSuccess r × (actions ≡ [])) ⊎ ((IsSuccess r → ⊥) × Settled disk actions)
Settled disk (waited d ∷ actions) = (d ≤ 15_000_000_000) × Settled disk actions
Settled disk (spilled written ∷ actions) =
    (actions ≡ []) × (written ≡ (disk.makes_dir && disk.writes_file))

is_accepted-IsSuccess : (r : PostReply) → is_accepted r ≡ true → IsSuccess r
unfolding is_accepted
is_accepted-IsSuccess (status n) e = (ground arith, ground arith)
is_accepted-IsSuccess post_error e = absurd (cc e)

is_accepted-fails : (r : PostReply) → is_accepted r ≡ false → IsSuccess r → ⊥
unfolding is_accepted
is_accepted-fails (status n) e (low, high) = ground arith
is_accepted-fails post_error e h = h

spill-Settled : (disk : Disk) → Settled disk (spill disk ∷ [])
unfolding Settled spill
spill-Settled disk = elim (Bool-cases disk.makes_dir) [
  | inl made ↦ rw (Settled, made) (refl, rw made refl)
  | inr failed ↦ rw (Settled, failed) (refl, rw failed refl)
]

Settled-accepted :
    (disk : Disk) (r : PostReply) → is_accepted r ≡ true → Settled disk (posted r ∷ [])
unfolding Settled
Settled-accepted disk r e = inl (is_accepted-IsSuccess r e, refl)

Settled-refused :
    (disk : Disk) (r : PostReply) (actions : List Action)
    → is_accepted r ≡ false
    → Settled disk actions
    → Settled disk (posted r ∷ actions)
unfolding Settled
Settled-refused disk r actions e h = inr (is_accepted-fails r e, h)

abbrev pub posts : List Action → ℕ
posts [] = 0
posts (posted r ∷ actions) = suc (posts actions)
posts (waited d ∷ actions) = posts actions
posts (spilled written ∷ actions) = posts actions

posts-spill : (disk : Disk) → posts (spill disk ∷ []) ≡ 0
unfolding spill
posts-spill disk = elim (Bool-cases disk.makes_dir) [
  | inl made ↦ rw made refl
  | inr failed ↦ rw failed refl
]

next_backoff_le : (backoff : ℕ) → next_backoff backoff ≤ longest_backoff
unfolding next_backoff
next_backoff_le backoff = ground arith

deliver_loop-Settled :
    (disk : Disk) (reply : ℕ → PostReply) (closed : ℕ → Bool) (k n backoff : ℕ)
    → n + k ≡ max_delivery_attempts
    → backoff ≤ longest_backoff
    → Settled disk (deliver_loop disk reply closed (suc k) n backoff)
      × (posts (deliver_loop disk reply closed (suc k) n backoff) ≤ suc k)
unfolding deliver_loop Settled
deliver_loop-Settled disk reply closed zero n backoff last short =
    let final : (n == max_delivery_attempts) ≡ true = ground arith in
    elim (Bool-cases (is_accepted (reply n))) [
      | inl ended ↦ rw (deliver_loop, ended) (Settled-accepted disk (reply n) ended, omega arith)
      | inr differs ↦ elim (Bool-cases (is_rejected (reply n))) [
        | inl stops ↦
            rw (deliver_loop, differs)
              (rw stops (
                Settled-refused disk (reply n) (spill disk ∷ []) differs (spill-Settled disk),
                omega (arith, posts-spill disk),
              ))
        | inr other ↦
            rw (deliver_loop, differs)
              (rw other (
                rw final (
                  Settled-refused disk (reply n) (spill disk ∷ []) differs (spill-Settled disk),
                  omega (arith, posts-spill disk),
                )))
      ]
    ]
deliver_loop-Settled disk reply closed (suc k) n backoff last short =
    elim (Bool-cases (is_accepted (reply n))) [
      | inl ended ↦ rw (deliver_loop, ended) (Settled-accepted disk (reply n) ended, omega arith)
      | inr differs ↦
          elim (Bool-cases (is_rejected (reply n) || n == max_delivery_attempts || closed n)) [
            | inl stops ↦
                rw (deliver_loop, differs)
                  (rw stops (
                    Settled-refused disk (reply n) (spill disk ∷ []) differs (spill-Settled disk),
                    omega (arith, posts-spill disk),
                  ))
            | inr goes ↦
                let (settled, few) =
                  deliver_loop-Settled disk reply closed k (suc n) (next_backoff backoff)
                    (omega arith) (next_backoff_le backoff) in
                rw (deliver_loop, differs)
                  (rw goes (
                    Settled-refused disk (reply n)
                        (waited backoff
                          ∷ deliver_loop disk reply closed (suc k) (suc n) (next_backoff backoff))
                        differs (short, settled),
                    omega (arith, few),
                  ))
          ]
    ]

-- A delivery makes at most five posts, with no wait over 15 seconds, and ends in one of two ways: a
-- post gets a 2xx status, it is the first that does, and it is the last action; or no post gets one,
-- and the last action is to write the job to the disk, once. It is on the disk then if its directory
-- can be made and its file be written, and otherwise it is lost.
pub deliver-Settled :
    (disk : Disk) (reply : ℕ → PostReply) (closed : ℕ → Bool)
    → Settled disk (deliver disk reply closed)
      × (posts (deliver disk reply closed) ≤ max_delivery_attempts)
unfolding deliver
deliver-Settled disk reply closed =
    deliver_loop-Settled disk reply closed 4 1 first_backoff (omega arith) (omega arith)
