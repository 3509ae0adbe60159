-- ===== src/Mirror.antt =====
-- internal/hooshnics/forwarder.go: the mirror of what devices send, its queue and its delivery.
pub mod Settled
pub mod Encoding
pub mod Tests
use gps_data_receiver.Prelude.{
  ℕ, zero, suc, ◌+◌, ◌*◌, ◌==◌, ◌&&◌, List, [], ◌∷◌, ◌++◌, Option, Bool, true, false, not,
  if◌then◌else◌, ◌||◌, ltb, length,
}
use gps_data_receiver.Parser.Data.{Bytes}

pub data Kind : Type 0 where
  raw_kind parsed_kind : Kind

pub record Job : Type 0 where
  pub kind : Kind
  pub url : Bytes
  pub body : Bytes
  pub headers : List (Bytes × Bytes)

-- `post`: a status, or an error.
pub data PostReply : Type 0 where
  status : ℕ → PostReply
  post_error : PostReply

-- Whether MkdirAll and WriteFile go through.
pub record Disk : Type 0 where
  pub makes_dir : Bool
  pub writes_file : Bool

-- What a delivery does: a post, a wait in nanoseconds, the writing of the job to the disk, and whether
-- it went through; where it did not, the job is logged and lost.
pub data Action : Type 0 where
  posted : PostReply → Action
  waited : ℕ → Action
  spilled : Bool → Action

abbrev pub max_delivery_attempts : ℕ
max_delivery_attempts = 5

abbrev pub first_backoff : ℕ
first_backoff = 500_000_000

abbrev pub longest_backoff : ℕ
longest_backoff = 15_000_000_000

unfoldable pub is_accepted : PostReply → Bool
is_accepted (status n) = not (ltb n 200) && ltb n 300
is_accepted post_error = false

unfoldable pub is_rejected : PostReply → Bool
is_rejected (status n) = not (ltb n 400) && ltb n 500 && not (n == 429)
is_rejected post_error = false

unfoldable pub next_backoff : ℕ → ℕ
next_backoff backoff = if ltb longest_backoff (backoff * 2) then longest_backoff else backoff * 2

unfoldable pub spill : Disk → Action
spill disk = if not disk.makes_dir then spilled false else spilled disk.writes_file

-- `reply` is what each attempt gets; `closed`: the forwarder is closed in the wait after it. The loop
-- has k attempts left, of which n is the number of the first.
unfoldable pub deliver_loop : Disk → (ℕ → PostReply) → (ℕ → Bool) → ℕ → ℕ → ℕ → List Action
unfolding is_accepted is_rejected next_backoff spill
deliver_loop disk reply closed zero n backoff = []
deliver_loop disk reply closed (suc k) n backoff =
    let rest = deliver_loop disk reply closed k (suc n) (next_backoff backoff) in
    if is_accepted (reply n)
    then posted (reply n) ∷ []
    else if is_rejected (reply n) || n == max_delivery_attempts || closed n
    then posted (reply n) ∷ spill disk ∷ []
    else posted (reply n) ∷ waited backoff ∷ rest

unfoldable pub deliver : Disk → (ℕ → PostReply) → (ℕ → Bool) → List Action
unfolding deliver_loop
deliver disk reply closed = deliver_loop disk reply closed max_delivery_attempts 1 first_backoff

-- The buffered channel, the jobs that went to the disk because it was full, and those that did not get
-- there.
pub record Buffer : Type 0 where
  pub jobs : List Job
  pub capacity : ℕ
  pub spills : List Job
  pub lost : List Job

abbrev with_spill : Action → Job → Buffer → Buffer
with_spill (spilled true) j b = record b { spills = b.spills ++ j ∷ [] }
with_spill _ j b = record b { lost = b.lost ++ j ∷ [] }

unfoldable pub enqueue : Disk → Job → Buffer → Buffer
unfolding spill
enqueue disk j b =
    if ltb (length b.jobs) b.capacity
    then record b { jobs = b.jobs ++ j ∷ [] }
    else with_spill (spill disk) j b
