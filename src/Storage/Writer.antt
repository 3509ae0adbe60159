-- ===== src/Storage/Writer.antt =====
-- internal/storage/async_writer.go: writes in the background. What is free to happen in any order is
-- an argument: which ready case a select takes, and which goroutine goes on.
pub mod Conserved
use gps_data_receiver.Prelude.{
  ℕ, zero, suc, ◌==◌, ◌&&◌, ◌||◌, List, [], ◌∷◌, ◌++◌, Option, none, some, Bool, true, false, not,
  if◌then◌else◌, ltb, length,
}
use gps_data_receiver.Prelude.Int.{ℤ, pos, negsuc}
use gps_data_receiver.Parser.Data.{Bytes, ParsedGpsData, InvalidRecord}
use gps_data_receiver.Storage.Rows.{
  Database, Stored, store_records, store_failed_records, store_invalid_records,
}

pub data WriteOp (F : Type 0) : Type 0 where
  success : List (ParsedGpsData F) → WriteOp F
  failed : List (ParsedGpsData F) → Bytes → Bytes → WriteOp F
  invalid : List InvalidRecord → WriteOp F

-- `senders` are the goroutines that wait to send, each with its operation; `processed` are the
-- operations that the store was called with, and `dropped` those given up after the cancellation.
pub record AsyncWriter (F : Type 0) : Type 0 where
  pub ch : List (WriteOp F)
  pub capacity : ℕ
  pub cancelled : Bool
  pub closed : Bool
  pub senders : List (WriteOp F)
  pub processed : List (WriteOp F)
  pub dropped : List (WriteOp F)

abbrev pub default_write_queue_size : ℕ
default_write_queue_size = 10_000

abbrev queue_size_of : ℤ → ℕ
queue_size_of (pos zero) = default_write_queue_size
queue_size_of (pos (suc n)) = suc n
queue_size_of (negsuc n) = default_write_queue_size

-- What a send comes to.
pub data Sending : Type 0 where
  sends gives_up blocks panics : Sending

pub data WriterStep (F : Type 0) : Type 0 where
  enqueues : Bool → WriteOp F → WriterStep F
  resumes : ℕ → Bool → WriterStep F
  runs : WriterStep F
  cancels : WriterStep F
  closes : WriterStep F

module _ {F : Type 0} where
  abbrev pub new_async_writer : ℤ → AsyncWriter F
  new_async_writer queue_size = record {
    ch = [];
    capacity = queue_size_of queue_size;
    cancelled = false;
    closed = false;
    senders = [];
    processed = [];
    dropped = [];
  }

  -- process
  unfoldable pub process : (ParsedGpsData F → Option Bytes) → Database → ℕ → WriteOp F → Stored
  unfolding store_records store_failed_records store_invalid_records
  process marshal db now (success records) = store_records marshal db now records
  process marshal db now (failed records target_server error_message) =
      store_failed_records marshal db now records target_server error_message
  process marshal db now (invalid records) = store_invalid_records db now records

  abbrev has_room : AsyncWriter F → Bool
  has_room w = ltb (length w.ch) w.capacity

  -- The select of a send and of the cancellation: `takes_done` is the choice when both are ready. A
  -- send to the closed channel is ready, and panics.
  unfoldable pub select_send : Bool → AsyncWriter F → Sending
  select_send takes_done w =
      let send_is_ready = w.closed || has_room w in
      if w.cancelled && (takes_done || not send_is_ready)
      then gives_up
      else if w.closed
      then panics
      else if has_room w
      then sends
      else blocks

  abbrev is_empty_op : WriteOp F → Bool
  is_empty_op (success records) = length records == 0
  is_empty_op (failed records target_server error_message) = length records == 0
  is_empty_op (invalid records) = length records == 0

  -- None is a panic.
  abbrev enqueue_selected : Sending → WriteOp F → AsyncWriter F → Option (AsyncWriter F)
  enqueue_selected sends op w = some (record w { ch = w.ch ++ op ∷ [] })
  enqueue_selected gives_up op w = some (record w { dropped = op ∷ w.dropped })
  enqueue_selected blocks op w = some (record w { senders = op ∷ w.senders })
  enqueue_selected panics op w = none

  -- enqueueSuccessOrFailed and enqueueInvalid
  unfoldable pub enqueue_op : Bool → WriteOp F → AsyncWriter F → Option (AsyncWriter F)
  unfolding select_send
  enqueue_op takes_done op w =
      if is_empty_op op then some w else enqueue_selected (select_send takes_done w) op w

  abbrev resume_selected :
      Sending → WriteOp F → List (WriteOp F) → AsyncWriter F → Option (AsyncWriter F)
  resume_selected sends op others w = some (record w { ch = w.ch ++ op ∷ []; senders = others })
  resume_selected gives_up op others w =
      some (record w { dropped = op ∷ w.dropped; senders = others })
  resume_selected blocks op others w = some w
  resume_selected panics op others w = none

  -- The goroutine behind `front` gets its turn.
  unfoldable pub resume :
      ℕ → Bool → List (WriteOp F) → List (WriteOp F) → AsyncWriter F → Option (AsyncWriter F)
  unfolding select_send
  resume n takes_done front [] w = some w
  resume zero takes_done front (op ∷ ops) w =
      resume_selected (select_send takes_done w) op (front ++ ops) w
  resume (suc n) takes_done front (op ∷ ops) w = resume n takes_done (front ++ op ∷ []) ops w

  -- One round of `run`, when the channel holds an operation.
  abbrev run_once : List (WriteOp F) → AsyncWriter F → AsyncWriter F
  run_once [] w = w
  run_once (op ∷ ops) w = record w { ch = ops; processed = op ∷ w.processed }

  unfoldable pub act : WriterStep F → AsyncWriter F → Option (AsyncWriter F)
  unfolding enqueue_op resume
  act (enqueues takes_done op) w = enqueue_op takes_done op w
  act (resumes n takes_done) w = resume n takes_done [] w.senders w
  act runs w = some (run_once w.ch w)
  act cancels w = some (record w { cancelled = true })
  act closes w = some (record w { closed = true })

  unfoldable pub act_all : List (WriterStep F) → Option (AsyncWriter F) → Option (AsyncWriter F)
  unfolding act
  act_all [] w = w
  act_all (a ∷ as') none = none
  act_all (a ∷ as') (some w) = act_all as' (act a w)
