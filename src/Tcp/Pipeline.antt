-- ===== src/Tcp/Pipeline.antt =====
-- internal/teltonika/tcp/pipeline.go: the work behind the ACK.
use gps_data_receiver.Prelude.{
  ℕ, List, [], ◌∷◌, ◌++◌, Bool, ◌==◌, ◌||◌, ◌&&◌, not, if◌then◌else◌, ltb, length,
}
use gps_data_receiver.Parser.Data.{Bytes}
use gps_data_receiver.Tcp.Session.{PostAckJob}

abbrev pub default_pipeline_buffer : ℕ
default_pipeline_buffer = 100_000

-- The send into the channel or, when it is full, nothing.
unfoldable pub submit_post_ack : ℕ → List PostAckJob → PostAckJob → List PostAckJob
submit_post_ack capacity jobs job = if ltb (length jobs) capacity then jobs ++ job ∷ [] else jobs

-- The calls that the work on a job makes; the result of Enqueue is only logged.
pub data Effect : Type 0 where
  mirrored : Bytes → Bytes → Effect
  enqueued : Bytes → Effect

abbrev is_empty : Bytes → Bool
is_empty bytes = length bytes == 0

unfoldable pub process_post_ack : Bool → Bool → PostAckJob → List Effect
process_post_ack has_mirror has_queue job =
    (if has_mirror && not (is_empty job.frame) then mirrored job.imei job.frame ∷ [] else [])
    ++ (if is_empty job.envelope || not has_queue then [] else enqueued job.envelope ∷ [])
