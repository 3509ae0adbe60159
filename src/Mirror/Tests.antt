-- ===== src/Mirror/Tests.antt =====
-- internal/hooshnics/forwarder.go with concrete replies and jobs.
use gps_data_receiver.Prelude.{codes, arith, ℕ, ◌≤◌, ◌≡◌, [], ◌∷◌, true, false, ◌==◌, if◌then◌else◌}
use gps_data_receiver.Mirror.{Disk, PostReply, status, max_delivery_attempts, deliver}
use gps_data_receiver.Mirror.Encoding.{TextLibrary, RawMeta, build_raw_request}
use gps_data_receiver.Mirror.Encoding.Lossless.{
  payload_of_request, payload_of_request-build_raw_request,
}
use gps_data_receiver.Mirror.Settled.{Settled, posts, deliver-Settled}

abbrev busy_then_fine : ℕ → PostReply
busy_then_fine n = status (if n == 2 then 200 else 503)

abbrev full_disk : Disk
full_disk = record { makes_dir = true; writes_file = false }

deliver-Settled_example :
    Settled full_disk (deliver full_disk busy_then_fine (λ n. false))
    × (posts (deliver full_disk busy_then_fine (λ n. false)) ≤ max_delivery_attempts)
deliver-Settled_example = deliver-Settled full_disk busy_then_fine (λ n. false)

abbrev plain_text : TextLibrary
plain_text = record {
  trim_space = λ text. text;
  to_lower = λ text. text;
  is_utf8 = λ text. false;
  has_prefix = λ text prefix. false;
}

abbrev avl_meta : RawMeta
avl_meta = record {
  imei = [];
  source_type = codes "teltonika";
  encoding = codes "hex";
  received_at = 0;
}

payload_of_request-build_raw_request_example :
    payload_of_request (build_raw_request plain_text (0 ∷ 255 ∷ []) avl_meta) ≡ 0 ∷ 255 ∷ []
payload_of_request-build_raw_request_example =
    payload_of_request-build_raw_request plain_text (0 ∷ 255 ∷ []) avl_meta
      (omega arith, (omega arith, tt))
