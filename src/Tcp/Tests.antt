-- ===== src/Tcp/Tests.antt =====
-- internal/teltonika/tcp with concrete devices.
use gps_data_receiver.Prelude.{
  ℕ, ◌+◌, ◌≡◌, refl, List, [], ◌∷◌, ◌++◌, drop, arith, All, IsByte, some, length, true,
}
use gps_data_receiver.Prelude.Int.{ℤ, pos}
use gps_data_receiver.Prelude.Result.{ok}
use gps_data_receiver.Parser.Data.{Bytes, ParsedGpsData}
use gps_data_receiver.Parser.Teltonika.{Library}
use gps_data_receiver.Codec.Encode.{frame}
use gps_data_receiver.Codec.Packet.{parse_packet, check_crc}
use gps_data_receiver.Codec.Samples.{
  codec8, sample, sample-Fits, sample_layout, sample_size, are_bytes-AreBytes,
}
use gps_data_receiver.Tcp.Session.{
  Server, wrote, returned, crashed, read_frame, run, is_imei_allowed,
}
use gps_data_receiver.Tcp.Session.Frames.{read_frame-parse_packet}
use gps_data_receiver.Tcp.Session.Protocol.{Answered, run-Answered}
use gps_data_receiver.Tcp.Session.Reports.{
  Report, ReportFits, send_imei, send_reports, served, run-serves,
}
use gps_data_receiver.Tcp.Session.Crash.{run_crashes}

-- A library that keeps the coordinate as it is and formats every instant alike.
abbrev plain_library : Library ℤ
plain_library = record { round_coordinate = λ x. x; format_instant = λ ms offset. [] }

abbrev plain_marshal : Bytes → List (ParsedGpsData ℤ) → Bytes
plain_marshal imei ps = imei

abbrev server : Server ℤ
server = record {
  library = plain_library;
  marshal = λ imei ps. some (plain_marshal imei ps);
  imei_allow = [];
  tz_offset = pos 0;
}

abbrev device : Bytes
device = b'4' ∷ b'2' ∷ []

abbrev report : Report
report = record { codec_id = 8; layout = codec8; first = sample; others = [] }

report-Fits : ReportFits report
report-Fits = record {
  layout_is = sample_layout;
  records_fit = (sample-Fits, tt);
  count_fits = omega arith;
  size_fits = sample_size;
}

everyone : is_imei_allowed [] device ≡ true
unfolding is_imei_allowed
everyone = refl

run-serves_example : run server 3 (send_imei device (send_reports (report ∷ []))) 2 ≡ record {
  events = wrote (0x01 ∷ []) ∷ served server plain_marshal device (report ∷ []);
  ending = returned;
}
run-serves_example =
    run-serves server plain_marshal (λ imei ps. refl) device (report ∷ []) 3 1 everyone
      (omega arith) (omega arith) (report-Fits, tt) (omega arith) (omega arith)

run-Answered_example :
    Answered server 3
      (send_imei device (send_reports (report ∷ [])))
      (run server 3 (send_imei device (send_reports (report ∷ []))) 2).events
run-Answered_example = run-Answered server 3 (send_imei device (send_reports (report ∷ []))) 2

abbrev nine_zeros : Bytes
nine_zeros = 0 ∷ 0 ∷ 0 ∷ 0 ∷ 0 ∷ 0 ∷ 0 ∷ 0 ∷ 0 ∷ []

nine_zeros-AreBytes : All IsByte (8 ∷ 1 ∷ (nine_zeros ++ 1 ∷ []))
nine_zeros-AreBytes = are_bytes-AreBytes (8 ∷ 1 ∷ (nine_zeros ++ 1 ∷ [])) refl

run_crashes_example :
    run server 1 (send_imei device (frame (8 ∷ 1 ∷ (nine_zeros ++ 1 ∷ [])) ++ [])) 1
    ≡ record { events = wrote (0x01 ∷ []) ∷ []; ending = crashed }
run_crashes_example =
    run_crashes server device 8 1 nine_zeros [] 0 0 everyone (omega arith) (omega arith)
      nine_zeros-AreBytes (omega arith) (omega arith) (omega arith)

abbrev small_frame : Bytes
small_frame = 0 ∷ 0 ∷ 0 ∷ 0 ∷ 0 ∷ 0 ∷ 0 ∷ 1 ∷ 7 ∷ 0 ∷ 0 ∷ 0 ∷ 0 ∷ []

small_frame_read : read_frame (small_frame ++ 5 ∷ []) ≡ ok (small_frame, 5 ∷ [])
unfolding read_frame
small_frame_read = refl

read_frame-parse_packet_example :
    (small_frame ++ 5 ∷ [] ≡ small_frame ++ 5 ∷ [])
    × ((n : ℕ) × (length small_frame ≡ n + 12)
        × (parse_packet small_frame [] ≡ check_crc n (drop 8 (small_frame ++ []))))
read_frame-parse_packet_example =
    read_frame-parse_packet (small_frame ++ 5 ∷ []) small_frame (5 ∷ []) small_frame_read
