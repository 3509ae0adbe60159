-- ===== src/Tcp/Session/Crash.antt =====
-- internal/teltonika/tcp/session.go: what a panic of the decoder does to a session.
use gps_data_receiver.Prelude.{
  ℕ, suc, ◌≤◌, ◌<◌, ◌≡◌, [], ◌∷◌, ◌++◌, arith, true, length, length-append, All, IsByte,
}
use gps_data_receiver.Codec.Encode.{frame}
use gps_data_receiver.Codec.Packet.Corrupt.{parse_packet_panics}
use gps_data_receiver.Parser.Data.{Bytes}
use gps_data_receiver.Tcp.Session.{
  validate_packet, Server, wrote, crashed, validate_frame, acknowledge, on_frame, session_loop,
  handshake, accept, run, is_imei_allowed,
}
use gps_data_receiver.Tcp.Session.Frames.{read_frame-frame_with}
use gps_data_receiver.Tcp.Session.Reports.{send_imei, read_imei-send_imei}

-- A device that the server admits, and that sends a well-framed packet with a correct checksum which
-- announces a record but holds only 9 to 18 bytes of it, ends the session with a panic and no ACK.
pub run_crashes :
    {F : Type 0} (server : Server F) (imei : Bytes) (c n : ℕ) (inner rest : Bytes) (k writes : ℕ)
    → is_imei_allowed server.imei_allow imei ≡ true
    → 0 < length imei
    → length imei ≤ 32
    → All IsByte (c ∷ n ∷ (inner ++ n ∷ []))
    → 0 < n
    → 9 ≤ length inner
    → length inner < 19
    → run server (suc k) (send_imei imei (frame (c ∷ n ∷ (inner ++ n ∷ [])) ++ rest)) (suc writes)
      ≡ record { events = wrote (0x01 ∷ []) ∷ []; ending = crashed }
unfolding run handshake accept session_loop on_frame acknowledge validate_frame validate_packet
    frame
run_crashes server imei c n inner rest k writes allowed pos short bytes some_records long few =
    let payload : Bytes = c ∷ n ∷ (inner ++ n ∷ []) in
    rw (read_imei-send_imei imei (frame payload ++ rest) pos short) (
      rw allowed (
        rw
          (read_frame-frame_with payload rest _ (omega arith)
            (omega (arith, length-append inner (n ∷ []))))
          (rw (parse_packet_panics c n inner [] bytes some_records long (omega arith)))))
