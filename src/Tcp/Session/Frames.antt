-- ===== src/Tcp/Session/Frames.antt =====
-- internal/teltonika/tcp/session.go: `readFrame` and `ParsePacket` agree on what a frame is.
use gps_data_receiver.Prelude.{
  ℕ, ◌+◌, ◌≤◌, ◌<◌, ◌≡◌, refl, sym, ap, ◌∙◌, [], ◌∷◌, ◌++◌, append_assoc, append-nil, arith,
  Bool-cases, ◌||◌, not, ◌==◌, ltb, inl, inr, length, drop, length-append, length-take,
  take-append-drop, take-append, drop-append, be, slice, encode_be, length-encode_be, le→ltb,
  slice-encode_be,
}
use gps_data_receiver.Prelude.Result.{ok, >>=-eq-ok}
use gps_data_receiver.Codec.Encode.{frame_with}
use gps_data_receiver.Codec.Packet.{check_crc, check_length, parse_packet, preamble}
use gps_data_receiver.Parser.Data.{Bytes}
use gps_data_receiver.Tcp.Session.{read_full, read_payload, read_frame}

pub read_full-append :
    (n : ℕ) (xs rest : Bytes) → length xs ≡ n → read_full n (xs ++ rest) ≡ ok (xs, rest)
unfolding read_full
read_full-append n xs rest e =
    rw (le→ltb (length (xs ++ rest)) n (omega (arith, length-append xs rest)))
      (rw (take-append xs rest n e) (rw (drop-append xs rest n e)))

pub read_full_sound :
    (n : ℕ) (input xs rest : Bytes)
    → read_full n input ≡ ok (xs, rest)
    → (input ≡ xs ++ rest) × (length xs ≡ n)
unfolding read_full
read_full_sound n input xs rest h =
    (ground (arith, take-append-drop n input), ground (arith, length-take n input))

-- The header of a framed payload, and what follows it.
frame_header : Bytes → Bytes
frame_header payload = 0 ∷ 0 ∷ 0 ∷ 0 ∷ encode_be 4 (length payload)

-- `readFrame` takes exactly a framed payload of a legal length off the stream.
pub read_frame-frame_with :
    (payload rest : Bytes) (crc : ℕ)
    → 0 < length payload
    → length payload ≤ 2048
    → read_frame (frame_with payload crc ++ rest) ≡ ok (frame_with payload crc, rest)
unfolding read_frame frame_with frame_header encode_be
read_frame-frame_with payload rest crc pos short =
    let n : ℕ = length payload in
    let header : Bytes = frame_header payload in
    let body : Bytes = payload ++ encode_be 4 crc in
    let split : frame_with payload crc ++ rest ≡ header ++ (body ++ rest) =
      ap (λ (l : Bytes). 0 ∷ 0 ∷ 0 ∷ 0 ∷ l) (append_assoc (encode_be 4 n) body rest) in
    let size : length body ≡ n + 4 =
      omega (arith, length-append payload (encode_be 4 crc), length-encode_be 4 crc) in
    let n_read : be (slice header 4 8) ≡ n =
      slice-encode_be header 4 8 4 n [] (sym (append-nil (encode_be 4 n))) refl (omega arith) in
    rw split (
      rw (read_full-append 8 header (body ++ rest) (omega (arith, length-encode_be 4 n)))
        (rw n_read (rw (read_full-append (n + 4) body rest size) (ground arith))))

-- The checks of the session's header are those of the packet.
read_payload_sound :
    (header input frame rest : Bytes) (n : ℕ)
    → length header ≡ 8
    → read_payload header n input ≡ ok (frame, rest)
    → (header ++ input ≡ frame ++ rest)
      × (length frame ≡ n + 12)
      × (preamble header ≡ 0)
      × (0 < n)
      × (n ≤ 2048)
      × ((payload : Bytes) × (frame ≡ header ++ payload))
unfolding read_payload
read_payload_sound header input frame rest n size h =
    elim (Bool-cases (not (preamble header == 0))) [
      | inl bad ↦ cc (rw bad at h)
      | inr zero_preamble ↦ elim (Bool-cases (n == 0 || ltb 2048 n)) [
        | inl illegal ↦ cc (rw illegal at (rw zero_preamble at h))
        | inr legal ↦
            let (p, ep, ef) =
              >>=-eq-ok (read_full (n + 4) input) (λ p. ok (header ++ p.0, p.1)) {b = (frame, rest)}
                (rw legal at (rw zero_preamble at h)) in
            let (ei, el) = read_full_sound (n + 4) input p.0 p.1 ep in
            let frame_is : header ++ p.0 ≡ frame = ground arith in
            let rest_is : p.1 ≡ rest = ground arith in
            (
              ap (λ (l : Bytes). header ++ l) ei
                  ∙ sym (append_assoc header p.0 p.1)
                  ∙ (λ i. frame_is i ++ rest_is i),
              omega (arith, ap length (sym frame_is), length-append header p.0),
              ground arith,
              ground arith,
              ground arith,
              (p.0, sym frame_is),
            )
      ]
    ]

header-append :
    (header payload : Bytes)
    → length header ≡ 8
    → (preamble (header ++ payload) ≡ preamble header)
      × (be (slice (header ++ payload) 4 8) ≡ be (slice header 4 8))
header-append (a ∷ b ∷ c ∷ d ∷ e ∷ f ∷ g ∷ h ∷ []) payload l = (refl, refl)
header-append _ payload l = absurd (omega arith)

parse_packet-legal :
    (frame : Bytes) (n : ℕ)
    → length frame ≡ n + 12
    → preamble frame ≡ 0
    → be (slice frame 4 8) ≡ n
    → 0 < n
    → n ≤ 2048
    → parse_packet frame [] ≡ check_crc n (drop 8 (frame ++ []))
unfolding parse_packet check_length
parse_packet-legal frame n size zero_preamble n_is pos short =
    rw (le→ltb (length frame) 12 (omega arith)) (rw n_is (ground arith))

-- A frame that the session reads is the next bytes of the stream, none lost. `ParsePacket` takes its
-- length for right: of it the packet's parser can refuse only the checksum and what comes behind.
pub read_frame-parse_packet :
    (input frame rest : Bytes)
    → read_frame input ≡ ok (frame, rest)
    → (input ≡ frame ++ rest)
      × ((n : ℕ) × (length frame ≡ n + 12)
          × (parse_packet frame [] ≡ check_crc n (drop 8 (frame ++ []))))
unfolding read_frame
read_frame-parse_packet input frame rest h =
    let (p, ep, ef) =
      >>=-eq-ok (read_full 8 input) (λ p. read_payload p.0 (be (slice p.0 4 8)) p.1)
        {b = (frame, rest)} h in
    let (ei, el) = read_full_sound 8 input p.0 p.1 ep in
    let n : ℕ = be (slice p.0 4 8) in
    let (whole, size, zero_preamble, pos, short, (payload, ew)) =
      read_payload_sound p.0 p.1 frame rest n el ef in
    let (same_preamble, same_n) = header-append p.0 payload el in
    (
      ei ∙ whole,
      (
        n,
        size,
        parse_packet-legal frame n size (ap preamble ew ∙ same_preamble ∙ zero_preamble)
            (ap (λ (l : Bytes). be (slice l 4 8)) ew ∙ same_n) pos short,
      ),
    )
