-- ===== src/Codec/Crc.antt =====
-- internal/teltonika/codec/crc16ibm.go: the CRC-16/IBM checksum.
use gps_data_receiver.Prelude.{
  ℕ, zero, suc, ◌/◌, ◌%◌, ◌^◌, ◌<◌, bit_xor, ◌≡◌, List, [], ◌∷◌, ◌++◌, arith, ◌==◌, if◌then◌else◌,
  All, IsByte,
}
use gps_data_receiver.Prelude.Bits.{
  bit_xor-le, bit_xor_lt, bit_xor_injective_left, bit_xor_injective_right,
}

-- One round of the inner loop. `crc & 1 != 0` is oddness, `crc >> 1` a division by 2.
crc_bit : ℕ → ℕ
crc_bit crc = if crc % 2 == 1 then bit_xor (crc / 2) 0xa001 else crc / 2

-- for i := 0; i < 8; i++, with the rounds left
crc_rounds : ℕ → ℕ → ℕ
crc_rounds zero crc = crc
crc_rounds (suc n) crc = crc_rounds n (crc_bit crc)

-- for _, b := range data
crc_from : ℕ → List ℕ → ℕ
unfolding crc_bit crc_rounds
crc_from crc [] = crc
crc_from crc (b ∷ bs) = crc_from (crc_rounds 8 (bit_xor crc b)) bs

unfoldable pub crc16_ibm : List ℕ → ℕ
unfolding crc_from
crc16_ibm bytes = crc_from 0 bytes

crc_bit-lt : (crc : ℕ) → crc < 2 ^ 16 → crc_bit crc < 2 ^ 16
unfolding crc_bit
crc_bit-lt crc h = ground (arith, bit_xor_lt 16 (crc / 2) 0xa001 (omega arith) (omega arith))

crc_rounds-lt : (n crc : ℕ) → crc < 2 ^ 16 → crc_rounds n crc < 2 ^ 16
unfolding crc_rounds
crc_rounds-lt zero crc h = h
crc_rounds-lt (suc n) crc h = crc_rounds-lt n (crc_bit crc) (crc_bit-lt crc h)

crc_byte-lt : (crc b : ℕ) → crc < 2 ^ 16 → IsByte b → crc_rounds 8 (bit_xor crc b) < 2 ^ 16
crc_byte-lt crc b h hb = crc_rounds-lt 8 (bit_xor crc b) (bit_xor_lt 16 crc b h (omega arith))

crc_from-lt :
    (crc : ℕ) (bytes : List ℕ) → crc < 2 ^ 16 → All IsByte bytes → crc_from crc bytes < 2 ^ 16
unfolding crc_from
crc_from-lt crc [] h hd = h
crc_from-lt crc (b ∷ bs) h hd =
    crc_from-lt (crc_rounds 8 (bit_xor crc b)) bs (crc_byte-lt crc b h hd.0) hd.1

pub crc16_ibm-lt : (bytes : List ℕ) → All IsByte bytes → crc16_ibm bytes < 2 ^ 16
unfolding crc16_ibm
crc16_ibm-lt bytes h = crc_from-lt 0 bytes (omega arith) h

-- A round can be undone: the polynomial's top digit tells whether it was mixed in.
crc_bit_injective : (x y : ℕ) → x < 2 ^ 16 → y < 2 ^ 16 → crc_bit x ≡ crc_bit y → x ≡ y
unfolding crc_bit
crc_bit_injective x y hx hy e = ground (
  arith,
  bit_xor-le 15 (x / 2) 0xa001 (omega arith) (omega arith),
  bit_xor-le 15 (y / 2) 0xa001 (omega arith) (omega arith),
  bit_xor_injective_left (x / 2) (y / 2) 0xa001,
)

crc_rounds_injective :
    (n x y : ℕ) → x < 2 ^ 16 → y < 2 ^ 16 → crc_rounds n x ≡ crc_rounds n y → x ≡ y
unfolding crc_rounds
crc_rounds_injective zero x y hx hy e = e
crc_rounds_injective (suc n) x y hx hy e =
    crc_bit_injective x y hx hy
      (crc_rounds_injective n (crc_bit x) (crc_bit y) (crc_bit-lt x hx) (crc_bit-lt y hy) e)

crc_from_injective :
    (x y : ℕ) (bytes : List ℕ)
    → x < 2 ^ 16
    → y < 2 ^ 16
    → All IsByte bytes
    → crc_from x bytes ≡ crc_from y bytes
    → x ≡ y
unfolding crc_from
crc_from_injective x y [] hx hy hd e = e
crc_from_injective x y (b ∷ bs) hx hy hd e = bit_xor_injective_left x y b (
    crc_rounds_injective 8 (bit_xor x b) (bit_xor y b) (bit_xor_lt 16 x b hx (omega arith))
      (bit_xor_lt 16 y b hy (omega arith))
      (crc_from_injective (crc_rounds 8 (bit_xor x b)) (crc_rounds 8 (bit_xor y b)) bs
        (crc_byte-lt x b hx hd.0) (crc_byte-lt y b hy hd.0) hd.1 e))

crc_from_changed_byte :
    (xs ys : List ℕ) (a b crc : ℕ)
    → crc < 2 ^ 16
    → All IsByte xs
    → IsByte a
    → IsByte b
    → All IsByte ys
    → crc_from crc (xs ++ a ∷ ys) ≡ crc_from crc (xs ++ b ∷ ys)
    → a ≡ b
unfolding crc_from
crc_from_changed_byte [] ys a b crc h hx ha hb hy e = bit_xor_injective_right crc a b (
    crc_rounds_injective 8 (bit_xor crc a) (bit_xor crc b) (bit_xor_lt 16 crc a h (omega arith))
      (bit_xor_lt 16 crc b h (omega arith))
      (crc_from_injective _ _ ys (crc_byte-lt crc a h ha) (crc_byte-lt crc b h hb) hy e))
crc_from_changed_byte (x ∷ xs) ys a b crc h hx ha hb hy e =
    crc_from_changed_byte xs ys a b (crc_rounds 8 (bit_xor crc x)) (crc_byte-lt crc x h hx.0) hx.1
      ha hb hy e

-- Two payloads of bytes that differ in one byte only have different checksums: if the checksums
-- agree, so do the bytes.
pub crc16_ibm_detects_changed_byte :
    (xs ys : List ℕ) (a b : ℕ)
    → All IsByte xs
    → IsByte a
    → IsByte b
    → All IsByte ys
    → crc16_ibm (xs ++ a ∷ ys) ≡ crc16_ibm (xs ++ b ∷ ys)
    → a ≡ b
unfolding crc16_ibm
crc16_ibm_detects_changed_byte xs ys a b = crc_from_changed_byte xs ys a b 0 (omega arith)
