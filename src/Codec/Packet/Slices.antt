-- ===== src/Codec/Packet/Slices.antt =====
-- The slices payload[off:end] of internal/teltonika/codec/packet.go.
use gps_data_receiver.Prelude.{
  ℕ, ◌+◌, ◌-◌, ◌≤◌, ◌≡◌, refl, sym, ap, ◌∙◌, List, arith, length, take, drop, length-take,
  length-drop, drop-take, drop-drop,
}
use gps_data_receiver.Codec.Record.{visible}
use gps_data_receiver.Codec.Packet.{sub_slice}

pub visible-sub_slice :
    (backing : List ℕ) (off used end : ℕ)
    → visible (sub_slice backing (off + used) end) ≡ drop used (visible (sub_slice backing off end))
visible-sub_slice backing off used end =
    let width : end - (off + used) ≡ end - off - used = omega arith in
    ap (take (end - (off + used))) (sym (drop-drop off used backing (off + used) refl))
    ∙ sym (drop-take used (end - off) (end - (off + used)) (drop off backing) width)

pub length-visible :
    (backing : List ℕ) (off end : ℕ)
    → end ≤ length backing
    → length (visible (sub_slice backing off end)) ≡ end - off
length-visible backing off end h =
    omega (arith, length-take (end - off) (drop off backing), length-drop off backing)
