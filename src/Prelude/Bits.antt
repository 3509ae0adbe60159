-- ===== src/Prelude/Bits.antt =====
-- Exclusive or at variables: the digit recursion, cancellation, range and shifts.
use Prim.Native.Nat.{
  ℕ, zero, suc, ◌+◌, ◌*◌, ◌/◌, ◌%◌, ◌^◌, ◌≤◌, ◌<◌, bit_xor, digits, differ, bit_xor-bitwise, bit_or,
  bit_or-bitwise, max, bit_and, bit_and-bitwise, min,
}
use mathlib.Core.Path.{◌≡◌, refl, sym, ap, ◌∙◌}
use native.Mathlib.Omega.{arith}
use native.Mathlib.Nat.{
  pow-suc, one-le-pow, mul_assoc, mod-add-div', mod-lt, mod-one, zero-mod, mod-eq_of_lt,
  add-mul-mod_self_right,
}

-- The count of digits does not matter once it is large enough.
digits_fuel :
    (z : ℕ → ℕ) (f : ℕ → ℕ → ℕ) (fuel more x y : ℕ)
    → x ≤ fuel
    → x ≤ more
    → digits z f fuel x y ≡ digits z f more x y
digits_fuel z f (suc fuel) (suc more) (suc x) y enough plenty =
    omega (arith, digits_fuel z f fuel more (suc x / 2) (y / 2) (omega arith) (omega arith))
digits_fuel z f zero zero zero y enough plenty = refl
digits_fuel z f zero (suc more) zero y enough plenty = refl
digits_fuel z f (suc fuel) zero zero y enough plenty = refl
digits_fuel z f (suc fuel) (suc more) zero y enough plenty = refl
digits_fuel z f zero more (suc x) y enough plenty = absurd (omega arith)
digits_fuel z f (suc fuel) zero (suc x) y enough plenty = absurd (omega arith)

pub zero-bit_xor : (b : ℕ) → bit_xor 0 b ≡ b
zero-bit_xor b = bit_xor-bitwise 0 b

-- The exclusive or of two digits is their sum without the carry.
differ-mod_two : (x y : ℕ) → x < 2 → y < 2 → differ x y ≡ (x + y) % 2
differ-mod_two zero y p q = omega arith
differ-mod_two (suc zero) zero p q = omega arith
differ-mod_two (suc zero) (suc zero) p q = refl
differ-mod_two (suc zero) (suc (suc y)) p q = absurd (omega arith)
differ-mod_two (suc (suc x)) y p q = absurd (omega arith)

differ-digits : (a b : ℕ) → differ (a % 2) (b % 2) ≡ (a + b) % 2
differ-digits a b = omega (arith, differ-mod_two (a % 2) (b % 2) (omega arith) (omega arith))

pub bit_xor_step : (a b : ℕ) → bit_xor a b ≡ bit_xor (a / 2) (b / 2) * 2 + (a + b) % 2
bit_xor_step zero b = omega (arith, zero-bit_xor b, zero-bit_xor (b / 2))
bit_xor_step (suc a) b = omega (
  arith,
  bit_xor-bitwise (suc a) b,
  bit_xor-bitwise (suc a / 2) (b / 2),
  digits_fuel (λ c. c) differ a (suc a / 2) (suc a / 2) (b / 2) (omega arith) (omega arith),
  differ-digits (suc a) b,
)

-- x ^ y ^ y = x, at every width.
bit_xor_cancel_below : (n a b : ℕ) → a ≤ n → b ≤ n → bit_xor (bit_xor a b) b ≡ a
bit_xor_cancel_below zero zero zero p q = refl
bit_xor_cancel_below zero (suc a) b p q = absurd (omega arith)
bit_xor_cancel_below zero zero (suc b) p q = absurd (omega arith)
bit_xor_cancel_below (suc n) a b p q =
    let e : bit_xor a b / 2 ≡ bit_xor (a / 2) (b / 2) = omega (arith, bit_xor_step a b) in
    omega (
      arith,
      bit_xor_step (bit_xor a b) b,
      bit_xor_step a b,
      ap (λ (t : ℕ). bit_xor t (b / 2)) e,
      bit_xor_cancel_below n (a / 2) (b / 2) (omega arith) (omega arith),
    )

pub bit_xor_cancel : (a b : ℕ) → bit_xor (bit_xor a b) b ≡ a
bit_xor_cancel a b = bit_xor_cancel_below (a + b) a b (omega arith) (omega arith)

pub bit_xor_injective_left : (a a' b : ℕ) → bit_xor a b ≡ bit_xor a' b → a ≡ a'
bit_xor_injective_left a a' b e =
    sym (bit_xor_cancel a b) ∙ ap (λ (t : ℕ). bit_xor t b) e ∙ bit_xor_cancel a' b

bit_xor_comm_below : (n a b : ℕ) → a ≤ n → b ≤ n → bit_xor a b ≡ bit_xor b a
bit_xor_comm_below zero zero zero p q = refl
bit_xor_comm_below zero (suc a) b p q = absurd (omega arith)
bit_xor_comm_below zero zero (suc b) p q = absurd (omega arith)
bit_xor_comm_below (suc n) a b p q = omega (
  arith,
  bit_xor_step a b,
  bit_xor_step b a,
  bit_xor_comm_below n (a / 2) (b / 2) (omega arith) (omega arith),
)

pub bit_xor_comm : (a b : ℕ) → bit_xor a b ≡ bit_xor b a
bit_xor_comm a b = bit_xor_comm_below (a + b) a b (omega arith) (omega arith)

pub bit_xor_injective_right : (a b b' : ℕ) → bit_xor a b ≡ bit_xor a b' → b ≡ b'
bit_xor_injective_right a b b' e =
    bit_xor_injective_left b b' a (bit_xor_comm b a ∙ e ∙ bit_xor_comm a b')

pub bit_xor_lt : (k a b : ℕ) → a < 2 ^ k → b < 2 ^ k → bit_xor a b < 2 ^ k
bit_xor_lt zero zero zero p q = omega arith
bit_xor_lt zero (suc a) b p q = absurd (omega arith)
bit_xor_lt zero zero (suc b) p q = absurd (omega arith)
bit_xor_lt (suc k) a b p q = omega (
  arith,
  pow-suc 2 k,
  bit_xor_step a b,
  bit_xor_lt k (a / 2) (b / 2) (omega (arith, pow-suc 2 k)) (omega (arith, pow-suc 2 k)),
)

-- The highest digit of one side stays.
pub bit_xor-le : (k a b : ℕ) → a < 2 ^ k → 2 ^ k ≤ b → 2 ^ k ≤ bit_xor a b
bit_xor-le zero zero b p q = omega (arith, zero-bit_xor b)
bit_xor-le zero (suc a) b p q = absurd (omega arith)
bit_xor-le (suc k) a b p q = omega (
  arith,
  pow-suc 2 k,
  bit_xor_step a b,
  bit_xor-le k (a / 2) (b / 2) (omega (arith, pow-suc 2 k)) (omega (arith, pow-suc 2 k)),
)

zero-bit_or : (b : ℕ) → bit_or 0 b ≡ b
zero-bit_or b = bit_or-bitwise 0 b

bit_or_step : (a b : ℕ) → bit_or a b ≡ bit_or (a / 2) (b / 2) * 2 + max (a % 2) (b % 2)
bit_or_step zero b = omega (arith, zero-bit_or b, zero-bit_or (b / 2))
bit_or_step (suc a) b = omega (
  arith,
  bit_or-bitwise (suc a) b,
  bit_or-bitwise (suc a / 2) (b / 2),
  digits_fuel (λ c. c) max a (suc a / 2) (suc a / 2) (b / 2) (omega arith) (omega arith),
)

bit_or_bounds_below : (n a b : ℕ) → a ≤ n → b ≤ n → (a ≤ bit_or a b) × (b ≤ bit_or a b)
bit_or_bounds_below zero zero zero p q = omega arith
bit_or_bounds_below zero (suc a) b p q = absurd (omega arith)
bit_or_bounds_below zero zero (suc b) p q = absurd (omega arith)
bit_or_bounds_below (suc n) a b p q =
    omega
      (arith, bit_or_step a b, bit_or_bounds_below n (a / 2) (b / 2) (omega arith) (omega arith))

-- A disjunction is at least each side, so it is 0 only of zeros.
pub bit_or_bounds : (a b : ℕ) → (a ≤ bit_or a b) × (b ≤ bit_or a b)
bit_or_bounds a b = bit_or_bounds_below (a + b) a b (omega arith) (omega arith)

half_mod : (a p : ℕ) → 0 < p → a % (p * 2) ≡ a / 2 % p * 2 + a % 2
half_mod a p h =
    let rest : a ≡ a / 2 % p * 2 + a % 2 + a / 2 / p * (p * 2) =
      omega (arith, mul_assoc (a / 2 / p) p 2, mod-add-div' (a / 2) p) in
    let small : a / 2 % p * 2 + a % 2 < p * 2 = omega (arith, mod-lt (a / 2) {m = p} h) in
    ap (λ (t : ℕ). t % (p * 2)) rest
    ∙ add-mul-mod_self_right (a / 2 % p * 2 + a % 2) (a / 2 / p) (p * 2)
    ∙ mod-eq_of_lt small

-- The digits under a mask, for a count that the number does not exceed.
mask_digits :
    (count k a m : ℕ) → a ≤ count → m + 1 ≡ 2 ^ k → digits (λ c. 0) min count a m ≡ a % 2 ^ k
mask_digits zero k zero m few mask = sym (zero-mod (2 ^ k))
mask_digits zero k (suc a) m few mask = absurd (omega arith)
mask_digits (suc count) k zero m few mask = sym (zero-mod (2 ^ k))
mask_digits (suc count) zero (suc a) m few mask = omega (
  arith,
  mod-one (suc a),
  mod-one (suc a / 2),
  mask_digits count zero (suc a / 2) (m / 2) (omega arith) (omega arith),
)
mask_digits (suc count) (suc k) (suc a) m few mask = omega (
  arith,
  pow-suc 2 k,
  ap (λ (t : ℕ). suc a % t) (pow-suc 2 k),
  half_mod (suc a) (2 ^ k) (one-le-pow k 2 (omega arith)),
  mask_digits count k (suc a / 2) (m / 2) (omega arith) (omega (arith, pow-suc 2 k)),
)

-- The remainder by a power of two.
pub bit_and_mask : (k a m : ℕ) → m + 1 ≡ 2 ^ k → bit_and a m ≡ a % 2 ^ k
bit_and_mask k a m mask = bit_and-bitwise a m ∙ mask_digits a k a m (omega arith) mask
