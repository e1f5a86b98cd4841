-- ===== src/Rtcm/Division.antt =====
-- The table-driven CRC of src/sp_rtk_base_relay/rtcm_decoder.py against the division that it
-- stands for: the remainder of the message polynomial by the CRC-24Q generator, bit after bit.
pub mod Table
use native.Mathlib.Nat.{one-le-pow}
use sp_rtk_base_relay.Prelude.{
  ℕ, zero, suc, ◌+◌, ◌-◌, ◌*◌, ◌/◌, ◌%◌, ◌^◌, ◌<◌, bit_xor, ◌≡◌, refl, ◌∙◌, ap, sym, lt→ltb, [],
  ◌∷◌, arith, ltb, if◌then◌else◌,
}
use sp_rtk_base_relay.Prelude.Bits.{
  xor-zero, xor_self, xor_fields, xor-double, xor_interchange, xor-lt, xor_injective, double_field,
}
use sp_rtk_base_relay.Rtcm.{Bytes}

-- x^24 + x^23 + x^18 + x^17 + x^14 + x^11 + x^10 + x^7 + x^6 + x^5 + x^4 + x^3 + x + 1
abbrev pub generator : ℕ
generator = 0x1864CFB

-- The remainder of r * x.
pub shift_bit : ℕ → ℕ
shift_bit r = if ltb (2 * r) (2 ^ 24) then 2 * r else bit_xor (2 * r) generator

pub shift_bits : ℕ → ℕ → ℕ
shift_bits zero r = r
shift_bits (suc n) r = shift_bits n (shift_bit r)

-- The remainder of r * x^8.
abbrev pub shift_byte : ℕ → ℕ
shift_byte = shift_bits 8

pub remainder : ℕ → Bytes → ℕ
remainder r [] = r
remainder r (b ∷ message) = remainder (shift_byte (bit_xor r (b * 2 ^ 16))) message

-- With the top bit taken out, one round subtracts the generator or nothing.
shift_bit_fields :
    (t r : ℕ)
    → t < 2
    → r < 2 ^ 23
    → (shift_bit (t * 2 ^ 23 + r) ≡ bit_xor (2 * (t * 2 ^ 23 + r)) (t * generator))
      × (shift_bit (t * 2 ^ 23 + r) < 2 ^ 24)
unfolding shift_bit
shift_bit_fields zero r ht hr = ground (arith, xor-zero (2 * r))
shift_bit_fields (suc zero) r ht hr =
    ground (arith, xor_fields 24 1 (2 * r) 1 (generator - 2 ^ 24), xor_self 1)
shift_bit_fields (suc (suc t)) r ht hr = absurd (omega arith)

multiple_xor :
    (t t' : ℕ)
    → t < 2
    → t' < 2
    → (bit_xor t t' < 2) × (bit_xor (t * generator) (t' * generator) ≡ bit_xor t t' * generator)
multiple_xor zero zero h h' = (omega arith, refl)
multiple_xor zero (suc zero) h h' = (omega arith, refl)
multiple_xor zero (suc (suc t')) h h' = absurd (omega arith)
multiple_xor (suc zero) zero h h' = (omega arith, refl)
multiple_xor (suc zero) (suc zero) h h' = (omega arith, refl)
multiple_xor (suc zero) (suc (suc t')) h h' = absurd (omega arith)
multiple_xor (suc (suc t)) t' h h' = absurd (omega arith)

shift_bit_fields-xor :
    (t r t' r' : ℕ)
    → t < 2
    → r < 2 ^ 23
    → t' < 2
    → r' < 2 ^ 23
    → shift_bit (bit_xor (t * 2 ^ 23 + r) (t' * 2 ^ 23 + r'))
      ≡ bit_xor (shift_bit (t * 2 ^ 23 + r)) (shift_bit (t' * 2 ^ 23 + r'))
shift_bit_fields-xor t r t' r' ht hr ht' hr' =
    let x = t * 2 ^ 23 + r in
    let y = t' * 2 ^ 23 + r' in
    let f = xor_fields 23 t r t' r' hr hr' in
    let m = multiple_xor t t' ht ht' in
    cc (
      f.0,
      (shift_bit_fields (bit_xor t t') (bit_xor r r') m.0 f.1).0,
      (shift_bit_fields t r ht hr).0,
      (shift_bit_fields t' r' ht' hr').0,
      m.1,
      xor-double x y,
      xor_interchange (2 * x) (2 * y) (t * generator) (t' * generator),
    )

fields_23 : (x : ℕ) → x / 2 ^ 23 * 2 ^ 23 + x % 2 ^ 23 ≡ x
fields_23 x = omega arith

pub shift_bit-xor :
    (x y : ℕ)
    → x < 2 ^ 24
    → y < 2 ^ 24
    → shift_bit (bit_xor x y) ≡ bit_xor (shift_bit x) (shift_bit y)
shift_bit-xor x y hx hy =
    rw (fields_23 x, fields_23 y) at
      (shift_bit_fields-xor (x / 2 ^ 23) (x % 2 ^ 23) (y / 2 ^ 23) (y % 2 ^ 23) (omega arith)
        (omega arith) (omega arith) (omega arith))

pub shift_bit-lt : (x : ℕ) → x < 2 ^ 24 → shift_bit x < 2 ^ 24
shift_bit-lt x h =
    rw fields_23 at ((shift_bit_fields (x / 2 ^ 23) (x % 2 ^ 23) (omega arith) (omega arith)).1)

-- Rounds are linear, stay below 2 ^ 24, and lose nothing.
pub shift_bits-xor :
    (n x y : ℕ)
    → x < 2 ^ 24
    → y < 2 ^ 24
    → shift_bits n (bit_xor x y) ≡ bit_xor (shift_bits n x) (shift_bits n y)
unfolding shift_bits
shift_bits-xor zero x y hx hy = refl
shift_bits-xor (suc n) x y hx hy =
    rw (shift_bit-xor x y hx hy)
      (shift_bits-xor n (shift_bit x) (shift_bit y) (shift_bit-lt x hx) (shift_bit-lt y hy))

pub shift_bits-lt : (n x : ℕ) → x < 2 ^ 24 → shift_bits n x < 2 ^ 24
unfolding shift_bits
shift_bits-lt zero x h = h
shift_bits-lt (suc n) x h = shift_bits-lt n (shift_bit x) (shift_bit-lt x h)

-- A remainder with room above it is only shifted.
pub shift_bits-small : (n x : ℕ) → x * 2 ^ n < 2 ^ 24 → shift_bits n x ≡ x * 2 ^ n
unfolding shift_bits shift_bit
shift_bits-small zero x h = omega arith
shift_bits-small (suc n) x h =
    let above : 2 * x < 2 ^ 24 = grind (arith, one-le-pow n 2, double_field n x) in
    rw (lt→ltb _ _ above) (
      shift_bits-small n (2 * x) (omega (arith, double_field n x))
      ∙ omega (arith, double_field n x))

shift_bit_kernel : (x : ℕ) → x < 2 ^ 24 → shift_bit x ≡ 0 → x ≡ 0
unfolding shift_bit
shift_bit_kernel x h e =
    ground (arith, xor_injective (2 * x) generator generator, xor_self generator)

shift_bit_injective : (x y : ℕ) → x < 2 ^ 24 → y < 2 ^ 24 → shift_bit x ≡ shift_bit y → x ≡ y
shift_bit_injective x y hx hy e = xor_injective x y y (
    shift_bit_kernel (bit_xor x y) (xor-lt 24 x y hx hy)
      (shift_bit-xor x y hx hy ∙ ap (λ s. bit_xor s (shift_bit y)) e ∙ xor_self (shift_bit y))
    ∙ sym (xor_self y))

pub shift_bits_injective :
    (n x y : ℕ) → x < 2 ^ 24 → y < 2 ^ 24 → shift_bits n x ≡ shift_bits n y → x ≡ y
unfolding shift_bits
shift_bits_injective zero x y hx hy e = e
shift_bits_injective (suc n) x y hx hy e =
    shift_bit_injective x y hx hy
      (shift_bits_injective n (shift_bit x) (shift_bit y) (shift_bit-lt x hx) (shift_bit-lt y hy) e)

-- Rounds in groups of eight.
pub shift_bits_grouped :
    (x : ℕ)
    → (shift_bits 0 x ≡ x)
      × (shift_bits 8 (shift_bits 8 x) ≡ shift_bits 16 x)
      × (shift_bits 8 (shift_bits 16 x) ≡ shift_bits 24 x)
unfolding shift_bits
shift_bits_grouped x = (refl, refl, refl)

pub shift_bits-zero : (n : ℕ) → shift_bits n 0 ≡ 0
shift_bits-zero n = shift_bits-small n 0 (omega arith) ∙ omega arith
