-- ===== src/Rtcm/Division/Table.antt =====
-- The lookup table holds one byte's worth of division, so a round of the loop divides one byte.
use sp_rtk_base_relay.Prelude.{
  ℕ, zero, suc, ◌+◌, ◌*◌, ◌/◌, ◌%◌, ◌^◌, ◌<◌, ◌≤◌, ◌⊎◌, inl, inr, subst, bit_and, bit_xor, ◌≡◌,
  refl, ◌∙◌, ap, sym, Bool, true, ◌&&◌, [], ◌∷◌, arith, get_or, ◌==◌, ==_iff,
}
use sp_rtk_base_relay.Prelude.Bits.{xor-lt, bit_and_mask, xor-high, xor_disjoint}
use sp_rtk_base_relay.Rtcm.Table.{crc24q_table}
use sp_rtk_base_relay.Rtcm.{Bytes, IsBytes, table_index, crc_step, crc_loop, calc_crc24q}
use sp_rtk_base_relay.Rtcm.Division.{
  shift_bit, shift_bits, shift_byte, shift_bits-xor, shift_bits-lt, shift_bits-small, remainder,
}

split_at : (i count : ℕ) → i ≤ count → (i ≡ count) ⊎ (i < count)
split_at i count h = omega arith

agrees_to : (ℕ → ℕ) → (ℕ → ℕ) → ℕ → Bool
agrees_to f g zero = true
agrees_to f g (suc i) = f i == g i && agrees_to f g i

agrees_to_sound :
    (f g : ℕ → ℕ) (count : ℕ) → agrees_to f g count ≡ true → {i : ℕ} → i < count → f i ≡ g i
unfolding agrees_to
agrees_to_sound f g zero h below = absurd (omega (arith, below))
agrees_to_sound f g (suc count) h {i} below = elim (split_at i count (omega (arith, below))) [
  | inl here ↦
      subst (λ j. f j ≡ g j) (sym here) ((==_iff (f count) (g count)).0 (ground (arith, h)))
  | inr less ↦ agrees_to_sound f g count (ground (arith, h)) less
]

every_entry : agrees_to (λ i. get_or crc24q_table i 0) (λ i. shift_byte (i * 2 ^ 16)) 256 ≡ true
unfolding agrees_to crc24q_table shift_bits shift_bit
every_entry = refl

table_entry : (i : ℕ) → i < 256 → get_or crc24q_table i 0 ≡ shift_byte (i * 2 ^ 16)
table_entry i h = agrees_to_sound _ _ 256 every_entry h

-- The subscript of the table is in range for a 24-bit remainder and a byte.
pub table_index-lt : (crc byte : ℕ) → crc < 2 ^ 24 → byte < 256 → table_index crc byte < 256
unfolding table_index
table_index-lt crc byte hc hb = xor-lt 8 (crc / 2 ^ 16) byte (omega arith) hb

-- A round of the loop divides one more byte.
crc_step_fields :
    (hi lo byte : ℕ)
    → hi < 256
    → lo < 2 ^ 16
    → byte < 256
    → crc_step (hi * 2 ^ 16 + lo) byte ≡ shift_byte (bit_xor (hi * 2 ^ 16 + lo) (byte * 2 ^ 16))
unfolding crc_step table_index
crc_step_fields hi lo byte hh hl hb =
    let i = bit_xor hi byte in
    let i-lt = xor-lt 8 hi byte hh hb in
    let kept : bit_and ((hi * 2 ^ 16 + lo) * 2 ^ 8) 0xFFFFFF ≡ lo * 2 ^ 8 =
      omega (arith, bit_and_mask 24 ((hi * 2 ^ 16 + lo) * 2 ^ 8)) in
    let high : (hi * 2 ^ 16 + lo) / 2 ^ 16 ≡ hi = omega arith in
    let mixed : bit_xor (hi * 2 ^ 16 + lo) (byte * 2 ^ 16) ≡ bit_xor lo (i * 2 ^ 16) =
      xor-high 16 hi lo byte hl ∙ sym (xor_disjoint 16 lo i hl) in
    let divided : shift_byte (bit_xor lo (i * 2 ^ 16))
        ≡ bit_xor (lo * 2 ^ 8) (shift_byte (i * 2 ^ 16)) =
      shift_bits-xor 8 lo (i * 2 ^ 16) (omega arith) (omega arith)
      ∙ ap (λ s. bit_xor s (shift_byte (i * 2 ^ 16))) (shift_bits-small 8 lo (omega arith)) in
    rw (mixed, kept, high, table_entry i i-lt, divided)

pub crc_step_lem :
    (crc byte : ℕ)
    → crc < 2 ^ 24
    → byte < 256
    → crc_step crc byte ≡ shift_byte (bit_xor crc (byte * 2 ^ 16))
crc_step_lem crc byte hc hb =
    rw fields_16 at
      (crc_step_fields (crc / 2 ^ 16) (crc % 2 ^ 16) byte (omega arith) (omega arith) hb)
  where
    fields_16 : crc / 2 ^ 16 * 2 ^ 16 + crc % 2 ^ 16 ≡ crc
    fields_16 = omega arith

pub crc_step-lt : (crc byte : ℕ) → crc < 2 ^ 24 → byte < 256 → crc_step crc byte < 2 ^ 24
crc_step-lt crc byte hc hb =
    rw (crc_step_lem crc byte hc hb) (
      shift_bits-lt 8 (bit_xor crc (byte * 2 ^ 16))
        (xor-lt 24 crc (byte * 2 ^ 16) hc (omega arith)))

pub crc_loop-lt :
    (crc : ℕ) (bytes : Bytes) → crc < 2 ^ 24 → IsBytes bytes → crc_loop crc bytes < 2 ^ 24
unfolding crc_loop
crc_loop-lt crc [] hc h = hc
crc_loop-lt crc (b ∷ bytes) hc h = crc_loop-lt (crc_step crc b) bytes (crc_step-lt crc b hc h.0) h.1

crc_loop-eq-remainder :
    (crc : ℕ) (bytes : Bytes)
    → crc < 2 ^ 24
    → IsBytes bytes
    → crc_loop crc bytes ≡ remainder crc bytes
unfolding crc_loop remainder
crc_loop-eq-remainder crc [] hc h = refl
crc_loop-eq-remainder crc (b ∷ bytes) hc h =
    crc_loop-eq-remainder (crc_step crc b) bytes (crc_step-lt crc b hc h.0) h.1
    ∙ ap (λ s. remainder s bytes) (crc_step_lem crc b hc h.0)

-- The table-driven CRC of any bytes is the remainder that bitwise division by the generator
-- leaves, and is below 2 ^ 24.
pub calc_crc24q-eq-remainder :
    (bytes : Bytes)
    → IsBytes bytes
    → (calc_crc24q bytes ≡ remainder 0 bytes) × (calc_crc24q bytes < 2 ^ 24)
unfolding calc_crc24q
calc_crc24q-eq-remainder bytes h =
    (crc_loop-eq-remainder 0 bytes (omega arith) h, crc_loop-lt 0 bytes (omega arith) h)
