-- ===== src/Rtcm/Residue.antt =====
-- calc_crc24q and validate_crc24q of src/sp_rtk_base_relay/rtcm_decoder.py: three bytes more are one
-- 24-bit number more, and the CRC of a frame with its own CRC.
use sp_rtk_base_relay.Prelude.{
  ℕ, ◌+◌, ◌-◌, ◌*◌, ◌^◌, ◌≤◌, ◌<◌, bit_or, bit_xor, ◌≡◌, refl, ◌∙◌, ap, sym, ◌↔◌, true, false, [],
  ◌∷◌, ◌++◌, arith, length, take, get_or, length-append, take_left, get_or-append_right, ltb,
  ==_iff,
}
use sp_rtk_base_relay.Prelude.Bits.{
  xor_assoc, xor_comm, xor_self, xor_injective, xor-lt, xor_disjoint, bit_or_fields,
}
use sp_rtk_base_relay.Rtcm.{
  Bytes, IsByte, IsBytes, crc_step, crc_loop, calc_crc24q, frame_crc, validate_crc24q,
}
use sp_rtk_base_relay.Rtcm.Division.{
  shift_bits, shift_bits-xor, shift_bits-lt, shift_bits-small, shift_bits_injective,
  shift_bits_grouped, shift_bits-zero,
}
use sp_rtk_base_relay.Rtcm.Division.Table.{crc_step_lem, crc_step-lt, crc_loop-lt}

-- Three bytes as one number, the first highest.
abbrev pub word : ℕ → ℕ → ℕ → ℕ
word b0 b1 b2 = b0 * 2 ^ 16 + (b1 * 2 ^ 8 + b2)

pub crc_loop-append : (crc : ℕ) (p s : Bytes) → crc_loop crc (p ++ s) ≡ crc_loop (crc_loop crc p) s
unfolding crc_loop
crc_loop-append crc [] s = refl
crc_loop-append crc (b ∷ p) s = crc_loop-append (crc_step crc b) p s

-- A byte may be added below what is already shifted.
crc_step_absorb :
    (n x m b : ℕ)
    → x < 2 ^ 24
    → m < 2 ^ 24
    → b < 256
    → m * 2 ^ n ≡ b * 2 ^ 16
    → crc_step (shift_bits n x) b ≡ shift_bits 8 (shift_bits n (bit_xor x m))
crc_step_absorb n x m b hx hm hb e =
    crc_step_lem (shift_bits n x) b (shift_bits-lt n x hx) hb
    ∙ ap (λ s. shift_bits 8 (bit_xor (shift_bits n x) s)) (sym e ∙ sym small)
    ∙ ap (shift_bits 8) (sym (shift_bits-xor n x m hx hm))
  where
    small : shift_bits n m ≡ m * 2 ^ n
    small = shift_bits-small n m (omega arith)

word_xor :
    (crc b0 b1 b2 : ℕ)
    → IsByte b1
    → IsByte b2
    → bit_xor (bit_xor (bit_xor crc (b0 * 2 ^ 16)) (b1 * 2 ^ 8)) b2 ≡ bit_xor crc (word b0 b1 b2)
word_xor crc b0 b1 b2 h1 h2 =
    let low = b1 * 2 ^ 8 + b2 in
    let low_lem : bit_xor (b1 * 2 ^ 8) b2 ≡ low =
      xor_comm (b1 * 2 ^ 8) b2 ∙ xor_disjoint 8 b2 b1 h2 in
    let high_lem : bit_xor (b0 * 2 ^ 16) low ≡ word b0 b1 b2 =
      xor_comm (b0 * 2 ^ 16) low ∙ xor_disjoint 16 low b0 (omega arith) in
    cc (
      low_lem,
      high_lem,
      xor_assoc (bit_xor crc (b0 * 2 ^ 16)) (b1 * 2 ^ 8) b2,
      xor_assoc crc (b0 * 2 ^ 16) low,
    )

-- Three bytes more are one number more, shifted by as many bits.
pub crc_loop-word :
    (crc b0 b1 b2 : ℕ)
    → crc < 2 ^ 24
    → IsByte b0
    → IsByte b1
    → IsByte b2
    → crc_loop crc (b0 ∷ b1 ∷ b2 ∷ []) ≡ shift_bits 24 (bit_xor crc (word b0 b1 b2))
unfolding crc_loop
crc_loop-word crc b0 b1 b2 hc h0 h1 h2 =
    let x0 = bit_xor crc (b0 * 2 ^ 16) in
    let x1 = bit_xor x0 (b1 * 2 ^ 8) in
    let x0-lt : x0 < 2 ^ 24 = xor-lt 24 crc (b0 * 2 ^ 16) hc (omega arith) in
    let x1-lt : x1 < 2 ^ 24 = xor-lt 24 x0 (b1 * 2 ^ 8) x0-lt (omega arith) in
    let e0 : crc_step crc b0 ≡ shift_bits 8 x0 =
      ap (λ s. crc_step s b0) (sym (shift_bits_grouped crc).0)
      ∙ crc_step_absorb 0 crc (b0 * 2 ^ 16) b0 hc (omega arith) h0 (omega arith)
      ∙ ap (shift_bits 8) (shift_bits_grouped x0).0 in
    let e1 : crc_step (shift_bits 8 x0) b1 ≡ shift_bits 16 x1 =
      crc_step_absorb 8 x0 (b1 * 2 ^ 8) b1 x0-lt (omega arith) h1 (omega arith)
      ∙ (shift_bits_grouped x1).1 in
    let e2 : crc_step (shift_bits 16 x1) b2 ≡ shift_bits 24 (bit_xor x1 b2) =
      crc_step_absorb 16 x1 b2 b2 x1-lt (omega arith) h2 (omega arith)
      ∙ (shift_bits_grouped (bit_xor x1 b2)).2 in
    rw (e0, e1, e2, word_xor crc b0 b1 b2 h1 h2)

crc_step_injective :
    (b x y : ℕ) → IsByte b → x < 2 ^ 24 → y < 2 ^ 24 → crc_step x b ≡ crc_step y b → x ≡ y
crc_step_injective b x y hb hx hy e =
    let m = b * 2 ^ 16 in
    xor_injective x y m (
      shift_bits_injective 8 (bit_xor x m) (bit_xor y m) (xor-lt 24 x m hx (omega arith))
        (xor-lt 24 y m hy (omega arith))
        (sym (crc_step_lem x b hx hb) ∙ e ∙ crc_step_lem y b hy hb))

-- Bytes that follow a difference do not hide it.
pub crc_loop_injective :
    (s : Bytes) (x y : ℕ)
    → IsBytes s
    → x < 2 ^ 24
    → y < 2 ^ 24
    → crc_loop x s ≡ crc_loop y s
    → x ≡ y
unfolding crc_loop
crc_loop_injective [] x y hs hx hy e = e
crc_loop_injective (b ∷ s) x y hs hx hy e = crc_step_injective b x y hs.0 hx hy (
    crc_loop_injective s (crc_step x b) (crc_step y b) hs.1 (crc_step-lt x b hx hs.0)
      (crc_step-lt y b hy hs.0) e)

or_word :
    (b0 b1 b2 : ℕ)
    → IsByte b1
    → IsByte b2
    → bit_or (bit_or (b0 * 2 ^ 16) (b1 * 2 ^ 8)) b2 ≡ word b0 b1 b2
or_word b0 b1 b2 h1 h2 =
    ap (λ s. bit_or s b2) (bit_or_fields 16 b0 (b1 * 2 ^ 8) (omega arith) ∙ regroup)
    ∙ bit_or_fields 8 (b0 * 2 ^ 8 + b1) b2 h2
    ∙ omega arith
  where
    regroup : b0 * 2 ^ 16 + b1 * 2 ^ 8 ≡ (b0 * 2 ^ 8 + b1) * 2 ^ 8
    regroup = omega arith

-- The last three bytes of a frame, read big-endian.
frame_crc-word :
    (p : Bytes) (b0 b1 b2 : ℕ)
    → IsByte b1
    → IsByte b2
    → frame_crc (p ++ b0 ∷ b1 ∷ b2 ∷ []) ≡ word b0 b1 b2
unfolding frame_crc
frame_crc-word p b0 b1 b2 h1 h2 =
    let w = b0 ∷ b1 ∷ b2 ∷ [] in
    let at = λ (i : ℕ). get_or (p ++ w) (length (p ++ w) - i) 0 in
    let n = length-append p w in
    let at3 : at 3 ≡ b0 = get_or-append_right p w 0 (length (p ++ w) - 3) 0 (omega arith) in
    let at2 : at 2 ≡ b1 = get_or-append_right p w 1 (length (p ++ w) - 2) 0 (omega arith) in
    let at1 : at 1 ≡ b2 = get_or-append_right p w 2 (length (p ++ w) - 1) 0 (omega arith) in
    rw (at3, at2, at1) (or_word b0 b1 b2 h1 h2)

xor_eq_zero : (a b : ℕ) → bit_xor a b ≡ 0 → a ≡ b
xor_eq_zero a b h = xor_injective a b b (h ∙ sym (xor_self b))

shift_bits_zero_only : (x : ℕ) → x < 2 ^ 24 → shift_bits 24 x ≡ 0 → x ≡ 0
shift_bits_zero_only x h e =
    shift_bits_injective 24 x 0 h (omega arith) (e ∙ sym (shift_bits-zero 24))

-- The CRC of a whole frame, its own CRC included, tells whether it is valid.
pub residue_word :
    (p : Bytes) (b0 b1 b2 : ℕ)
    → 3 ≤ length p
    → IsBytes p
    → IsByte b0
    → IsByte b1
    → IsByte b2
    → (validate_crc24q (p ++ b0 ∷ b1 ∷ b2 ∷ []) ≡ true) ↔ (calc_crc24q (p ++ b0 ∷ b1 ∷ b2 ∷ []) ≡ 0)
unfolding validate_crc24q calc_crc24q
residue_word p b0 b1 b2 hp hb h0 h1 h2 =
    let w = b0 ∷ b1 ∷ b2 ∷ [] in
    let c = crc_loop 0 p in
    let c-lt : c < 2 ^ 24 = crc_loop-lt 0 p (omega arith) hb in
    let body : take (length (p ++ w) - 3) (p ++ w) ≡ p =
      take_left (length (p ++ w) - 3) p w (omega (arith, length-append p w)) in
    let long : ltb (length (p ++ w)) 6 ≡ false = ground (arith, length-append p w) in
    let whole : crc_loop 0 (p ++ w) ≡ shift_bits 24 (bit_xor c (word b0 b1 b2)) =
      crc_loop-append 0 p w ∙ crc_loop-word c b0 b1 b2 c-lt h0 h1 h2 in
    rw (long, body, frame_crc-word p b0 b1 b2 h1 h2, whole)
      (
        (λ h. rw ((==_iff c (word b0 b1 b2)).0 h, xor_self) (shift_bits-zero 24)),
        λ h. (==_iff c (word b0 b1 b2)).1 (
            xor_eq_zero c (word b0 b1 b2) (
              shift_bits_zero_only (bit_xor c (word b0 b1 b2))
                (xor-lt 24 c (word b0 b1 b2) c-lt (omega arith)) h)),
      )
