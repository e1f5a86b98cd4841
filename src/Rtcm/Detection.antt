-- ===== src/Rtcm/Detection.antt =====
-- What validate_crc24q of src/sp_rtk_base_relay/rtcm_decoder.py accepts, and the damage it finds.
use sp_rtk_base_relay.Prelude.{
  ℕ, ◌-◌, ◌^◌, ◌≤◌, ◌<◌, bit_xor, ◌≡◌, refl, ◌∙◌, ap, ap₂, sym, ◌↔◌, inl, inr, true, [], ◌∷◌, ◌++◌,
  arith, All-append, All-take, All-drop, length, take, drop, length-drop, length-take,
  take-append-drop, ltb, ltb→le, ltb→lt, subst, Bool-cases,
}
use sp_rtk_base_relay.Prelude.Bits.{xor_comm, xor_injective, xor-lt}
use sp_rtk_base_relay.Rtcm.{Bytes, IsByte, IsBytes, crc_loop, calc_crc24q, validate_crc24q}
use sp_rtk_base_relay.Rtcm.Division.{shift_bits_injective}
use sp_rtk_base_relay.Rtcm.Division.Table.{crc_loop-lt}
use sp_rtk_base_relay.Rtcm.Residue.{
  word, crc_loop-append, crc_loop-word, crc_loop_injective, residue_word,
}

-- Three bytes have three names.
three_bytes : (w : Bytes) → length w ≡ 3 → (b0 b1 b2 : ℕ) × (w ≡ b0 ∷ b1 ∷ b2 ∷ [])
three_bytes [] h = absurd (omega arith)
three_bytes (a ∷ []) h = absurd (omega arith)
three_bytes (a ∷ b ∷ []) h = absurd (omega arith)
three_bytes (a ∷ b ∷ c ∷ []) h = (a, b, c, refl)
three_bytes (a ∷ b ∷ c ∷ d ∷ w) h = absurd (omega arith)

residue_split :
    (p w : Bytes)
    → 3 ≤ length p
    → length w ≡ 3
    → IsBytes p
    → IsBytes w
    → (validate_crc24q (p ++ w) ≡ true) ↔ (calc_crc24q (p ++ w) ≡ 0)
residue_split p [] hp hw bp bw = absurd (omega arith)
residue_split p (a ∷ []) hp hw bp bw = absurd (omega arith)
residue_split p (a ∷ b ∷ []) hp hw bp bw = absurd (omega arith)
residue_split p (a ∷ b ∷ c ∷ []) hp hw bp bw = residue_word p a b c hp bp bw.0 bw.1.0 bw.1.1.0
residue_split p (a ∷ b ∷ c ∷ d ∷ w) hp hw bp bw = absurd (omega arith)

-- A frame of bytes is accepted exactly when it has six bytes or more and the CRC of the whole
-- frame, its own three CRC bytes included, is 0.
pub validate_crc24q-residue :
    (frame : Bytes)
    → IsBytes frame
    → (validate_crc24q frame ≡ true) ↔ ((6 ≤ length frame) × (calc_crc24q frame ≡ 0))
unfolding validate_crc24q
validate_crc24q-residue frame h = elim (Bool-cases (ltb (length frame) 6)) [
  | inl short ↦
      rw short ((λ e. cc), λ r. absurd (omega (arith, ltb→lt (length frame) 6 short, r.0)))
  | inr long ↦
      let n : 6 ≤ length frame = ltb→le _ _ long in
      let k = length frame - 3 in
      let split : (validate_crc24q frame ≡ true) ↔ (calc_crc24q frame ≡ 0) =
        subst (λ f. (validate_crc24q f ≡ true) ↔ (calc_crc24q f ≡ 0)) (take-append-drop k frame)
          (residue_split (take k frame) (drop k frame) (omega (arith, length-take k frame))
            (omega (arith, length-drop k frame)) (All-take IsByte k frame h)
            (All-drop IsByte k frame h)) in
      ((λ v. (n, split.0 v)), λ r. split.1 r.1)
]

-- From one state, different triples of bytes lead to different states.
crc_loop-word_injective :
    (c b0 b1 b2 d0 d1 d2 : ℕ)
    → c < 2 ^ 24
    → IsBytes (b0 ∷ b1 ∷ b2 ∷ [])
    → IsBytes (d0 ∷ d1 ∷ d2 ∷ [])
    → crc_loop c (b0 ∷ b1 ∷ b2 ∷ []) ≡ crc_loop c (d0 ∷ d1 ∷ d2 ∷ [])
    → b0 ∷ b1 ∷ b2 ∷ [] ≡ d0 ∷ d1 ∷ d2 ∷ []
crc_loop-word_injective c b0 b1 b2 d0 d1 d2 hc hb hd e =
    let b = word b0 b1 b2 in
    let d = word d0 d1 d2 in
    let shifted : bit_xor c b ≡ bit_xor c d =
      shift_bits_injective 24 (bit_xor c b) (bit_xor c d) (xor-lt 24 c b hc (omega arith))
        (xor-lt 24 c d hc (omega arith))
        (sym (crc_loop-word c b0 b1 b2 hc hb.0 hb.1.0 hb.1.1.0)
          ∙ e
          ∙ crc_loop-word c d0 d1 d2 hc hd.0 hd.1.0 hd.1.1.0) in
    let same : b ≡ d = xor_injective b d c (xor_comm b c ∙ shifted ∙ xor_comm c d) in
    ap₂ ◌∷◌ (omega arith) (ap₂ ◌∷◌ (omega arith) (ap₂ ◌∷◌ (omega arith) refl))

crc_loop_burst :
    (c : ℕ) (w w' : Bytes)
    → c < 2 ^ 24
    → IsBytes w
    → IsBytes w'
    → length w ≡ 3
    → length w' ≡ 3
    → crc_loop c w ≡ crc_loop c w'
    → w ≡ w'
crc_loop_burst c w w' hc hw hw' n n' e =
    let (b0, b1, b2, ew) = three_bytes w n in
    let (d0, d1, d2, ew') = three_bytes w' n' in
    ew
    ∙ crc_loop-word_injective c b0 b1 b2 d0 d1 d2 hc (subst IsBytes ew hw) (subst IsBytes ew' hw')
        (sym (ap (crc_loop c) ew) ∙ e ∙ ap (crc_loop c) ew')
    ∙ sym ew'

-- Two frames of bytes that are both accepted and agree but for three consecutive bytes, wherever
-- these stand in the frame, are equal: any damage within three consecutive bytes is found.
pub validate_crc24q-burst :
    (before burst burst' after : Bytes)
    → IsBytes before
    → IsBytes burst
    → IsBytes burst'
    → IsBytes after
    → length burst ≡ 3
    → length burst' ≡ 3
    → validate_crc24q (before ++ burst ++ after) ≡ true
    → validate_crc24q (before ++ burst' ++ after) ≡ true
    → burst ≡ burst'
unfolding calc_crc24q
validate_crc24q-burst before burst burst' after hb hu hu' ha e e' v v' =
    crc_loop_burst (crc_loop 0 before) burst burst' c-lt hu hu' e e' (
      crc_loop_injective after (crc_loop (crc_loop 0 before) burst)
        (crc_loop (crc_loop 0 before) burst') ha (crc_loop-lt _ burst c-lt hu)
        (crc_loop-lt _ burst' c-lt hu')
        (sym (parts burst) ∙ residue burst hu v ∙ sym (residue burst' hu' v') ∙ parts burst'))
  where
    c-lt : crc_loop 0 before < 2 ^ 24
    c-lt = crc_loop-lt 0 before (omega arith) hb

    residue :
        (w : Bytes)
        → IsBytes w
        → validate_crc24q (before ++ w ++ after) ≡ true
        → crc_loop 0 (before ++ w ++ after) ≡ 0
    residue w hw h =
        ((validate_crc24q-residue (before ++ w ++ after)
            (All-append IsByte (before ++ w) after (All-append IsByte before w hb hw) ha)).0
          h).1

    parts :
        (w : Bytes)
        → crc_loop 0 (before ++ w ++ after) ≡ crc_loop (crc_loop (crc_loop 0 before) w) after
    parts w =
        crc_loop-append 0 (before ++ w) after
        ∙ ap (λ c. crc_loop c after) (crc_loop-append 0 before w)
