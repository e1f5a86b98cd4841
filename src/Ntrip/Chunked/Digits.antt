-- ===== src/Ntrip/Chunked/Digits.antt =====
-- The size of a chunk in hexadecimal, as it is sent and as
-- src/sp_rtk_base_relay/core/ntrip/chunked.py reads it.
use sp_rtk_base_relay.Prelude.{
  ℕ, zero, suc, ◌+◌, ◌*◌, ◌-◌, ◌/◌, ◌%◌, ◌≤◌, ◌<◌, ◌≡◌, refl, ◌∙◌, ap, ◌⊎◌, inl, inr, true, false,
  some, [], ◌∷◌, ◌++◌, length, All, arith, Bool-cases, ltb, leb, ◌==◌, if◌then◌else◌,
}
use sp_rtk_base_relay.Prelude.Int.{pos}
use sp_rtk_base_relay.Rtcm.{Bytes}
use sp_rtk_base_relay.Ntrip.Chunked.{
  is_white, strip_left, strip_right, before_semicolon, size_field, hex_value, digits, unsigned,
  hex_int, partition_line, hex_digit, hex_loop, hex,
}

-- 0 to 9 and a to f
abbrev pub IsDigit : ℕ → Type 0
IsDigit c = ((48 ≤ c) × (c ≤ 57)) ⊎ ((97 ≤ c) × (c ≤ 102))

abbrev digit_of : ℕ → ℕ
digit_of c = if leb c 57 then c - 48 else c - 87

value_of : ℕ → Bytes → ℕ
value_of v [] = v
value_of v (c ∷ text) = value_of (v * 16 + digit_of c) text

hex_value_lem : (c : ℕ) → IsDigit c → hex_value c ≡ some (digit_of c)
unfolding hex_value
hex_value_lem c h = ground (arith, h)

hex_digit-IsDigit : (v : ℕ) → v < 16 → IsDigit (hex_digit v) × (digit_of (hex_digit v) ≡ v)
hex_digit-IsDigit v h = ground (arith, h)

not_underscore : (c : ℕ) → IsDigit c → (c == 95) ≡ false
not_underscore c h = ground (arith, h)

digits-value :
    (v : ℕ) (text : Bytes) → All IsDigit text → digits true true v text ≡ some (value_of v text)
unfolding digits value_of
digits-value v [] h = refl
digits-value v (c ∷ text) h =
    rw (not_underscore c h.0, hex_value_lem c h.0) (digits-value (v * 16 + digit_of c) text h.1)

hex_loop-IsDigit :
    (fuel n : ℕ) (text : Bytes) → All IsDigit text → All IsDigit (hex_loop fuel n text)
unfolding hex_loop
hex_loop-IsDigit zero n text h = h
hex_loop-IsDigit (suc fuel) n text h = elim (Bool-cases (ltb n 16)) [
  | inl small ↦ rw small ((hex_digit-IsDigit n (ground (arith, small))).0, h)
  | inr big ↦ rw big (
      hex_loop-IsDigit fuel (n / 16) (hex_digit (n % 16) ∷ text)
        ((hex_digit-IsDigit (n % 16) (omega arith)).0, h))
]

value-hex_loop :
    (fuel n : ℕ) (text : Bytes) → n < fuel → value_of 0 (hex_loop fuel n text) ≡ value_of n text
unfolding hex_loop value_of
value-hex_loop zero n text h = absurd (omega arith)
value-hex_loop (suc fuel) n text h = elim (Bool-cases (ltb n 16)) [
  | inl small ↦
      let same : 0 * 16 + digit_of (hex_digit n) ≡ n =
        omega (arith, (hex_digit-IsDigit n (ground (arith, small))).1) in
      rw small (ap (λ v. value_of v text) same)
  | inr big ↦
      let large : 16 ≤ n = ground (arith, big) in
      let same : n / 16 * 16 + digit_of (hex_digit (n % 16)) ≡ n =
        omega (arith, (hex_digit-IsDigit (n % 16) (omega arith)).1) in
      rw big (
        value-hex_loop fuel (n / 16) (hex_digit (n % 16) ∷ text) (omega (arith, large, h))
        ∙ ap (λ v. value_of v text) same)
]

length-hex_loop : (fuel n : ℕ) (text : Bytes) → length text ≤ length (hex_loop fuel n text)
unfolding hex_loop
length-hex_loop zero n text = omega arith
length-hex_loop (suc fuel) n text = elim (Bool-cases (ltb n 16)) [
  | inl small ↦ rw small (omega arith)
  | inr big ↦ rw big (omega (arith, length-hex_loop fuel (n / 16) (hex_digit (n % 16) ∷ text)))
]

hex-IsDigit : (n : ℕ) → All IsDigit (hex n)
unfolding hex
hex-IsDigit n = hex_loop-IsDigit (suc n) n [] tt

hex-value : (n : ℕ) → value_of 0 (hex n) ≡ n
unfolding hex value_of
hex-value n = value-hex_loop (suc n) n [] (omega arith)

pub hex_long : (n : ℕ) → 0 < length (hex n)
unfolding hex hex_loop
hex_long n = elim (Bool-cases (ltb n 16)) [
  | inl small ↦ rw small (omega arith)
  | inr big ↦ rw big (omega (arith, length-hex_loop n (n / 16) (hex_digit (n % 16) ∷ [])))
]

-- No digit is a sign, a line end, a semicolon or white.
not_special :
    (c : ℕ)
    → IsDigit c
    → ((c == 45) ≡ false)
      × ((c == 43) ≡ false)
      × ((c == 10) ≡ false)
      × ((c == 59) ≡ false)
      × (is_white c ≡ false)
not_special c h = ground (arith, h)

digits_start :
    (c : ℕ) (text : Bytes)
    → All IsDigit (c ∷ text)
    → digits false false 0 (c ∷ text) ≡ some (value_of 0 (c ∷ text))
unfolding digits value_of
digits_start c text h =
    rw (not_underscore c h.0, hex_value_lem c h.0) (digits-value (0 * 16 + digit_of c) text h.1)

unsigned-digits :
    (c : ℕ) (text : Bytes)
    → All IsDigit (c ∷ text)
    → unsigned (c ∷ text) ≡ digits false false 0 (c ∷ text)
unfolding unsigned
unsigned-digits c [] h = refl
unsigned-digits c (b ∷ text) h = ground (arith, h.0, h.1.0)

hex_int-digits :
    (text : Bytes)
    → 0 < length text
    → All IsDigit text
    → hex_int text ≡ some (pos (value_of 0 text))
unfolding hex_int
hex_int-digits [] long h = absurd (omega arith)
hex_int-digits (c ∷ text) long h =
    let (minus, plus, line, semicolon, white) = not_special c h.0 in
    rw (minus, plus, unsigned-digits c text h, digits_start c text h) refl

-- The size that is sent is read back.
pub hex_int-hex : (n : ℕ) → hex_int (hex n) ≡ some (pos n)
hex_int-hex n =
    hex_int-digits (hex n) (hex_long n) (hex-IsDigit n) ∙ ap (λ v. some (pos v)) (hex-value n)

partition-digits :
    (text rest : Bytes)
    → All IsDigit text
    → partition_line (text ++ 13 ∷ 10 ∷ rest) ≡ some (text ++ 13 ∷ [], rest)
unfolding partition_line
partition-digits [] rest h = refl
partition-digits (c ∷ text) rest h = rw ((not_special c h.0).2, partition-digits text rest h.1) refl

before-digits :
    (text : Bytes) → All IsDigit text → before_semicolon (text ++ 13 ∷ []) ≡ text ++ 13 ∷ []
unfolding before_semicolon
before-digits [] h = refl
before-digits (c ∷ text) h = rw ((not_special c h.0).3, before-digits text h.1) refl

strip-digits : (text : Bytes) → All IsDigit text → strip_right (text ++ 13 ∷ []) ≡ text
unfolding strip_right
strip-digits [] h = refl
strip-digits (c ∷ []) h = rw (not_special c h.0).4 refl
strip-digits (c ∷ b ∷ text) h = rw (strip-digits (b ∷ text) h.1) refl

strip_left-digits :
    (text : Bytes)
    → 0 < length text
    → All IsDigit text
    → strip_left (text ++ 13 ∷ []) ≡ text ++ 13 ∷ []
unfolding strip_left
strip_left-digits [] long h = absurd (omega arith)
strip_left-digits (c ∷ text) long h = rw (not_special c h.0).4 refl

pub size_field-hex : (n : ℕ) → size_field (hex n ++ 13 ∷ []) ≡ hex n
unfolding size_field
size_field-hex n =
    let h = hex-IsDigit n in
    ap (λ l. strip_right (strip_left l)) (before-digits (hex n) h)
    ∙ ap strip_right (strip_left-digits (hex n) (hex_long n) h)
    ∙ strip-digits (hex n) h

pub partition-hex :
    (n : ℕ) (rest : Bytes)
    → partition_line (hex n ++ 13 ∷ 10 ∷ rest) ≡ some (hex n ++ 13 ∷ [], rest)
partition-hex n rest = partition-digits (hex n) rest (hex-IsDigit n)
