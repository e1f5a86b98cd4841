-- ===== src/Prelude/Bits.antt =====
-- `^`, `&`, `|` and the shifts of Python's integers, as laws at every width.
use Prim.Native.Nat.{
  ℕ, zero, suc, ◌+◌, ◌-◌, ◌*◌, ◌/◌, ◌%◌, ◌^◌, ◌≤◌, ◌<◌, min, max, digits, bitwise, bit_and, bit_or,
  bit_xor, bit_and-bitwise, bit_or-bitwise, bit_xor-bitwise, differ,
}
use mathlib.Core.Path.{◌≡◌, refl, ap, ap₂, ◌∙◌, sym}
use native.Mathlib.Nat.{pow-suc, one-le-pow}
use native.Mathlib.Omega.{arith}

-- With fuel for the first number, more fuel changes nothing.
module _ (rest : ℕ → ℕ) (op : ℕ → ℕ → ℕ) where
  spare_fuel : (fuel y : ℕ) → digits rest op fuel 0 y ≡ rest y
  spare_fuel zero y = refl
  spare_fuel (suc fuel) y = refl

  enough_fuel :
      (x y fuel fuel' : ℕ)
      → x ≤ fuel
      → x ≤ fuel'
      → digits rest op fuel x y ≡ digits rest op fuel' x y
  enough_fuel zero y fuel fuel' h h' = spare_fuel fuel y ∙ sym (spare_fuel fuel' y)
  enough_fuel (suc x) y (suc fuel) (suc fuel') h h' =
      ap (λ (high : ℕ). high * 2 + op (suc x % 2) (y % 2))
        (enough_fuel (suc x / 2) (y / 2) fuel fuel' (omega arith) (omega arith))
  enough_fuel (suc x) y zero fuel' h h' = absurd (omega arith)
  enough_fuel (suc x) y (suc fuel) zero h h' = absurd (omega arith)

  lowest_digit :
      (x y : ℕ)
      → bitwise rest op (suc x) y ≡ bitwise rest op (suc x / 2) (y / 2) * 2 + op (suc x % 2) (y % 2)
  lowest_digit x y =
      ap (λ (high : ℕ). high * 2 + op (suc x % 2) (y % 2))
        (enough_fuel (suc x / 2) (y / 2) x (suc x / 2) (omega arith) (omega arith))

pub or_halves : (x y : ℕ) → max (x % 2) (y % 2) + 2 * bit_or (x / 2) (y / 2) ≡ bit_or x y
or_halves zero y = simp bit_or-bitwise (omega arith)
or_halves (suc x) y = simp bit_or-bitwise (omega (arith, lowest_digit (λ digit. digit) max x y))

pub and_halves : (x y : ℕ) → min (x % 2) (y % 2) + 2 * bit_and (x / 2) (y / 2) ≡ bit_and x y
and_halves zero y = simp bit_and-bitwise (omega arith)
and_halves (suc x) y = simp bit_and-bitwise (omega (arith, lowest_digit (λ digit. 0) min x y))

differ_digits : (digit other : ℕ) → digit < 2 → other < 2 → (digit + other) % 2 ≡ differ digit other
differ_digits zero zero h h' = refl
differ_digits (suc zero) zero h h' = refl
differ_digits zero (suc zero) h h' = refl
differ_digits (suc zero) (suc zero) h h' = refl
differ_digits (suc (suc digit)) other h h' = absurd (omega (arith, h))
differ_digits zero (suc (suc other)) h h' = absurd (omega (arith, h'))
differ_digits (suc zero) (suc (suc other)) h h' = absurd (omega (arith, h'))

pub xor_halves : (a b : ℕ) → bit_xor a b ≡ bit_xor (a / 2) (b / 2) * 2 + (a % 2 + b % 2) % 2
xor_halves zero b = simp bit_xor-bitwise (omega arith)
xor_halves (suc a) b = simp bit_xor-bitwise (
    omega (
      arith,
      lowest_digit (λ digit. digit) differ a b,
      differ_digits (suc a % 2) (b % 2) (omega arith) (omega arith),
    ))

-- Half of a number is below it, so the laws go by recursion on a bound.
module _ (P : ℕ → ℕ → Type 0) (step : (a b : ℕ) → P (a / 2) (b / 2) → P a b) (base : P 0 0) where
  halving_below : (n a b : ℕ) → a ≤ n → b ≤ n → P a b
  halving_below zero zero zero ha hb = base
  halving_below zero zero (suc b) ha hb = absurd (omega arith)
  halving_below zero (suc a) b ha hb = absurd (omega arith)
  halving_below (suc n) a b ha hb =
      step a b (halving_below n (a / 2) (b / 2) (omega arith) (omega arith))

  pub halving : (a b : ℕ) → P a b
  halving a b = halving_below (a + b) a b (omega arith) (omega arith)

pub xor_comm : (a b : ℕ) → bit_xor a b ≡ bit_xor b a
xor_comm =
    halving (λ a b. bit_xor a b ≡ bit_xor b a)
      (λ a b ih. omega (arith, xor_halves a b, xor_halves b a)) refl

pub xor_self : (a : ℕ) → bit_xor a a ≡ 0
xor_self a = halving (λ a b. bit_xor a a ≡ 0) (λ a b ih. omega (arith, xor_halves a a)) refl a a

pub zero-xor : (a : ℕ) → bit_xor 0 a ≡ a
zero-xor a = bit_xor-bitwise 0 a

pub xor-zero : (a : ℕ) → bit_xor a 0 ≡ a
xor-zero a = xor_comm a 0 ∙ zero-xor a

xor_assoc_below : (n a b c : ℕ) → a + b + c ≤ n → bit_xor (bit_xor a b) c ≡ bit_xor a (bit_xor b c)
xor_assoc_below zero zero zero zero h = refl
xor_assoc_below zero zero zero (suc c) h = absurd (omega arith)
xor_assoc_below zero zero (suc b) c h = absurd (omega arith)
xor_assoc_below zero (suc a) b c h = absurd (omega arith)
xor_assoc_below (suc n) zero zero zero h = refl
xor_assoc_below (suc n) a b c h = ground (
  arith,
  xor_halves (bit_xor a b) c,
  xor_halves a (bit_xor b c),
  xor_halves a b,
  xor_halves b c,
  xor_assoc_below n (a / 2) (b / 2) (c / 2),
)

pub xor_assoc : (a b c : ℕ) → bit_xor (bit_xor a b) c ≡ bit_xor a (bit_xor b c)
xor_assoc a b c = xor_assoc_below (a + b + c) a b c (omega arith)

pub xor_cancel : (a b : ℕ) → bit_xor (bit_xor a b) b ≡ a
xor_cancel a b = xor_assoc a b b ∙ ap (bit_xor a) (xor_self b) ∙ xor-zero a

pub xor_injective : (a b c : ℕ) → bit_xor a c ≡ bit_xor b c → a ≡ b
xor_injective a b c h = cc (xor_cancel a c, xor_cancel b c)

pub double_field : (k q : ℕ) → 2 * (q * 2 ^ k) ≡ q * 2 ^ suc k
double_field k q = omega (arith, ap (λ (width : ℕ). q * width) (pow-suc 2 k))

-- `^` works on the fields above and below bit `k` apart.
pub xor_fields :
    (k q r q' r' : ℕ)
    → r < 2 ^ k
    → r' < 2 ^ k
    → (bit_xor (q * 2 ^ k + r) (q' * 2 ^ k + r') ≡ bit_xor q q' * 2 ^ k + bit_xor r r')
      × (bit_xor r r' < 2 ^ k)
xor_fields zero q r q' r' h h' = ground (arith, xor-zero 0)
xor_fields (suc k) q r q' r' h h' = ground (
  arith,
  pow-suc 2 k,
  double_field k q,
  double_field k q',
  double_field k (bit_xor q q'),
  xor_halves (q * 2 ^ suc k + r) (q' * 2 ^ suc k + r'),
  xor_halves r r',
  xor_fields k q (r / 2) q' (r' / 2),
)

bit_or-zero : (a : ℕ) → bit_or a 0 ≡ a
bit_or-zero a = halving (λ a b. bit_or a 0 ≡ a) (λ a b ih. omega (arith, or_halves a 0)) refl a a

bit_and-zero : (a : ℕ) → bit_and a 0 ≡ 0
bit_and-zero a = halving (λ a b. bit_and a 0 ≡ 0) (λ a b ih. omega (arith, and_halves a 0)) refl a a

-- The sum of two fields that share no bit is their `|`.
pub bit_or_fields : (k high low : ℕ) → low < 2 ^ k → bit_or (high * 2 ^ k) low ≡ high * 2 ^ k + low
bit_or_fields zero high low h = ground (arith, bit_or-zero high)
bit_or_fields (suc k) high low h =
    let upper = bit_or_fields k high (low / 2) (omega (arith, pow-suc 2 k)) in
    ground (arith, or_halves (high * 2 ^ suc k) low, double_field k high, upper)

bit_and_fields : (k high low : ℕ) → low < 2 ^ k → bit_and (high * 2 ^ k + low) (2 ^ k - 1) ≡ low
bit_and_fields zero high low h = ground (arith, bit_and-zero (high * 1 + low))
bit_and_fields (suc k) high low h =
    let width = pow-suc 2 k in
    let upper = bit_and_fields k high (low / 2) (omega (arith, width)) in
    let masked = and_halves (high * 2 ^ suc k + low) (2 ^ suc k - 1) in
    ground (arith, masked, double_field k high, width, upper, one-le-pow k 2)

-- A mask of `k` low bits is the remainder by `2 ^ k`.
pub bit_and_mask : (k number : ℕ) → bit_and number (2 ^ k - 1) ≡ number % 2 ^ k
bit_and_mask k number =
    let width = one-le-pow k 2 (omega arith) in
    let split = bit_and_fields k (number / 2 ^ k) (number % 2 ^ k) in ground (arith, width, split)

pub xor-double : (a b : ℕ) → bit_xor (2 * a) (2 * b) ≡ 2 * bit_xor a b
xor-double a b =
    ap₂ bit_xor (omega arith) (omega arith)
    ∙ (xor_fields 1 a 0 b 0 (omega arith) (omega arith)).0
    ∙ omega (arith, xor-zero 0)

-- Regrouping a sum of four.
pub xor_interchange :
    (a b c d : ℕ) → bit_xor (bit_xor a b) (bit_xor c d) ≡ bit_xor (bit_xor a c) (bit_xor b d)
xor_interchange a b c d = cc (
  xor_assoc a b (bit_xor c d),
  xor_assoc b c d,
  xor_comm b c,
  xor_assoc c b d,
  xor_assoc a c (bit_xor b d),
)

pub xor-lt : (k a b : ℕ) → a < 2 ^ k → b < 2 ^ k → bit_xor a b < 2 ^ k
xor-lt k a b ha hb = (xor_fields k 0 a 0 b ha hb).1

one-le-two-pow : (k : ℕ) → 0 < 2 ^ k
one-le-two-pow k = one-le-pow k 2 (omega arith)

pub xor-high :
    (k q r p : ℕ) → r < 2 ^ k → bit_xor (q * 2 ^ k + r) (p * 2 ^ k) ≡ bit_xor q p * 2 ^ k + r
xor-high k q r p h =
    ap (bit_xor (q * 2 ^ k + r)) (omega arith)
    ∙ (xor_fields k q r p 0 h (one-le-two-pow k)).0
    ∙ omega (arith, xor-zero r)

pub xor_disjoint : (k r p : ℕ) → r < 2 ^ k → bit_xor r (p * 2 ^ k) ≡ p * 2 ^ k + r
xor_disjoint k r p h =
    ap (λ s. bit_xor s (p * 2 ^ k)) (omega arith)
    ∙ xor-high k 0 r p h
    ∙ omega (arith, ap (λ (t : ℕ). t * 2 ^ k) (zero-xor p))
