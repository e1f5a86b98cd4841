-- ===== src/Prelude/Int.antt =====
-- Python's integers where they may be negative: `negsuc n` is -(n + 1).
use Prim.Native.Nat.{ℕ, ◌+◌, ◌*◌}
use mathlib.Core.Bool.{Bool, true, false, not}
use sp_rtk_base_relay.Prelude.Tests.{◌==◌, leb}

pub data ℤ : Type 0 where
  pos : ℕ → ℤ
  negsuc : ℕ → ℤ

infix 50 ◌==ℤ◌
abbrev pub ◌==ℤ◌ : ℤ → ℤ → Bool
pos a ==ℤ pos b = a == b
pos a ==ℤ negsuc b = false
negsuc a ==ℤ pos b = false
negsuc a ==ℤ negsuc b = a == b

abbrev pub leb_int : ℤ → ℤ → Bool
leb_int (pos a) (pos b) = leb a b
leb_int (pos a) (negsuc b) = false
leb_int (negsuc a) (pos b) = true
leb_int (negsuc a) (negsuc b) = leb b a

abbrev pub ltb_int : ℤ → ℤ → Bool
ltb_int a b = not (leb_int b a)

-- z * (n + 1)
abbrev pub times_suc : ℤ → ℕ → ℤ
times_suc (pos a) n = pos (a * (n + 1))
times_suc (negsuc a) n = negsuc (a * (n + 1) + n)

abbrev pub natural : ℤ → ℕ
natural (pos a) = a
natural (negsuc a) = 0
