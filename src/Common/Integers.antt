-- ===== src/Common/Integers.antt =====
-- Integers over the native numbers, for times and durations.
use cm4all_beng_proxy.Common.Tests.{ltb, leb, ◌==◌, if◌then◌else◌}
use Prim.Native.Nat.{ℕ, suc, ◌+◌, ◌-◌}
use mathlib.Core.Bool.{Bool, true, false}

pub data ℤ : Type 0 where
  pos : ℕ → ℤ
  negsuc : ℕ → ℤ

abbrev pub diff : ℕ → ℕ → ℤ
diff a b = if leb b a then pos (a - b) else negsuc (b - a - 1)

infixl 60 ◌+ℤ◌
abbrev pub ◌+ℤ◌ : ℤ → ℤ → ℤ
pos a +ℤ pos b = pos (a + b)
pos a +ℤ negsuc b = diff a (suc b)
negsuc a +ℤ pos b = diff b (suc a)
negsuc a +ℤ negsuc b = negsuc (suc (a + b))

infixl 60 ◌-ℤ◌
abbrev pub ◌-ℤ◌ : ℤ → ℤ → ℤ
pos a -ℤ pos b = diff a b
pos a -ℤ negsuc b = pos (a + suc b)
negsuc a -ℤ pos b = negsuc (a + b)
negsuc a -ℤ negsuc b = diff b a

abbrev pub ltℤ : ℤ → ℤ → Bool
ltℤ (pos a) (pos b) = ltb a b
ltℤ (pos a) (negsuc b) = false
ltℤ (negsuc a) (pos b) = true
ltℤ (negsuc a) (negsuc b) = ltb b a

abbrev pub leℤ : ℤ → ℤ → Bool
leℤ (pos a) (pos b) = leb a b
leℤ (pos a) (negsuc b) = false
leℤ (negsuc a) (pos b) = true
leℤ (negsuc a) (negsuc b) = leb b a

abbrev pub eqℤ : ℤ → ℤ → Bool
eqℤ (pos a) (pos b) = a == b
eqℤ (pos a) (negsuc b) = false
eqℤ (negsuc a) (pos b) = false
eqℤ (negsuc a) (negsuc b) = a == b
