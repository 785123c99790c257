-- ===== src/Base/Ints.antt =====
-- Integers over the native numbers: `negsuc n` is -(n + 1).
use Prim.Native.Nat.{ℕ, suc, ◌+◌, ◌-◌, ◌≤◌, min}
use mathlib.Core.Path.{◌≡◌}
use mathlib.Core.Logic.{◌⊎◌, inl, inr}
use mathlib.Core.Bool.{Bool}
use native.Mathlib.Omega.{arith}
use khttpd.Base.Tests.{ltb, leb, if◌then◌else◌}

pub data ℤ : Type 0 where
  pos : ℕ → ℤ
  negsuc : ℕ → ℤ

-- An integer is above - below, and one of them is 0.
abbrev pub above : ℤ → ℕ
above (pos n) = n
above (negsuc n) = 0

abbrev pub below : ℤ → ℕ
below (pos n) = 0
below (negsuc n) = suc n

abbrev pub difference : ℕ → ℕ → ℤ
difference a b = if leb b a then pos (a - b) else negsuc (b - a - 1)

infixl 65 ◌+ℤ◌ ◌-ℤ◌
unfoldable pub ◌+ℤ◌ : ℤ → ℤ → ℤ
a +ℤ b = difference (above a + above b) (below a + below b)

unfoldable pub ◌-ℤ◌ : ℤ → ℤ → ℤ
a -ℤ b = difference (above a + below b) (below a + above b)

abbrev pub ltb_ℤ : ℤ → ℤ → Bool
ltb_ℤ a b = ltb (above a + below b) (above b + below a)

unfoldable pub min_ℤ : ℤ → ℤ → ℤ
min_ℤ a b = if ltb_ℤ a b then a else b

pub one_part : (a : ℤ) → (above a ≤ 0) ⊎ (below a ≤ 0)
one_part (pos n) = inr (omega arith)
one_part (negsuc n) = inl (omega arith)

pub add_parts : (a b : ℤ) → above (a +ℤ b) + below a + below b ≡ below (a +ℤ b) + above a + above b
unfolding ◌+ℤ◌
add_parts a b = ground arith

pub sub_parts : (a b : ℤ) → above (a -ℤ b) + below a + above b ≡ below (a -ℤ b) + above a + below b
unfolding ◌-ℤ◌
sub_parts a b = ground arith

pub above_min-le : (a b : ℤ) → (above (min_ℤ a b) ≤ above a) × (above (min_ℤ a b) ≤ above b)
unfolding min_ℤ
above_min-le a b = ground (arith, one_part a, one_part b)

pub above_min_zero : (a b : ℤ) → above (min_ℤ a b) ≤ 0 → (above a ≤ 0) ⊎ (above b ≤ 0)
unfolding min_ℤ
above_min_zero a b h = ground arith

pub above-min : (a b : ℤ) → above (min_ℤ a b) ≡ min (above a) (above b)
unfolding min_ℤ
above-min a b = ground (arith, one_part a, one_part b)
