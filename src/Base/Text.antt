-- ===== src/Base/Text.antt =====
-- The bytes of an ASCII literal.
use Prim.Native.Char.{code}
use Prim.Native.String.{String}
use mathlib.Core.Bool.{Bool, true, false, ◌&&◌}
use mathlib.Core.List.{[], ◌∷◌}
use mathlib.Core.Path.{◌≡◌, refl, ap₂}
use native.Mathlib.Omega.{arith}
use khttpd.Base.Lists.{Bytes}
use khttpd.Base.Tests.{◌==◌, ==_iff, and_parts}

abbrev pub codes : String → Bytes
codes String.[] = []
codes (String.◌∷◌ c s) = code c ∷ codes s

-- memcmp of two texts of the same length, and that their lengths agree
abbrev pub same_text : Bytes → Bytes → Bool
same_text [] [] = true
same_text (x ∷ xs) (y ∷ ys) = x == y && same_text xs ys
same_text _ _ = false

pub same_text→eq : (xs ys : Bytes) → same_text xs ys ≡ true → xs ≡ ys
same_text→eq [] [] h = refl
same_text→eq [] (y ∷ ys) h = absurd (ground arith)
same_text→eq (x ∷ xs) [] h = absurd (ground arith)
same_text→eq (x ∷ xs) (y ∷ ys) h =
    let p = and_parts (x == y) (same_text xs ys) h in
    ap₂ ◌∷◌ ((==_iff x y).0 p.0) (same_text→eq xs ys p.1)

pub same_text_refl : (xs : Bytes) → same_text xs xs ≡ true
same_text_refl [] = refl
same_text_refl (x ∷ xs) = rw ((==_iff x x).1 refl, same_text_refl xs) refl
