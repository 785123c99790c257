-- ===== src/Huffman/Decode/Padding.antt =====
-- The paddings of the code: only ones lead to a place of the code tree that counts as one.
use khttpd.Huffman.Decode.Spelled.{leaf_path}
use khttpd.Base.{
  ◌≢◌, ap₂, Bool-cases, ℕ, zero, suc, ◌<◌, ◌≡◌, refl, ap, arith, Bool, true, false, ◌&&◌, [], ◌∷◌,
  ◌++◌, Option, none, some, sym, ◌∙◌, inl, inr, length, length-append,
}
use native.Mathlib.Decide.{ℕ_discrete}
use mathlib.Core.Bool.{false≢true}
use khttpd.Huffman.Decode.Refines.{Tree-cases}
use khttpd.Huffman.Decode.RoundTrip.{walk-append}
use khttpd.Huffman.Tree.{Tree, dead, leaf, node, Bits, walk, code_tree, ones, same, is_padding}
use khttpd.Huffman.Tree.Check.{padding_flag, both, same→eq}

-- A place that counts as a padding is reached by ones alone.
pub is_padding_sound :
    (n : ℕ) (t at : Tree) → is_padding n t at ≡ true → (k : ℕ) × (k < n) × (at ≡ walk t (ones k))
unfolding is_padding
is_padding_sound zero t at h = cc
is_padding_sound (suc n) t at h = elim (Bool-cases (same at (walk t (ones n)))) [
  | inl e ↦ (n, omega arith, same→eq at (walk t (ones n)) e)
  | inr e ↦ let (k, l, f) = is_padding_sound n t at (rw e at h) in (k, omega arith, f)
]

-- A path from a place down to a leaf.
some_leaf : Tree → Option Bits
some_leaf dead = none
some_leaf (leaf s) = some []
some_leaf (node l r) = elim (some_leaf l) [
  | some w ↦ some (false ∷ w)
  | none ↦ elim (some_leaf r) [ some w ↦ some (true ∷ w) | none ↦ none ]
]

is_leaf : Tree → Bool
is_leaf (leaf s) = true
is_leaf _ = false

leaf_below : Tree → Option Bits → Bool
unfolding is_leaf walk
leaf_below t none = false
leaf_below t (some w) = is_leaf (walk t w)

check_below : ℕ → Bool
unfolding some_leaf leaf_below walk code_tree ones
check_below zero = true
check_below (suc n) =
    leaf_below (walk code_tree (ones n)) (some_leaf (walk code_tree (ones n))) && check_below n

below_checked : check_below 30 ≡ true
unfolding check_below
below_checked = refl

leaf_below_sound :
    (t : Tree) (o : Option Bits)
    → leaf_below t o ≡ true
    → (w : Bits) × (s : ℕ) × (walk t w ≡ leaf s)
unfolding leaf_below
leaf_below_sound t none h = cc
leaf_below_sound t (some w) h = elim (Tree-cases (walk t w)) [
  | inl e ↦ absurd (false≢true (rw (e, is_leaf) at h))
  | inr (inl (s, e)) ↦ (w, s, e)
  | inr (inr (l, r, e)) ↦ absurd (false≢true (rw (e, is_leaf) at h))
]

check_below_sound :
    (n k : ℕ)
    → check_below n ≡ true
    → k < n
    → (w : Bits) × (s : ℕ) × (walk (walk code_tree (ones k)) w ≡ leaf s)
unfolding check_below
check_below_sound zero k h l = absurd (omega arith)
check_below_sound (suc n) k h l = elim (ℕ_discrete k n) [
  | yes e ↦ rw e (leaf_below_sound _ _ ((both _ _ h).0))
  | no ne ↦ check_below_sound n k ((both _ _ h).1) (omega arith)
]

append_cancel : (xs ys w : Bits) → xs ++ w ≡ ys ++ w → xs ≡ ys
append_cancel [] [] w e = refl
append_cancel [] (y ∷ ys) w e = absurd (omega (arith, ap length e, length-append ys w))
append_cancel (x ∷ xs) [] w e = absurd (omega (arith, ap length e, length-append xs w))
append_cancel (x ∷ xs) (y ∷ ys) w e =
    let tails : xs ++ w ≡ ys ++ w = cc in
    let heads : x ≡ y = cc in ap₂ ◌∷◌ heads (append_cancel xs ys w tails)

-- Only ones lead to a padding.
pub padding_path :
    (v : Bits) (k : ℕ) → k < 30 → walk code_tree v ≡ walk code_tree (ones k) → v ≡ ones k
padding_path v k l e =
    let (w, s, f) = check_below_sound 30 k below_checked l in
    let here = walk-append code_tree v w ∙ ap (λ t. walk t w) e ∙ f in
    let there = walk-append code_tree (ones k) w ∙ f in
    append_cancel v (ones k) w
      ((leaf_path (v ++ w) s here).1 ∙ sym ((leaf_path (ones k ++ w) s there).1))

pub padding_set :
    (at : Tree) (ending : ℕ)
    → ending ≡ padding_flag at
    → ending ≢ 0
    → is_padding 30 code_tree at ≡ true
padding_set at ending e ne = elim (Bool-cases (is_padding 30 code_tree at)) [
  | inl h ↦ h
  | inr h ↦ absurd (ne (e ∙ rw h refl))
]
