-- ===== src/Huffman/Tree/Check.antt =====
-- The decoder's table, compared entry by entry with the code tree.
use khttpd.Base.{
  inr, append-nil, inl, Bool-cases, ltb→lt, ◌<◌, ℕ, zero, suc, ◌+◌, ◌/◌, ◌≡◌, refl, ap, ap₂, arith,
  ==_iff, Bool, true, false, ◌&&◌, not, List, [], ◌∷◌, ◌++◌, Option, none, some, ◌==◌, ltb,
  if◌then◌else◌, Bytes, get_or,
}
use khttpd.Huffman.Code.{DecodeCode, code}
use mathlib.Core.Path.{sym as sym_path}
use khttpd.Huffman.Decode.{Progress, follow, huff_decode_bits, lookup_code}
use khttpd.Huffman.Decode.Table.{decode_codes}
use khttpd.Huffman.Tree.Paths.{path_keys}
use khttpd.Huffman.Tree.{
  Tree, dead, leaf, node, Bits, low_bits, walk, scan, code_tree, same, is_padding, ones,
}

same_bytes : Bytes → Bytes → Bool
same_bytes [] [] = true
same_bytes (x ∷ xs) (y ∷ ys) = x == y && same_bytes xs ys
same_bytes _ _ = false

-- The number of bits of a key.
bit_length : ℕ → ℕ → ℕ
bit_length zero key = 0
bit_length (suc fuel) key =
    let more = bit_length fuel (key / 2) in if ltb key 2 then 0 else suc more

unfoldable pub state_bits : ℕ → Bits
unfolding low_bits path_keys bit_length
state_bits q = let key = get_or path_keys q 1 in low_bits (bit_length 32 key) key

check_result : Tree → ℕ → DecodeCode → Option (Bytes × Tree) → Bool
unfolding same same_bytes state_bits walk is_padding
check_result t q (code next emit sym ending) none = next == q
check_result t q (code next emit sym ending) (some (syms, at)) =
    not (next == q)
    && ltb next 256
    && same_bytes syms (if emit == 0 then [] else sym ∷ [])
    && same at (walk t (state_bits next))
    && (ending == (if is_padding 30 t at then 1 else 0))

check_row : Tree → Tree → ℕ → ℕ → List DecodeCode → Bool
unfolding check_result scan low_bits
check_row t cur q n [] = n == 16
check_row t cur q n (e ∷ es) =
    check_result t q e (scan t cur (low_bits 4 n)) && check_row t cur q (suc n) es

check_rows : Tree → ℕ → List (List DecodeCode) → Bool
unfolding check_row
check_rows t q [] = q == 256
check_rows t q (r ∷ rs) = check_row t (walk t (state_bits q)) q 0 r && check_rows t (suc q) rs

-- Every entry of the table agrees with the code tree.
table_checked : check_rows code_tree 0 decode_codes ≡ true
unfolding check_rows code_tree decode_codes
table_checked = refl

pub both : (a b : Bool) → (a && b) ≡ true → (a ≡ true) × (b ≡ true)
both a b h = ground arith

pub same→eq : (s t : Tree) → same s t ≡ true → s ≡ t
unfolding same
same→eq dead dead h = refl
same→eq dead (leaf b) h = cc
same→eq dead (node c d) h = cc
same→eq (leaf a) dead h = cc
same→eq (leaf a) (leaf b) h = ap leaf ((==_iff a b).0 h)
same→eq (leaf a) (node c d) h = cc
same→eq (node a b) dead h = cc
same→eq (node a b) (leaf c) h = cc
same→eq (node a b) (node c d) h =
    let (l, r) = both (same a c) (same b d) h in ap₂ node (same→eq a c l) (same→eq b d r)

same_bytes→eq : (xs ys : Bytes) → same_bytes xs ys ≡ true → xs ≡ ys
unfolding same_bytes
same_bytes→eq [] [] h = refl
same_bytes→eq [] (y ∷ ys) h = cc
same_bytes→eq (x ∷ xs) [] h = cc
same_bytes→eq (x ∷ xs) (y ∷ ys) h =
    let (e, r) = both (x == y) (same_bytes xs ys) h in
    ap₂ ◌∷◌ ((==_iff x y).0 e) (same_bytes→eq xs ys r)

pub plus_zero : (n : ℕ) → n + zero ≡ n
plus_zero n = omega arith

pub plus_suc : (n i : ℕ) → n + suc i ≡ suc n + i
plus_suc n i = omega arith

module _ (t cur : Tree) (q : ℕ) where
  check_row_sound :
      (es : List DecodeCode) (n i : ℕ)
      → check_row t cur q n es ≡ true
      → n + i < 16
      → check_result t q (get_or es i (code 0 0 0 0)) (scan t cur (low_bits 4 (n + i))) ≡ true
  unfolding check_row
  check_row_sound [] n i h l = absurd (omega (arith, (==_iff n 16).0 h))
  check_row_sound (e ∷ es) n zero h l = rw (plus_zero n) ((both _ _ h).0)
  check_row_sound (e ∷ es) n (suc i) h l =
      rw (plus_suc n i) (check_row_sound es (suc n) i ((both _ _ h).1) (omega arith))

check_rows_sound :
    (t : Tree) (rs : List (List DecodeCode)) (q i : ℕ)
    → check_rows t q rs ≡ true
    → q + i < 256
    → check_row t (walk t (state_bits (q + i))) (q + i) 0 (get_or rs i []) ≡ true
unfolding check_rows
check_rows_sound t [] q i h l = absurd (omega (arith, (==_iff q 256).0 h))
check_rows_sound t (r ∷ rs) q zero h l = rw (plus_zero q) ((both _ _ h).0)
check_rows_sound t (r ∷ rs) q (suc i) h l =
    rw (plus_suc q i) (check_rows_sound t rs (suc q) i ((both _ _ h).1) (omega arith))

-- The place in the code tree that a state of the automaton stands for.
unfoldable pub place : ℕ → Tree
place q = walk code_tree (state_bits q)

pub zero_plus : (n : ℕ) → 0 + n ≡ n
zero_plus n = omega arith

entry_checked :
    (q n : ℕ)
    → q < 256
    → n < 16
    → check_result code_tree q (lookup_code q n) (scan code_tree (place q) (low_bits 4 n)) ≡ true
unfolding lookup_code place
entry_checked q n hq hn =
    let row = check_rows_sound code_tree decode_codes 0 q table_checked (omega arith) in
    let row' : check_row code_tree (walk code_tree (state_bits q)) q 0 (get_or decode_codes q [])
        ≡ true =
      rw (zero_plus q) at row in
    rw (zero_plus n) at (
      check_row_sound code_tree (walk code_tree (state_bits q)) q (get_or decode_codes q []) 0 n
        row' (omega arith))

abbrev pub padding_flag : Tree → ℕ
padding_flag at = if is_padding 30 code_tree at then 1 else 0

-- A step of the automaton from `p` against the symbols and the place that reading the same bits
-- gives: it fails where they lead out of the tree, and else appends the symbols and goes to a state
-- for that place.
abbrev pub Agrees : Progress → Option (Bytes × Tree) → Option Progress → Type 0
Agrees p none r = r ≡ none
Agrees p (some (syms, at)) r =
    (p' : Progress) × (r ≡ some p')
    × (p'.dst ≡ p.dst ++ syms)
    × (place p'.state ≡ at)
    × (p'.state < 256)
    × (p'.ending ≡ padding_flag at)

record Entry (q : ℕ) (next emit sym ending : ℕ) (syms : Bytes) (at : Tree) : Type 0 where
  moves : (next == q) ≡ false
  bound : next < 256
  emits : syms ≡ (if emit == 0 then [] else sym ∷ [])
  lands : at ≡ place next
  flags : ending ≡ padding_flag at

not-true : (b : Bool) → not b ≡ true → b ≡ false
not-true b h = ground arith

checked-Entry :
    (q next emit sym ending : ℕ) (syms : Bytes) (at : Tree)
    → check_result code_tree q (code next emit sym ending) (some (syms, at)) ≡ true
    → Entry q next emit sym ending syms at
unfolding check_result place
checked-Entry q next emit sym ending syms at h =
    let (h₁, e) = both _ _ h in
    let (h₂, d) = both _ _ h₁ in
    let (h₃, c) = both _ _ h₂ in
    let (a, b) = both _ _ h₃ in
    record {
      moves = not-true (next == q) a;
      bound = ltb→lt next 256 b;
      emits = same_bytes→eq syms _ c;
      lands = same→eq at _ d;
      flags = (==_iff ending _).0 e;
    }

follow-Agrees :
    (p : Progress) (e : DecodeCode) (r : Option (Bytes × Tree))
    → check_result code_tree p.state e r ≡ true
    → Agrees p r (follow p e)
unfolding follow
follow-Agrees p (code next emit sym ending) none h = unfold check_result in rw h refl
follow-Agrees p (code next emit sym ending) (some (syms, at)) h =
    let k = checked-Entry p.state next emit sym ending syms at h in
    let dst' = if emit == 0 then p.dst else p.dst ++ sym ∷ [] in
    (
      record { state = next; ending = ending; dst = dst' },
      rw (k.moves) refl,
      elim (Bool-cases (emit == 0)) [
        | inl z ↦ rw (k.emits, z) (sym_path (append-nil p.dst))
        | inr z ↦ rw (k.emits, z) refl
      ],
      sym_path k.lands,
      k.bound,
      k.flags,
    )

-- Half a byte.
pub huff_decode_bits-Agrees :
    (p : Progress) (n : ℕ)
    → p.state < 256
    → n < 16
    → Agrees p (scan code_tree (place p.state) (low_bits 4 n)) (huff_decode_bits p n)
unfolding huff_decode_bits
huff_decode_bits-Agrees p n hq hn =
    follow-Agrees p (lookup_code p.state n) (scan code_tree (place p.state) (low_bits 4 n))
      (entry_checked p.state n hq hn)

pub place_zero : place 0 ≡ code_tree
unfolding place state_bits walk
place_zero = refl

pub padding_flag_top : padding_flag code_tree ≡ 1
unfolding is_padding code_tree walk same ones
padding_flag_top = refl
