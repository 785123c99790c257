-- ===== src/Huffman/Tree.antt =====
-- The code tree of the encoder's table, read bit by bit: the specification of the decoder.
pub mod Paths
pub mod Check
use khttpd.Base.{
  ℕ, zero, suc, ◌+◌, ◌*◌, ◌/◌, ◌%◌, ◌^◌, ◌-◌, Bool, true, false, ◌&&◌, ◌||◌, not, List, [], ◌∷◌,
  ◌++◌, Option, none, some, ◌==◌, ltb, if◌then◌else◌, Bytes, get_or,
}
use khttpd.Huffman.Code.{EncodeCode, DecodeCode, code}
use khttpd.Huffman.Encode.Table.{encode_table}
use Paths.{path_keys}

abbrev pub Bits : Type 0
Bits = List Bool

-- The lowest `n` bits of `x`, the most significant first.
unfoldable pub low_bits : ℕ → ℕ → Bits
low_bits zero x = []
low_bits (suc n) x = (x / 2 ^ n % 2 == 1) ∷ low_bits n x

abbrev pub word : EncodeCode → Bits
word (code c len) = low_bits len c

-- The code word of a byte.
unfoldable pub code_word : ℕ → Bits
unfolding low_bits
code_word sym = word (get_or encode_table sym (code 0 0))

pub data Tree : Type 0 where
  dead : Tree
  leaf : ℕ → Tree
  node : Tree → Tree → Tree

unfoldable pub insert : Bits → ℕ → Tree → Tree
insert [] sym t = leaf sym
insert (false ∷ bs) sym (node l r) = node (insert bs sym l) r
insert (true ∷ bs) sym (node l r) = node l (insert bs sym r)
insert (false ∷ bs) sym t = node (insert bs sym dead) dead
insert (true ∷ bs) sym t = node dead (insert bs sym dead)

unfoldable pub insert_all : ℕ → List EncodeCode → Tree → Tree
unfolding insert low_bits
insert_all sym [] t = t
insert_all sym (e ∷ es) t = insert_all (sym + 1) es (insert (word e) sym t)

-- The tree of all code words.
unfoldable pub code_tree : Tree
unfolding insert_all
code_tree = insert_all 0 encode_table dead

unfoldable pub walk : Tree → Bits → Tree
walk t [] = t
walk (node l r) (false ∷ bs) = walk l bs
walk (node l r) (true ∷ bs) = walk r bs
walk t (b ∷ bs) = dead

-- Read bits from the place `cur` of the tree `t`: the symbols met, and the place after the last.
unfoldable pub scan : Tree → Tree → Bits → Option (Bytes × Tree)
scan t cur [] = some ([], cur)
scan t cur (b ∷ bs) = elim (walk cur (b ∷ [])) [
  | dead ↦ none
  | leaf sym ↦ elim (scan t t bs) [ none ↦ none | some (syms, at) ↦ some (sym ∷ syms, at) ]
  | node l r ↦ scan t (node l r) bs
]

unfoldable pub ones : ℕ → Bits
ones zero = []
ones (suc n) = true ∷ ones n

unfoldable pub same : Tree → Tree → Bool
same dead dead = true
same (leaf a) (leaf b) = a == b
same (node a b) (node c d) = same a c && same b d
same _ _ = false

-- The place lies fewer than `n` ones from the top.
unfoldable pub is_padding : ℕ → Tree → Tree → Bool
unfolding same walk ones
is_padding zero t at = false
is_padding (suc n) t at = same at (walk t (ones n)) || is_padding n t at
