-- ===== src/Huffman/Decode/RoundTrip.antt =====
-- The decoder accepts the code words of any text, padded by ones, and nothing else.
use khttpd.Base.{
  subst, ==_iff, get_or, ℕ, zero, suc, ◌+◌, ◌<◌, ◌≡◌, refl, ap, arith, Bool, true, false, ◌&&◌,
  List, [], ◌∷◌, ◌++◌, Option, none, some, Bytes, All, append_assoc, append-nil, sym, ◌∙◌, inl, inr,
  ◌==◌,
}
use khttpd.Huffman.Code.{EncodeCode, code}
use khttpd.Huffman.Encode.Table.{encode_table}
use khttpd.Huffman.Decode.{Progress, decode_bytes, finish_last, huff_decode}
use native.Mathlib.Decide.{ℕ_discrete}
use khttpd.Huffman.Decode.Refines.{
  settle, bits, joined, scan_leaf, scan_node, Tree-cases, decode_bytes-Agrees,
}
use khttpd.Huffman.Tree.{
  Tree, dead, leaf, node, Bits, low_bits, word, code_word, walk, scan, code_tree, ones, same,
  is_padding,
}
use khttpd.Huffman.Tree.Check.{
  padding_flag_top, place_zero, plus_suc, plus_zero, zero_plus, padding_flag, Agrees, both, same→eq,
}

unfoldable pub code_words : Bytes → Bits
code_words [] = []
code_words (s ∷ syms) = code_word s ++ code_words syms

check_codes : Tree → ℕ → List EncodeCode → Bool
check_codes t s [] = s == 256
check_codes t s (e ∷ es) = same (walk t (word e)) (leaf s) && check_codes t (suc s) es

codes_checked : check_codes code_tree 0 encode_table ≡ true
unfolding check_codes code_tree walk same low_bits
codes_checked = refl

check_codes_sound :
    (t : Tree) (s i : ℕ) (es : List EncodeCode)
    → check_codes t s es ≡ true
    → s + i < 256
    → walk t (word (get_or es i (code 0 0))) ≡ leaf (s + i)
unfolding check_codes
check_codes_sound t s i [] h l = absurd (omega (arith, (==_iff s 256).0 h))
check_codes_sound t s zero (e ∷ es) h l = rw (plus_zero s) (same→eq _ (leaf s) ((both _ _ h).0))
check_codes_sound t s (suc i) (e ∷ es) h l =
    rw (plus_suc s i) (check_codes_sound t (suc s) i es ((both _ _ h).1) (omega arith))

walk-code_word : (s : ℕ) → s < 256 → walk code_tree (code_word s) ≡ leaf s
unfolding code_word
walk-code_word s h =
    rw (zero_plus s) at (check_codes_sound code_tree 0 s encode_table codes_checked (omega arith))

-- A tree with two branches at least: no code word is empty.
abbrev pub IsBranch : Tree → Type 0
IsBranch (node l r) = Unit
IsBranch _ = ⊥

pub code_tree-IsBranch : IsBranch code_tree
unfolding code_tree
code_tree-IsBranch = tt

pub walk_dead : (w : Bits) → walk dead w ≡ dead
unfolding walk
walk_dead [] = refl
walk_dead (b ∷ w) = refl

pub walk-append : (t : Tree) (v w : Bits) → walk t (v ++ w) ≡ walk (walk t v) w
unfolding walk
walk-append t [] w = refl
walk-append dead (b ∷ v) w = sym (walk_dead w)
walk-append (leaf s) (b ∷ v) w = sym (walk_dead w)
walk-append (node l r) (true ∷ v) w = walk-append r v w
walk-append (node l r) (false ∷ v) w = walk-append l v w

pub walk_leaf : (a s : ℕ) (w : Bits) → walk (leaf a) w ≡ leaf s → (w ≡ []) × (a ≡ s)
unfolding walk
walk_leaf a s [] e = (refl, cc)
walk_leaf a s (b ∷ w) e = cc

scan-walk :
    (t cur : Tree) (s : ℕ) (w rest : Bits)
    → IsBranch cur
    → walk cur w ≡ leaf s
    → scan t cur (w ++ rest) ≡ joined (s ∷ []) (scan t t rest)
scan-walk t dead s w rest h e = elim h [ ]
scan-walk t (leaf a) s w rest h e = elim h [ ]
scan-walk t (node l r) s [] rest h e = unfold walk in cc
scan-walk t (node l r) s (b ∷ w) rest h e =
    let e' = sym (walk-append (node l r) (b ∷ []) w) ∙ e in
    elim (Tree-cases (walk (node l r) (b ∷ []))) [
      | inl d ↦ let stuck : dead ≡ leaf s = rw (d, walk_dead w) at e' in cc
      | inr (inl (a, d)) ↦
          let (empty, same_symbol) = walk_leaf a s w (rw d at e') in
          rw (empty, scan_leaf t (node l r) b rest a d, same_symbol) refl
      | inr (inr (x, y, d)) ↦
          scan_node t (node l r) b (w ++ rest) x y d
          ∙ scan-walk t (node x y) s w rest tt (rw d at e')
    ]

joined_cons :
    (s : ℕ) (syms : Bytes) (o : Option (Bytes × Tree))
    → joined (s ∷ []) (joined syms o) ≡ joined (s ∷ syms) o
joined_cons s syms none = refl
joined_cons s syms (some (more, there)) = refl

joined_nil : (o : Option (Bytes × Tree)) → o ≡ joined [] o
joined_nil none = refl
joined_nil (some (more, there)) = refl

scan-code_words :
    (syms : Bytes) (rest : Bits)
    → All (λ s. s < 256) syms
    → scan code_tree code_tree (code_words syms ++ rest)
      ≡ joined syms (scan code_tree code_tree rest)
unfolding code_words
scan-code_words [] rest h = joined_nil (scan code_tree code_tree rest)
scan-code_words (s ∷ syms) rest h = rw (append_assoc (code_word s) (code_words syms) rest) (
    scan-walk code_tree code_tree s (code_word s) (code_words syms ++ rest) code_tree-IsBranch
      (walk-code_word s h.0)
    ∙ ap (joined (s ∷ [])) (scan-code_words syms rest h.1)
    ∙ joined_cons s syms (scan code_tree code_tree rest))

-- What the end of a text may be filled up with: fewer than 30 ones.
ones_result : Option (Bytes × Tree) → Bool
unfolding same
ones_result none = false
ones_result (some ([], at)) = is_padding 30 code_tree at
ones_result (some (s ∷ syms, at)) = false

check_ones : ℕ → Bool
unfolding ones_result is_padding scan walk ones code_tree
check_ones zero = true
check_ones (suc n) = ones_result (scan code_tree code_tree (ones n)) && check_ones n

ones_checked : check_ones 30 ≡ true
unfolding check_ones
ones_checked = refl

check_ones_sound :
    (n k : ℕ) → check_ones n ≡ true → k < n → ones_result (scan code_tree code_tree (ones k)) ≡ true
unfolding check_ones
check_ones_sound zero k h l = absurd (omega arith)
check_ones_sound (suc n) k h l = elim (ℕ_discrete k n) [
  | yes e ↦ rw e ((both _ _ h).0)
  | no ne ↦ check_ones_sound n k ((both _ _ h).1) (omega arith)
]

ones_result_sound :
    (o : Option (Bytes × Tree))
    → ones_result o ≡ true
    → (at : Tree) × (o ≡ some ([], at)) × (is_padding 30 code_tree at ≡ true)
unfolding ones_result
ones_result_sound none h = cc
ones_result_sound (some ([], at)) h = (at, refl, h)
ones_result_sound (some (s ∷ syms, at)) h = cc

abbrev pub start : Bytes → Progress
start dst = record { state = 0; ending = 1; dst = dst }

pub start-Agrees :
    (src dst : Bytes)
    → All (λ ch. ch < 256) src
    → Agrees (start dst) (scan code_tree code_tree (bits src)) (decode_bytes (start dst) src)
start-Agrees src dst h =
    subst (λ t. Agrees (start dst) (scan code_tree t (bits src)) (decode_bytes (start dst) src))
      place_zero
      (decode_bytes-Agrees (start dst) src (omega arith) h
        (settle (start dst) src (sym (ap padding_flag place_zero ∙ padding_flag_top))))

finish_accepts :
    (dst syms : Bytes) (at : Tree) (r : Option Progress)
    → is_padding 30 code_tree at ≡ true
    → Agrees (start dst) (some (syms, at)) r
    → finish_last true r ≡ some (0, dst ++ syms)
unfolding finish_last
finish_accepts dst syms at r pad (q, e, d, l, b, f) =
    let set : q.ending ≡ 1 = f ∙ rw pad refl in rw (e, finish_last) (rw (set, d) refl)

-- The code words of the encoder's table, joined and filled up by fewer than 30 ones to whole bytes,
-- are decoded to the symbols that they stand for, behind what `dst` held, and the state is reset:
-- the decoder's table of 256 states undoes the encoder's table.
pub huff_decode-code_words :
    (syms src dst : Bytes) (k : ℕ)
    → All (λ s. s < 256) syms
    → All (λ ch. ch < 256) src
    → k < 30
    → bits src ≡ code_words syms ++ ones k
    → huff_decode 0 src dst true ≡ some (0, dst ++ syms)
unfolding huff_decode
huff_decode-code_words syms src dst k hs hc hk e =
    let (at, o, pad) =
      ones_result_sound (scan code_tree code_tree (ones k))
        (check_ones_sound 30 k ones_checked hk) in
    let read : scan code_tree code_tree (bits src) ≡ some (syms ++ [], at) =
      ap (scan code_tree code_tree) e ∙ scan-code_words syms (ones k) hs ∙ ap (joined syms) o in
    finish_accepts dst (syms ++ []) at (decode_bytes (start dst) src) pad (
      subst (λ r. Agrees (start dst) r (decode_bytes (start dst) src)) read
        (start-Agrees src dst hc))
    ∙ rw (append-nil syms)
