-- ===== src/Huffman/Decode/Refines.antt =====
-- The decoder against the code tree, over whole bytes and over the parts of a text.
use khttpd.Base.{
  ◌⊎◌, ℕ, ◌/◌, ◌%◌, ◌<◌, ◌≡◌, refl, ap, arith, Bool, [], ◌∷◌, ◌++◌, Option, none, some, Bytes, All,
  append_assoc, append-nil, sym, ◌∙◌, inl, inr, ◌>>=◌,
}
use khttpd.Huffman.Decode.{Progress, huff_decode_bits, decode_bytes}
use khttpd.Huffman.Tree.{Tree, dead, leaf, node, Bits, low_bits, walk, scan, code_tree}
use khttpd.Huffman.Tree.Check.{place, Agrees, huff_decode_bits-Agrees, padding_flag}

-- The bits of a text, the most significant bit of each byte first.
unfoldable pub bits : Bytes → Bits
bits [] = []
bits (ch ∷ src) = low_bits 8 ch ++ bits src

-- The symbols `syms`, and then a further result.
abbrev pub joined : Bytes → Option (Bytes × Tree) → Option (Bytes × Tree)
joined syms none = none
joined syms (some (more, there)) = some (syms ++ more, there)

abbrev pub scan_then : Tree → Option (Bytes × Tree) → Bits → Option (Bytes × Tree)
scan_then t none ys = none
scan_then t (some (syms, at)) ys = joined syms (scan t at ys)

joined_nil : (o : Option (Bytes × Tree)) → o ≡ joined [] o
joined_nil none = refl
joined_nil (some (more, there)) = refl

joined_cons :
    (s : ℕ) (syms : Bytes) (o : Option (Bytes × Tree))
    → joined (s ∷ []) (joined syms o) ≡ joined (s ∷ syms) o
joined_cons s syms none = refl
joined_cons s syms (some (more, there)) = refl

scan_then-joined :
    (t : Tree) (s : ℕ) (r : Option (Bytes × Tree)) (ys : Bits)
    → joined (s ∷ []) (scan_then t r ys) ≡ scan_then t (joined (s ∷ []) r) ys
scan_then-joined t s none ys = refl
scan_then-joined t s (some (syms, at)) ys = joined_cons s syms (scan t at ys)

joined_leaf :
    (s : ℕ) (o : Option (Bytes × Tree))
    → elim o [ none ↦ none | some (syms, at) ↦ some (s ∷ syms, at) ] ≡ joined (s ∷ []) o
joined_leaf s none = refl
joined_leaf s (some (more, there)) = refl

module _ (t : Tree) where
  pub scan_leaf :
      (cur : Tree) (b : Bool) (bs : Bits) (s : ℕ)
      → walk cur (b ∷ []) ≡ leaf s
      → scan t cur (b ∷ bs) ≡ joined (s ∷ []) (scan t t bs)
  unfolding scan
  scan_leaf cur b bs s e = rw (e, scan) (joined_leaf s (scan t t bs))

  pub scan_node :
      (cur : Tree) (b : Bool) (bs : Bits) (l r : Tree)
      → walk cur (b ∷ []) ≡ node l r
      → scan t cur (b ∷ bs) ≡ scan t (node l r) bs
  unfolding scan
  scan_node cur b bs l r e = rw (e, scan) refl

  pub scan_dead :
      (cur : Tree) (b : Bool) (bs : Bits) → walk cur (b ∷ []) ≡ dead → scan t cur (b ∷ bs) ≡ none
  unfolding scan
  scan_dead cur b bs e = rw (e, scan) refl

pub Tree-cases :
    (t : Tree) → (t ≡ dead) ⊎ ((s : ℕ) × (t ≡ leaf s)) ⊎ ((l : Tree) × (r : Tree) × (t ≡ node l r))
Tree-cases dead = inl refl
Tree-cases (leaf s) = inr (inl (s, refl))
Tree-cases (node l r) = inr (inr (l, r, refl))

scan-append : (t cur : Tree) (xs ys : Bits) → scan t cur (xs ++ ys) ≡ scan_then t (scan t cur xs) ys
scan-append t cur [] ys = unfold scan in joined_nil (scan t cur ys)
scan-append t cur (b ∷ xs) ys = elim (Tree-cases (walk cur (b ∷ []))) [
  | inl e ↦ rw (scan_dead t cur b (xs ++ ys) e, scan_dead t cur b xs e) refl
  | inr (inl (s, e)) ↦
      rw (scan_leaf t cur b (xs ++ ys) s e, scan_leaf t cur b xs s e)
        (ap (joined (s ∷ [])) (scan-append t t xs ys) ∙ scan_then-joined t s (scan t t xs) ys)
  | inr (inr (l, r, e)) ↦
      rw (scan_node t cur b (xs ++ ys) l r e, scan_node t cur b xs l r e)
        (scan-append t (node l r) xs ys)
]

byte_halves : (ch : ℕ) → ch < 256 → low_bits 8 ch ≡ low_bits 4 (ch / 16) ++ low_bits 4 (ch % 16)
unfolding low_bits
byte_halves ch h = ground arith

Agrees-then :
    (p : Progress) (xs ys : Bits) (r : Option Progress) (k : Progress → Option Progress)
    → Agrees p (scan code_tree (place p.state) xs) r
    → ((q : Progress)
        → q.state < 256
        → q.ending ≡ padding_flag (place q.state)
        → Agrees q (scan code_tree (place q.state) ys) (k q))
    → Agrees p (scan code_tree (place p.state) (xs ++ ys)) (r >>= k)
Agrees-then p xs ys r k h later =
    rw (scan-append code_tree (place p.state) xs ys) (go (scan code_tree (place p.state) xs) h)
  where
    finish :
        (syms : Bytes) (q : Progress) (s : Option (Bytes × Tree))
        → q.dst ≡ p.dst ++ syms
        → Agrees q s (k q)
        → Agrees p (joined syms s) (k q)
    finish syms q none d a = a
    finish syms q (some (more, there)) d (q', e, d', f, g, h) =
        (q', e, d' ∙ ap (λ x. x ++ more) d ∙ append_assoc p.dst syms more, f, g, h)

    go : (s : Option (Bytes × Tree)) → Agrees p s r → Agrees p (scan_then code_tree s ys) (r >>= k)
    go none e = rw e refl
    go (some (syms, at)) (q, e, d, l, b, f) =
        rw (e, ← l)
          (finish syms q (scan code_tree (place q.state) ys) d
            (later q b (f ∙ ap padding_flag (sym l))))

-- The variable `ending`, where the loop may end at once, tells that the place is a padding.
abbrev pub Settled : Progress → Bytes → Type 0
Settled p [] = p.ending ≡ padding_flag (place p.state)
Settled p (ch ∷ src) = Unit

pub settle : (p : Progress) (src : Bytes) → p.ending ≡ padding_flag (place p.state) → Settled p src
settle p [] h = h
settle p (ch ∷ src) h = tt

-- Reading bytes agrees with reading their bits in the code tree.
pub decode_bytes-Agrees :
    (p : Progress) (src : Bytes)
    → p.state < 256
    → All (λ ch. ch < 256) src
    → Settled p src
    → Agrees p (scan code_tree (place p.state) (bits src)) (decode_bytes p src)
unfolding decode_bytes bits scan
decode_bytes-Agrees p [] h a e = (p, refl, sym (append-nil p.dst), refl, h, e)
decode_bytes-Agrees p (ch ∷ src) h a e =
    rw (byte_halves ch a.0, append_assoc (low_bits 4 (ch / 16)) (low_bits 4 (ch % 16)) (bits src))
      (Agrees-then p (low_bits 4 (ch / 16)) (low_bits 4 (ch % 16) ++ bits src)
        (huff_decode_bits p (ch / 16))
        (λ q. huff_decode_bits q (ch % 16) >>= λ r. decode_bytes r src)
        (huff_decode_bits-Agrees p (ch / 16) h (omega (arith, a.0)))
        (λ q hq _.
          Agrees-then q (low_bits 4 (ch % 16)) (bits src) (huff_decode_bits q (ch % 16))
            (λ r. decode_bytes r src) (huff_decode_bits-Agrees q (ch % 16) hq (omega arith))
            (λ r hr settled. decode_bytes-Agrees r src hr a.1 (settle r src settled))))
