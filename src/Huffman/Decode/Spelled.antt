-- ===== src/Huffman/Decode/Spelled.antt =====
-- Reading bits in the code tree spells code words: what the bits read so far say of the bytes.
use khttpd.Base.{
  subst, ltb→lt, ℕ, ◌<◌, ◌≡◌, refl, ap, Bool, true, false, ◌&&◌, [], ◌∷◌, ◌++◌, Option, none, some,
  Bytes, All, append_assoc, append-nil, sym, ◌∙◌, inl, inr, ltb,
}
use khttpd.Huffman.Decode.Refines.{joined, scan_leaf, scan_node, scan_dead, Tree-cases}
use khttpd.Huffman.Decode.RoundTrip.{code_words, walk-append}
use khttpd.Huffman.Tree.{Tree, dead, leaf, node, Bits, code_word, walk, scan, code_tree}
use khttpd.Huffman.Tree.Check.{both}

same_bits : Bits → Bits → Bool
same_bits [] [] = true
same_bits (true ∷ xs) (true ∷ ys) = same_bits xs ys
same_bits (false ∷ xs) (false ∷ ys) = same_bits xs ys
same_bits _ _ = false

same_bits→eq : (xs ys : Bits) → same_bits xs ys ≡ true → xs ≡ ys
unfolding same_bits
same_bits→eq [] [] h = refl
same_bits→eq (true ∷ xs) (true ∷ ys) h = ap (◌∷◌ true) (same_bits→eq xs ys h)
same_bits→eq (false ∷ xs) (false ∷ ys) h = ap (◌∷◌ false) (same_bits→eq xs ys h)
same_bits→eq _ _ h = cc

-- Every leaf below the path `v` is a byte at the end of its code word.
check_leaves : Tree → Bits → Bool
unfolding same_bits
check_leaves dead v = true
check_leaves (leaf s) v = ltb s 256 && same_bits v (code_word s)
check_leaves (node l r) v = check_leaves l (v ++ false ∷ []) && check_leaves r (v ++ true ∷ [])

leaves_checked : check_leaves code_tree [] ≡ true
unfolding check_leaves code_tree code_word
leaves_checked = refl

check_leaves_sound :
    (t : Tree) (v w : Bits) (s : ℕ)
    → check_leaves t v ≡ true
    → walk t w ≡ leaf s
    → (s < 256) × (v ++ w ≡ code_word s)
unfolding check_leaves walk
check_leaves_sound dead v [] s h e = cc
check_leaves_sound dead v (b ∷ w) s h e = cc
check_leaves_sound (leaf a) v [] s h e =
    let same_symbol : a ≡ s = cc in
    let (l, r) = both (ltb a 256) (same_bits v (code_word a)) h in
    (
      rw (← same_symbol) (ltb→lt a 256 l),
      append-nil v ∙ same_bits→eq v (code_word a) r ∙ ap code_word same_symbol,
    )
check_leaves_sound (leaf a) v (b ∷ w) s h e = cc
check_leaves_sound (node l r) v [] s h e = cc
check_leaves_sound (node l r) v (false ∷ w) s h e =
    rw (← append_assoc v (false ∷ []) w)
      (check_leaves_sound l (v ++ false ∷ []) w s ((both _ _ h).0) e)
check_leaves_sound (node l r) v (true ∷ w) s h e =
    rw (← append_assoc v (true ∷ []) w)
      (check_leaves_sound r (v ++ true ∷ []) w s ((both _ _ h).1) e)

pub leaf_path : (w : Bits) (s : ℕ) → walk code_tree w ≡ leaf s → (s < 256) × (w ≡ code_word s)
leaf_path w s e = check_leaves_sound code_tree [] w s leaves_checked e

-- The bits that led from the top through `v` on to `at`.
pub record Read (v bs : Bits) (syms : Bytes) (at : Tree) : Type 0 where
  pub rest : Bits
  pub splits : v ++ bs ≡ code_words syms ++ rest
  pub lands : walk code_tree rest ≡ at
  pub bytes : All (λ s. s < 256) syms

Read-joined :
    (s : ℕ) (v bs : Bits) (o : Option (Bytes × Tree)) (syms : Bytes) (at : Tree)
    → s < 256
    → v ≡ code_word s
    → joined (s ∷ []) o ≡ some (syms, at)
    → ((more : Bytes) → o ≡ some (more, at) → Read [] bs more at)
    → Read v bs syms at
Read-joined s v bs none syms at l e j h = cc
Read-joined s v bs (some (more, there)) syms at l e j h =
    let r = h more (cc) in
    let same_symbols : s ∷ more ≡ syms = cc in
    subst (λ x. Read v bs x at) same_symbols
      (record {
        rest = r.rest;
        splits =
            unfold code_words in
            ap (λ x. x ++ bs) e
            ∙ ap (◌++◌ (code_word s)) r.splits
            ∙ sym (append_assoc (code_word s) (code_words more) r.rest);
        lands = r.lands;
        bytes = (l, r.bytes);
      })

Read-shift :
    (b : Bool) (v bs : Bits) (syms : Bytes) (at : Tree)
    → Read (v ++ b ∷ []) bs syms at
    → Read v (b ∷ bs) syms at
Read-shift b v bs syms at r = record {
  rest = r.rest;
  splits = sym (append_assoc v (b ∷ []) bs) ∙ r.splits;
  lands = r.lands;
  bytes = r.bytes;
}

pub none-ne-some {ℓ} : {A : Type ℓ} (a : A) → none ≡ some a → ⊥
none-ne-some a e = cc

Read-here :
    (v : Bits) (cur : Tree) (syms : Bytes) (at : Tree)
    → walk code_tree v ≡ cur
    → ◌≡◌ {A = Option (Bytes × Tree)} (some ([], cur)) (some (syms, at))
    → Read v [] syms at
Read-here v cur syms at p e =
    let no_symbols : [] ≡ syms = cc in
    let same_place : cur ≡ at = cc in
    subst (λ x. Read v [] x at) no_symbols
      (record {
        rest = v;
        splits = append-nil v ∙ refl_words v;
        lands = p ∙ same_place;
        bytes = tt;
      })
  where
    refl_words : (v : Bits) → v ≡ code_words [] ++ v
    refl_words v = unfold code_words in refl

scan_nil : (t cur : Tree) → ◌≡◌ {A = Option (Bytes × Tree)} (some ([], cur)) (scan t cur [])
unfolding scan
scan_nil t cur = refl

pub walk_nil : (t : Tree) → walk t [] ≡ t
unfolding walk
walk_nil t = refl

pub scan_sound :
    (bs v : Bits) (cur : Tree) (syms : Bytes) (at : Tree)
    → walk code_tree v ≡ cur
    → scan code_tree cur bs ≡ some (syms, at)
    → Read v bs syms at
scan_sound [] v cur syms at p e = Read-here v cur syms at p (scan_nil code_tree cur ∙ e)
scan_sound (b ∷ bs) v cur syms at p e =
    let q : walk code_tree (v ++ b ∷ []) ≡ walk cur (b ∷ []) =
      walk-append code_tree v (b ∷ []) ∙ ap (λ t. walk t (b ∷ [])) p in
    Read-shift b v bs syms at (elim (Tree-cases (walk cur (b ∷ []))) [
      | inl d ↦ absurd (none-ne-some (syms, at) (sym (scan_dead code_tree cur b bs d) ∙ e))
      | inr (inl (s, d)) ↦
          let (l, w) = leaf_path (v ++ b ∷ []) s (q ∙ d) in
          Read-joined s (v ++ b ∷ []) bs (scan code_tree code_tree bs) syms at l w
            (sym (scan_leaf code_tree cur b bs s d) ∙ e)
            (λ more f. scan_sound bs [] code_tree more at (walk_nil code_tree) f)
      | inr (inr (l, r, d)) ↦
          scan_sound bs (v ++ b ∷ []) (node l r) syms at (q ∙ d)
            (sym (scan_node code_tree cur b bs l r d) ∙ e)
    ])
