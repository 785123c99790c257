-- ===== src/Huffman/Decode/Sound.antt =====
-- What the decoder accepts as the last part of a text is code words and a padding by ones.
use khttpd.Huffman.Decode.Spelled.{none-ne-some, scan_sound, walk_nil}
use khttpd.Huffman.Decode.Padding.{is_padding_sound, padding_path, padding_set}
use khttpd.Base.{
  ==-false, ◌≢◌, Bool-cases, subst, ℕ, ◌<◌, ◌≡◌, refl, ap, arith, true, [], ◌++◌, Option, none,
  some, Bytes, All, sym, ◌∙◌, inl, inr, ◌==◌,
}
use khttpd.Huffman.Decode.{Progress, decode_bytes, finish_last, huff_decode}
use mathlib.Core.Option.{some-injective}
use khttpd.Huffman.Decode.Refines.{bits}
use khttpd.Huffman.Decode.RoundTrip.{code_words, start, start-Agrees}
use khttpd.Huffman.Tree.{Tree, scan, code_tree, ones}
use khttpd.Huffman.Tree.Check.{Agrees}

-- What a last part that is accepted tells of its bits.
pub record Decodes (src dst out : Bytes) : Type 0 where
  pub syms : Bytes
  pub padding : ℕ
  pub appends : out ≡ dst ++ syms
  pub bytes : All (λ s. s < 256) syms
  pub short : padding < 30
  pub spells : bits src ≡ code_words syms ++ ones padding

finish_sound :
    (r : Option Progress) (st : ℕ) (out : Bytes)
    → finish_last true r ≡ some (st, out)
    → (p : Progress) × (r ≡ some p) × (p.ending ≢ 0) × (out ≡ p.dst)
unfolding finish_last
finish_sound none st out e = cc
finish_sound (some p) st out e = elim (Bool-cases (p.ending == 0)) [
  | inl z ↦ absurd (none-ne-some (st, out) (rw z at e))
  | inr z ↦
      let kept : some (0, p.dst) ≡ some (st, out) = rw z at e in
      (p, refl, ==-false p.ending 0 z, ground (arith, kept))
]

accepted :
    (src dst out : Bytes) (p : Progress) (o : Option (Bytes × Tree))
    → scan code_tree code_tree (bits src) ≡ o
    → Agrees (start dst) o (some p)
    → p.ending ≢ 0
    → out ≡ p.dst
    → Decodes src dst out
accepted src dst out p none e a ne d = absurd (none-ne-some p (sym a))
accepted src dst out p (some (syms, at)) e (q, f, g, l, b, flag) ne d =
    let same_progress : p ≡ q = some-injective p q f in
    let r = scan_sound (bits src) [] code_tree syms at (walk_nil code_tree) e in
    let (k, lt, spine) = is_padding_sound 30 code_tree at (
      padding_set at q.ending flag (λ z. ne (ap (λ (x : Progress). x.ending) same_progress ∙ z))) in
    let ones_left = padding_path r.rest k lt (r.lands ∙ spine) in
    record {
      syms = syms;
      padding = k;
      appends = d ∙ ap (λ (x : Progress). x.dst) same_progress ∙ g;
      bytes = r.bytes;
      short = lt;
      spells = r.splits ∙ ap (◌++◌ (code_words syms)) ones_left;
    }

-- Whatever is accepted as the only part of a text spells, bit for bit, the code words of the bytes
-- that were appended to `dst`, followed by fewer than 30 ones.
pub huff_decode-Decodes :
    (src dst out : Bytes) (st : ℕ)
    → All (λ ch. ch < 256) src
    → huff_decode 0 src dst true ≡ some (st, out)
    → Decodes src dst out
unfolding huff_decode
huff_decode-Decodes src dst out st h e =
    let (p, f, ne, d) = finish_sound (decode_bytes (start dst) src) st out e in
    accepted src dst out p (scan code_tree code_tree (bits src)) refl
      (subst (Agrees (start dst) (scan code_tree code_tree (bits src))) f (start-Agrees src dst h))
      ne d
