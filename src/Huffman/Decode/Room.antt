-- ===== src/Huffman/Decode/Room.antt =====
-- The room that the decoder needs: `state_field_len` of src/KHttp2.cpp allocates `len * 8 / 5 + 1`
-- bytes for a text of `len` bytes.
use khttpd.Base.{
  subst, get_or, ℕ, zero, suc, ◌+◌, ◌*◌, ◌/◌, ◌≤◌, ◌<◌, ◌≡◌, refl, ap, arith, Bool, true, ◌&&◌,
  List, [], ◌∷◌, Option, none, some, Bytes, All, length, length-append, sym, leb, leb→le,
}
use mathlib.Core.Option.{some-injective}
use khttpd.Huffman.Code.{EncodeCode, code}
use khttpd.Huffman.Encode.Table.{encode_table}
use khttpd.Huffman.Decode.{Progress, decode_bytes, finish_last, huff_decode}
use khttpd.Huffman.Decode.Refines.{bits}
use khttpd.Huffman.Decode.RoundTrip.{code_words, start, start-Agrees}
use khttpd.Huffman.Decode.Spelled.{scan_sound, walk_nil, none-ne-some}
use khttpd.Huffman.Tree.{Tree, low_bits, word, code_word, scan, code_tree}
use khttpd.Huffman.Tree.Check.{Agrees, both}

length-low_bits : (n x : ℕ) → length (low_bits n x) ≡ n
unfolding low_bits
length-low_bits zero x = refl
length-low_bits (suc n) x = ap suc (length-low_bits n x)

length-bits : (src : Bytes) → length (bits src) ≡ 8 * length src
unfolding bits
length-bits [] = refl
length-bits (ch ∷ src) =
    omega (arith, length-append (low_bits 8 ch) (bits src), length-low_bits 8 ch, length-bits src)

check_lengths : ℕ → List EncodeCode → Bool
check_lengths s [] = leb 256 s
check_lengths s (code c len ∷ es) = leb 5 len && check_lengths (suc s) es

lengths_checked : check_lengths 0 encode_table ≡ true
unfolding check_lengths
lengths_checked = refl

check_lengths_sound :
    (es : List EncodeCode) (s i : ℕ)
    → check_lengths s es ≡ true
    → s + i < 256
    → 5 ≤ length (word (get_or es i (code 0 0)))
unfolding check_lengths
check_lengths_sound [] s i h l = absurd (omega (arith, leb→le 256 s h))
check_lengths_sound (code c len ∷ es) s zero h l =
    omega (arith, length-low_bits len c, leb→le 5 len ((both _ _ h).0))
check_lengths_sound (code c len ∷ es) s (suc i) h l =
    check_lengths_sound es (suc s) i ((both _ _ h).1) (omega arith)

length-code_word : (s : ℕ) → s < 256 → 5 ≤ length (code_word s)
unfolding code_word
length-code_word s h = check_lengths_sound encode_table 0 s lengths_checked (omega arith)

length-code_words :
    (syms : Bytes) → All (λ s. s < 256) syms → 5 * length syms ≤ length (code_words syms)
unfolding code_words
length-code_words [] h = omega arith
length-code_words (s ∷ syms) h = omega (
  arith,
  length-append (code_word s) (code_words syms),
  length-code_word s h.0,
  length-code_words syms h.1,
)

Agrees-room :
    (src dst : Bytes) (p : Progress) (o : Option (Bytes × Tree))
    → scan code_tree code_tree (bits src) ≡ o
    → Agrees (start dst) o (some p)
    → 5 * length p.dst ≤ 5 * length dst + 8 * length src
Agrees-room src dst p none e a = absurd (none-ne-some p (sym a))
Agrees-room src dst p (some (syms, at)) e (q, f, g, l, b, flag) =
    let r = scan_sound (bits src) [] code_tree syms at (walk_nil code_tree) e in
    let same_progress : p ≡ q = some-injective p q f in
    omega (
      arith,
      ap (λ (x : Progress). length x.dst) same_progress,
      ap length g,
      length-append dst syms,
      length-bits src,
      ap length r.splits,
      length-append (code_words syms) r.rest,
      length-code_words syms r.bytes,
    )

finish_room :
    (last : Bool) (r : Option Progress) (st : ℕ) (out : Bytes)
    → finish_last last r ≡ some (st, out)
    → (p : Progress) × (r ≡ some p) × (out ≡ p.dst)
unfolding finish_last
finish_room last none st out e = absurd (none-ne-some (st, out) e)
finish_room last (some p) st out e = (p, refl, ground (arith, e))

-- The decoded text has at most eight fifths of the bytes read, as the last part or not: the bytes
-- appended fit into the room that `state_field_len` allocates for the text.
pub length-huff_decode :
    (src dst out : Bytes) (st : ℕ) (last : Bool)
    → All (λ ch. ch < 256) src
    → huff_decode 0 src dst last ≡ some (st, out)
    → length out ≤ length dst + length src * 8 / 5
unfolding huff_decode
length-huff_decode src dst out st last h e =
    let (p, f, d) = finish_room last (decode_bytes (start dst) src) st out e in
    let room = Agrees-room src dst p (scan code_tree code_tree (bits src)) refl (
      subst (Agrees (start dst) (scan code_tree code_tree (bits src))) f
        (start-Agrees src dst h)) in
    omega (arith, room, ap length d)
