-- ===== src/Huffman/Tests.antt =====
-- Runs of the Huffman decoder, and its theorems at concrete inputs.
use khttpd.Base.{
  ◌≡◌, ◌≤◌, ◌*◌, ◌/◌, refl, arith, true, false, [], ◌∷◌, ◌++◌, none, some, Bytes, codes, length,
  ◌>>=◌,
}
use khttpd.Huffman.Decode.{huff_decode, lookup_code}
use khttpd.Huffman.Decode.RoundTrip.{code_words, huff_decode-code_words}
use khttpd.Huffman.Decode.Sound.{Decodes, huff_decode-Decodes}
use khttpd.Huffman.Decode.Parts.{huff_decode-append}
use khttpd.Huffman.Decode.Room.{length-huff_decode}
use khttpd.Huffman.Decode.Refines.{bits}
use khttpd.Huffman.Tree.{code_word, ones}

-- RFC 7541, C.4.1.
abbrev example : Bytes
example = 0xf1 ∷ 0xe3 ∷ 0xc2 ∷ 0xe5 ∷ 0xf2 ∷ 0x3a ∷ 0x6b ∷ 0xa0 ∷ 0xab ∷ 0x90 ∷ 0xf4 ∷ 0xff ∷ []

decoded : huff_decode 0 example [] true ≡ some (0, codes "www.example.com")
unfolding huff_decode lookup_code
decoded = refl

-- A zero bit at the end is no padding.
refused : huff_decode 0 (0xfe ∷ []) [] true ≡ none
unfolding huff_decode lookup_code
refused = refl

huff_decode-code_words_example : huff_decode 0 (0x1f ∷ []) (codes "x") true ≡ some (0, codes "xa")
huff_decode-code_words_example =
    huff_decode-code_words (codes "a") (0x1f ∷ []) (codes "x") 3 (omega arith, tt) (omega arith, tt)
      (omega arith) (unfold bits code_words code_word ones in refl)

huff_decode-Decodes_example : Decodes example [] (codes "www.example.com")
huff_decode-Decodes_example =
    huff_decode-Decodes example [] (codes "www.example.com") 0 (omega arith) decoded

huff_decode-append_example : huff_decode 0 ((0xf1 ∷ 0xe3 ∷ []) ++ 0xc2 ∷ []) [] false ≡ (
    huff_decode 0 (0xf1 ∷ 0xe3 ∷ []) [] false >>= λ part.
    huff_decode part.0 (0xc2 ∷ []) part.1 false)
huff_decode-append_example = huff_decode-append 0 (0xf1 ∷ 0xe3 ∷ []) [] 0xc2 [] false

length-huff_decode_example : length (codes "www.example.com") ≤ length example * 8 / 5
length-huff_decode_example =
    length-huff_decode example [] (codes "www.example.com") 0 true (omega arith) decoded
