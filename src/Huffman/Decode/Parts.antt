-- ===== src/Huffman/Decode/Parts.antt =====
-- A text that arrives in parts.
use khttpd.Base.{
  sym, ℕ, ◌≡◌, refl, ap, Bool, false, [], ◌∷◌, ◌++◌, Option, none, some, Bytes, ◌∙◌, ◌>>=◌, ◌/◌,
  ◌%◌,
}
use khttpd.Huffman.Code.{DecodeCode, code}
use khttpd.Huffman.Decode.{
  Progress, follow, lookup_code, huff_decode_bits, decode_bytes, finish_last, huff_decode,
}

>>=_assoc {ℓ κ μ} :
    {A : Type ℓ} {B : Type κ} {C : Type μ} (m : Option A) (f : A → Option B) (g : B → Option C)
    → ((m >>= f) >>= g) ≡ (m >>= λ a. f a >>= g)
>>=_assoc none f g = refl
>>=_assoc (some a) f g = refl

>>=_ext {ℓ κ} :
    {A : Type ℓ} {B : Type κ} (m : Option A) (f g : A → Option B)
    → ((a : A) → f a ≡ g a)
    → (m >>= f) ≡ (m >>= g)
>>=_ext none f g h = refl
>>=_ext (some a) f g h = h a

decode_bytes-append :
    (p : Progress) (xs ys : Bytes)
    → decode_bytes p (xs ++ ys) ≡ (decode_bytes p xs >>= λ q. decode_bytes q ys)
unfolding decode_bytes
decode_bytes-append p [] ys = refl
decode_bytes-append p (ch ∷ xs) ys =
    >>=_ext (huff_decode_bits p (ch / 16)) _ _ (λ q.
      >>=_ext (huff_decode_bits q (ch % 16)) _ _ (λ r. decode_bytes-append r xs ys)
      ∙ sym (>>=_assoc (huff_decode_bits q (ch % 16)) _ _))
    ∙ sym (>>=_assoc (huff_decode_bits p (ch / 16)) _ _)

follow_ending :
    (q e : ℕ) (dst : Bytes) (p : Progress) (c : DecodeCode)
    → p.state ≡ q
    → p.dst ≡ dst
    → follow p c ≡ follow (record { state = q; ending = e; dst = dst }) c
unfolding follow
follow_ending q e dst p (code next emit s ending) h k = rw (h, k) refl

decode_bytes_ending :
    (p : Progress) (e ch : ℕ) (src : Bytes)
    → decode_bytes p (ch ∷ src)
      ≡ decode_bytes (record { state = p.state; ending = e; dst = p.dst }) (ch ∷ src)
unfolding decode_bytes huff_decode_bits
decode_bytes_ending p e ch src =
    ap
      (λ (m : Option Progress). m >>= λ q. huff_decode_bits q (ch % 16) >>= λ r. decode_bytes r src)
      (follow_ending p.state e p.dst p (lookup_code p.state (ch / 16)) refl refl)

-- Decoding a text in two parts, the first one not as the last, is decoding it at once, where the
-- second part is not empty: the state carries over, and the first part fails where the whole does.
pub huff_decode-append :
    (state : ℕ) (xs dst : Bytes) (y : ℕ) (ys : Bytes) (last : Bool)
    → huff_decode state (xs ++ y ∷ ys) dst last
      ≡ (huff_decode state xs dst false >>= λ part. huff_decode part.0 (y ∷ ys) part.1 last)
unfolding huff_decode
huff_decode-append state xs dst y ys last =
    let p : Progress = record { state = state; ending = 1; dst = dst } in
    ap (finish_last last) (decode_bytes-append p xs (y ∷ ys)) ∙ go (decode_bytes p xs)
  where
    go :
        (r : Option Progress)
        → finish_last last (r >>= λ q. decode_bytes q (y ∷ ys))
          ≡ (finish_last false r >>= λ part. huff_decode part.0 (y ∷ ys) part.1 last)
    go none = refl
    go (some q) = ap (finish_last last) (decode_bytes_ending q 1 y ys)
