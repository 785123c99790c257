-- ===== src/Dechunk/Reader/Messages.antt =====
-- A chunked message, as RFC 9112 writes it, and what `dechunk` makes of its parts.
use khttpd.Base.{
  ◌+◌, List, ℕ, ◌-◌, ◌≤◌, ◌<◌, ◌==◌, ◌≡◌, refl, if◌then◌else◌, inl, inr, [], ◌∷◌, ◌++◌, Bytes,
  length, arith, Bool-cases, length-append, ap, ==_iff, ◌∙◌, take_all, drop_all,
}
use khttpd.Dechunk.{
  success, end, max_chunk_size, status_is_end, status_read_end, status_read_last, status_read_size,
  dechunk, trim_left, read_last, read_end, trailer_end,
}
use khttpd.Dechunk.Resume.{dechunk-read_data, read_data-taken_outcome}
use khttpd.Dechunk.Lines.{IsBlank, IsBlank-NoNewline, split_line-NoNewline}
use khttpd.Dechunk.Sizes.{Reads, NoNewline, IsExtension, dechunk-size_line}

-- `Message gap s parts`: the bytes `s`, which begin `gap` bytes behind the place for the data, are
-- chunks, each with its size line, its data and the end of its line, then a last chunk and a blank
-- line, and further bytes. `parts` are the data of the chunks, each with its distance from the place
-- where it goes.
pub data Message : ℕ → Bytes → List (ℕ × Bytes) → Type 0 where
  last :
      (gap : ℕ) (digits extension blank rest : Bytes)
      → Reads 0 digits 0
      → IsExtension extension
      → IsBlank blank
      → Message gap (digits ++ (extension ++ b'\n' ∷ (blank ++ b'\n' ∷ rest))) []
  chunk :
      (gap : ℕ) (digits extension content tail : Bytes) {more : Bytes} {parts : List (ℕ × Bytes)}
      → Reads 0 digits (length content)
      → 0 < length content
      → length content ≤ max_chunk_size
      → IsExtension extension
      → NoNewline tail
      → Message (gap + (length digits + length extension + 1) + (length tail + 1)) more parts
      → Message gap
          (digits ++ (extension ++ b'\n' ∷ (content ++ (tail ++ b'\n' ∷ more))))
          ((gap + (length digits + length extension + 1), content) ∷ parts)

trim_left-IsBlank : (s : Bytes) → IsBlank s → trim_left s ≡ []
unfolding trim_left
trim_left-IsBlank [] h = refl
trim_left-IsBlank (c ∷ s) h = rw (h.0.0) (trim_left-IsBlank s h.1)

pub dechunk-IsBlank :
    (n : ℕ) (blank rest : Bytes)
    → IsBlank blank
    → dechunk status_read_last n (blank ++ b'\n' ∷ rest)
      ≡ record { chunk_size = status_is_end; buf = rest; result = end }
unfolding dechunk read_last trailer_end
dechunk-IsBlank n blank rest h =
    rw (split_line-NoNewline blank rest (IsBlank-NoNewline blank h), read_last)
      (rw (trim_left-IsBlank blank h) refl)

dechunk_data :
    (content rest : Bytes)
    → 0 < length content
    → length content ≤ max_chunk_size
    → dechunk (length content) max_chunk_size (content ++ rest)
      ≡ record { chunk_size = status_read_end; buf = rest; result = success content }
dechunk_data content rest h k =
    let n = length content in
    dechunk-read_data n max_chunk_size (content ++ rest) h (omega arith)
    ∙ read_data-taken_outcome n max_chunk_size n (content ++ rest)
        (omega (arith, length-append content rest)) (omega (arith, length-append content rest))
    ∙ ground (arith, take_all content rest, drop_all content rest)

pub dechunk-tail :
    (n : ℕ) (tail more : Bytes)
    → NoNewline tail
    → dechunk status_read_end n (tail ++ b'\n' ∷ more) ≡ dechunk status_read_size n more
unfolding dechunk read_end
dechunk-tail n tail more h = rw (split_line-NoNewline tail more h, read_end) refl

pub if_zero {ℓ} : {A : Type ℓ} (n : ℕ) (a b : A) → 0 < n → (if n == 0 then a else b) ≡ b
if_zero n a b h = elim (Bool-cases (n == 0)) [
  | inl e ↦ absurd (omega (arith, (==_iff n 0).0 e))
  | inr e ↦ rw e refl
]

pub sub_zero : (n : ℕ) → n - 0 ≡ n
sub_zero n = omega arith

module _ (digits extension : Bytes) (x : IsExtension extension) where
  pub dechunk_chunk :
      (content rest : Bytes)
      → Reads 0 digits (length content)
      → 0 < length content
      → length content ≤ max_chunk_size
      → dechunk status_read_size max_chunk_size (digits ++ (extension ++ b'\n' ∷ (content ++ rest)))
        ≡ record { chunk_size = status_read_end; buf = rest; result = success content }
  dechunk_chunk content rest r h k =
      let n = length content in
      dechunk-size_line max_chunk_size extension (content ++ rest) r k x
      ∙ ap (λ c. dechunk c max_chunk_size (content ++ rest)) (if_zero n status_read_last n h)
      ∙ dechunk_data content rest h k

pub Message-pos :
    {gap : ℕ} {s : Bytes} {parts : List (ℕ × Bytes)} → Message gap s parts → 0 < length s
Message-pos (last gap digits extension blank rest r x b) = omega (
  arith,
  length-append digits (extension ++ b'\n' ∷ (blank ++ b'\n' ∷ rest)),
  length-append extension (b'\n' ∷ (blank ++ b'\n' ∷ rest)),
)
Message-pos (chunk gap digits extension content tail {more} r pos le x t m) = omega (
  arith,
  length-append digits (extension ++ b'\n' ∷ (content ++ (tail ++ b'\n' ∷ more))),
  length-append extension (b'\n' ∷ (content ++ (tail ++ b'\n' ∷ more))),
)
