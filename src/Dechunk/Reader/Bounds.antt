-- ===== src/Dechunk/Reader/Bounds.antt =====
-- The inner loop of `KDechunkReader::read` ends, and `read` stays in the caller's buffer.
use khttpd.Base.{
  ℕ, zero, suc, ◌+◌, ◌-◌, ◌≤◌, ◌<◌, ◌==◌, ◌≡◌, refl, inl, inr, [], ◌∷◌, ◌++◌, Bytes, length, arith,
  Bool-cases, length-append, ap,
}
use khttpd.Dechunk.{
  Result, success, continue, trailer, end, failed, max_chunk_size, status_is_end, dechunk,
}
use khttpd.Dechunk.Pieces.{Accounts, dechunk-Accounts}
use khttpd.Dechunk.Reader.{
  bytes_at, put_piece, on_result, Left, retry, returned, refused, copy_pieces, ReadResult, got,
  after_read, read_from, read, after_loop,
}

-- The loop has ended, with at most `n` bytes in the caller's buffer.
abbrev pub Fits : ℕ → Left → Type 0
Fits n (retry c dst) = length dst ≤ n
Fits n (returned c dst) = length dst ≤ n
Fits n (refused c dst) = length dst ≤ n
Fits n Left.out_of_fuel = ⊥

Fits-mono : {m n : ℕ} (l : Left) → m ≤ n → Fits m l → Fits n l
Fits-mono (retry c dst) h k = omega arith
Fits-mono (returned c dst) h k = omega arith
Fits-mono (refused c dst) h k = omega arith
Fits-mono Left.out_of_fuel h k = elim k [ ]

pub length_split :
    (src skipped piece rest : Bytes)
    → src ≡ skipped ++ (piece ++ rest)
    → length src ≡ length skipped + (length piece + length rest)
length_split src skipped piece rest e =
    omega (arith, ap length e, length-append skipped (piece ++ rest), length-append piece rest)

length-bytes_at : (f : ℕ → ℕ) (i n : ℕ) → length (bytes_at f i n) ≡ n
length-bytes_at f i zero = refl
length-bytes_at f i (suc n) = omega (arith, length-bytes_at f (suc i) n)

module _ (kgl_memcpy : ℕ → Bytes → ℕ → ℕ) where
  length-put_piece :
      (gap : ℕ) (piece : Bytes) → length (put_piece kgl_memcpy gap piece) ≡ length piece
  unfolding put_piece
  length-put_piece gap piece = elim (Bool-cases (gap == 0)) [
    | inl e ↦ rw e refl
    | inr e ↦ rw e (length-bytes_at (kgl_memcpy gap piece) 0 (length piece))
  ]

  on_result-Fits :
      (again : ℕ → Bytes → Left) (c ahead : ℕ) (src dst rest : Bytes) (r : Result)
      → Accounts max_chunk_size src rest r
      → ((g : ℕ) (d : Bytes) → length rest < length src → Fits (length d + length rest) (again g d))
      → Fits (length dst + length src) (on_result kgl_memcpy again c ahead dst r)
  unfolding on_result
  on_result-Fits again c ahead src dst rest (success piece) (skipped, e, pos, le) h =
      let total = length_split src skipped piece rest e in
      let gap = ahead - length piece in
      let put = put_piece kgl_memcpy gap piece in
      Fits-mono (again gap (dst ++ put))
        (omega (arith, total, length-append dst put, length-put_piece gap piece))
        (h gap (dst ++ put) (omega (arith, total)))
  on_result-Fits again c ahead src dst rest (trailer line) a h = omega arith
  on_result-Fits again c ahead src dst rest continue a h = omega arith
  on_result-Fits again c ahead src dst rest end a h = omega arith
  on_result-Fits again c ahead src dst rest failed a h = omega arith

  -- The inner loop over a read of `src` makes at most one round for each byte and one more, and
  -- appends at most as many bytes to the caller's buffer as were read, whatever `kgl_memcpy` does.
  pub copy_pieces-Fits :
      (fuel c gap : ℕ) (src dst : Bytes)
      → length src < fuel
      → Fits (length dst + length src) (copy_pieces kgl_memcpy fuel c gap src dst)
  unfolding copy_pieces
  copy_pieces-Fits zero c gap src dst h = absurd (omega arith)
  copy_pieces-Fits (suc fuel) c gap src dst h =
      let o = dechunk c max_chunk_size src in
      on_result-Fits (λ g d. copy_pieces kgl_memcpy fuel o.chunk_size g o.buf d) o.chunk_size
        (gap + (length src - length o.buf)) src dst o.buf o.result
        (dechunk-Accounts c max_chunk_size src (omega arith))
        (λ g d less. copy_pieces-Fits fuel o.chunk_size g o.buf d (omega arith))

module _ {ℓ} {S : Type ℓ} where
  -- What `read` returns lies within a buffer of `len` bytes.
  abbrev pub Within : ℕ → ReadResult S → Type 0
  Within len (got s c dst) = length dst ≤ len
  Within len _ = Unit

  abbrev pub Obeys : (S → ℕ → S × Bytes) → Type ℓ
  Obeys us_read = (s : S) (n : ℕ) → length (us_read s n).1 ≤ n

  after_loop-Within :
      (kgl_memcpy : ℕ → Bytes → ℕ → ℕ) (us_read : S → ℕ → S × Bytes)
      (again : ℕ → Bytes → ReadResult S) (s : S) (len : ℕ) (l : Left)
      → Fits len l
      → ((c : ℕ) (d : Bytes) → length d ≤ len → Within len (again c d))
      → Within len (after_loop kgl_memcpy us_read again s l)
  unfolding after_loop
  after_loop-Within kgl_memcpy us_read again s len (retry c dst) f h = h c dst f
  after_loop-Within kgl_memcpy us_read again s len (returned c dst) f h = f
  after_loop-Within kgl_memcpy us_read again s len (refused c dst) f h = tt
  after_loop-Within kgl_memcpy us_read again s len Left.out_of_fuel f h = tt

  after_read-Within :
      (kgl_memcpy : ℕ → Bytes → ℕ → ℕ) (us_read : S → ℕ → S × Bytes)
      (again : S → ℕ → Bytes → ReadResult S) (c len : ℕ) (dst : Bytes) (g : S × Bytes)
      → length dst ≤ len
      → length g.1 ≤ len - length dst
      → ((s : S) (c : ℕ) (d : Bytes) → length d ≤ len → Within len (again s c d))
      → Within len (after_read kgl_memcpy us_read again c dst g)
  unfolding after_read
  after_read-Within kgl_memcpy us_read again c len dst (s, []) l k h = tt
  after_read-Within kgl_memcpy us_read again c len dst (s, b ∷ bs) l k h =
      let n = suc (suc (length bs)) in
      after_loop-Within kgl_memcpy us_read (again s) s len
        (copy_pieces kgl_memcpy n c 0 (b ∷ bs) dst)
        (Fits-mono (copy_pieces kgl_memcpy n c 0 (b ∷ bs) dst) (omega arith)
          (copy_pieces-Fits kgl_memcpy n c 0 (b ∷ bs) dst (omega arith)))
        (h s)

  read_from-Within :
      (kgl_memcpy : ℕ → Bytes → ℕ → ℕ) (us_read : S → ℕ → S × Bytes) (fuel : ℕ) (s : S) (c len : ℕ)
      (dst : Bytes)
      → Obeys us_read
      → length dst ≤ len
      → Within len (read_from kgl_memcpy us_read fuel s c len dst)
  unfolding read_from
  read_from-Within kgl_memcpy us_read zero s c len dst o h = tt
  read_from-Within kgl_memcpy us_read (suc fuel) s c len dst o h =
      elim (Bool-cases (len - length dst == 0)) [
        | inl e ↦ rw e h
        | inr e ↦ rw e (elim (Bool-cases (c == status_is_end)) [
          | inl f ↦ rw f h
          | inr f ↦ rw f (
              after_read-Within kgl_memcpy us_read
                (λ s' c' d. read_from kgl_memcpy us_read fuel s' c' len d) c len dst
                (us_read s (len - length dst)) h (o s (len - length dst))
                (λ s' c' d k. read_from-Within kgl_memcpy us_read fuel s' c' len d o k))
        ])
      ]

  -- Over a connection that never returns more bytes than it was asked for, the count that `read`
  -- returns is at most the size of the caller's buffer, whatever the bytes are, however they arrive
  -- and whatever `kgl_memcpy` does.
  pub read-Within :
      (kgl_memcpy : ℕ → Bytes → ℕ → ℕ) (us_read : S → ℕ → S × Bytes) (fuel : ℕ) (s : S) (c len : ℕ)
      → Obeys us_read
      → Within len (read kgl_memcpy us_read fuel s c len)
  unfolding read
  read-Within kgl_memcpy us_read fuel s c len o =
      read_from-Within kgl_memcpy us_read fuel s c len [] o (omega arith)
