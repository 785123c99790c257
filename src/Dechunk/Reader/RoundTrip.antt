-- ===== src/Dechunk/Reader/RoundTrip.antt =====
-- What `KDechunkReader::read` makes of a chunked message.
use khttpd.Dechunk.Reader.Bounds.{length_split}
use khttpd.Dechunk.Pieces.{Accounts, dechunk-Accounts}
use khttpd.Dechunk.Reader.Messages.{
  dechunk_chunk, Message-pos, chunk, dechunk-IsBlank, sub_zero, if_zero, last, Message,
  dechunk-tail,
}
use khttpd.Base.{
  false, ap₂, All, get_or, ◌+◌, List, ℕ, zero, suc, ◌-◌, ◌≤◌, ◌<◌, ◌==◌, ◌≡◌, refl, sym, [], ◌∷◌,
  ◌++◌, Bytes, length, arith, length-append, ap, ◌∙◌, append_assoc, append-nil,
}
use khttpd.Dechunk.{
  trailer, continue, failed, Result, success, end, max_chunk_size, status_is_end, status_read_end,
  status_read_size, dechunk,
}
use khttpd.Dechunk.Sizes.{NoNewline, dechunk-size_line}
use khttpd.Dechunk.Reader.{
  put_piece, bytes_at, Left, on_result, returned, copy_pieces, ReadResult, got, after_read,
  read_from, read, after_loop,
}

-- What the copies of the parts leave, one behind the other.
abbrev pub written : (ℕ → Bytes → ℕ → ℕ) → List (ℕ × Bytes) → Bytes
written f [] = []
written f ((gap, piece) ∷ parts) = bytes_at (f gap piece) 0 (length piece) ++ written f parts

abbrev pub joined : List (ℕ × Bytes) → Bytes
joined [] = []
joined ((gap, piece) ∷ parts) = piece ++ joined parts

module _ (kgl_memcpy : ℕ → Bytes → ℕ → ℕ) where
  module _ (fuel c gap : ℕ) (src dst : Bytes) where
    copy_pieces_success :
        (c' g : ℕ) (rest piece : Bytes)
        → dechunk c max_chunk_size src
          ≡ record { chunk_size = c'; buf = rest; result = success piece }
        → gap + (length src - length rest) - length piece ≡ g
        → 0 < g
        → copy_pieces kgl_memcpy (suc fuel) c gap src dst
          ≡ copy_pieces kgl_memcpy fuel c' g rest
              (dst ++ bytes_at (kgl_memcpy g piece) 0 (length piece))
    unfolding copy_pieces on_result put_piece
    copy_pieces_success c' g rest piece e k pos =
        let z : (g == 0) ≡ false = ground arith in rw (e, k, z) refl

    copy_pieces_end :
        (c' : ℕ) (rest : Bytes)
        → dechunk c max_chunk_size src ≡ record { chunk_size = c'; buf = rest; result = end }
        → copy_pieces kgl_memcpy (suc fuel) c gap src dst ≡ returned c' dst
    unfolding copy_pieces on_result
    copy_pieces_end c' rest e = rw e refl

  on_result-ahead :
      (again : ℕ → Bytes → Left) (c a b : ℕ) (src dst rest : Bytes) (r : Result)
      → Accounts max_chunk_size src rest r
      → (length rest ≤ length src → a ≡ b)
      → on_result kgl_memcpy again c a dst r ≡ on_result kgl_memcpy again c b dst r
  unfolding on_result
  on_result-ahead again c a b src dst rest (success piece) (skipped, e, pos, le) h =
      ap (λ x. on_result kgl_memcpy again c x dst (success piece))
        (h (omega (arith, length_split src skipped piece rest e)))
  on_result-ahead again c a b src dst rest (trailer line) t h = refl
  on_result-ahead again c a b src dst rest continue t h = refl
  on_result-ahead again c a b src dst rest end t h = refl
  on_result-ahead again c a b src dst rest failed t h = refl

  -- One call on an unread size, or on the end of the data line before it.
  copy_pieces-tail :
      (fuel gap : ℕ) (tail more dst : Bytes)
      → NoNewline tail
      → copy_pieces kgl_memcpy fuel status_read_end gap (tail ++ b'\n' ∷ more) dst
        ≡ copy_pieces kgl_memcpy fuel status_read_size (gap + (length tail + 1)) more dst
  unfolding copy_pieces
  copy_pieces-tail zero gap tail more dst h = refl
  copy_pieces-tail (suc fuel) gap tail more dst h =
      let o = dechunk status_read_size max_chunk_size more in
      rw (dechunk-tail max_chunk_size tail more h) (
        on_result-ahead (λ g d. copy_pieces kgl_memcpy fuel o.chunk_size g o.buf d) o.chunk_size _ _
          more dst o.buf o.result
          (dechunk-Accounts status_read_size max_chunk_size more (omega arith))
          (λ le. omega (arith, length-append tail (b'\n' ∷ more))))

  -- The inner loop on a whole message, from any buffer written so far.
  copy_pieces-Message :
      (fuel gap : ℕ) {s : Bytes} {parts : List (ℕ × Bytes)} (dst : Bytes)
      → Message gap s parts
      → length s < fuel
      → copy_pieces kgl_memcpy fuel status_read_size gap s dst
        ≡ returned status_is_end (dst ++ written kgl_memcpy parts)
  copy_pieces-Message zero gap dst m h = absurd (omega arith)
  copy_pieces-Message (suc fuel) _ dst (last gap digits extension blank rest r x b) h =
      copy_pieces_end fuel 0 gap _ dst status_is_end rest (
        dechunk-size_line max_chunk_size extension (blank ++ b'\n' ∷ rest) r (omega arith) x
        ∙ dechunk-IsBlank max_chunk_size blank rest b)
      ∙ ap (returned status_is_end) (sym (append-nil dst))
  copy_pieces-Message (suc fuel) _ dst
        (chunk gap digits extension content tail {more} {parts} r pos le x t m) h =
      let behind = tail ++ b'\n' ∷ more in
      let g = gap + (length digits + length extension + 1) in
      let put = bytes_at (kgl_memcpy g content) 0 (length content) in
      let a = length-append digits (extension ++ b'\n' ∷ (content ++ behind)) in
      let b = length-append extension (b'\n' ∷ (content ++ behind)) in
      let c = length-append content behind in
      copy_pieces_success fuel 0 gap _ dst status_read_end g behind content
        (dechunk_chunk digits extension x content behind r pos le) (omega (arith, a, b, c))
        (omega arith)
      ∙ copy_pieces-tail fuel g tail more (dst ++ put) t
      ∙ copy_pieces-Message fuel (g + (length tail + 1)) (dst ++ put) m
          (omega (arith, a, b, c, length-append tail (b'\n' ∷ more)))
      ∙ ap (returned status_is_end) (append_assoc dst put (written kgl_memcpy parts))

nonempty_read {ℓ} :
    {S : Type ℓ} (kgl_memcpy : ℕ → Bytes → ℕ → ℕ) (us_read : S → ℕ → S × Bytes)
    (again : S → ℕ → Bytes → ReadResult S) (c : ℕ) (s' : S) (src body : Bytes)
    → 0 < length src
    → copy_pieces kgl_memcpy (suc (length src)) c 0 src [] ≡ returned status_is_end body
    → after_read kgl_memcpy us_read again c [] (s', src) ≡ got s' status_is_end body
unfolding after_read after_loop
nonempty_read kgl_memcpy us_read again c s' [] body m e = absurd (omega arith)
nonempty_read kgl_memcpy us_read again c s' (b ∷ bs) body m e = rw e refl

-- A fresh reader whose connection hands over a whole chunked message in one read is at the end
-- behind it and returns as many bytes as its chunks have, namely what the copies of their data leave,
-- however the sizes are written (either case, leading zeros, extensions), whatever follows the data
-- in its line and whatever `kgl_memcpy` leaves. A message that does not fit the buffer cannot be read
-- at once, since the reader asks for no more than its size.
pub read-written {ℓ} :
    {S : Type ℓ} (kgl_memcpy : ℕ → Bytes → ℕ → ℕ) (us_read : S → ℕ → S × Bytes) (s s' : S)
    (fuel len : ℕ) (src : Bytes) (parts : List (ℕ × Bytes))
    → Message 0 src parts
    → 0 < len
    → us_read s len ≡ (s', src)
    → read kgl_memcpy us_read (suc fuel) s status_read_size len
      ≡ got s' status_is_end (written kgl_memcpy parts)
unfolding read read_from
read-written kgl_memcpy us_read s s' fuel len src parts m h e =
    if_zero (len - 0) _ _ (omega arith)
    ∙ rw (sub_zero len, e)
        (nonempty_read kgl_memcpy us_read (λ t c d. read_from kgl_memcpy us_read fuel t c len d)
          status_read_size s' src (written kgl_memcpy parts) (Message-pos m)
          (copy_pieces-Message kgl_memcpy (suc (length src)) 0 [] m (omega arith)))

-- `kgl_memcpy` copies between places that do not overlap.
abbrev pub CopiesApart : (ℕ → Bytes → ℕ → ℕ) → Type 0
CopiesApart f =
    (gap : ℕ) (piece : Bytes) (i : ℕ)
    → length piece ≤ gap
    → i < length piece
    → f gap piece i ≡ get_or piece i 0

-- A part of which the data and the place where it goes do not overlap.
abbrev pub IsApart : ℕ × Bytes → Type 0
IsApart (gap, piece) = length piece ≤ gap

bytes_at_self :
    (f : ℕ → ℕ) (i : ℕ) (p : Bytes)
    → ((j : ℕ) → j < length p → f (i + j) ≡ get_or p j 0)
    → bytes_at f i (length p) ≡ p
bytes_at_self f i [] h = refl
bytes_at_self f i (c ∷ p) h =
    let first : f i ≡ c = ap f (omega arith) ∙ h 0 (omega arith) in
    ap₂ ◌∷◌ first (bytes_at_self f (suc i) p (λ j k. ap f (omega arith) ∙ h (suc j) (omega arith)))

written-joined :
    (f : ℕ → Bytes → ℕ → ℕ) (parts : List (ℕ × Bytes))
    → CopiesApart f
    → All IsApart parts
    → written f parts ≡ joined parts
written-joined f [] m a = refl
written-joined f ((gap, piece) ∷ parts) m a =
    ap₂ ◌++◌
      (bytes_at_self (f gap piece) 0 piece
        (λ j k. ap (f gap piece) (omega arith) ∙ m gap piece j a.0 k))
      (written-joined f parts m a.1)

-- If `kgl_memcpy` copies between places that do not overlap, and the data of no chunk is longer than
-- its distance from the place where it goes, then a fresh reader whose connection hands over a whole
-- chunked message in one read returns the data of its chunks, joined, and is at the end behind it,
-- however the sizes are written and whatever follows the data in its line.
pub read-Message {ℓ} :
    {S : Type ℓ} (kgl_memcpy : ℕ → Bytes → ℕ → ℕ) (us_read : S → ℕ → S × Bytes) (s s' : S)
    (fuel len : ℕ) (src : Bytes) (parts : List (ℕ × Bytes))
    → CopiesApart kgl_memcpy
    → Message 0 src parts
    → All IsApart parts
    → 0 < len
    → us_read s len ≡ (s', src)
    → read kgl_memcpy us_read (suc fuel) s status_read_size len
      ≡ got s' status_is_end (joined parts)
read-Message kgl_memcpy us_read s s' fuel len src parts f m a h e =
    read-written kgl_memcpy us_read s s' fuel len src parts m h e
    ∙ ap (got s' status_is_end) (written-joined kgl_memcpy parts f a)
