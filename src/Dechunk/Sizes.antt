-- ===== src/Dechunk/Sizes.antt =====
-- Size lines and whole chunks: the number that `KDechunkEngine::dechunk` reads from a line.
use khttpd.Base.{
  ℕ, ◌+◌, ◌-◌, ◌*◌, ◌%◌, ◌^◌, ◌≤◌, ◌<◌, ◌≡◌, ◌≢◌, ◌⊎◌, inl, inr, true, ◌&&◌, [], ◌∷◌, ◌++◌, Option,
  none, some, refl, arith, Bytes, All, Bool-cases, ltb, leb, ◌∙◌, ◌==◌, ==_iff, if◌then◌else◌,
}
use khttpd.Dechunk.{
  read_size-line_end, read_size-next_buf, line_end, next_buf, too_big, status_read_last, size_byte,
  size_read, read_size, dechunk, clear_prefix, status_read_size, part_size, is_part_size_end,
  max_chunk_size,
}

-- The value of a hexadecimal digit, in either case.
abbrev pub hex_digit : ℕ → Option ℕ
hex_digit ch =
    if leb b'0' ch && leb ch b'9'
    then some (ch - b'0')
    else if leb b'A' ch && leb ch b'F'
    then some (ch - b'A' + 10)
    else if leb b'a' ch && leb ch b'f'
    then some (ch - b'a' + 10)
    else none

-- The digits `ds` lead from the value `v` to the value `w`, the most significant first.
pub data Reads : ℕ → Bytes → ℕ → Type 0 where
  done : {v : ℕ} → Reads v [] v
  digit :
      {v ch d w : ℕ} {ds : Bytes}
      → ch < 256
      → hex_digit ch ≡ some d
      → Reads (v * 16 + d) ds w
      → Reads v (ch ∷ ds) w

hex_digit-lt : (ch d : ℕ) → hex_digit ch ≡ some d → d < 16
hex_digit-lt ch d e = ground arith

pub Reads-le : {v w : ℕ} {ds : Bytes} → Reads v ds w → v ≤ w
Reads-le done = omega arith
Reads-le (digit l e r) = omega (arith, Reads-le r)

-- A word of a size line of which only digits were read, with their value.
abbrev pub Holds : ℕ → ℕ → Type 0
Holds c v = (v ≤ max_chunk_size) × ((c ≡ v + part_size) ⊎ ((c ≡ 0) × (v ≡ 0)))

size_byte-hex_digit :
    (c v ch d : ℕ)
    → Holds c v
    → ch < 256
    → hex_digit ch ≡ some d
    → size_byte c ch ≡ (
        if ltb max_chunk_size ((v * 16 + d) % 2 ^ 32)
        then too_big
        else next_buf ((v * 16 + d) % 2 ^ 32 + part_size))
unfolding size_byte
size_byte-hex_digit c v ch d h l e = ground arith

read_size-Reads :
    {v w : ℕ} {ds : Bytes} (c n : ℕ) (rest : Bytes)
    → Reads v ds w
    → w ≤ max_chunk_size
    → Holds c v
    → (c' : ℕ) × Holds c' w × (read_size c n (ds ++ rest) ≡ read_size c' n rest)
read_size-Reads c n rest done k h = (c, h, refl)
read_size-Reads c n rest (digit {v} {ch} {d} {w} {ds} l e r) k h =
    let v' = v * 16 + d in
    let fits : v' ≤ max_chunk_size = omega (arith, Reads-le r) in
    let next : size_byte c ch ≡ next_buf (v' + part_size) =
      size_byte-hex_digit c v ch d h l e ∙ ground (arith, fits) in
    let (c', h', later) = read_size-Reads (v' + part_size) n rest r k (fits, inl refl) in
    (c', h', read_size-next_buf c ch n (ds ++ rest) next ∙ later)

abbrev pub NoNewline : Bytes → Type 0
NoNewline = All (λ c. c ≢ b'\n')

-- What may stand behind the digits: nothing, or bytes that begin with no digit.
abbrev pub IsExtension : Bytes → Type 0
IsExtension [] = Unit
IsExtension (c ∷ cs) = (c < 256) × (hex_digit c ≡ none) × (c ≢ b'\n') × NoNewline cs

-- A word of a size line with the value `v`, whose digits are over.
abbrev Skips : ℕ → ℕ → Type 0
Skips c v = (clear_prefix c ≡ v) × (is_part_size_end c ≡ true)

skip_byte : (c v ch : ℕ) → Skips c v → ch ≢ b'\n' → size_byte c ch ≡ next_buf c
unfolding size_byte
skip_byte c v ch (h, k) ne = elim (Bool-cases (ch == b'\n')) [
  | inl e ↦ absurd (ne ((==_iff ch b'\n').0 e))
  | inr e ↦ rw (e, k) refl
]

newline_byte : (c : ℕ) → size_byte c b'\n' ≡ line_end
unfolding size_byte
newline_byte c = refl

first_skipped :
    (c v ch : ℕ)
    → Holds c v
    → ch < 256
    → hex_digit ch ≡ none
    → ch ≢ b'\n'
    → (c' : ℕ) × (size_byte c ch ≡ next_buf c') × Skips c' v
unfolding size_byte
first_skipped c v ch (m, inl h) l e ne = (v + 0xA0000000, ground arith, ground arith)
first_skipped c v ch (m, inr h) l e ne = (0xA0000000, ground arith, ground arith)

size_read-clear_prefix :
    (c v n : ℕ) (rest : Bytes)
    → v ≤ max_chunk_size
    → clear_prefix c ≡ v
    → size_read c n rest ≡ dechunk (if v == 0 then 0xC0000002 else v) n rest
unfolding size_read dechunk
size_read-clear_prefix c v n rest m h = rw h (ground arith)

read_size-Skips :
    (c v n : ℕ) (ext rest : Bytes)
    → Skips c v
    → NoNewline ext
    → read_size c n (ext ++ b'\n' ∷ rest) ≡ size_read c n rest
read_size-Skips c v n [] rest h k = read_size-line_end c b'\n' n rest (newline_byte c)
read_size-Skips c v n (ch ∷ ext) rest h k =
    read_size-next_buf c ch n (ext ++ b'\n' ∷ rest) (skip_byte c v ch h k.0)
    ∙ read_size-Skips c v n ext rest h k.1

read_size-IsExtension :
    (c v n : ℕ) (ext rest : Bytes)
    → Holds c v
    → IsExtension ext
    → read_size c n (ext ++ b'\n' ∷ rest) ≡ dechunk (if v == 0 then 0xC0000002 else v) n rest
read_size-IsExtension c v n [] rest h k =
    read_size-line_end c b'\n' n rest (newline_byte c)
    ∙ size_read-clear_prefix c v n rest h.0 (ground arith)
read_size-IsExtension c v n (ch ∷ ext) rest h (l, e, ne, k) =
    let (c', next, s) = first_skipped c v ch h l e ne in
    read_size-next_buf c ch n (ext ++ b'\n' ∷ rest) next
    ∙ read_size-Skips c' v n ext rest s k
    ∙ size_read-clear_prefix c' v n rest h.0 s.0

read_size_word : (n : ℕ) (buf : Bytes) → dechunk 0 n buf ≡ read_size 0 n buf
unfolding dechunk
read_size_word n buf = refl

module _ {v : ℕ} {digits : Bytes} (n : ℕ) (extension rest : Bytes) (r : Reads 0 digits v) where
  -- A size line of hexadecimal digits in either case, of any number, with anything behind them that
  -- begins with no digit, is read as the number that the digits denote, if this is at most
  -- `KHTTPD_MAX_CHUNK_SIZE`: the engine goes on with so many bytes of data, or behind the last chunk
  -- if the number is 0.
  pub dechunk-size_line :
      v ≤ max_chunk_size
      → IsExtension extension
      → dechunk status_read_size n (digits ++ (extension ++ b'\n' ∷ rest))
        ≡ dechunk (if v == 0 then status_read_last else v) n rest
  dechunk-size_line m k =
      let (c, h, e) =
        read_size-Reads 0 n (extension ++ b'\n' ∷ rest) r m (omega arith, inr (refl, refl)) in
      read_size_word n _ ∙ e ∙ read_size-IsExtension c v n extension rest h k

  -- The size is kept in a uint32_t and multiplied by 16 before it is compared with the limit. So
  -- where the digits denote a number from 0x10000000 to 0x11ffffff, one more digit wraps round:
  -- instead of failing, the engine takes the line for a chunk of 2 ^ 32 bytes less, or for the last
  -- chunk.
  pub dechunk-size_wraps :
      (ch d : ℕ)
      → 0x10000000 ≤ v
      → v < 0x12000000
      → ch < 256
      → hex_digit ch ≡ some d
      → let wrapped = v * 16 + d - 2 ^ 32 in
        dechunk status_read_size n (digits ++ (ch ∷ b'\n' ∷ rest))
        ≡ dechunk (if wrapped == 0 then status_read_last else wrapped) n rest
  dechunk-size_wraps ch d lo hi l e =
      let (c, h, reads) =
        read_size-Reads 0 n (ch ∷ b'\n' ∷ rest) r (omega arith) (omega arith, inr (refl, refl)) in
      let w = v * 16 + d - 2 ^ 32 in
      let small : d < 16 = hex_digit-lt ch d e in
      let next : size_byte c ch ≡ next_buf (w + part_size) =
        size_byte-hex_digit c v ch d h l e ∙ ground (arith, small) in
      read_size_word n _
      ∙ reads
      ∙ read_size-next_buf c ch n (b'\n' ∷ rest) next
      ∙ read_size-IsExtension (w + part_size) w n [] rest (omega (arith, small), inl refl) tt
