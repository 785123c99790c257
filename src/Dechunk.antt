-- ===== src/Dechunk.antt =====
-- include/KDechunkEngine.h and src/KDechunkEngine.cpp: the incremental decoder of the chunked
-- transfer coding. The engine is its word `chunk_size`, a uint32_t below 2 ^ 32 whose upper three
-- bits hold the phase; `buf` is the list of bytes from `*buf` to `end`, and a call returns the new
-- word, the bytes not consumed and the result with its piece. Lengths stay below 2 ^ 31.
pub mod Lines
pub mod Pieces
pub mod Reader
pub mod Resume
pub mod Sizes
pub mod Trailers
mod Tests
pub mod Words
use khttpd.Base.{
  ℕ, zero, suc, ◌+◌, ◌-◌, ◌*◌, ◌/◌, ◌%◌, ◌^◌, min, Bool, ◌&&◌, ◌||◌, [], ◌∷◌, ◌++◌, ◌≡◌, refl, ◌⊎◌,
  inl, inr, Option, none, some, ltb, leb, ◌==◌, if◌then◌else◌, Bytes, length, get_or, take, drop,
}

-- `KDechunkResult`, with the piece that a call hands out.
pub data Result : Type 0 where
  success : Bytes → Result
  continue : Result
  trailer : Bytes → Result
  end : Result
  failed : Result

pub record Outcome : Type 0 where
  pub chunk_size : ℕ
  pub buf : Bytes
  pub result : Result

abbrev pub max_chunk_size : ℕ
max_chunk_size = 0x1FFFFFFF

abbrev pub status_read_size : ℕ
status_read_size = 0

abbrev pub status_read_end : ℕ
status_read_end = 0xC0000001

abbrev pub status_read_last : ℕ
status_read_last = 0xC0000002

abbrev pub status_is_end : ℕ
status_is_end = 0xC0000004

abbrev pub status_is_failed : ℕ
status_is_failed = 0xC0000008

abbrev pub part_size : ℕ
part_size = 0x80000000

-- KBIT_TEST(c, KHTTPD_CHUNK_PART_SIZE) == KHTTPD_CHUNK_PART_SIZE
abbrev pub is_part_size : ℕ → Bool
is_part_size c = c / 0x80000000 % 2 == 1

-- KBIT_TEST(c, KHTTPD_CHUNK_PART_SIZE_END) == KHTTPD_CHUNK_PART_SIZE_END
abbrev pub is_part_size_end : ℕ → Bool
is_part_size_end c = is_part_size c && c / 0x20000000 % 2 == 1

-- KBIT_CLR(c, KHTTPD_CHUNK_STATUS_PREFIX), and c & ~KHTTPD_CHUNK_STATUS_PREFIX
abbrev pub clear_prefix : ℕ → ℕ
clear_prefix c = c % 0x20000000

-- KBIT_SET(c, KHTTPD_CHUNK_PART_SIZE_END): the bits 31 and 29
abbrev pub set_part_size_end : ℕ → ℕ
set_part_size_end c =
    let d = if is_part_size c then c else c + 0x80000000 in
    if d / 0x20000000 % 2 == 1 then d else d + 0x20000000

-- isspace in the C locale
abbrev pub is_space : ℕ → Bool
is_space c = c == 32 || leb 9 c && leb c 13

-- memchr(buf, '\n'): the bytes before the first newline, and those behind it
pub split_line : Bytes → Option (Bytes × Bytes)
split_line [] = none
split_line (c ∷ cs) =
    let rest = split_line cs in
    if c == b'\n'
    then some ([], cs)
    else elim rest [ none ↦ none | some (line, after) ↦ some (c ∷ line, after) ]

-- The loop "trim left" over the bytes before the newline.
pub trim_left : Bytes → Bytes
trim_left [] = []
trim_left (c ∷ cs) = let rest = trim_left cs in if is_space c then rest else c ∷ cs

-- The loop "trim right": the index of `trailer_end` in the text `s` from `*buf` on.
pub trailer_end : Bytes → ℕ → ℕ
trailer_end s zero = 0
trailer_end s (suc i) =
    let rest = trailer_end s i in if is_space (get_or s (suc i) 0) then rest else suc i

-- The case KHTTPD_CHUNK_STATUS_READ_LAST.
pub read_last : Bytes → Outcome
unfolding split_line trim_left trailer_end
read_last buf = elim (split_line buf) [
  | none ↦ record { chunk_size = status_read_last; buf = buf; result = continue }
  | some (line, after) ↦
      let text = trim_left line in
      let last = trailer_end (text ++ b'\n' ∷ []) (length text) in
      if last == 0
      then record { chunk_size = status_is_end; buf = after; result = end }
      else record {
        chunk_size = status_read_last;
        buf = after;
        result = trailer (take (last + 1) text);
      }
]

-- The end of the default case: hand out data of the current chunk.
pub read_data : ℕ → ℕ → Bytes → Outcome
read_data c piece_length buf =
    let available = min c (length buf) in
    let taken = min piece_length available in
    if available == 0 then record { chunk_size = c; buf = buf; result = continue } else record {
      chunk_size = if c - taken == 0 then status_read_end else c - taken;
      buf = drop taken buf;
      result = success (take taken buf);
    }

-- What one byte of a size line does.
pub data SizeStep : Type 0 where
  line_end : SizeStep
  next_buf : ℕ → SizeStep
  too_big : SizeStep

-- ch | 0x20
abbrev pub to_lower_bit : ℕ → ℕ
to_lower_bit ch = if ch / 32 % 2 == 1 then ch else ch + 32

-- new_chunk_size, a uint32_t, and the test against KHTTPD_MAX_CHUNK_SIZE
pub add_digit : ℕ → ℕ → SizeStep
add_digit c d =
    let new_chunk_size = (clear_prefix c * 16 + d) % 2 ^ 32 in
    if ltb max_chunk_size new_chunk_size then too_big else next_buf (new_chunk_size + part_size)

pub size_byte : ℕ → ℕ → SizeStep
unfolding add_digit
size_byte c ch =
    if ch == b'\n'
    then line_end
    else if is_part_size_end c
    then next_buf c
    else if leb b'0' ch && leb ch b'9'
    then add_digit c (ch - b'0')
    else if leb b'a' (to_lower_bit ch) && leb (to_lower_bit ch) b'f'
    then add_digit c (to_lower_bit ch - b'a' + 10)
    else next_buf (set_part_size_end c)

-- Behind the newline of a size line: `goto restart` for the last chunk, else its data.
pub size_read : ℕ → ℕ → Bytes → Outcome
unfolding read_last read_data
size_read c piece_length buf =
    if clear_prefix c == 0 then read_last buf else read_data (clear_prefix c) piece_length buf

-- The loop over a size line.
pub read_size : ℕ → ℕ → Bytes → Outcome
unfolding size_byte size_read
read_size c piece_length [] = record { chunk_size = c; buf = []; result = continue }
read_size c piece_length (ch ∷ rest) = elim (size_byte c ch) [
  | line_end ↦ size_read c piece_length rest
  | next_buf c' ↦ read_size c' piece_length rest
  | too_big ↦ record { chunk_size = status_is_failed; buf = ch ∷ rest; result = failed }
]

-- The three ways that the loop goes on from a byte.
pub SizeStep-cases : (s : SizeStep) → (s ≡ line_end) ⊎ ((c : ℕ) × (s ≡ next_buf c)) ⊎ (s ≡ too_big)
SizeStep-cases line_end = inl refl
SizeStep-cases (next_buf c) = inr (inl (c, refl))
SizeStep-cases too_big = inr (inr refl)

module _ (c ch n : ℕ) (rest : Bytes) where
  pub read_size-line_end :
      size_byte c ch ≡ line_end → read_size c n (ch ∷ rest) ≡ size_read c n rest
  unfolding read_size
  read_size-line_end e = rw (e, read_size)

  pub read_size-next_buf :
      {c' : ℕ} → size_byte c ch ≡ next_buf c' → read_size c n (ch ∷ rest) ≡ read_size c' n rest
  unfolding read_size
  read_size-next_buf e = rw (e, read_size)

  pub read_size-too_big :
      size_byte c ch ≡ too_big
      → read_size c n (ch ∷ rest)
        ≡ record { chunk_size = status_is_failed; buf = ch ∷ rest; result = failed }
  unfolding read_size
  read_size-too_big e = rw (e, read_size)

-- The case KHTTPD_CHUNK_STATUS_READ_END: skip the line behind the data, then read a size.
pub read_end : ℕ → Bytes → Outcome
unfolding split_line read_size
read_end piece_length buf = elim (split_line buf) [
  | none ↦ record { chunk_size = status_read_end; buf = []; result = continue }
  | some (line, after) ↦ read_size status_read_size piece_length after
]

-- `KDechunkEngine::dechunk`. A failed or ended engine, which the code asserts not to be called,
-- answers so again.
pub dechunk : ℕ → ℕ → Bytes → Outcome
unfolding read_last read_end read_size read_data
dechunk c piece_length buf =
    if c == status_is_failed
    then record { chunk_size = c; buf = buf; result = failed }
    else if c == status_is_end
    then record { chunk_size = c; buf = buf; result = end }
    else if c == status_read_last
    then read_last buf
    else if c == status_read_end
    then read_end piece_length buf
    else if c == status_read_size || is_part_size c
    then read_size c piece_length buf
    else read_data c piece_length buf
