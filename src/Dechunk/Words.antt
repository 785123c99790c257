-- ===== src/Dechunk/Words.antt =====
-- The words that `KDechunkEngine::chunk_size` takes, and what a call may hand out.
use khttpd.Base.{ℕ, ◌%◌, ◌≤◌, ◌<◌, ◌≡◌, ◌⊎◌, inl, inr, [], ◌∷◌, refl, arith, Bytes, Option-cases}
use khttpd.Dechunk.{
  SizeStep-cases, read_size-line_end, read_size-next_buf, read_size-too_big, SizeStep, next_buf,
  status_read_end, status_read_last, status_is_end, status_is_failed, split_line, read_last,
  read_data, size_byte, size_read, read_size, read_end, dechunk,
}

-- A size still unread or data left, a size line being read, and the four named states.
abbrev pub IsWord : ℕ → Type 0
IsWord c =
    (c < 0x20000000)
    ⊎ ((0x80000000 ≤ c) × (c < 0xC0000000))
    ⊎ (c ≡ status_read_end)
    ⊎ (c ≡ status_read_last)
    ⊎ (c ≡ status_is_end)
    ⊎ (c ≡ status_is_failed)

abbrev pub OnSizeLine : ℕ → Type 0
OnSizeLine c = (c ≡ 0) ⊎ ((0x80000000 ≤ c) × (c < 0xC0000000))

read_last-IsWord : (buf : Bytes) → IsWord (read_last buf).chunk_size
unfolding read_last
read_last-IsWord buf = ground arith

read_data-IsWord : (c n : ℕ) (buf : Bytes) → c < 0x20000000 → IsWord (read_data c n buf).chunk_size
unfolding read_data
read_data-IsWord c n buf h = ground arith

size_read-IsWord : (c n : ℕ) (buf : Bytes) → IsWord (size_read c n buf).chunk_size
unfolding size_read
size_read-IsWord c n buf =
    ground (arith, read_last-IsWord buf, read_data-IsWord (c % 0x20000000) n buf)

abbrev pub StaysOnLine : SizeStep → Type 0
StaysOnLine (next_buf c) = OnSizeLine c
StaysOnLine _ = Unit

pub size_byte-StaysOnLine : (c ch : ℕ) → OnSizeLine c → StaysOnLine (size_byte c ch)
unfolding size_byte
size_byte-StaysOnLine c ch h = ground arith

read_size-IsWord : (c n : ℕ) (buf : Bytes) → OnSizeLine c → IsWord (read_size c n buf).chunk_size
read_size-IsWord c n [] h = unfold read_size in ground arith
read_size-IsWord c n (ch ∷ rest) h = elim (SizeStep-cases (size_byte c ch)) [
  | inl e ↦ rw (read_size-line_end c ch n rest e) (size_read-IsWord c n rest)
  | inr (inl (c', e)) ↦
      rw (read_size-next_buf c ch n rest e)
        (read_size-IsWord c' n rest (rw e at (size_byte-StaysOnLine c ch h)))
  | inr (inr e) ↦ rw (read_size-too_big c ch n rest e) (inr (inr (inr (inr (inr refl)))))
]

read_end-IsWord : (n : ℕ) (buf : Bytes) → IsWord (read_end n buf).chunk_size
unfolding read_end
read_end-IsWord n buf = elim (Option-cases (split_line buf)) [
  | inl e ↦ rw (e, read_end) (inr (inr (inl refl)))
  | inr ((line, after), e) ↦ rw (e, read_end) (read_size-IsWord 0 n after (inl refl))
]

-- From a word that the engine can hold, every call leaves such a word: the phase bits and the size
-- never mix, on all branches and whatever the bytes are.
pub dechunk-IsWord : (c n : ℕ) (buf : Bytes) → IsWord c → IsWord (dechunk c n buf).chunk_size
unfolding dechunk
dechunk-IsWord c n buf h = ground (
  arith,
  read_last-IsWord buf,
  read_end-IsWord n buf,
  read_size-IsWord c n buf,
  read_data-IsWord c n buf,
)
