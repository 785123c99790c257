-- ===== src/Dechunk/Reader.antt =====
-- `KDechunkReader::read` of include/KDechunkEngine.h. The connection `us` is a parameter: a state
-- and its `read(buf, len)`, which returns the new state and the bytes got, none where the C++ method
-- returns 0 or less. The caller's buffer is the list of bytes written to it so far, `dst`, and those
-- not yet read, `src`, which begin `gap` bytes behind the end of `dst`; bytes of a read that the
-- engine leaves unread when it asks for more are overwritten by the next read. `kgl_memcpy` of
-- kasync is a parameter too, since a piece is copied within the buffer and may overlap the place
-- where it goes: `kgl_memcpy gap piece i` is the byte that stands i bytes behind `dst` after the copy
-- of `piece` from `gap` bytes behind. Such a copy ends before the end of its piece, so it never
-- touches bytes that are not yet read.
pub mod Bounds
pub mod Messages
pub mod RoundTrip
use khttpd.Base.{◌+◌, ℕ, zero, suc, ◌-◌, ◌==◌, if◌then◌else◌, [], ◌∷◌, ◌++◌, Bytes, length}
use khttpd.Dechunk.{
  Result, success, continue, trailer, end, failed, Outcome, max_chunk_size, status_is_end, dechunk,
}

-- How the inner loop over one read leaves: `goto retry`, the return of a count, the return of -1.
pub data Left : Type 0 where
  retry : ℕ → Bytes → Left
  returned : ℕ → Bytes → Left
  refused : ℕ → Bytes → Left
  out_of_fuel : Left

-- The bytes f i, f (i + 1), …, n of them
abbrev pub bytes_at : (ℕ → ℕ) → ℕ → ℕ → Bytes
bytes_at f i zero = []
bytes_at f i (suc n) = f i ∷ bytes_at f (suc i) n

module _ (kgl_memcpy : ℕ → Bytes → ℕ → ℕ) where
  -- What stands behind `dst` after a piece, which is not copied if it stands there already.
  unfoldable pub put_piece : ℕ → Bytes → Bytes
  put_piece gap piece = if gap == 0 then piece else bytes_at (kgl_memcpy gap piece) 0 (length piece)

  -- The switch on the result of one call; `again` is the next round of the loop, with the distance
  -- from `dst` to `rest`. `ahead` is the distance from `dst` to `rest` before the piece is put out.
  unfoldable pub on_result : (ℕ → Bytes → Left) → ℕ → ℕ → Bytes → Result → Left
  unfolding put_piece
  on_result again c ahead dst (success piece) =
      let gap = ahead - length piece in again gap (dst ++ put_piece gap piece)
  on_result again c ahead dst continue = retry c dst
  on_result again c ahead dst end = returned c dst
  on_result again c ahead dst (trailer line) = refused c dst
  on_result again c ahead dst failed = refused c dst

  -- The inner loop: each piece is copied behind `dst`.
  unfoldable pub copy_pieces : ℕ → ℕ → ℕ → Bytes → Bytes → Left
  unfolding on_result
  copy_pieces zero c gap src dst = out_of_fuel
  copy_pieces (suc fuel) c gap src dst =
      let o = dechunk c max_chunk_size src in
      on_result (λ g d. copy_pieces fuel o.chunk_size g o.buf d) o.chunk_size
        (gap + (length src - length o.buf)) dst o.result

-- What `read` returns: the count with the bytes and the engine's word, or -1.
pub data ReadResult {ℓ} (S : Type ℓ) : Type ℓ where
  got : S → ℕ → Bytes → ReadResult S
  minus_one : S → ℕ → ReadResult S
  out_of_fuel : ReadResult S

module _ {ℓ} {S : Type ℓ} (kgl_memcpy : ℕ → Bytes → ℕ → ℕ) (us_read : S → ℕ → S × Bytes) where
  -- What follows one `us->read` that got bytes or not.
  after_loop : (ℕ → Bytes → ReadResult S) → S → Left → ReadResult S
  after_loop again s (retry c dst) = again c dst
  after_loop again s (returned c dst) = got s c dst
  after_loop again s (refused c dst) = minus_one s c
  after_loop again s out_of_fuel = out_of_fuel

  after_read : (S → ℕ → Bytes → ReadResult S) → ℕ → Bytes → S × Bytes → ReadResult S
  unfolding copy_pieces after_loop
  after_read again c dst (s, []) = minus_one s c
  after_read again c dst (s, b ∷ bs) =
      after_loop (again s) s (copy_pieces kgl_memcpy (suc (suc (length bs))) c 0 (b ∷ bs) dst)

  -- The loop from the label `retry` on, for a buffer of `len` bytes.
  unfoldable pub read_from : ℕ → S → ℕ → ℕ → Bytes → ReadResult S
  unfolding after_read
  read_from zero s c len dst = out_of_fuel
  read_from (suc fuel) s c len dst =
      let next =
        after_read (λ s' c' dst'. read_from fuel s' c' len dst') c dst
          (us_read s (len - length dst)) in
      if len - length dst == 0
      then got s c dst
      else if c == status_is_end
      then got s c dst
      else next

  unfoldable pub read : ℕ → S → ℕ → ℕ → ReadResult S
  unfolding read_from
  read fuel s c len = read_from fuel s c len []
