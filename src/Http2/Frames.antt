-- ===== src/Http2/Frames.antt =====
-- include/KHttp2.h, src/KHttp2.cpp, src/KHttp2WriteBuffer.cpp: the header of a frame, written and
-- read, and the frames that `KHttp2HeaderFrame::create` makes of a header block.
pub mod RoundTrip
pub mod Create
pub mod Chunks
mod Tests
use khttpd.Base.{
  ℕ, ◌+◌, ◌*◌, ◌/◌, ◌%◌, ◌^◌, Bool, true, false, Option, none, some, List, [], ◌∷◌, ◌++◌, ltb, leb,
  if◌then◌else◌, Bytes, length, drop, get_or,
}
use khttpd.Http2.Headers.Reader.{head, Reader, Step, uint32_at}
use khttpd.Http2.Headers.Frames.{state_save, state_skip}
use Prim.Native.Nat.{bit_or}

-- `http2_frame_header`, in the order of the host.
pub record FrameHeader : Type 0 where
  pub size : ℕ
  pub type : ℕ
  pub flags : ℕ
  pub sid : ℕ

-- htonl of a number below 2 ^ 32
unfoldable pub network_order : ℕ → Bytes
network_order n = n / 2 ^ 24 % 256 ∷ n / 2 ^ 16 % 256 ∷ n / 2 ^ 8 % 256 ∷ n % 256 ∷ []

-- The nine bytes of a header as `set_length_type` and `get_frame` leave it; the type is below 256.
unfoldable pub header_bytes : FrameHeader → Bytes
unfolding network_order
header_bytes h = network_order (h.size * 256 + h.type) ++ h.flags ∷ network_order h.sid

-- Where `state_head` goes: a handler of `kgl_http_v2_frame_states` by its number, or what it does
-- itself.
pub data Headed : Type 0 where
  frame_state : ℕ → Reader → Bytes → Headed
  itself : Step → Headed

unfoldable pub state_head : Reader → Bytes → Headed
state_head r pos =
    let first = uint32_at pos 0 in
    let r' = record r {
      len = first / 256;
      flags = get_or pos 4 0;
      sid = uint32_at pos 5 % 2 ^ 31;
    } in
    if ltb (length pos) 9
    then itself (state_save head r pos)
    else if leb 11 (first % 256)
    then itself (state_skip r' (drop 9 pos))
    else frame_state (first % 256) r' (drop 9 pos)

-- The loop of `create` from a frame on that has `used` bytes: the header of a further frame, a
-- CONTINUATION, is not initialised, `junk` has its flags.
unfoldable pub frames_from :
    (max sid : ℕ) (junk : ℕ → ℕ) (k type flags used : ℕ)
    → List Bytes
    → List Bytes
    → List (FrameHeader × List Bytes)
frames_from max sid junk k type flags used taken [] =
    (record { size = used; type = type; flags = bit_or flags 4; sid = sid }, taken) ∷ []
frames_from max sid junk k type flags used taken (c ∷ cs) =
    let more = frames_from max sid junk (k + 1) 9 (junk k) (length c) (c ∷ []) cs in
    let same = frames_from max sid junk k type flags (used + length c) (taken ++ c ∷ []) cs in
    if ltb max (used + length c)
    then (record { size = used; type = type; flags = flags; sid = sid }, taken) ∷ more
    else same

-- For each further frame `create` clears `buf->data`, the header of the first frame.
unfoldable pub clear_first : List (FrameHeader × List Bytes) → List (FrameHeader × List Bytes)
clear_first [] = []
clear_first (f ∷ []) = f ∷ []
clear_first (f ∷ g ∷ fs) = (record { size = 0; type = 0; flags = 0; sid = 0 }, f.1) ∷ g ∷ fs

-- `create` of a header block in its chunks
unfoldable pub create :
    (sid : ℕ) (no_body : Bool) (max : ℕ) (junk : ℕ → ℕ)
    → List Bytes
    → List (FrameHeader × List Bytes)
unfolding frames_from clear_first
create sid no_body max junk cs =
    clear_first (frames_from max sid junk 0 1 (if no_body then 1 else 0) 0 [] cs)
