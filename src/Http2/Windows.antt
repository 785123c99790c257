-- ===== src/Http2/Windows.antt =====
-- src/KHttp2.cpp, include/KHttp2.h: the windows that limit what a server sends, and the writers that
-- wait for them. The int `send_window` of a stream is an integer `ℤ`; the connection is not closed.
pub mod Moves
pub mod Ready
pub mod Events
pub mod Checks
pub mod Actions
pub mod Adjust
pub mod Steps
pub mod Index
pub mod Runs
pub mod Payload
mod Tests
use khttpd.Base.{
  ℕ, ◌+◌, ◌-◌, ◌*◌, ◌/◌, ◌%◌, ◌^◌, min, Bool, true, false, ◌&&◌, ◌||◌, not, Option, none, some,
  List, [], ◌∷◌, ◌++◌, ltb, leb, ◌==◌, if◌then◌else◌, Bytes, length, take, ℤ, pos, above, ◌+ℤ◌,
  ◌-ℤ◌, ltb_ℤ, min_ℤ,
}

-- What a writer hands over: a chain of `kbuf`, or a file.
pub data Source : Type 0 where
  chain : List Bytes → Source
  file : Source

-- `write_wait`, by IS_WRITE_WAIT_FOR_HUP, _WINDOW and _WRITING; with `buf_len`, and `len`.
pub data WriteWait : Type 0 where
  for_hup : WriteWait
  for_window : Source → ℕ → WriteWait
  for_writing : ℕ → WriteWait

-- A stream. `content_left` is none for -1; what the assertion there excludes, that it falls below 0,
-- leaves 0 here.
pub record Context : Type 0 where
  pub send_window : ℤ
  pub content_left : Option ℕ
  pub in_closed : Bool
  pub out_closed : Bool
  pub rst : Bool
  pub write_wait : Option WriteWait

pub record Node : Type 0 where
  pub id : ℕ
  pub stream : Option Context

-- What is pushed to `write_buffer`: a DATA frame with the bytes of a chain or with those of a file,
-- and RST_STREAM with its status.
pub data Frame : Type 0 where
  data_frame : (sid len : ℕ) → (end_stream : Bool) → List Bytes → Frame
  file_frame : (sid len : ℕ) → (end_stream : Bool) → Frame
  rst_frame : (sid status : ℕ) → Frame

-- What `on_write_window_ready` uses of the connection.
pub record Wire : Type 0 where
  pub send_window : ℕ
  pub frame_size : ℕ
  pub pushed : List Frame

pub record Connection : Type 0 where
  pub wire : Wire
  pub init_window : ℕ
  pub streams_index : List (List Node)

abbrev pub max_window : ℕ
max_window = 2 ^ 31 - 1

-- The loop of `build_write_buffer` over a chain: at most `len` bytes of its first `left`.
unfoldable pub pieces : (len left : ℕ) → List Bytes → List Bytes
pieces len left [] = []
pieces len left (c ∷ cs) =
    let used = min len (min (length c) left) in
    let rest = pieces (len - used) (left - used) cs in
    if left == 0 || len == 0 then [] else take used c ∷ rest

abbrev pub size_of : List Bytes → ℕ
size_of [] = 0
size_of (c ∷ cs) = length c + size_of cs

-- `total_len`; of a file the length is cast to uint16_t.
unfoldable pub total_of : Source → (len buf_len : ℕ) → ℕ
unfolding pieces
total_of (chain cs) len buf_len = size_of (pieces len buf_len cs)
total_of file len buf_len = min len buf_len % 2 ^ 16

abbrev pub is_last : Option ℕ → ℕ → Bool
is_last none total = false
is_last (some left) total = ltb 0 left && leb left total

abbrev pub content_after : Option ℕ → ℕ → Option ℕ
content_after none total = none
content_after (some left) total = some (left - total)

unfoldable pub frame_of : Source → (sid len buf_len : ℕ) → Bool → Frame
unfolding pieces total_of
frame_of (chain cs) sid len buf_len last =
    data_frame sid (total_of (chain cs) len buf_len) last (pieces len buf_len cs)
frame_of file sid len buf_len last = file_frame sid (total_of file len buf_len) last

-- The stream when `build_write_buffer` has made a frame of `total` bytes.
unfoldable pub after_built : Context → ℕ → Context
after_built s total = record s {
  send_window = s.send_window -ℤ pos total;
  content_left = content_after s.content_left total;
  out_closed = s.out_closed || is_last s.content_left total;
  write_wait = some (for_writing total);
}

-- The bytes that both windows and the size of a frame allow.
unfoldable pub allowed : Wire → Context → ℤ
allowed w s = min_ℤ (min_ℤ (pos w.frame_size) s.send_window) (pos w.send_window)

-- `on_write_window_ready`
unfoldable pub on_write_window_ready : Wire → ℕ → Context → Source → ℕ → Wire × Context
unfolding allowed total_of frame_of after_built
on_write_window_ready w sid s source buf_len =
    let len = above (allowed w s) in
    let total = total_of source len buf_len in
    let frame = frame_of source sid len buf_len (is_last s.content_left total) in
    if len == 0 then (w, s) else (
      record w { send_window = w.send_window - total; pushed = w.pushed ++ frame ∷ [] },
      after_built s total,
    )

-- A stream whose writer waits for a window is served.
unfoldable pub serve_as : Option WriteWait → Wire → ℕ → Context → Wire × Context
unfolding on_write_window_ready
serve_as none w sid s = (w, s)
serve_as (some for_hup) w sid s = (w, s)
serve_as (some (for_window source buf_len)) w sid s = on_write_window_ready w sid s source buf_len
serve_as (some (for_writing n)) w sid s = (w, s)

unfoldable pub serve : Wire → ℕ → Context → Wire × Context
unfolding serve_as
serve w sid s = serve_as s.write_wait w sid s
