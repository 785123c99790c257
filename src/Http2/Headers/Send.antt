-- ===== src/Http2/Headers/Send.antt =====
-- src/KHttp2.cpp and include/KHttp2WriteBuffer.h: the writing of a header block, `add_status`,
-- `add_method` and `add_header`, on the bytes of a `KHttp2HeaderFrame` in order; its chunks of 4096
-- bytes are one text here. None where the fuel of `write_int` ran out.
use khttpd.Base.{
  ℕ, ◌+◌, ◌/◌, ◌%◌, Bool, ◌&&◌, ◌||◌, Option, some, [], ◌∷◌, ◌++◌, ltb, ◌==◌, if◌then◌else◌, ◌>>=◌,
  map, Bytes, length, codes,
}
use khttpd.Http2.Integers.{write_int}
use khttpd.Http2.Headers.Names.{header_cookie, low_case, to_lower, same_case, http2_index}

-- write_int(KGL_HTTP_V2_ENCODE_RAW, kgl_http_v2_prefix(7), len) and the write of the text
unfoldable pub write_text : Bytes → Bytes → Option Bytes
write_text frame text = do os ← write_int 0 7 (length text); some (frame ++ (os ++ text))

-- kgl_http_v2_inc_indexed(index) and a value
unfoldable pub write_incremental : Bytes → ℕ → Bytes → Option Bytes
unfolding write_text
write_incremental frame index val = write_text (frame ++ (64 + index) ∷ []) val

-- 0, "not indexed", a name and a value
unfoldable pub write_literal : Bytes → Bytes → Bytes → Option Bytes
unfolding write_text
write_literal frame name val = do named ← write_text (frame ++ 0 ∷ []) name; write_text named val

-- `add_header_cookie`
unfoldable pub add_header_cookie : Bytes → Bytes → Option Bytes
unfolding write_incremental
add_header_cookie frame val = write_incremental frame 32 val

-- `add_header` of a known header
unfoldable pub add_known_header : Bytes → ℕ → Bytes → Option Bytes
unfolding add_header_cookie write_literal write_incremental
add_known_header frame type val =
    if type == header_cookie
    then add_header_cookie frame val
    else if http2_index type == 0
    then write_literal frame (low_case type) val
    else write_incremental frame (http2_index type) val

-- An upgrade to HTTP/2, which `add_header` leaves out.
unfoldable pub is_upgrade : Bytes → Bytes → Bool
is_upgrade name val =
    length name == 7
    && same_case name (codes "upgrade")
    && (same_case val (codes "h2") || same_case val (codes "h2c"))

-- `add_header` of any other header
unfoldable pub add_named_header : Bytes → Bytes → Bytes → Option Bytes
unfolding add_header_cookie is_upgrade write_literal
add_named_header frame name val =
    if length name == 6 && same_case name (codes "cookie")
    then add_header_cookie frame val
    else if is_upgrade name val
    then some frame
    else write_literal frame (map to_lower name) val

-- The first three characters of sprintf("%03u"), for a uint16_t.
unfoldable pub three_digits : ℕ → Bytes
three_digits n =
    let m = if ltb n 1000 then n else if ltb n 10000 then n / 10 else n / 100 in
    (48 + m / 100) ∷ (48 + m / 10 % 10) ∷ (48 + m % 10) ∷ []

-- The index in the static table of a status that stands there, else 0.
unfoldable pub status_index : ℕ → ℕ
status_index n =
    if n == 200
    then 8
    else if n == 204
    then 9
    else if n == 206
    then 10
    else if n == 304
    then 11
    else if n == 400
    then 12
    else if n == 404
    then 13
    else if n == 500
    then 14
    else 0

-- `add_status`, which inserts in front.
unfoldable pub add_status : Bytes → ℕ → Bytes
unfolding status_index three_digits
add_status frame n =
    if status_index n == 0
    then 72 ∷ 3 ∷ (three_digits n ++ frame)
    else (128 + status_index n) ∷ frame

-- The methods that `add_method` tells apart.
pub data Method : Type 0 where
  get : Method
  post : Method
  other : Bytes → Method

-- `add_method`, on a new frame.
unfoldable pub add_method : Method → Option Bytes
unfolding write_incremental
add_method get = some ((128 + 2) ∷ [])
add_method post = some ((128 + 3) ∷ [])
add_method (other text) = write_incremental [] 2 text
