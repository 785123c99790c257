-- ===== src/Http2/Integers.antt =====
-- HPACK integers: `KHttp2::parse_int` of src/KHttp2.cpp and `KHttp2HeaderFrame::write_int` of
-- include/KHttp2WriteBuffer.h. A prefix is given by its number of bits, `kgl_http_v2_prefix(bits)`
-- being 2 ^ bits - 1. The buffer from `*pos` to `end` is a list of bytes.
pub mod RoundTrip
pub mod Bounds
pub mod Lengths
mod Tests
use khttpd.Base.{
  ℕ, zero, suc, ◌+◌, ◌-◌, ◌*◌, ◌/◌, ◌%◌, ◌^◌, [], ◌∷◌, Option, none, some, ltb, leb, ◌==◌,
  if◌then◌else◌, Bytes, length, take, drop, min, ◌>>=◌, not, ◌&&◌,
}

abbrev pub int_octets : ℕ
int_octets = 4

-- A value with the new `state.length` and the bytes behind it, or one of the codes.
pub data IntResult : Type 0 where
  value : ℕ → ℕ → Bytes → IntResult
  error : IntResult
  declined : IntResult
  again : IntResult

-- The prefix octet alone.
pub short_value : ℕ → ℕ → Bytes → IntResult
short_value v len rest = if len == 0 then error else value v (len - 1) rest

-- An octet below 128 ends the integer; `consumed` is p - start.
pub last_octet : ℕ → ℕ → ℕ → Bytes → IntResult
last_octet v consumed len rest = if ltb len consumed then error else value v (len - consumed) rest

-- Behind the loop; `available` is end - start, cut to four octets.
pub unfinished : ℕ → ℕ → IntResult
unfinished available len =
    if leb len available then error else if available == int_octets then declined else again

-- The loop over the octets behind the prefix: `room` of them at most, `scale` is 1 << shift.
unfoldable pub octets_loop : ℕ → ℕ → ℕ → ℕ → ℕ → Bytes → IntResult
unfolding last_octet unfinished
octets_loop zero v scale consumed len os = unfinished consumed len
octets_loop (suc room) v scale consumed len [] = unfinished consumed len
octets_loop (suc room) v scale consumed len (octet ∷ os) =
    let v' = v + octet % 128 * scale in
    let rest = octets_loop room v' (scale * 128) (consumed + 1) len os in
    if ltb octet 128 then last_octet v' (consumed + 1) len os else rest

-- `parse_int`; it is called with at least one byte in the buffer.
unfoldable pub parse_int : ℕ → ℕ → Bytes → IntResult
unfolding short_value
parse_int bits len [] = again
parse_int bits len (b ∷ rest) =
    let v = b % 2 ^ bits in
    let loop = octets_loop (int_octets - 1) v 1 1 len rest in
    if not (v == 2 ^ bits - 1) then short_value v len rest else loop

-- The loop of `write_int`, on fuel: the octets behind the prefix.
unfoldable pub write_octets : ℕ → ℕ → Option Bytes
write_octets zero v = none
write_octets (suc fuel) v =
    let rest = write_octets fuel (v / 128) >>= λ os. some ((v % 128 + 128) ∷ os) in
    if leb 128 v then rest else some (v ∷ [])

-- `write_int`, for a prefix of at most 8 bits, as that of every caller. They pass a `type` whose low
-- bits are clear, so the bitwise or is a sum and fits the octet. A
-- 64-bit value has at most ten octets of seven bits.
unfoldable pub write_int : ℕ → ℕ → ℕ → Option Bytes
write_int type bits v =
    if ltb v (2 ^ bits - 1)
    then some ((type + v) ∷ [])
    else (write_octets 10 (v - (2 ^ bits - 1)) >>= λ os. some ((type + (2 ^ bits - 1)) ∷ os))
