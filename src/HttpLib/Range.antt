-- ===== src/HttpLib/Range.antt =====
-- src/KHttpLib.cpp: `kgl_adjust_range`. The two ends of a range are of type int64_t; a negative
-- `from` asks for the last bytes, a negative `to` is none. The length is that of a known entity. An
-- int64_t is an integer `ℤ`; the one sum that can leave the type is taken modulo 2 ^ 64, as the
-- two's complement does, though C++ leaves it open.
pub mod Selects
use khttpd.Base.{
  ℤ, pos, negsuc, ℕ, suc, ◌+◌, ◌-◌, ◌^◌, ◌==◌, Option, none, some, min, leb, ltb, if◌then◌else◌,
}

-- What the function leaves in `range` and `*len` where it returns true.
pub record Adjusted : Type 0 where
  pub from : ℕ
  pub to : ℕ
  pub len : ℕ

-- The int64_t of a sum below 2 ^ 64
unfoldable pub as_int64 : ℕ → ℤ
as_int64 n = if ltb n (2 ^ 63) then pos n else negsuc (2 ^ 64 - 1 - n)

-- `KGL_MIN` of the bytes asked for and those there are, where it is above 0
unfoldable pub at_most : ℕ → ℕ → ℤ → ℕ → Option Adjusted
at_most from to (pos n) len =
    if min n len == 0 then none else some (record { from = from; to = to; len = min n len })
at_most from to (negsuc k) len = none

-- The part behind `*len -= range->from`, for a start in the entity. Where `to - from + 1` is
-- negative it is 0 here, and refused as well.
unfoldable pub adjust_to : ℕ → ℤ → ℕ → Option Adjusted
unfolding as_int64 at_most
adjust_to from (pos to) len = at_most from to (as_int64 (to + 1 - from)) len
adjust_to from (negsuc k) len = some (record { from = from; to = from + len - 1; len = len })

-- `kgl_adjust_range`; none where it returns false.
unfoldable pub adjust_range : ℤ → ℤ → ℕ → Option Adjusted
unfolding adjust_to
adjust_range (pos from) to len = if leb len from then none else adjust_to from to (len - from)
adjust_range (negsuc k) to len =
    let from = len - suc k in
    if leb len (suc k)
    then none
    else some (record { from = from; to = from + (len - from) - 1; len = len - from })
