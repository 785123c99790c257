-- ===== src/HttpLib.antt =====
-- src/KHttpLib.cpp: the pure helpers on texts. A text with a length is a list of bytes; where the
-- source takes the length 0 for "up to the NUL", `text_of` does so.
pub mod Base64
pub mod Range
pub mod Texts
mod Tests
pub mod Url
use khttpd.Base.{◌+◌, ℕ, [], ◌∷◌, ◌==◌, if◌then◌else◌, Bytes, length, take}

-- strlen, for a buffer whose end is its NUL if it holds none
unfoldable pub strlen : Bytes → ℕ
strlen [] = 0
strlen (c ∷ cs) = let rest = strlen cs in if c == 0 then 0 else rest + 1

-- The bytes that `str` and `len` stand for: all before the NUL if `len` is 0.
unfoldable pub text_of : Bytes → ℕ → Bytes
unfolding strlen
text_of str len = if len == 0 then take (strlen str) str else take len str
