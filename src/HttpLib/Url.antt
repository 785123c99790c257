-- ===== src/HttpLib/Url.antt =====
-- src/KHttpLib.cpp: `url_encode`, `url_value_encode`, `my_htoi` and `url_decode`. The decoder works
-- in place, but never writes ahead of what it reads, so its result is a list of its own.
pub mod Bounds
pub mod RoundTrip
use khttpd.Base.{
  ℕ, zero, suc, ◌+◌, ◌-◌, ◌*◌, ◌/◌, ◌%◌, Bool, true, false, ◌&&◌, ◌||◌, not, [], ◌∷◌, ◌++◌, ltb,
  leb, ◌==◌, if◌then◌else◌, Bytes, get_or, codes,
}
use khttpd.HttpLib.{text_of}

abbrev pub hexchars : Bytes
hexchars = codes "0123456789ABCDEF"

-- The condition of `url_encode` for a byte to be escaped.
unfoldable pub is_escaped : ℕ → Bool
is_escaped c =
    ltb c b'0' && not (c == b'-') && not (c == b'.')
    || ltb c b'A' && ltb b'9' c
    || ltb b'Z' c && ltb c b'a' && not (c == b'_')
    || ltb b'z' c
    || c == 92

unfoldable pub escape : ℕ → Bytes
escape c = b'%' ∷ get_or hexchars (c / 16) 0 ∷ get_or hexchars (c % 16) 0 ∷ []

-- What `url_encode` writes for a byte.
unfoldable pub encode_byte : ℕ → Bytes
unfolding is_escaped escape
encode_byte c = if c == b'/' then c ∷ [] else if is_escaped c then escape c else c ∷ []

unfoldable pub url_encode : Bytes → Bytes
unfolding encode_byte
url_encode [] = []
url_encode (c ∷ cs) = encode_byte c ++ url_encode cs

-- What `url_value_encode` writes for a byte: an escape if isascii refuses it.
unfoldable pub value_byte : ℕ → Bytes
unfolding escape
value_byte c = if c == b'/' then c ∷ [] else if ltb 127 c then escape c else c ∷ []

unfoldable pub url_value_encode : Bytes → Bytes
unfolding value_byte
url_value_encode [] = []
url_value_encode (c ∷ cs) = value_byte c ++ url_value_encode cs

-- isxdigit in the C locale
unfoldable pub is_xdigit : ℕ → Bool
is_xdigit c = leb b'0' c && leb c b'9' || leb b'a' c && leb c b'f' || leb b'A' c && leb c b'F'

-- The value of one digit in `my_htoi`, called for hexadecimal digits only.
unfoldable pub digit_value : ℕ → ℕ
digit_value c =
    let lower = if leb b'A' c && leb c b'Z' then c + 32 else c in
    if leb b'0' lower && leb lower b'9' then lower - b'0' else lower - b'a' + 10

unfoldable pub my_htoi : ℕ → ℕ → ℕ
unfolding digit_value
my_htoi h l = digit_value h * 16 + digit_value l

-- What one round of `url_decode` writes, how many more bytes it consumes, and whether it sets
-- KGL_URL_ENCODE.
pub record Decoded : Type 0 where
  pub byte : ℕ
  pub skip : ℕ
  pub marked : Bool

-- Behind a percent sign: an escape if two hexadecimal digits follow.
unfoldable pub decode_escape : ℕ → Bytes → Decoded
unfolding is_xdigit my_htoi
decode_escape c (h ∷ l ∷ rest) =
    if is_xdigit h && is_xdigit l
    then record { byte = my_htoi h l % 256; skip = 2; marked = true }
    else record { byte = c; skip = 0; marked = false }
decode_escape c _ = record { byte = c; skip = 0; marked = false }

unfoldable pub decode_byte : Bool → ℕ → Bytes → Decoded
unfolding decode_escape
decode_byte space2plus c rest =
    if space2plus && c == b'+'
    then record { byte = b' '; skip = 0; marked = true }
    else if c == b'%'
    then decode_escape c rest
    else record { byte = c; skip = 0; marked = false }

unfoldable pub put_byte : ℕ → Bytes × Bool → Bytes × Bool
put_byte b (bs, marked) = (b ∷ bs, marked)

-- The loop of `url_decode`, which has still to step over `skip` bytes: the bytes written, and
-- whether KGL_URL_ENCODE is set, before the loop or in it.
unfoldable pub decode_loop : Bool → ℕ → Bool → Bytes → Bytes × Bool
unfolding decode_byte put_byte
decode_loop space2plus skip marked [] = ([], marked)
decode_loop space2plus (suc skip) marked (c ∷ rest) = decode_loop space2plus skip marked rest
decode_loop space2plus zero marked (c ∷ rest) =
    let d = decode_byte space2plus c rest in
    put_byte d.byte (decode_loop space2plus d.skip (marked || d.marked) rest)

unfoldable pub url_decode : Bytes → ℕ → Bool → Bytes × Bool
unfolding decode_loop text_of
url_decode str len space2plus = decode_loop space2plus 0 false (text_of str len)
