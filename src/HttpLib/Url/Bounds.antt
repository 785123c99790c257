-- ===== src/HttpLib/Url/Bounds.antt =====
-- src/KHttpLib.cpp: what `url_encode` writes fits the buffer that it allocates and needs no escape
-- in an URL.
use khttpd.Base.{
  leb→le, and_parts, ℕ, ◌+◌, ◌*◌, ◌≤◌, ◌<◌, arith, ◌≡◌, refl, Bool, true, ◌&&◌, ◌||◌, [], ◌∷◌, ◌++◌,
  leb, ◌==◌, Bytes, All, length, length-append, all_below, all_below_sound,
}
use khttpd.HttpLib.Url.{encode_byte, url_encode}

-- The unreserved bytes of RFC 3986 but the tilde, with the slash and the percent sign.
unfoldable pub is_url_byte : ℕ → Bool
is_url_byte c =
    leb b'0' c && leb c b'9'
    || leb b'A' c && leb c b'Z'
    || leb b'a' c && leb c b'z'
    || c == b'-'
    || c == b'.'
    || c == b'_'
    || c == b'/'
    || c == b'%'

unfoldable pub all_url_bytes : Bytes → Bool
all_url_bytes [] = true
all_url_bytes (c ∷ cs) = is_url_byte c && all_url_bytes cs

all_url_bytes-append :
    (xs ys : Bytes)
    → all_url_bytes xs ≡ true
    → all_url_bytes ys ≡ true
    → all_url_bytes (xs ++ ys) ≡ true
unfolding all_url_bytes
all_url_bytes-append [] ys h k = k
all_url_bytes-append (x ∷ xs) ys h k =
    let t : is_url_byte x ≡ true = ground arith in
    let r = all_url_bytes-append xs ys (ground arith) k in rw (t, r) refl

encode_byte_table :
    all_below (λ c. all_url_bytes (encode_byte c) && leb (length (encode_byte c)) 3) 256 ≡ true
unfolding all_url_bytes is_url_byte encode_byte
encode_byte_table = refl

-- What `url_encode` makes of bytes consists of letters, digits and the marks - . _ / % alone, and
-- fits, with its NUL, the 3 * len + 1 bytes that are allocated.
pub url_encode_bounds :
    (s : Bytes)
    → All (λ c. c < 256) s
    → (all_url_bytes (url_encode s) ≡ true) × (length (url_encode s) + 1 ≤ 3 * length s + 1)
unfolding url_encode all_url_bytes
url_encode_bounds [] h = (refl, omega arith)
url_encode_bounds (c ∷ cs) h =
    let t =
      all_below_sound (λ b. all_url_bytes (encode_byte b) && leb (length (encode_byte b)) 3) 256 c
        encode_byte_table h.0 in
    let k = and_parts (all_url_bytes (encode_byte c)) (leb (length (encode_byte c)) 3) t in
    let r = url_encode_bounds cs h.1 in
    (
      all_url_bytes-append (encode_byte c) (url_encode cs) k.0 r.0,
      omega (arith, length-append (encode_byte c) (url_encode cs), leb→le _ _ k.1, r.1),
    )
