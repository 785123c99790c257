-- ===== src/HttpLib/Url/RoundTrip.antt =====
-- src/KHttpLib.cpp: `url_decode` reads back what `url_encode` and `url_value_encode` write.
use khttpd.Base.{
  ◌≢◌, ℕ, ◌%◌, ◌≡◌, refl, Bool, true, false, ◌&&◌, ◌||◌, not, [], ◌∷◌, ◌++◌, arith, ◌<◌, ltb, ◌==◌,
  Bytes, All, length, all_below, all_below_sound,
}
use khttpd.HttpLib.Texts.{text_of-length}
use khttpd.HttpLib.Url.{
  put_byte, value_byte, is_escaped, encode_byte, url_encode, url_value_encode, is_xdigit, my_htoi,
  decode_byte, decode_escape, decode_loop, url_decode,
}

-- `bs` is `c` itself, which no byte behind it can change, or an escape of `c`, as `escaped` says.
unfoldable pub codes_for : Bool → ℕ → Bool → Bytes → Bool
codes_for plus c escaped (x ∷ []) =
    not escaped && not (x == b'%') && not (plus && x == b'+') && x == c
codes_for plus c escaped (x ∷ h ∷ l ∷ []) =
    escaped && x == b'%' && (is_xdigit h && is_xdigit l) && my_htoi h l % 256 == c
codes_for plus c escaped _ = false

-- A byte that is neither a percent sign nor a plus sign stands for itself.
decode_byte_plain :
    (plus : Bool) (c : ℕ) (rest : Bytes)
    → not (c == b'%') ≡ true
    → not (plus && c == b'+') ≡ true
    → decode_byte plus c rest ≡ record { byte = c; skip = 0; marked = false }
unfolding decode_byte
decode_byte_plain plus c rest np nq = ground arith

decode_byte_escape :
    (plus : Bool) (h l : ℕ) (rest : Bytes)
    → is_xdigit h && is_xdigit l ≡ true
    → decode_byte plus b'%' (h ∷ l ∷ rest)
      ≡ record { byte = my_htoi h l % 256; skip = 2; marked = true }
unfolding decode_byte decode_escape
decode_byte_escape plus h l rest e = rw e (ground arith)

single_parts :
    (plus e : Bool) (x c : ℕ)
    → codes_for plus c e (x ∷ []) ≡ true
    → (e ≡ false) × (not (x == b'%') ≡ true) × (not (plus && x == b'+') ≡ true) × (x ≡ c)
unfolding codes_for
single_parts plus e x c h = ground arith

triple_parts :
    (plus e : Bool) (x a b c : ℕ)
    → codes_for plus c e (x ∷ a ∷ b ∷ []) ≡ true
    → (e ≡ true) × (x ≡ b'%') × (is_xdigit a && is_xdigit b ≡ true) × (my_htoi a b % 256 ≡ c)
unfolding codes_for
triple_parts plus e x a b c h = ground arith

decode_codes_for :
    (plus : Bool) (c : ℕ) (escaped : Bool) (bs : Bytes) (m : Bool) (rest : Bytes)
    → codes_for plus c escaped bs ≡ true
    → decode_loop plus 0 m (bs ++ rest) ≡ put_byte c (decode_loop plus 0 (m || escaped) rest)
unfolding codes_for decode_loop
decode_codes_for plus c escaped [] m rest h = absurd (ground arith)
decode_codes_for plus c escaped (x ∷ []) m rest h =
    let k = single_parts plus escaped x c h in
    rw (decode_byte_plain plus x rest k.1 k.2, k.0, k.3) refl
decode_codes_for plus c escaped (x ∷ a ∷ []) m rest h = absurd (ground arith)
decode_codes_for plus c escaped (x ∷ a ∷ b ∷ []) m rest h =
    let k = triple_parts plus escaped x a b c h in
    rw (k.1, decode_byte_escape plus a b rest k.2, k.0, k.3) refl
decode_codes_for plus c escaped (x ∷ a ∷ b ∷ d ∷ bs) m rest h = absurd (ground arith)

-- Whether `url_encode` escapes some byte.
unfoldable pub any_escaped : Bytes → Bool
any_escaped [] = false
any_escaped (c ∷ cs) = (not (c == b'/') && is_escaped c) || any_escaped cs

encode_byte_table :
    (plus : Bool)
    → all_below (λ c. codes_for plus c (not (c == b'/') && is_escaped c) (encode_byte c)) 256 ≡ true
unfolding codes_for encode_byte is_xdigit my_htoi
encode_byte_table true = refl
encode_byte_table false = refl

or_assoc : (a b c : Bool) → ((a || b) || c) ≡ (a || (b || c))
or_assoc a b c = ground arith

or_false : (a : Bool) → (a || false) ≡ a
or_false a = ground arith

decode_loop-url_encode :
    (plus m : Bool) (s : Bytes)
    → All (λ c. c < 256) s
    → decode_loop plus 0 m (url_encode s) ≡ (s, m || any_escaped s)
unfolding url_encode any_escaped decode_loop put_byte
decode_loop-url_encode plus m [] h = rw (or_false m) refl
decode_loop-url_encode plus m (c ∷ cs) h =
    let e = not (c == b'/') && is_escaped c in
    let t : codes_for plus c e (encode_byte c) ≡ true =
      all_below_sound (λ b. codes_for plus b (not (b == b'/') && is_escaped b) (encode_byte b)) 256
        c (encode_byte_table plus) h.0 in
    rw
      (
        decode_codes_for plus c e (encode_byte c) m (url_encode cs) t,
        decode_loop-url_encode plus (m || e) cs h.1,
        or_assoc m e (any_escaped cs),
      )
      refl

-- Decoding what `url_encode` made of any bytes, with its length, gives these bytes back, whether a
-- plus sign stands for a space or not, and KGL_URL_ENCODE is set exactly if some byte was escaped.
pub url_decode-url_encode :
    (space2plus : Bool) (s : Bytes)
    → All (λ c. c < 256) s
    → url_decode (url_encode s) (length (url_encode s)) space2plus ≡ (s, any_escaped s)
unfolding url_decode
url_decode-url_encode space2plus s h =
    rw (text_of-length (url_encode s)) (decode_loop-url_encode space2plus false s h)

-- Whether `url_value_encode` escapes some byte.
unfoldable pub any_above : Bytes → Bool
any_above [] = false
any_above (c ∷ cs) = ltb 127 c || any_above cs

value_table : all_below (λ c. c == b'%' || codes_for false c (ltb 127 c) (value_byte c)) 256 ≡ true
unfolding codes_for value_byte is_xdigit my_htoi
value_table = refl

value_byte-codes_for :
    (c : ℕ) → c < 256 → c ≢ b'%' → codes_for false c (ltb 127 c) (value_byte c) ≡ true
value_byte-codes_for c lt ne =
    let t : (c == b'%' || codes_for false c (ltb 127 c) (value_byte c)) ≡ true =
      all_below_sound (λ b. b == b'%' || codes_for false b (ltb 127 b) (value_byte b)) 256 c
        value_table lt in
    ground arith

decode_loop-url_value_encode :
    (m : Bool) (s : Bytes)
    → All (λ c. (c < 256) × (c ≢ b'%')) s
    → decode_loop false 0 m (url_value_encode s) ≡ (s, m || any_above s)
unfolding url_value_encode any_above decode_loop put_byte
decode_loop-url_value_encode m [] h = rw (or_false m) refl
decode_loop-url_value_encode m (c ∷ cs) h =
    rw
      (
        decode_codes_for false c (ltb 127 c) (value_byte c) m (url_value_encode cs)
            (value_byte-codes_for c h.0.0 h.0.1),
        decode_loop-url_value_encode (m || ltb 127 c) cs h.1,
        or_assoc m (ltb 127 c) (any_above cs),
      )
      refl

-- Decoding what `url_value_encode` made of bytes without a percent sign, with its length and plus
-- signs left alone, gives these bytes back, and KGL_URL_ENCODE is set exactly if one is above 127.
pub url_decode-url_value_encode :
    (s : Bytes)
    → All (λ c. (c < 256) × (c ≢ b'%')) s
    → url_decode (url_value_encode s) (length (url_value_encode s)) false ≡ (s, any_above s)
unfolding url_decode
url_decode-url_value_encode s h =
    rw (text_of-length (url_value_encode s)) (decode_loop-url_value_encode false s h)
