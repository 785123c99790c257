-- ===== src/HttpLib/Base64/RoundTrip.antt =====
-- src/KHttpLib.cpp: `b64decode` after `b64encode`. The tests for the padding look one place too
-- early, so the rounds put out a zero byte more for a padded group; the last loop drops it, with
-- every zero byte that the text ends in.
use khttpd.Base.{
  zero, ◌∙◌, suc, ◌≢◌, ℕ, ◌+◌, ◌*◌, ◌/◌, ◌%◌, ◌<◌, arith, ◌≡◌, refl, ap, Bool, true, false, ◌&&◌,
  not, Option, none, some, [], ◌∷◌, ◌++◌, ◌==◌, if◌then◌else◌, Bytes, All, length, all_below,
  all_below_sound, and_parts, ==_iff,
}
use khttpd.HttpLib.Texts.{text_of-length}
use khttpd.HttpLib.Base64.{
  b64pad, digit, encode_group, encode_groups, b64encode, sextet, three_bytes, put_bytes,
  decode_group, go_on, decode_groups, trim_zeros, trimmed, b64decode,
}

unfoldable pub is_some_of : ℕ → Option ℕ → Bool
is_some_of k none = false
is_some_of k (some n) = n == k

is_some_of→eq : (k : ℕ) (o : Option ℕ) → is_some_of k o ≡ true → o ≡ some k
unfolding is_some_of
is_some_of→eq k none h = absurd (ground arith)
is_some_of→eq k (some n) h = ap some ((==_iff n k).0 h)

digit_table : all_below (λ k. is_some_of k (sextet (digit k)) && not (digit k == b64pad)) 64 ≡ true
unfolding is_some_of sextet digit
digit_table = refl

digit-Facts : (k : ℕ) → k < 64 → (sextet (digit k) ≡ some k) × ((digit k == b64pad) ≡ false)
digit-Facts k h =
    let t =
      all_below_sound (λ j. is_some_of j (sextet (digit j)) && not (digit j == b64pad)) 64 k
        digit_table h in
    let p = and_parts (is_some_of k (sextet (digit k))) (not (digit k == b64pad)) t in
    (is_some_of→eq k _ p.0, ground arith)

sextet_pad : sextet b64pad ≡ some 0
unfolding sextet
sextet_pad = refl

-- The four sextets of three bytes give these bytes again.
three_bytes_back :
    (a b c : ℕ)
    → a < 256
    → b < 256
    → c < 256
    → three_bytes (a / 4) (a % 4 * 16 + b / 16) (b % 16 * 4 + c / 64) (c % 64) ≡ (a, b, c)
unfolding three_bytes
three_bytes_back a b c ha hb hc =
    let x : a / 4 * 4 % 256 + (a % 4 * 16 + b / 16) / 16 ≡ a = omega arith in
    let y : (a % 4 * 16 + b / 16) * 16 % 256 + (b % 16 * 4 + c / 64) / 4 ≡ b = omega arith in
    let z : (b % 16 * 4 + c / 64) * 64 % 256 + c % 64 ≡ c = omega arith in rw (x, y, z) refl

put_bytes_of :
    (t : ℕ × ℕ × ℕ) (a b c in1 in2 : ℕ)
    → t ≡ (a, b, c)
    → (in1 == b64pad) ≡ false
    → put_bytes t in1 in2 ≡ (if in2 == b64pad then (a ∷ b ∷ [], true) else (a ∷ b ∷ c ∷ [], false))
unfolding put_bytes
put_bytes_of t a b c in1 in2 e h = rw (e, h) refl

-- A round in which no byte is refused, over bytes that it is known to put out.
decode_group-some :
    (p q r s a b c : ℕ) (in1 in2 : ℕ)
    → three_bytes p q r s ≡ (a, b, c)
    → (in1 == b64pad) ≡ false
    → decode_group (some p) (some q) (some r) (some s) in1 in2
      ≡ some (if in2 == b64pad then (a ∷ b ∷ [], true) else (a ∷ b ∷ c ∷ [], false))
unfolding decode_group
decode_group-some p q r s a b c in1 in2 e h = ap some (put_bytes_of _ a b c in1 in2 e h)

-- A round over the four digits of three bytes.
full_group :
    (a b c : ℕ)
    → a < 256
    → b < 256
    → c < 256
    → let w = digit (a / 4) in
      let x = digit (a % 4 * 16 + b / 16) in
      let y = digit (b % 16 * 4 + c / 64) in
      let z = digit (c % 64) in
      decode_group (sextet w) (sextet x) (sextet y) (sextet z) x y ≡ some (a ∷ b ∷ c ∷ [], false)
full_group a b c ha hb hc =
    let w = digit-Facts (a / 4) (omega arith) in
    let x = digit-Facts (a % 4 * 16 + b / 16) (omega arith) in
    let y = digit-Facts (b % 16 * 4 + c / 64) (omega arith) in
    let z = digit-Facts (c % 64) (omega arith) in
    rw
      (
        w.0,
        x.0,
        y.0,
        z.0,
        decode_group-some (a / 4) (a % 4 * 16 + b / 16) (b % 16 * 4 + c / 64) (c % 64) a b c _ _
            (three_bytes_back a b c ha hb hc) x.1,
        y.1,
      )
      refl

-- The zero byte that the rounds put out for a padded group.
unfoldable pub pad_zero : Bytes → Bytes
pad_zero [] = []
pad_zero (a ∷ []) = 0 ∷ []
pad_zero (a ∷ b ∷ []) = 0 ∷ []
pad_zero (a ∷ b ∷ c ∷ rest) = pad_zero rest

decode_groups-encode_groups :
    (beyond s : Bytes)
    → All (λ c. c < 256) s
    → decode_groups beyond (encode_groups s) ≡ some (s ++ pad_zero s)
unfolding decode_groups encode_groups encode_group pad_zero go_on
decode_groups-encode_groups beyond [] h = refl
decode_groups-encode_groups beyond (a ∷ []) h =
    let w = digit-Facts (a / 4) (omega (arith, h.0)) in
    let x = digit-Facts (a % 4 * 16 + 0) (omega arith) in
    rw
      (
        w.0,
        x.0,
        put_bytes_of _ a 0 0 _ b64pad (three_bytes_back a 0 0 h.0 (omega arith) (omega arith)) x.1,
      )
      refl
decode_groups-encode_groups beyond (a ∷ b ∷ []) h =
    let w = digit-Facts (a / 4) (omega (arith, h.0)) in
    let x = digit-Facts (a % 4 * 16 + b / 16) (omega (arith, h.0, h.1.0)) in
    let y = digit-Facts (b % 16 * 4 + 0) (omega arith) in
    rw
      (
        w.0,
        x.0,
        y.0,
        put_bytes_of _ a b 0 _ _ (three_bytes_back a b 0 h.0 h.1.0 (omega arith)) x.1,
        y.1,
      )
      refl
decode_groups-encode_groups beyond (a ∷ b ∷ c ∷ rest) h =
    rw (full_group a b c h.0 h.1.0 h.1.1.0, decode_groups-encode_groups beyond rest h.1.1.1) refl

trim_zeros-pad_zero : (s : Bytes) → trim_zeros (s ++ pad_zero s) ≡ trim_zeros s
unfolding trim_zeros pad_zero
trim_zeros-pad_zero [] = refl
trim_zeros-pad_zero (a ∷ []) = refl
trim_zeros-pad_zero (a ∷ b ∷ []) = refl
trim_zeros-pad_zero (a ∷ b ∷ c ∷ rest) = rw (trim_zeros-pad_zero rest) refl

-- A text that is empty or whose last byte is not zero.
abbrev pub EndsNonzero : Bytes → Type 0
EndsNonzero [] = Unit
EndsNonzero (c ∷ []) = c ≢ 0
EndsNonzero (c ∷ d ∷ ds) = EndsNonzero (d ∷ ds)

abbrev pub zeros : ℕ → Bytes
zeros zero = []
zeros (suc k) = 0 ∷ zeros k

trim_zeros-zeros : (k : ℕ) → trim_zeros (zeros k) ≡ []
unfolding trim_zeros
trim_zeros-zeros zero = refl
trim_zeros-zeros (suc k) = rw (trim_zeros-zeros k) refl

not_zero : (c : ℕ) → c ≢ 0 → (c == 0) ≡ false
not_zero c h = ground arith

trim_zeros-last : (c : ℕ) (t : Bytes) → c ≢ 0 → trim_zeros t ≡ [] → trim_zeros (c ∷ t) ≡ c ∷ []
unfolding trim_zeros
trim_zeros-last c t h e = rw (e, not_zero c h) refl

trim_zeros-append : (s : Bytes) (k : ℕ) → EndsNonzero s → trim_zeros (s ++ zeros k) ≡ s
unfolding trim_zeros
trim_zeros-append [] k h = trim_zeros-zeros k
trim_zeros-append (c ∷ []) k h = trim_zeros-last c (zeros k) h (trim_zeros-zeros k)
trim_zeros-append (c ∷ d ∷ ds) k h = rw (trim_zeros-append (d ∷ ds) k h) refl

decoded_again :
    (s beyond : Bytes)
    → All (λ c. c < 256) s
    → let text = b64encode s (length s) in b64decode text (length text) beyond ≡ some (trim_zeros s)
unfolding b64decode b64encode trimmed
decoded_again s beyond h =
    rw
      (
        text_of-length s,
        text_of-length (encode_groups s),
        decode_groups-encode_groups beyond s h,
        trim_zeros-pad_zero s,
      )
      refl

-- Decoding what `b64encode` makes of bytes that do not end in a zero and of any number of zero bytes
-- behind them, with its length, gives the bytes in front of the zeros, whatever stands in memory
-- behind the text.
pub b64decode-b64encode :
    (s : Bytes) (k : ℕ) (beyond : Bytes)
    → All (λ c. c < 256) (s ++ zeros k)
    → EndsNonzero s
    → let text = b64encode (s ++ zeros k) (length (s ++ zeros k)) in
      b64decode text (length text) beyond ≡ some s
b64decode-b64encode s k beyond h e =
    decoded_again (s ++ zeros k) beyond h ∙ ap some (trim_zeros-append s k e)
