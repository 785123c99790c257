-- ===== src/HttpLib/Base64.antt =====
-- src/KHttpLib.cpp: `str_chr`, `b64decode` and `b64encode`. The decoder looks at `in[i + 1]` and
-- `in[i + 2]` whatever the length is: `beyond` is what stands in memory behind the text, of which
-- it reads two bytes at most.
pub mod RoundTrip
use khttpd.Base.{
  ℕ, zero, suc, ◌+◌, ◌-◌, ◌*◌, ◌/◌, ◌%◌, Bool, true, false, ◌&&◌, ◌||◌, not, Option, none, some, [],
  ◌∷◌, ◌++◌, ltb, leb, ◌==◌, if◌then◌else◌, ◌>>=◌, Bytes, length, take, get_or, codes,
}
use khttpd.HttpLib.{strlen, text_of}

abbrev pub b64alpha : Bytes
b64alpha = codes "ABCDEFGHIJKLMNOPQRSTUVWXYZabcdefghijklmnopqrstuvwxyz0123456789+/"

abbrev pub b64pad : ℕ
b64pad = 61

-- `str_chr`: the index of the first `c`, or the length. The source unrolls the loop four times.
unfoldable pub str_chr : Bytes → ℕ → ℕ
str_chr [] c = 0
str_chr (t ∷ ts) c = let rest = str_chr ts c in if t == c then 0 else suc rest

-- b64alpha[k]
unfoldable pub digit : ℕ → ℕ
digit k = get_or b64alpha k 0

-- One round of `b64encode`, for the bytes of `in` that are left, at least one.
unfoldable pub encode_group : ℕ → ℕ → ℕ → Bool → Bool → Bytes
unfolding digit
encode_group a b c no_b no_c =
    digit (a / 4)
    ∷ digit (a % 4 * 16 + b / 16)
    ∷ (if no_b then b64pad else digit (b % 16 * 4 + c / 64))
    ∷ (if no_c then b64pad else digit (c % 64))
    ∷ []

unfoldable pub encode_groups : Bytes → Bytes
unfolding encode_group
encode_groups [] = []
encode_groups (a ∷ []) = encode_group a 0 0 true true
encode_groups (a ∷ b ∷ []) = encode_group a b 0 false true
encode_groups (a ∷ b ∷ c ∷ rest) = encode_group a b c false false ++ encode_groups rest

unfoldable pub b64encode : Bytes → ℕ → Bytes
unfolding encode_groups text_of
b64encode src len = encode_groups (text_of src len)

-- a[j] for a byte of the text; none where the decoder gives up.
unfoldable pub sextet : ℕ → Option ℕ
unfolding str_chr
sextet c =
    if c == b64pad
    then some 0
    else if ltb 63 (str_chr b64alpha c)
    then none
    else some (str_chr b64alpha c)

-- b[0], b[1] and b[2]
unfoldable pub three_bytes : ℕ → ℕ → ℕ → ℕ → ℕ × ℕ × ℕ
three_bytes p q r s = (p * 4 % 256 + q / 16, q * 16 % 256 + r / 4, r * 64 % 256 + s)

-- What a round appends, for `in[i + 1]` and `in[i + 2]`, and whether it breaks off the loop.
unfoldable pub put_bytes : ℕ × ℕ × ℕ → ℕ → ℕ → Bytes × Bool
put_bytes (x, y, z) in1 in2 =
    if in1 == b64pad
    then (x ∷ [], true)
    else if in2 == b64pad
    then (x ∷ y ∷ [], true)
    else (x ∷ y ∷ z ∷ [], false)

-- A whole round: the bytes appended and whether the loop breaks off.
unfoldable pub decode_group :
    Option ℕ → Option ℕ → Option ℕ → Option ℕ → ℕ → ℕ → Option (Bytes × Bool)
unfolding three_bytes put_bytes
decode_group p q r s in1 in2 = do
  p' ← p
  q' ← q
  r' ← r
  s' ← s
  some (put_bytes (three_bytes p' q' r' s') in1 in2)

-- The rounds behind one that has appended `out`.
unfoldable pub go_on : Option Bytes → Bytes × Bool → Option Bytes
go_on rest (out, true) = some out
go_on none (out, false) = none
go_on (some more) (out, false) = some (out ++ more)

-- The loop over the text; places behind its end count as 0 but for the two looked at.
unfoldable pub decode_groups : Bytes → Bytes → Option Bytes
unfolding sextet decode_group
decode_groups beyond [] = some []
decode_groups beyond (w ∷ []) =
    decode_group (sextet w) (some 0) (some 0) (some 0) (get_or beyond 0 0) (get_or beyond 1 0)
    >>= go_on (some [])
decode_groups beyond (w ∷ x ∷ []) =
    decode_group (sextet w) (sextet x) (some 0) (some 0) x (get_or beyond 0 0) >>= go_on (some [])
decode_groups beyond (w ∷ x ∷ y ∷ []) =
    decode_group (sextet w) (sextet x) (sextet y) (some 0) x y >>= go_on (some [])
decode_groups beyond (w ∷ x ∷ y ∷ z ∷ rest) =
    decode_group (sextet w) (sextet x) (sextet y) (sextet z) x y
    >>= go_on (decode_groups beyond rest)

-- The loop at the end, which drops zero bytes.
unfoldable pub trim_zeros : Bytes → Bytes
trim_zeros [] = []
trim_zeros (c ∷ cs) = elim (trim_zeros cs) [
  | [] ↦ if c == 0 then [] else c ∷ []
  | d ∷ ds ↦ c ∷ d ∷ ds
]

unfoldable pub trimmed : Option Bytes → Option Bytes
unfolding trim_zeros
trimmed none = none
trimmed (some out) = some (trim_zeros out)

-- `b64decode`: the bytes put out, whose number goes to `*l`; none where it returns NULL.
unfoldable pub b64decode : Bytes → ℕ → Bytes → Option Bytes
unfolding decode_groups trimmed text_of
b64decode src l beyond = trimmed (decode_groups beyond (text_of src l))
