-- ===== src/HttpLib/Tests.antt =====
-- Runs of the text helpers, and their theorems at concrete inputs.
use khttpd.Base.{
  pos, negsuc, ◌+◌, ◌*◌, ◌≤◌, ◌≡◌, refl, arith, true, false, some, none, [], ◌∷◌, ◌++◌, Bytes,
  length, codes,
}
use khttpd.HttpLib.Url.{url_encode, url_value_encode, url_decode}
use khttpd.HttpLib.Url.RoundTrip.{
  any_escaped, any_above, url_decode-url_encode, url_decode-url_value_encode,
}
use khttpd.HttpLib.Url.Bounds.{all_url_bytes, url_encode_bounds}
use khttpd.HttpLib.Range.{adjust_range}
use khttpd.HttpLib.Range.Selects.{IsInt64, Right, adjust_range-Right}
use khttpd.HttpLib.Base64.{go_on, b64encode, b64decode}
use khttpd.HttpLib.Base64.RoundTrip.{b64decode-b64encode}

abbrev sample : Bytes
sample = codes "/a b" ++ 200 ∷ codes "%+"

encoded : url_encode sample ≡ codes "/a%20b%C8%25%2B"
unfolding url_encode
encoded = refl

value_encoded : url_value_encode sample ≡ codes "/a b%C8%+"
unfolding url_value_encode
value_encoded = refl

decoded : url_decode (codes "a+%4z%41%6a%") 0 true ≡ (codes "a %4zAj%", true)
unfolding url_decode
decoded = refl

base64 : b64encode (codes "any carnal pleas") 16 ≡ codes "YW55IGNhcm5hbCBwbGVhcw=="
unfolding b64encode
base64 = refl

base64_decoded : b64decode (codes "YW55IGNhcm5hbCBwbGVhcw==") 0 [] ≡ some (codes "any carnal pleas")
unfolding b64decode go_on
base64_decoded = refl

base64_refused : b64decode (codes "YW5.") 4 [] ≡ none
unfolding b64decode go_on
base64_refused = refl

url_decode-url_encode_example :
    url_decode (url_encode sample) (length (url_encode sample)) true ≡ (sample, any_escaped sample)
url_decode-url_encode_example = url_decode-url_encode true sample (
  omega arith,
  (omega arith, (omega arith, (omega arith, (omega arith, (omega arith, (omega arith, tt)))))),
)

url_decode-url_value_encode_example :
    let s = 200 ∷ codes "a/+" in
    url_decode (url_value_encode s) (length (url_value_encode s)) false ≡ (s, any_above s)
url_decode-url_value_encode_example = url_decode-url_value_encode (200 ∷ codes "a/+") (
  (omega arith, omega arith),
  ((omega arith, omega arith), ((omega arith, omega arith), ((omega arith, omega arith), tt))),
)

url_encode_bounds_example :
    (all_url_bytes (url_encode sample) ≡ true)
    × (length (url_encode sample) + 1 ≤ 3 * length sample + 1)
url_encode_bounds_example = url_encode_bounds sample (
  omega arith,
  (omega arith, (omega arith, (omega arith, (omega arith, (omega arith, (omega arith, tt)))))),
)

b64decode-b64encode_example :
    let text = b64encode (255 ∷ 0 ∷ 7 ∷ 32 ∷ 0 ∷ []) 5 in
    b64decode text (length text) (61 ∷ 61 ∷ []) ≡ some (255 ∷ 0 ∷ 7 ∷ 32 ∷ [])
b64decode-b64encode_example =
    b64decode-b64encode (255 ∷ 0 ∷ 7 ∷ 32 ∷ []) 1 (61 ∷ 61 ∷ [])
      (omega arith, (omega arith, (omega arith, (omega arith, (omega arith, tt)))))
      (λ e. omega arith)

-- The last 5 bytes of 100, and the last 100.
last_bytes :
    (adjust_range (negsuc 4) (negsuc 0) 100 ≡ some (record { from = 95; to = 99; len = 5 }))
    × (adjust_range (negsuc 99) (negsuc 0) 100 ≡ none)
unfolding adjust_range
last_bytes = (refl, refl)

-- "bytes=0-9223372036854775807"
largest_range : adjust_range (pos 0) (pos 9223372036854775807) 100 ≡ none
unfolding adjust_range
largest_range = refl

adjust_range-Right_example : Right (pos 90) (pos 200) 100 (adjust_range (pos 90) (pos 200) 100)
unfolding IsInt64
adjust_range-Right_example = adjust_range-Right (pos 90) (pos 200) 100 (omega arith) (omega arith)
