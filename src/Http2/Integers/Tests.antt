-- ===== src/Http2/Integers/Tests.antt =====
-- Runs of the integer codec, and its theorems at concrete inputs.
use khttpd.Base.{
  ◌*◌, ℕ, ◌+◌, ◌-◌, ◌^◌, ◌≤◌, ◌<◌, ◌≡◌, refl, arith, [], ◌∷◌, ◌++◌, some, Bytes, length,
}
use khttpd.Http2.Integers.{value, again, declined, parse_int, write_int, write_octets, octets_loop}
use khttpd.Http2.Integers.RoundTrip.{parse_int-write_int}
use khttpd.Http2.Integers.Bounds.{parse_int_bounds}

-- RFC 7541, C.1.2.
leet : write_int 0 5 1337 ≡ some (31 ∷ 154 ∷ 10 ∷ [])
unfolding write_int write_octets
leet = refl

leet_read : parse_int 5 9 (31 ∷ 154 ∷ 10 ∷ 7 ∷ []) ≡ value 1337 6 (7 ∷ [])
unfolding parse_int octets_loop
leet_read = refl

too_long : parse_int 5 9 (31 ∷ 128 ∷ 128 ∷ 128 ∷ 1 ∷ []) ≡ declined
unfolding parse_int octets_loop
too_long = refl

incomplete : parse_int 5 9 (31 ∷ 154 ∷ []) ≡ again
unfolding parse_int octets_loop
incomplete = refl

parse_int-write_int_example :
    (os : Bytes) × (write_int (1 * 2 ^ 7) 7 1337 ≡ some os)
    × (length os ≤ 4)
    × (parse_int 7 20 (os ++ (5 ∷ [])) ≡ value 1337 (20 - length os) (5 ∷ []))
parse_int-write_int_example =
    parse_int-write_int 1 7 1337 20 (5 ∷ []) (omega arith) (omega arith) (omega arith)

abbrev sample : Bytes
sample = 31 ∷ 154 ∷ 10 ∷ 7 ∷ []

parse_int_bounds_example :
    (1337 < 2 ^ 5 - 1 + 2 ^ 21)
    × (6 + length sample ≡ 9 + length {A = ℕ} (7 ∷ []))
    × (length {A = ℕ} (7 ∷ []) < length sample)
    × (length sample ≤ length {A = ℕ} (7 ∷ []) + 4)
parse_int_bounds_example = parse_int_bounds 5 9 sample 1337 6 (7 ∷ []) (omega arith) leet_read
