-- ===== src/Http2/Integers/Bounds.antt =====
-- The range of the integers that `parse_int` returns, and the bytes that it consumes.
use khttpd.Base.{
  if◌then◌else◌, ◌==◌, not, Bool, true, false, ltb, subst, ℕ, suc, ◌+◌, ◌-◌, ◌*◌, ◌%◌, ◌^◌, ◌≤◌,
  ◌<◌, ◌≡◌, [], ◌∷◌, arith, Bytes, length,
}
use khttpd.Http2.Integers.{
  IntResult, value, short_value, last_octet, unfinished, octets_loop, parse_int,
}

-- What a value tells, found in `buf` of a block with `len` bytes left.
abbrev Bounded : ℕ → ℕ → ℕ → IntResult → Type 0
Bounded limit total len (value v len' rest) =
    (v < limit)
    × (len' + total ≡ len + length rest)
    × (length rest < total)
    × (total ≤ length rest + 4)
Bounded limit total len _ = Unit

last_octet-Bounded :
    (limit total v c len : ℕ) (rest : Bytes)
    → v < limit
    → c + length rest ≡ total
    → 0 < c
    → c ≤ 4
    → Bounded limit total len (last_octet v c len rest)
unfolding last_octet
last_octet-Bounded limit total v c len rest h e k l = ground arith

unfinished-Bounded : (limit total c len : ℕ) → Bounded limit total len (unfinished c len)
unfolding unfinished
unfinished-Bounded limit total c len = ground arith

Bounded-if :
    (limit total len : ℕ) (b : Bool) (x y : IntResult)
    → Bounded limit total len x
    → Bounded limit total len y
    → Bounded limit total len (if b then x else y)
Bounded-if limit total len true x y h k = h
Bounded-if limit total len false x y h k = k

module _ (base len : ℕ) where
  octets_loop-Bounded :
      (v : ℕ) (os : Bytes)
      → v ≤ base
      → Bounded (base + 2 ^ 21) (1 + length os) len (octets_loop 3 v 1 1 len os)
  unfolding octets_loop
  octets_loop-Bounded v [] h = unfinished-Bounded (base + 2 ^ 21) 1 1 len
  octets_loop-Bounded v (a ∷ os) h =
      Bounded-if (base + 2 ^ 21) (1 + length (a ∷ os)) len (ltb a 128) _ _
        (last_octet-Bounded (base + 2 ^ 21) (1 + length (a ∷ os)) (v + a % 128 * 1) 2 len os
          (omega arith) (omega arith) (omega arith) (omega arith))
        (second (v + a % 128 * 1) (1 + length (a ∷ os)) os (omega arith) (omega arith))
    where
      third :
          (v total : ℕ) (os : Bytes)
          → v ≤ base + 16383
          → 3 + length os ≡ total
          → Bounded (base + 2 ^ 21) total len (octets_loop 1 v 16384 3 len os)
      third v total [] h e = unfinished-Bounded (base + 2 ^ 21) total 3 len
      third v total (c ∷ os) h e =
          Bounded-if (base + 2 ^ 21) total len (ltb c 128) _ _
            (last_octet-Bounded (base + 2 ^ 21) total (v + c % 128 * 16384) 4 len os (omega arith)
              (omega arith) (omega arith) (omega arith))
            (unfinished-Bounded (base + 2 ^ 21) total 4 len)

      second :
          (v total : ℕ) (os : Bytes)
          → v ≤ base + 127
          → 2 + length os ≡ total
          → Bounded (base + 2 ^ 21) total len (octets_loop 2 v 128 2 len os)
      second v total [] h e = unfinished-Bounded (base + 2 ^ 21) total 2 len
      second v total (b ∷ os) h e =
          Bounded-if (base + 2 ^ 21) total len (ltb b 128) _ _
            (last_octet-Bounded (base + 2 ^ 21) total (v + b % 128 * 128) 3 len os (omega arith)
              (omega arith) (omega arith) (omega arith))
            (third (v + b % 128 * 128) total os (omega arith) (omega arith))

short_value-Bounded :
    (limit v len : ℕ) (rest : Bytes)
    → v < limit
    → Bounded limit (1 + length rest) len (short_value v len rest)
unfolding short_value
short_value-Bounded limit v len rest h = ground arith

parse_int-Bounded :
    (bits len : ℕ) (buf : Bytes)
    → 0 < 2 ^ bits
    → Bounded (2 ^ bits - 1 + 2 ^ 21) (length buf) len (parse_int bits len buf)
unfolding parse_int
parse_int-Bounded bits len [] pos = tt
parse_int-Bounded bits len (b ∷ rest) pos =
    let limit = 2 ^ bits - 1 + 2 ^ 21 in
    let v = b % 2 ^ bits in
    subst (λ n. Bounded limit n len (parse_int bits len (b ∷ rest))) one_plus
      (Bounded-if limit (1 + length rest) len (not (v == 2 ^ bits - 1)) _ _
        (short_value-Bounded limit v len rest (omega arith))
        (octets_loop-Bounded (2 ^ bits - 1) len v rest (omega arith)))
  where
    one_plus : 1 + length rest ≡ suc (length rest)
    one_plus = omega arith

-- A value that `parse_int` returns is below 2 ^ bits - 1 + 2 ^ 21, so the casts of its callers to
-- 32 bits keep it; and what it takes off `state.length` is the number of bytes that it consumed,
-- from one to four.
pub parse_int_bounds :
    (bits len : ℕ) (buf : Bytes) (v len' : ℕ) (rest : Bytes)
    → 0 < 2 ^ bits
    → parse_int bits len buf ≡ value v len' rest
    → (v < 2 ^ bits - 1 + 2 ^ 21)
      × (len' + length buf ≡ len + length rest)
      × (length rest < length buf)
      × (length buf ≤ length rest + 4)
parse_int_bounds bits len buf v len' rest pos e =
    subst (Bounded (2 ^ bits - 1 + 2 ^ 21) (length buf) len) e (parse_int-Bounded bits len buf pos)
