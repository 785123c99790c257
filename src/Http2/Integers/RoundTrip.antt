-- ===== src/Http2/Integers/RoundTrip.antt =====
-- What `write_int` writes is read back by `parse_int`.
use native.Mathlib.Decide.{dec_lt}
use khttpd.Base.{
  ==_iff, ==-false, ap₂, ltb→lt, ℕ, zero, suc, ◌+◌, ◌-◌, ◌*◌, ◌/◌, ◌%◌, ◌^◌, ◌≤◌, ◌<◌, ◌≡◌, refl,
  [], ◌∷◌, ◌++◌, some, arith, ltb, leb, ◌==◌, Bytes, length, inl, inr, Bool-cases, ap, ◌∙◌, leb→le,
}
use khttpd.Http2.Integers.{value, last_octet, octets_loop, parse_int, write_octets, write_int}

-- 128 ^ n.
abbrev cap : ℕ → ℕ
cap zero = 1
cap (suc n) = 128 * cap n

write_octets_short : (fuel v : ℕ) → v < 128 → write_octets (suc fuel) v ≡ some (v ∷ [])
unfolding write_octets
write_octets_short fuel v h = elim (Bool-cases (leb 128 v)) [
  | inl e ↦ absurd (omega (arith, leb→le 128 v e))
  | inr e ↦ rw e refl
]

write_octets_long :
    (fuel v : ℕ) (os : Bytes)
    → 128 ≤ v
    → write_octets fuel (v / 128) ≡ some os
    → write_octets (suc fuel) v ≡ some ((v % 128 + 128) ∷ os)
unfolding write_octets
write_octets_long fuel v os h e = elim (Bool-cases (leb 128 v)) [
  | inl l ↦ rw (l, e) refl
  | inr l ↦ absurd (ground (arith, l, h))
]

module _ (room v₀ scale c len : ℕ) (rest : Bytes) where
  octets_loop_short :
      (octet : ℕ)
      → octet < 128
      → octets_loop (suc room) v₀ scale c len (octet ∷ rest)
        ≡ last_octet (v₀ + octet * scale) (c + 1) len rest
  unfolding octets_loop
  octets_loop_short octet h = elim (Bool-cases (ltb octet 128)) [
    | inl e ↦ rw (e, small octet h) refl
    | inr e ↦ absurd (ground (arith, e, h))
  ]
    where
      small : (x : ℕ) → x < 128 → x % 128 ≡ x
      small x h = omega arith

  octets_loop_long :
      (v : ℕ)
      → octets_loop (suc room) v₀ scale c len ((v % 128 + 128) ∷ rest)
        ≡ octets_loop room (v₀ + v % 128 * scale) (scale * 128) (c + 1) len rest
  unfolding octets_loop
  octets_loop_long v = elim (Bool-cases (ltb (v % 128 + 128) 128)) [
    | inl e ↦ absurd (omega (arith, ltb→lt (v % 128 + 128) 128 e))
    | inr e ↦ rw (e, low v) refl
  ]
    where
      low : (x : ℕ) → (x % 128 + 128) % 128 ≡ x % 128
      low x = omega arith

-- The octets of `v`, and that the reading loop puts them together again, in any sum `v₀` at any
-- place value `scale`.
pub record Written (n fuel v : ℕ) : Type 0 where
  pub os : Bytes
  pub written : write_octets fuel v ≡ some os
  pub short : length os ≤ suc n
  pub reads :
      (v₀ scale c len : ℕ) (rest : Bytes)
      → octets_loop (suc n) v₀ scale c len (os ++ rest)
        ≡ last_octet (v₀ + v * scale) (c + length os) len rest

place_value : (v v₀ scale : ℕ) → v₀ + v % 128 * scale + v / 128 * (scale * 128) ≡ v₀ + v * scale
place_value v v₀ scale = omega (arith, ap (λ (t : ℕ). t * scale) (split v))
  where
    split : (v : ℕ) → v % 128 + v / 128 * 128 ≡ v
    split v = omega arith

pub Written-all : (n fuel v : ℕ) → n < fuel → v < cap (suc n) → Written n fuel v
Written-all n zero v l h = absurd (omega arith)
Written-all zero (suc fuel) v l h = record {
  os = v ∷ [];
  written = write_octets_short fuel v (omega arith);
  short = omega arith;
  reads = λ v₀ scale c len rest. octets_loop_short zero v₀ scale c len rest v (omega arith);
}
Written-all (suc n) (suc fuel) v l h =
    let w = Written-all n fuel (v / 128) (omega arith) (omega arith) in
    elim (dec_lt v 128) [
      | yes small ↦ record {
        os = v ∷ [];
        written = write_octets_short fuel v small;
        short = omega arith;
        reads = λ v₀ scale c len rest. octets_loop_short (suc n) v₀ scale c len rest v small;
      }
      | no large ↦ record {
        os = (v % 128 + 128) ∷ w.os;
        written = write_octets_long fuel v w.os (omega arith) w.written;
        short = omega (arith, w.short);
        reads = λ v₀ scale c len rest.
            octets_loop_long (suc n) v₀ scale c len (w.os ++ rest) v
            ∙ w.reads (v₀ + v % 128 * scale) (scale * 128) (c + 1) len rest
            ∙ ap₂ (λ (a b : ℕ). last_octet a b len rest) (place_value v v₀ scale) (omega arith);
      }
    ]

module _ (bits : ℕ) where
  pub write_int_short :
      (type v : ℕ) → v < 2 ^ bits - 1 → write_int type bits v ≡ some ((type + v) ∷ [])
  unfolding write_int
  write_int_short type v h = elim (Bool-cases (ltb v (2 ^ bits - 1))) [
    | inl e ↦ rw e refl
    | inr e ↦ absurd (ground (arith, e, h))
  ]

  pub write_int_long :
      (type v : ℕ) (os : Bytes)
      → 2 ^ bits - 1 ≤ v
      → write_octets 10 (v - (2 ^ bits - 1)) ≡ some os
      → write_int type bits v ≡ some ((type + (2 ^ bits - 1)) ∷ os)
  unfolding write_int
  write_int_long type v os h f = elim (Bool-cases (ltb v (2 ^ bits - 1))) [
    | inl e ↦ absurd (omega (arith, ltb→lt v (2 ^ bits - 1) e))
    | inr e ↦ rw (e, f) refl
  ]

  pub parse_int_short :
      (b v len : ℕ) (rest : Bytes)
      → b % 2 ^ bits ≡ v
      → v < 2 ^ bits - 1
      → 1 ≤ len
      → parse_int bits len (b ∷ rest) ≡ value v (len - 1) rest
  unfolding parse_int
  parse_int_short b v len rest e h l = rw e (elim (Bool-cases (v == 2 ^ bits - 1)) [
    | inl f ↦ absurd (omega (arith, (==_iff v (2 ^ bits - 1)).0 f))
    | inr f ↦ rw f (elim (Bool-cases (len == 0)) [
      | inl g ↦ absurd (omega (arith, (==_iff len 0).0 g))
      | inr g ↦ rw g refl
    ])
  ])

  pub parse_int_long :
      (b len : ℕ) (rest : Bytes)
      → b % 2 ^ bits ≡ 2 ^ bits - 1
      → parse_int bits len (b ∷ rest) ≡ octets_loop 3 (2 ^ bits - 1) 1 1 len rest
  unfolding parse_int
  parse_int_long b len rest e = rw e (elim (Bool-cases (2 ^ bits - 1 == 2 ^ bits - 1)) [
    | inl f ↦ rw f refl
    | inr f ↦ absurd (==-false (2 ^ bits - 1) (2 ^ bits - 1) f refl)
  ])

pub last_octet_value :
    (v c len : ℕ) (rest : Bytes) → c ≤ len → last_octet v c len rest ≡ value v (len - c) rest
unfolding last_octet
last_octet_value v c len rest h = elim (Bool-cases (ltb len c)) [
  | inl e ↦ absurd (omega (arith, ltb→lt len c e))
  | inr e ↦ rw e refl
]

mul_add_mod : (t m r : ℕ) → r < m → (t * m + r) % m ≡ r
mul_add_mod t m r h = grind arith

-- What `write_int` writes for a value below 2 ^ bits - 1 + 2 ^ 21 has at most four octets, and
-- `parse_int` reads the value back from it, leaving the bytes behind it and taking its octets off
-- `state.length`, which is at least 4; `type` has no bit within the prefix.
pub parse_int-write_int :
    (t bits v len : ℕ) (rest : Bytes)
    → v < 2 ^ bits - 1 + 2 ^ 21
    → 4 ≤ len
    → 0 < 2 ^ bits
    → (os : Bytes) × (write_int (t * 2 ^ bits) bits v ≡ some os)
      × (length os ≤ 4)
      × (parse_int bits len (os ++ rest) ≡ value v (len - length os) rest)
parse_int-write_int t bits v len rest h l pos = elim (dec_lt v (2 ^ bits - 1)) [
  | yes small ↦ (
    (t * 2 ^ bits + v) ∷ [],
    write_int_short bits (t * 2 ^ bits) v small,
    omega arith,
    parse_int_short bits (t * 2 ^ bits + v) v len rest (mul_add_mod t (2 ^ bits) v (omega arith))
        small (omega arith),
  )
  | no large ↦
      from_octets (Written-all 2 10 (v - (2 ^ bits - 1)) (omega arith) (omega arith)) (omega arith)
]
  where
    from_octets :
        Written 2 10 (v - (2 ^ bits - 1))
        → 2 ^ bits - 1 ≤ v
        → (os : Bytes) × (write_int (t * 2 ^ bits) bits v ≡ some os)
          × (length os ≤ 4)
          × (parse_int bits len (os ++ rest) ≡ value v (len - length os) rest)
    from_octets w large = (
      (t * 2 ^ bits + (2 ^ bits - 1)) ∷ w.os,
      write_int_long bits (t * 2 ^ bits) v w.os large w.written,
      omega (arith, w.short),
      parse_int_long bits (t * 2 ^ bits + (2 ^ bits - 1)) len (w.os ++ rest)
            (mul_add_mod t (2 ^ bits) (2 ^ bits - 1) (omega arith))
          ∙ w.reads (2 ^ bits - 1) 1 1 len rest
          ∙ ap (λ (x : ℕ). last_octet x (1 + length w.os) len rest) (omega arith)
          ∙ last_octet_value v (1 + length w.os) len rest (omega (arith, w.short))
          ∙ ap (λ (x : ℕ). value v (len - x) rest) (omega arith),
    )
