-- ===== src/Http2/Headers/Response.antt =====
-- src/KHttp2.cpp: what `add_status` puts in front of a frame is the field of the status.
use khttpd.Http2.Headers.Reader.{bytes_of}
use native.Mathlib.Decide.{ℕ_discrete}
use khttpd.Http2.Table.Static.{static_table}
use khttpd.Http2.Headers.Items.{listed, inserted, field_in, octets, Item, IsItem}
use khttpd.Http2.Integers.Lengths.{TextLength-all, TextLength}
use khttpd.Http2.Integers.{write_int}
use khttpd.Http2.Headers.Send.{status_index, three_digits, add_status}
use khttpd.Base.{
  ◌%◌, ◌/◌, true, ltb, ◌∙◌, [], ◌*◌, some, false, sym, ◌==◌, subst, get_elem?, inr, ◌<◌, ◌≢◌, ◌+◌,
  ◌⊎◌, inl, ap, codes, ◌≡◌, ◌++◌, arith, Bytes, ℕ, refl, ◌∷◌,
}

-- The length 3 of a status.
three : TextLength 3
three = TextLength-all 3 (omega arith)

three_octets : (l : TextLength 3) (text : Bytes) → 3 ∷ text ≡ l.first ∷ (l.more ++ text)
unfolding write_int
three_octets l text = ap (λ o. bytes_of o ++ text) l.written

-- The place of a status in the static table, if it has one.
record StatusPlace (n : ℕ) : Type 0 where
  at : ℕ
  index_is : status_index n ≡ 1 + at
  below : at < 61
  found : get_elem? static_table at ≡ some (codes ":status", three_digits n)

StatusPlace-other :
    (n : ℕ)
    → n ≢ 200
    → n ≢ 204
    → n ≢ 206
    → n ≢ 304
    → n ≢ 400
    → n ≢ 404
    → n ≢ 500
    → status_index n ≡ 0
unfolding status_index
StatusPlace-other n a b c d e f g = ground arith

place_at : (n c : ℕ) → StatusPlace c → n ≡ c → (status_index n ≡ 0) ⊎ StatusPlace n
place_at n c p e = inr (subst StatusPlace (sym e) p)

StatusPlace-cases : (n : ℕ) → (status_index n ≡ 0) ⊎ StatusPlace n
unfolding status_index three_digits
StatusPlace-cases n = elim (ℕ_discrete n 200) [
  | yes e ↦ place_at n 200 (record { at = 7; index_is = refl; below = omega arith; found = refl }) e
  | no a ↦ elim (ℕ_discrete n 204) [
    | yes e ↦
        place_at n 204 (record { at = 8; index_is = refl; below = omega arith; found = refl }) e
    | no b ↦ elim (ℕ_discrete n 206) [
      | yes e ↦
          place_at n 206 (record { at = 9; index_is = refl; below = omega arith; found = refl }) e
      | no c ↦ elim (ℕ_discrete n 304) [
        | yes e ↦
            place_at n 304 (record { at = 10; index_is = refl; below = omega arith; found = refl })
              e
        | no d ↦ elim (ℕ_discrete n 400) [
          | yes e ↦
              place_at n 400
                (record { at = 11; index_is = refl; below = omega arith; found = refl }) e
          | no f ↦ elim (ℕ_discrete n 404) [
            | yes e ↦
                place_at n 404
                  (record { at = 12; index_is = refl; below = omega arith; found = refl }) e
            | no g ↦ elim (ℕ_discrete n 500) [
              | yes e ↦
                  place_at n 500
                    (record { at = 13; index_is = refl; below = omega arith; found = refl }) e
              | no k ↦ inl (StatusPlace-other n a b c d f g k)
            ]
          ]
        ]
      ]
    ]
  ]
]

-- One field in front of a frame
status_item :
    (frame : Bytes) (n : ℕ)
    → (it : Item) × (add_status frame n ≡ octets it ++ frame)
      × IsItem it
      × (field_in it ≡ (codes ":status", three_digits n))
unfolding add_status IsItem three_digits
status_item frame n = elim (StatusPlace-cases n) [
  | inl e ↦
      let l = three in
      (
        inserted 7 (codes ":status", codes "200") (three_digits n) l,
        rw e (ap (λ os. 72 ∷ (os ++ frame)) (three_octets l (three_digits n))),
        (omega arith, refl, omega arith),
        refl,
      )
  | inr p ↦
      let positive : (1 + p.at == 0) ≡ false = ground arith in
      let octet : 128 + (1 + p.at) ≡ 129 + p.at = omega arith in
      (
        listed p.at (codes ":status", three_digits n),
        rw (p.index_is, positive, octet) refl,
        (p.below, p.found),
        refl,
      )
]

three_digits-digits :
    (h t u : ℕ)
    → h < 10
    → t < 10
    → u < 10
    → three_digits (100 * h + 10 * t + u) ≡ (48 + h) ∷ (48 + t) ∷ (48 + u) ∷ []
unfolding three_digits
three_digits-digits h t u a b c =
    let n = 100 * h + 10 * t + u in
    let small : ltb n 1000 ≡ true = ground arith in
    let x : n / 100 ≡ h = omega arith in
    let y : n / 10 % 10 ≡ t = omega arith in
    let z : n % 10 ≡ u = omega arith in rw (small, x, y, z) refl

-- For a status of the decimal digits h, t and u, `add_status` puts one field in front of the fields
-- of the frame: the name :status with the characters of these three digits.
pub add_status-item :
    (frame : Bytes) (h t u : ℕ)
    → h < 10
    → t < 10
    → u < 10
    → (it : Item) × (add_status frame (100 * h + 10 * t + u) ≡ octets it ++ frame)
      × IsItem it
      × (field_in it ≡ (codes ":status", (48 + h) ∷ (48 + t) ∷ (48 + u) ∷ []))
add_status-item frame h t u a b c =
    let d = status_item frame (100 * h + 10 * t + u) in
    (d.0, d.1, d.2, d.3 ∙ ap (λ v. (codes ":status", v)) (three_digits-digits h t u a b c))
