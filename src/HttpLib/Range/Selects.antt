-- ===== src/HttpLib/Range/Selects.antt =====
-- src/KHttpLib.cpp: `kgl_adjust_range` selects the bytes that the range asks for.
use khttpd.HttpLib.Range.{Adjusted, adjust_to, adjust_range}
use khttpd.Base.{
  ==_iff, ◌==◌, min, ◌-◌, ◌^◌, ◌≡◌, ℤ, pos, negsuc, ℕ, suc, ◌+◌, ◌≤◌, ◌<◌, arith, ◌↔◌, ◌⊎◌, inl,
  inr, Bool-cases, ltb→lt, leb→le, Option, none, some, leb, ltb,
}

-- The range asks for the byte b, if it is one of the entity.
unfoldable pub Asks : ℤ → ℤ → ℕ → ℕ → Type 0
Asks (pos from) (pos to) len b = (from ≤ b) × (b ≤ to)
Asks (pos from) (negsuc k) len b = from ≤ b
Asks (negsuc k) to len b = len ≤ b + suc k

-- The int64_t `to - from + 1` overflows.
unfoldable pub Overflows : ℤ → ℤ → Type 0
Overflows (pos from) (pos to) = (from ≡ 0) × (to ≡ 2 ^ 63 - 1)
Overflows (pos from) (negsuc k) = ⊥
Overflows (negsuc j) to = ⊥

-- The values of an int64_t
unfoldable pub IsInt64 : ℤ → Type 0
IsInt64 (pos n) = n < 2 ^ 63
IsInt64 (negsuc k) = k < 2 ^ 63

-- The bytes from `from` on are those that were asked for, and there is one at least.
pub record Selects (from to : ℤ) (len : ℕ) (r : Adjusted) : Type 0 where
  pub some_byte : 0 < r.len
  pub within : r.from + r.len ≤ len
  pub exact : (b : ℕ) → ((r.from ≤ b) × (b < r.from + r.len)) ↔ ((b < len) × Asks from to len b)

-- The range asks for no byte of the entity, or for all bytes below 2 ^ 63, or for the last ones of
-- the entity and as many as there are or more.
unfoldable pub Unsatisfied : ℤ → ℤ → ℕ → Type 0
unfolding Overflows
Unsatisfied (pos from) (pos to) len = ((len ≤ from) ⊎ (to < from)) ⊎ Overflows (pos from) (pos to)
Unsatisfied (pos from) (negsuc k) len = len ≤ from
Unsatisfied (negsuc k) to len = len ≤ suc k

unfoldable pub Right : ℤ → ℤ → ℕ → Option Adjusted → Type 0
Right from to len none = Unsatisfied from to len
Right from to len (some r) = Selects from to len r × ¬ Overflows from to

-- The bytes asked for from `from` to `to` are those of the sum.
adjust_to-Right :
    (from to len : ℕ)
    → to < 2 ^ 63
    → from < len
    → Right (pos from) (pos to) len (adjust_to from (pos to) (len - from))
unfolding Right adjust_to Unsatisfied Overflows Asks
adjust_to-Right from to len bound lt = elim (Bool-cases (ltb (to + 1 - from) (2 ^ 63))) [
  | inl e ↦
      let n = to + 1 - from in
      let small : n < 2 ^ 63 = ltb→lt n (2 ^ 63) e in
      elim (Bool-cases (min n (len - from) == 0)) [
        | inl z ↦ rw (e, z) (inl (inr (omega (arith, (==_iff (min n (len - from)) 0).0 z))))
        | inr z ↦
            let le : from ≤ to = ground arith in
            rw (e, z)
              (
                record {
                  some_byte = omega arith;
                  within = omega arith;
                  exact = λ b. (
                    (λ h. (omega arith, (omega arith, omega arith))),
                    (λ h. (omega arith, omega arith)),
                  );
                },
                λ o. omega (arith, small, o.0, o.1),
              )
      ]
  | inr e ↦
      let large : 2 ^ 63 ≤ to + 1 - from = ground arith in
      rw e (inr (omega (arith, large, bound), omega (arith, large, bound)))
]

-- For ends in the range of int64_t, `kgl_adjust_range` returns true with exactly the bytes of the
-- entity that the range asks for, at least one, and false only if it asks for none, or from 0 to
-- 2 ^ 63 - 1, where the sum overflows, or for the last ones and as many as there are or more; where
-- the sum overflows it does return false.
pub adjust_range-Right :
    (from to : ℤ) (len : ℕ)
    → IsInt64 from
    → IsInt64 to
    → Right from to len (adjust_range from to len)
unfolding Right adjust_range Unsatisfied Asks Overflows IsInt64
adjust_range-Right (pos from) (pos to) len p q = elim (Bool-cases (leb len from)) [
  | inl w ↦ rw w (inl (inl (leb→le len from w)))
  | inr w ↦ rw w (adjust_to-Right from to len q (ground arith))
]
adjust_range-Right (pos from) (negsuc k) len p q = elim (Bool-cases (leb len from)) [
  | inl w ↦ rw w (leb→le len from w)
  | inr w ↦
      let lt : from < len = ground arith in
      rw w (
        record {
          some_byte = omega arith;
          within = omega arith;
          exact = λ b. ((λ h. (omega arith, omega arith)), (λ h. (omega arith, omega arith)));
        },
        λ o. o,
      )
]
adjust_range-Right (negsuc k) to len p q = elim (Bool-cases (leb len (suc k))) [
  | inl w ↦ rw w (leb→le len (suc k) w)
  | inr w ↦
      let lt : suc k < len = ground arith in
      rw w (
        record {
          some_byte = omega arith;
          within = omega arith;
          exact = λ b. ((λ h. (omega arith, omega arith)), (λ h. (omega arith, omega arith)));
        },
        λ o. o,
      )
]
