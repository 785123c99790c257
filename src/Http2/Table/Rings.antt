-- ===== src/Http2/Table/Rings.antt =====
-- src/KHttp2Table.cpp: places of a ring of `m` pointers.
use native.Mathlib.Nat.{mod-eq_of_lt, mod-lt, mod-add-mod, mod-eq-sub-mod}
use khttpd.Base.{
  inr, inl, ℕ, ◌+◌, ◌-◌, ◌%◌, ◌≤◌, ◌<◌, arith, ◌≡◌, ◌≢◌, sym, subst, ◌∙◌, Bool-cases, ltb→lt, ltb,
}

-- The place d behind that of j, before it wraps and after.
pub mod_near : (j d m : ℕ) → j % m + d < m → (j + d) % m ≡ j % m + d
mod_near j d m h = sym (mod-add-mod j m d) ∙ mod-eq_of_lt h

pub mod_wrapped : (j d m : ℕ) → d < m → m ≤ j % m + d → (j + d) % m ≡ j % m + d - m
mod_wrapped j d m hd h =
    let lt : j % m < m = mod-lt j (omega arith) in
    sym (mod-add-mod j m d) ∙ (mod-eq-sub-mod h ∙ mod-eq_of_lt (omega arith))

mod_moves : (j d m : ℕ) → 0 < d → d < m → (j + d) % m ≢ j % m
mod_moves j d m hd hm e =
    let lt : j % m < m = mod-lt j (omega arith) in
    elim (Bool-cases (ltb (j % m + d) m)) [
      | inl w ↦ let n = mod_near j d m (ltb→lt _ _ w) in omega arith
      | inr w ↦
          let ge : m ≤ j % m + d = ground arith in let n = mod_wrapped j d m hm ge in omega arith
    ]

-- Fewer than m numbers apart, the places differ.
pub mod_apart : (j k m : ℕ) → j < k → k < j + m → k % m ≢ j % m
mod_apart j k m h h' =
    subst (λ n. n % m ≢ j % m) (omega arith) (mod_moves j (k - j) m (omega arith) (omega arith))
