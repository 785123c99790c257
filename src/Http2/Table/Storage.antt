-- ===== src/Http2/Table/Storage.antt =====
-- src/KHttp2Table.cpp: the texts in the ring `storage`. A place in a text has a number that only
-- grows; modulo 4096 it is a place of the ring.
use khttpd.Http2.Table.{update, copy_to, copy_from, put_text, get_text, table_size_max}
use khttpd.Base.{
  ℕ, zero, suc, ◌+◌, ◌-◌, ◌%◌, ◌≤◌, ◌<◌, arith, ◌≡◌, ◌≢◌, refl, ap, ap₂, subst, ◌∙◌, ◌⊎◌, inl, inr,
  true, false, Bool-cases, leb→le, ltb→lt, ltb, leb, ◌==◌, [], ◌∷◌, ◌++◌, Bytes, length, take, drop,
  take-append-drop, length-take, length-drop,
}

-- The bytes stand in the ring from the number `p` on.
unfoldable pub Holds : (ℕ → ℕ) → ℕ → Bytes → Type 0
Holds mem p [] = Unit
Holds mem p (b ∷ bs) = (mem (p % 4096) ≡ b) × Holds mem (suc p) bs

pub Holds-append :
    (mem : ℕ → ℕ) (p : ℕ) (xs ys : Bytes)
    → Holds mem p xs
    → Holds mem (p + length xs) ys
    → Holds mem p (xs ++ ys)
unfolding Holds
Holds-append mem p [] ys h k = subst (λ q. Holds mem q ys) (omega arith) k
Holds-append mem p (x ∷ xs) ys h k =
    (h.0, Holds-append mem (suc p) xs ys h.1 (subst (λ q. Holds mem q ys) (omega arith) k))

pub Holds-take : (mem : ℕ → ℕ) (p n : ℕ) (xs : Bytes) → Holds mem p xs → Holds mem p (take n xs)
unfolding Holds
Holds-take mem p zero xs h = tt
Holds-take mem p (suc n) [] h = tt
Holds-take mem p (suc n) (x ∷ xs) h = (h.0, Holds-take mem (suc p) n xs h.1)

pub Holds-drop :
    (mem : ℕ → ℕ) (p n : ℕ) (xs : Bytes) → Holds mem p xs → Holds mem (p + n) (drop n xs)
unfolding Holds
Holds-drop mem p zero xs h = subst (λ q. Holds mem q xs) (omega arith) h
Holds-drop mem p (suc n) [] h = tt
Holds-drop mem p (suc n) (x ∷ xs) h =
    subst (λ q. Holds mem q (drop n xs)) (omega arith) (Holds-drop mem (suc p) n xs h.1)

-- What stands from `p` on stays where the ring does not change there.
pub Holds-agree :
    (mem mem' : ℕ → ℕ) (p : ℕ) (xs : Bytes)
    → ((q : ℕ) → p ≤ q → q < p + length xs → mem' (q % 4096) ≡ mem (q % 4096))
    → Holds mem p xs
    → Holds mem' p xs
unfolding Holds
Holds-agree mem mem' p [] same h = tt
Holds-agree mem mem' p (x ∷ xs) same h = (
  same p (omega arith) (omega arith) ∙ h.0,
  Holds-agree mem mem' (suc p) xs (λ q l u. same q (omega arith) (omega arith)) h.1,
)

copy_from-Holds :
    (mem : ℕ → ℕ) (s p : ℕ) (xs : Bytes)
    → s % 4096 ≡ p % 4096
    → s + length xs ≤ 4096
    → Holds mem p xs
    → copy_from mem s (length xs) ≡ xs
unfolding Holds copy_from
copy_from-Holds mem s p [] e h k = refl
copy_from-Holds mem s p (x ∷ xs) e h k =
    let same : s ≡ p % 4096 = omega arith in
    ap₂ ◌∷◌ (ap mem same ∙ k.0)
      (copy_from-Holds mem (suc s) (suc p) xs (omega arith) (omega arith) k.1)

copy_from-length :
    (mem : ℕ → ℕ) (s p n : ℕ) (xs : Bytes)
    → length xs ≡ n
    → s % 4096 ≡ p % 4096
    → s + n ≤ 4096
    → Holds mem p xs
    → copy_from mem s n ≡ xs
copy_from-length mem s p n xs l e h k =
    subst (λ m. copy_from mem s m ≡ xs) l (copy_from-Holds mem s p xs e (omega arith) k)

-- Reading a text of the ring gives it back.
pub get_text-Holds :
    (mem : ℕ → ℕ) (s p : ℕ) (xs : Bytes)
    → s ≤ 4096
    → s % 4096 ≡ p % 4096
    → length xs ≤ 4096
    → Holds mem p xs
    → get_text mem s (length xs) ≡ xs
unfolding get_text
get_text-Holds mem s p xs hs e hx h = elim (Bool-cases (ltb (4096 - s) (length xs))) [
  | inl w ↦
      let rest = 4096 - s in
      let more : rest < length xs = ltb→lt rest (length xs) w in
      let first =
        copy_from-length mem s p rest (take rest xs) (omega (arith, length-take rest xs)) e
          (omega arith) (Holds-take mem p rest xs h) in
      let second =
        copy_from-length mem 0 (p + rest) (length xs - rest) (drop rest xs) (length-drop rest xs)
          (omega arith) (omega arith) (Holds-drop mem p rest xs h) in
      rw (w, first, second) (take-append-drop rest xs)
  | inr w ↦ rw w (copy_from-Holds mem s p xs e (ground arith) h)
]

pub update_other {ℓ} :
    {A : Type ℓ} (f : ℕ → A) (i : ℕ) (a : A) (j : ℕ) → j ≢ i → update f i a j ≡ f j
unfolding update
update_other f i a j ne = let no : (j == i) ≡ false = ground arith in rw no refl

pub update_same {ℓ} : {A : Type ℓ} (f : ℕ → A) (i : ℕ) (a : A) → update f i a i ≡ a
unfolding update
update_same f i a = let yes : (i == i) ≡ true = ground arith in rw yes refl

-- What a copy leaves alone, and what it writes.
copy_to_outside :
    (mem : ℕ → ℕ) (s : ℕ) (xs : Bytes) (j : ℕ)
    → (j < s) ⊎ (s + length xs ≤ j)
    → copy_to mem s xs j ≡ mem j
unfolding copy_to
copy_to_outside mem s [] j h = refl
copy_to_outside mem s (x ∷ xs) j h =
    copy_to_outside (update mem s x) (suc s) xs j
      (elim h [ inl l ↦ inl (omega arith) | inr u ↦ inr (omega arith) ])
    ∙ update_other mem s x j (elim h [ inl l ↦ (λ e. omega arith) | inr u ↦ (λ e. omega arith) ])

copy_to-Holds :
    (mem : ℕ → ℕ) (s p : ℕ) (xs : Bytes)
    → s % 4096 ≡ p % 4096
    → s + length xs ≤ 4096
    → Holds (copy_to mem s xs) p xs
unfolding copy_to Holds
copy_to-Holds mem s p [] e h = tt
copy_to-Holds mem s p (x ∷ xs) e h =
    let same : p % 4096 ≡ s = omega arith in
    (
      ap (copy_to (update mem s x) (suc s) xs) same
          ∙ (copy_to_outside (update mem s x) (suc s) xs s (inl (omega arith))
              ∙ update_same mem s x),
      copy_to-Holds (update mem s x) (suc s) (suc p) xs (omega arith) (omega arith),
    )

-- `avail` is the room up to the end of the ring, or at least there is room for the text.
unfoldable pub HasRoom : ℕ → ℕ → ℕ → Type 0
HasRoom pos avail n = (avail ≡ 4096 - pos) ⊎ ((n ≤ avail) × (pos + n ≤ 4096))

-- A text written to the ring: it stands there, the 4096 bytes from its end back to it but for its
-- own are untouched, and the next text is written behind it.
pub record Written (mem : ℕ → ℕ) (p : ℕ) (xs : Bytes) (r : (ℕ → ℕ) × ℕ × ℕ) : Type 0 where
  pub holds : Holds r.0 p xs
  pub others : (q : ℕ) → q < p → p + length xs ≤ q + 4096 → r.0 (q % 4096) ≡ mem (q % 4096)
  pub in_range : r.1 ≤ 4096
  pub next : r.1 % 4096 ≡ (p + length xs) % 4096

-- A place q is outside of a text at `pos`, whose number is p, if q is in the 4096 bytes that end
-- with the text, but before it.
outside :
    (pos p q n : ℕ)
    → pos % 4096 ≡ p % 4096
    → pos + n ≤ 4096
    → q < p
    → p + n ≤ q + 4096
    → (q % 4096 < pos) ⊎ (pos + n ≤ q % 4096)
outside pos p q n e h lt le = elim (Bool-cases (ltb (q % 4096) pos)) [
  | inl w ↦ inl (ltb→lt _ _ w)
  | inr w ↦ let above : pos ≤ q % 4096 = ground arith in inr (omega arith)
]

module _ (mem : ℕ → ℕ) (pos avail p : ℕ) (xs : Bytes) (hp : pos ≤ 4096) (e : pos % 4096 ≡ p % 4096)
    (hx : length xs ≤ 4096) where
  fits-Written :
      pos + length xs ≤ 4096
      → Written mem p xs (copy_to mem pos xs, pos + length xs, avail - length xs)
  fits-Written h = record {
    holds = copy_to-Holds mem pos p xs e h;
    others = λ q lt le. copy_to_outside mem pos xs _ (outside pos p q (length xs) e h lt le);
    in_range = h;
    next = omega arith;
  }

  wraps-Written :
      avail ≡ 4096 - pos
      → avail < length xs
      → Written mem p xs (
        copy_to (copy_to mem pos (take avail xs)) 0 (drop avail xs),
        length xs - avail,
        table_size_max - length xs,
      )
  wraps-Written ha lt =
      let first : length (take avail xs) ≡ avail = omega (arith, length-take avail xs) in
      let second : length (drop avail xs) ≡ length xs - avail = length-drop avail xs in
      let mem1 = copy_to mem pos (take avail xs) in
      let mem2 = copy_to mem1 0 (drop avail xs) in
      let kept : Holds mem2 p (take avail xs) =
        Holds-agree mem1 mem2 p (take avail xs)
          (λ q l u. copy_to_outside mem1 0 (drop avail xs) (q % 4096) (inr (omega arith)))
          (copy_to-Holds mem pos p (take avail xs) e (omega arith)) in
      let rest : Holds mem2 (p + length (take avail xs)) (drop avail xs) =
        copy_to-Holds mem1 0 _ (drop avail xs) (omega arith) (omega arith) in
      record {
        holds =
            subst (Holds mem2 p) (take-append-drop avail xs)
              (Holds-append mem2 p (take avail xs) (drop avail xs) kept rest);
        others = λ q lt' le.
            copy_to_outside mem1 0 (drop avail xs) (q % 4096) (inr (omega arith))
            ∙ copy_to_outside mem pos (take avail xs) (q % 4096) (inl (omega arith));
        in_range = omega arith;
        next = omega arith;
      }

-- Writing a text to the ring.
pub put_text-Written :
    (mem : ℕ → ℕ) (pos avail p : ℕ) (xs : Bytes)
    → pos ≤ 4096
    → pos % 4096 ≡ p % 4096
    → length xs ≤ 4096
    → HasRoom pos avail (length xs)
    → Written mem p xs (put_text mem pos avail xs)
unfolding put_text HasRoom
put_text-Written mem pos avail p xs hp e hx r = elim (Bool-cases (leb (length xs) avail)) [
  | inl w ↦
      let le = leb→le (length xs) avail w in
      let ends : pos + length xs ≤ 4096 = elim r [ inl a ↦ omega arith | inr a ↦ a.1 ] in
      rw w (fits-Written mem pos avail p xs hp e hx ends)
  | inr w ↦
      let lt : avail < length xs = ground arith in
      let exact : avail ≡ 4096 - pos = elim r [ inl a ↦ a | inr a ↦ absurd (omega arith) ] in
      rw w (wraps-Written mem pos avail p xs hp e hx exact lt)
]

-- The room that a text leaves for the next one is enough if both fit the ring.
pub put_text-HasRoom :
    (mem : ℕ → ℕ) (pos n : ℕ) (xs : Bytes)
    → pos ≤ 4096
    → length xs + n ≤ 4096
    → let r = put_text mem pos (4096 - pos) xs in HasRoom r.1 r.2 n
unfolding put_text HasRoom
put_text-HasRoom mem pos n xs hp h = elim (Bool-cases (leb (length xs) (4096 - pos))) [
  | inl w ↦ rw w (inl (omega arith))
  | inr w ↦ let lt : 4096 - pos < length xs = ground arith in rw w (inr (omega arith, omega arith))
]
