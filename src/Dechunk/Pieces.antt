-- ===== src/Dechunk/Pieces.antt =====
-- What a call of `KDechunkEngine::dechunk` consumes and hands out.
use khttpd.Base.{
  ℕ, ◌≤◌, ◌<◌, ◌≡◌, inl, inr, [], ◌∷◌, ◌++◌, some, refl, sym, ap, arith, Bytes, length, min,
  length-take, take-append-drop, Bool-cases, Option-cases, ◌∙◌, ◌==◌, ==-false, append_assoc,
  append-nil, ◌||◌,
}
use khttpd.Dechunk.{
  SizeStep-cases, read_size-line_end, read_size-next_buf, read_size-too_big, Result, success,
  continue, trailer, end, failed, status_read_end, status_read_last, status_is_end,
  status_is_failed, split_line, trim_left, trailer_end, read_last, read_data, size_byte, size_read,
  read_size, read_end, dechunk, clear_prefix, is_part_size, status_read_size,
}

-- What a result says of the bytes `buf` that a call was given and those that it left, `rest`.
abbrev pub Accounts : ℕ → Bytes → Bytes → Result → Type 0
Accounts n buf rest (success piece) =
    (skipped : Bytes) × (buf ≡ skipped ++ (piece ++ rest)) × (0 < length piece) × (length piece ≤ n)
Accounts n buf rest _ = (skipped : Bytes) × (buf ≡ skipped ++ rest)

Accounts-cons :
    (n ch : ℕ) (buf rest : Bytes) (r : Result)
    → Accounts n buf rest r
    → Accounts n (ch ∷ buf) rest r
Accounts-cons n ch buf rest (success p) (s, e, a, b) = (ch ∷ s, ap (◌∷◌ ch) e, a, b)
Accounts-cons n ch buf rest (trailer p) (s, e) = (ch ∷ s, ap (◌∷◌ ch) e)
Accounts-cons n ch buf rest continue (s, e) = (ch ∷ s, ap (◌∷◌ ch) e)
Accounts-cons n ch buf rest end (s, e) = (ch ∷ s, ap (◌∷◌ ch) e)
Accounts-cons n ch buf rest failed (s, e) = (ch ∷ s, ap (◌∷◌ ch) e)

Accounts-append :
    (n : ℕ) (before buf rest : Bytes) (r : Result)
    → Accounts n buf rest r
    → Accounts n (before ++ buf) rest r
Accounts-append n [] buf rest r h = h
Accounts-append n (x ∷ before) buf rest r h =
    Accounts-cons n x (before ++ buf) rest r (Accounts-append n before buf rest r h)

pub split_line-append :
    (buf line after : Bytes) → split_line buf ≡ some (line, after) → buf ≡ line ++ b'\n' ∷ after
unfolding split_line
split_line-append [] line after e = cc
split_line-append (c ∷ cs) line after e = elim (Option-cases (split_line cs)) [
  | inl f ↦ ground (arith, f)
  | inr ((l, a), f) ↦ ground (arith, split_line-append cs l a f)
]

read_last-Accounts :
    (n : ℕ) (buf : Bytes) → Accounts n buf (read_last buf).buf (read_last buf).result
unfolding read_last
read_last-Accounts n buf = elim (Option-cases (split_line buf)) [
  | inl e ↦ rw (e, read_last) ([], refl)
  | inr ((line, after), e) ↦
      let consumed =
        split_line-append buf line after e ∙ sym (append_assoc line (b'\n' ∷ []) after) in
      let text = trim_left line in
      rw (e, read_last)
        (elim (Bool-cases (trailer_end (text ++ b'\n' ∷ []) (length text) == 0)) [
          | inl f ↦ rw f (line ++ b'\n' ∷ [], consumed)
          | inr f ↦ rw f (line ++ b'\n' ∷ [], consumed)
        ])
]

read_data-Accounts :
    (c n : ℕ) (buf : Bytes)
    → 0 < n
    → Accounts n buf (read_data c n buf).buf (read_data c n buf).result
unfolding read_data
read_data-Accounts c n buf h = elim (Bool-cases (min c (length buf) == 0)) [
  | inl e ↦ rw e ([], refl)
  | inr e ↦ rw e (
    [],
    sym (take-append-drop (min n (min c (length buf))) buf),
    omega (arith, length-take (min n (min c (length buf))) buf, ==-false (min c (length buf)) 0 e),
    omega (arith, length-take (min n (min c (length buf))) buf),
  )
]

size_read-Accounts :
    (c n : ℕ) (buf : Bytes)
    → 0 < n
    → Accounts n buf (size_read c n buf).buf (size_read c n buf).result
unfolding size_read
size_read-Accounts c n buf h = elim (Bool-cases (clear_prefix c == 0)) [
  | inl e ↦ rw e (read_last-Accounts n buf)
  | inr e ↦ rw e (read_data-Accounts (clear_prefix c) n buf h)
]

read_size-Accounts :
    (c n : ℕ) (buf : Bytes)
    → 0 < n
    → Accounts n buf (read_size c n buf).buf (read_size c n buf).result
read_size-Accounts c n [] h = unfold read_size in ([], refl)
read_size-Accounts c n (ch ∷ rest) h = elim (SizeStep-cases (size_byte c ch)) [
  | inl e ↦
      rw (read_size-line_end c ch n rest e)
        (Accounts-cons n ch rest _ (size_read c n rest).result (size_read-Accounts c n rest h))
  | inr (inl (c', e)) ↦
      rw (read_size-next_buf c ch n rest e)
        (Accounts-cons n ch rest _ (read_size c' n rest).result (read_size-Accounts c' n rest h))
  | inr (inr e) ↦ rw (read_size-too_big c ch n rest e) ([], refl)
]

read_end-Accounts :
    (n : ℕ) (buf : Bytes) → 0 < n → Accounts n buf (read_end n buf).buf (read_end n buf).result
unfolding read_end
read_end-Accounts n buf h = elim (Option-cases (split_line buf)) [
  | inl e ↦ rw (e, read_end) (buf, sym (append-nil buf))
  | inr ((line, after), e) ↦
      rw (e, read_end, split_line-append buf line after e)
        (Accounts-append n line _ _ (read_size 0 n after).result (
          Accounts-cons n b'\n' after _ (read_size 0 n after).result
            (read_size-Accounts 0 n after h)))
]

-- Every call with room for a piece leaves a suffix of the bytes that it was given, whatever its
-- result is. Where it succeeds, the piece stands directly before what is left, and is neither empty
-- nor longer than the room `n`: the caller's loop makes progress.
pub dechunk-Accounts :
    (c n : ℕ) (buf : Bytes) → 0 < n → Accounts n buf (dechunk c n buf).buf (dechunk c n buf).result
unfolding dechunk
dechunk-Accounts c n buf h = elim (Bool-cases (c == status_is_failed)) [
  | inl e ↦ rw e ([], refl)
  | inr e ↦ rw e (elim (Bool-cases (c == status_is_end)) [
    | inl f ↦ rw f ([], refl)
    | inr f ↦ rw f (elim (Bool-cases (c == status_read_last)) [
      | inl g ↦ rw g (read_last-Accounts n buf)
      | inr g ↦ rw g (elim (Bool-cases (c == status_read_end)) [
        | inl k ↦ rw k (read_end-Accounts n buf h)
        | inr k ↦ rw k (elim (Bool-cases (c == status_read_size || is_part_size c)) [
          | inl l ↦ rw l (read_size-Accounts c n buf h)
          | inr l ↦ rw l (read_data-Accounts c n buf h)
        ])
      ])
    ])
  ])
]
