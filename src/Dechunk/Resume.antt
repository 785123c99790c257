-- ===== src/Dechunk/Resume.antt =====
-- `KDechunkEngine::dechunk` on a buffer that ends early, against the same call on more bytes.
use khttpd.Base.{
  ℕ, ◌<◌, ◌≡◌, ◌≢◌, inl, inr, [], ◌∷◌, ◌++◌, none, some, refl, sym, arith, Bytes, length, take,
  drop, min, length-append, length-drop, take-append, drop-append, Bool-cases, Option-cases, ◌∙◌,
  ◌==◌, ◌-◌, if◌then◌else◌, ==-false, ==_iff,
}
use khttpd.Dechunk.{
  SizeStep-cases, read_size-line_end, read_size-next_buf, read_size-too_big, Result, success,
  continue, Outcome, status_read_end, split_line, trim_left, trailer_end, read_last, read_data,
  size_byte, size_read, read_size, read_end, dechunk, clear_prefix,
}
use khttpd.Dechunk.Words.{IsWord, OnSizeLine, size_byte-StaysOnLine}

-- How the call `o` on a first part of the input, followed by `ys`, compares with the call `whole`
-- on all of it.
abbrev ResumesBy : ℕ → Bytes → Outcome → ℕ → Bytes → Result → Type 0
ResumesBy n ys whole c rest continue = whole ≡ dechunk c n (rest ++ ys)
ResumesBy n ys whole c rest (success piece) =
    rest ≢ [] → whole ≡ record { chunk_size = c; buf = rest ++ ys; result = success piece }
ResumesBy n ys whole c rest r = whole ≡ record { chunk_size = c; buf = rest ++ ys; result = r }

abbrev pub Resumes : ℕ → Bytes → Outcome → Outcome → Type 0
Resumes n ys whole o = ResumesBy n ys whole o.chunk_size o.buf o.result

dechunk-read_size : (c n : ℕ) (buf : Bytes) → OnSizeLine c → dechunk c n buf ≡ read_size c n buf
unfolding dechunk
dechunk-read_size c n buf h = ground arith

pub dechunk-read_data :
    (c n : ℕ) (buf : Bytes) → 0 < c → c < 0x20000000 → dechunk c n buf ≡ read_data c n buf
unfolding dechunk
dechunk-read_data c n buf h k = ground arith

split_line-append_some :
    (xs ys line after : Bytes)
    → split_line xs ≡ some (line, after)
    → split_line (xs ++ ys) ≡ some (line, after ++ ys)
unfolding split_line
split_line-append_some [] ys line after e = cc
split_line-append_some (x ∷ xs) ys line after e = elim (Option-cases (split_line xs)) [
  | inl f ↦ ground (arith, f)
  | inr ((l, a), f) ↦ ground (arith, split_line-append_some xs ys l a f)
]

read_end-append_none :
    (n : ℕ) (xs ys : Bytes) → split_line xs ≡ none → read_end n (xs ++ ys) ≡ read_end n ys
unfolding read_end split_line
read_end-append_none n [] ys e = refl
read_end-append_none n (x ∷ xs) ys e = elim (Option-cases (split_line xs)) [
  | inl f ↦ ground (arith, read_end-append_none n xs ys f)
  | inr ((l, a), f) ↦ ground (arith, f)
]

read_last-Resumes : (n : ℕ) (xs ys : Bytes) → Resumes n ys (read_last (xs ++ ys)) (read_last xs)
unfolding read_last
read_last-Resumes n xs ys = elim (Option-cases (split_line xs)) [
  | inl e ↦ rw (e, read_last) (unfold dechunk in refl)
  | inr ((line, after), e) ↦
      let text = trim_left line in
      rw (split_line-append_some xs ys line after e, e, read_last)
        (elim (Bool-cases (trailer_end (text ++ b'\n' ∷ []) (length text) == 0)) [
          | inl f ↦ rw f refl
          | inr f ↦ rw f refl
        ])
]

-- What the call leaves after handing out `t` bytes of data.
abbrev pub taken_outcome : ℕ → ℕ → Bytes → Outcome
taken_outcome c t buf = record {
  chunk_size = if c - t == 0 then status_read_end else c - t;
  buf = drop t buf;
  result = success (take t buf);
}

pub read_data-taken_outcome :
    (c n t : ℕ) (buf : Bytes)
    → t ≡ min n (min c (length buf))
    → 0 < min c (length buf)
    → read_data c n buf ≡ taken_outcome c t buf
unfolding read_data
read_data-taken_outcome c n t buf e h = elim (Bool-cases (min c (length buf) == 0)) [
  | inl f ↦ absurd (omega (arith, (==_iff (min c (length buf)) 0).0 f))
  | inr f ↦ rw (f, e) refl
]

min_zero : (c : ℕ) → min c 0 ≡ 0
min_zero c = omega arith

length_pos : (xs : Bytes) → xs ≢ [] → 0 < length xs
length_pos [] h = absurd (h refl)
length_pos (x ∷ xs) h = omega arith

length_zero : (xs : Bytes) → length xs ≡ 0 → xs ≡ []
length_zero [] h = refl
length_zero (x ∷ xs) h = absurd (omega arith)

module _ (c n : ℕ) (xs ys : Bytes) (h : 0 < c) (k : c < 0x20000000) where
  read_data-append :
      (t : ℕ)
      → t ≡ min n (min c (length xs))
      → t < length xs
      → 0 < min c (length xs)
      → read_data c n (xs ++ ys) ≡ record {
        chunk_size = if c - t == 0 then status_read_end else c - t;
        buf = drop t xs ++ ys;
        result = success (take t xs);
      }
  read_data-append t e l p =
      read_data-taken_outcome c n t (xs ++ ys) (omega (arith, length-append xs ys))
        (omega (arith, length-append xs ys))
      ∙ rw (drop-append t xs ys (omega arith), take-append t xs ys (omega arith))

  read_data-Resumes : Resumes n ys (read_data c n (xs ++ ys)) (read_data c n xs)
  read_data-Resumes = elim (Bool-cases (min c (length xs) == 0)) [
    | inl e ↦
        let empty = length_zero xs (omega (arith, (==_iff (min c (length xs)) 0).0 e)) in
        rw empty (unfold read_data in rw (min_zero c) (sym (dechunk-read_data c n ys h k)))
    | inr e ↦
        let pos : 0 < min c (length xs) = omega (arith, ==-false (min c (length xs)) 0 e) in
        let t = min n (min c (length xs)) in
        rw (read_data-taken_outcome c n t xs refl pos) (λ ne.
          read_data-append t refl (omega (arith, length_pos (drop t xs) ne, length-drop t xs)) pos)
  ]

size_read-Resumes :
    (c n : ℕ) (xs ys : Bytes) → Resumes n ys (size_read c n (xs ++ ys)) (size_read c n xs)
unfolding size_read
size_read-Resumes c n xs ys = elim (Bool-cases (clear_prefix c == 0)) [
  | inl e ↦ rw e (read_last-Resumes n xs ys)
  | inr e ↦ rw e (
      read_data-Resumes (clear_prefix c) n xs ys (omega (arith, ==-false (clear_prefix c) 0 e))
        (omega arith))
]

read_size-Resumes :
    (c n : ℕ) (xs ys : Bytes)
    → OnSizeLine c
    → Resumes n ys (read_size c n (xs ++ ys)) (read_size c n xs)
read_size-Resumes c n [] ys h = unfold read_size in sym (dechunk-read_size c n ys h)
read_size-Resumes c n (ch ∷ xs) ys h = elim (SizeStep-cases (size_byte c ch)) [
  | inl e ↦
      rw (read_size-line_end c ch n (xs ++ ys) e, read_size-line_end c ch n xs e)
        (size_read-Resumes c n xs ys)
  | inr (inl (c', e)) ↦
      rw (read_size-next_buf c ch n (xs ++ ys) e, read_size-next_buf c ch n xs e)
        (read_size-Resumes c' n xs ys (rw e at (size_byte-StaysOnLine c ch h)))
  | inr (inr e) ↦ rw (read_size-too_big c ch n (xs ++ ys) e, read_size-too_big c ch n xs e) refl
]

read_end-Resumes : (n : ℕ) (xs ys : Bytes) → Resumes n ys (read_end n (xs ++ ys)) (read_end n xs)
read_end-Resumes n xs ys = elim (Option-cases (split_line xs)) [
  | inl e ↦
      rw (read_end-append_none n xs ys e)
        (unfold read_end in rw (e, read_end) (unfold dechunk in refl))
  | inr ((line, after), e) ↦
      unfold read_end in
      rw (split_line-append_some xs ys line after e, e, read_end)
        (read_size-Resumes 0 n after ys (inl refl))
]

-- A call on the first part of the input loses nothing by the break. Where it asks for more, calling
-- again on what it left and the bytes that follow gives exactly the call on all of the input. Where
-- it ends, fails or reports a trailer line, the call on all of the input does the same and leaves
-- the bytes that follow too. So it is for a piece of data that does not use up the first part.
pub dechunk-Resumes :
    (c n : ℕ) (xs ys : Bytes) → IsWord c → Resumes n ys (dechunk c n (xs ++ ys)) (dechunk c n xs)
dechunk-Resumes c n xs ys (inl h) = elim (Bool-cases (c == 0)) [
  | inl e ↦
      let unread : OnSizeLine c = inl ((==_iff c 0).0 e) in
      rw (dechunk-read_size c n (xs ++ ys) unread, dechunk-read_size c n xs unread)
        (read_size-Resumes c n xs ys unread)
  | inr e ↦
      let pos : 0 < c = omega (arith, ==-false c 0 e) in
      rw (dechunk-read_data c n (xs ++ ys) pos h, dechunk-read_data c n xs pos h)
        (read_data-Resumes c n xs ys pos h)
]
dechunk-Resumes c n xs ys (inr (inl h)) =
    rw (dechunk-read_size c n (xs ++ ys) (inr h), dechunk-read_size c n xs (inr h))
      (read_size-Resumes c n xs ys (inr h))
dechunk-Resumes c n xs ys (inr (inr (inl h))) = rw h (unfold dechunk in read_end-Resumes n xs ys)
dechunk-Resumes c n xs ys (inr (inr (inr (inl h)))) =
    rw h (unfold dechunk in read_last-Resumes n xs ys)
dechunk-Resumes c n xs ys (inr (inr (inr (inr (inl h))))) = rw h (unfold dechunk in refl)
dechunk-Resumes c n xs ys (inr (inr (inr (inr (inr h))))) = rw h (unfold dechunk in refl)
