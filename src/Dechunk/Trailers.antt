-- ===== src/Dechunk/Trailers.antt =====
-- The lines behind the last chunk, as the case KHTTPD_CHUNK_STATUS_READ_LAST takes them.
use khttpd.Base.{
  ℕ, zero, suc, ◌+◌, ◌≤◌, ◌<◌, ◌==◌, ◌≡◌, refl, if◌then◌else◌, true, false, [], ◌∷◌, ◌++◌, Bytes,
  length, take, get_or, arith, length-append, ap, ◌∙◌, append_assoc,
}
use khttpd.Dechunk.{
  trailer, end, status_is_end, status_read_last, dechunk, trim_left, is_space, read_last,
  trailer_end,
}
use khttpd.Dechunk.Sizes.{NoNewline}
use khttpd.Dechunk.Lines.{IsBlank, IsBlank-NoNewline, split_line-NoNewline}

trim_left-append :
    (blank : Bytes) (c : ℕ) (rest : Bytes)
    → IsBlank blank
    → is_space c ≡ false
    → trim_left (blank ++ c ∷ rest) ≡ c ∷ rest
unfolding trim_left
trim_left-append [] c rest h e = rw e refl
trim_left-append (b ∷ blank) c rest h e = rw (h.0.0) (trim_left-append blank c rest h.1 e)

trailer_end_skip :
    (s : Bytes) (k n m : ℕ)
    → m ≡ k + n
    → ((j : ℕ) → n < j → j ≤ m → is_space (get_or s j 0) ≡ true)
    → trailer_end s m ≡ trailer_end s n
unfolding trailer_end
trailer_end_skip s zero n m e h = ap (trailer_end s) (omega arith)
trailer_end_skip s (suc k) n zero e h = absurd (omega arith)
trailer_end_skip s (suc k) n (suc m) e h =
    rw (h (suc m) (omega arith) (omega arith))
      (trailer_end_skip s k n m (omega arith) (λ j lo hi. h j lo (omega arith)))

trailer_end_stop : (s : Bytes) (n : ℕ) → is_space (get_or s n 0) ≡ false → trailer_end s n ≡ n
unfolding trailer_end
trailer_end_stop s zero e = refl
trailer_end_stop s (suc n) e = rw e refl

get_or-length : (core rest : Bytes) (d : ℕ) → get_or (core ++ d ∷ rest) (length core) 0 ≡ d
get_or-length [] rest d = refl
get_or-length (c ∷ core) rest d = get_or-length core rest d

blank_line :
    (after : Bytes) (j : ℕ)
    → IsBlank after
    → j ≤ length after
    → is_space (get_or (after ++ b'\n' ∷ []) j 0) ≡ true
blank_line [] zero b h = refl
blank_line [] (suc j) b h = absurd (omega arith)
blank_line (c ∷ after) zero b h = b.0.0
blank_line (c ∷ after) (suc j) b h = blank_line after j b.1 (omega arith)

behind_core :
    (core after : Bytes) (d j : ℕ)
    → IsBlank after
    → length core < j
    → j ≤ length core + length after + 1
    → is_space (get_or (core ++ d ∷ (after ++ b'\n' ∷ [])) j 0) ≡ true
behind_core [] after d zero b lo hi = absurd (omega arith)
behind_core [] after d (suc j) b lo hi = blank_line after j b (omega arith)
behind_core (c ∷ core) after d zero b lo hi = absurd (omega arith)
behind_core (c ∷ core) after d (suc j) b lo hi =
    behind_core core after d j b (omega arith) (omega arith)

trailer_end-core :
    (core after : Bytes) (d : ℕ)
    → IsBlank after
    → is_space d ≡ false
    → trailer_end ((core ++ d ∷ after) ++ b'\n' ∷ []) (length (core ++ d ∷ after)) ≡ length core
trailer_end-core core after d b e =
    let s = core ++ d ∷ (after ++ b'\n' ∷ []) in
    rw (append_assoc core (d ∷ after) (b'\n' ∷ [])) (
      trailer_end_skip s (suc (length after)) (length core) (length (core ++ d ∷ after))
        (omega (arith, length-append core (d ∷ after)))
        (λ j lo hi. behind_core core after d j b lo (omega (arith, length-append core (d ∷ after))))
      ∙ trailer_end_stop s (length core) (rw (get_or-length core (after ++ b'\n' ∷ []) d) e))

plus_one : (n : ℕ) → n + 1 ≡ suc n
plus_one n = omega arith

take_core :
    (core after : Bytes) (d : ℕ) → take (length core + 1) (core ++ d ∷ after) ≡ core ++ d ∷ []
take_core core after d = rw (plus_one (length core)) (go core)
  where
    go : (core : Bytes) → take (suc (length core)) (core ++ d ∷ after) ≡ core ++ d ∷ []
    go [] = refl
    go (x ∷ xs) = ap (◌∷◌ x) (go xs)

NoNewline-append : (xs ys : Bytes) → NoNewline xs → NoNewline ys → NoNewline (xs ++ ys)
NoNewline-append [] ys h k = k
NoNewline-append (x ∷ xs) ys h k = (h.0, NoNewline-append xs ys h.1 k)

abbrev pub StartsVisible : Bytes → Type 0
StartsVisible [] = Unit
StartsVisible (c ∷ cs) = is_space c ≡ false

trim_left_visible :
    (blank core after : Bytes) (d : ℕ)
    → IsBlank blank
    → StartsVisible (core ++ d ∷ [])
    → trim_left (blank ++ (core ++ d ∷ after)) ≡ core ++ d ∷ after
trim_left_visible blank [] after d b v = trim_left-append blank d after b v
trim_left_visible blank (c ∷ core) after d b v = trim_left-append blank c (core ++ d ∷ after) b v

read_last_line :
    (line rest core after : Bytes) (d : ℕ)
    → NoNewline line
    → trim_left line ≡ core ++ d ∷ after
    → IsBlank after
    → is_space d ≡ false
    → read_last (line ++ b'\n' ∷ rest) ≡ (
        if length core == 0
        then record { chunk_size = status_is_end; buf = rest; result = end }
        else record {
          chunk_size = status_read_last;
          buf = rest;
          result = trailer (core ++ d ∷ []);
        })
unfolding read_last
read_last_line line rest core after d h e b v =
    rw (split_line-NoNewline line rest h, read_last)
      (rw (e, trailer_end-core core after d b v, take_core core after d) refl)

-- A line behind the last chunk, which is not blank and whose text between the white space at its
-- ends is `core` and a last byte `d`, is handed out as a trailer field, without that white space,
-- if `core` is not empty. A text of one byte ends the message instead, as a blank line does,
-- whatever the byte.
pub dechunk-trailer :
    (n : ℕ) (blank core after rest : Bytes) (d : ℕ)
    → IsBlank blank
    → IsBlank after
    → NoNewline core
    → StartsVisible (core ++ d ∷ [])
    → is_space d ≡ false
    → dechunk status_read_last n ((blank ++ (core ++ d ∷ after)) ++ b'\n' ∷ rest) ≡ (
        if length core == 0
        then record { chunk_size = status_is_end; buf = rest; result = end }
        else record {
          chunk_size = status_read_last;
          buf = rest;
          result = trailer (core ++ d ∷ []);
        })
unfolding dechunk
dechunk-trailer n blank core after rest d b a k v e =
    read_last_line (blank ++ (core ++ d ∷ after)) rest core after d
      (NoNewline-append blank (core ++ d ∷ after) (IsBlank-NoNewline blank b) (
        NoNewline-append core (d ∷ after) k
          ((λ q. ground (arith, q, e)), IsBlank-NoNewline after a)))
      (trim_left_visible blank core after d b v) a e
