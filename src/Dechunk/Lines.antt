-- ===== src/Dechunk/Lines.antt =====
-- Lines of white space, and the search for a newline.
use khttpd.Base.{
  ◌==◌, ◌≡◌, ◌≢◌, refl, inl, inr, true, some, [], ◌∷◌, ◌++◌, Bytes, All, Bool-cases, ==_iff,
}
use khttpd.Dechunk.{is_space, split_line}
use khttpd.Dechunk.Sizes.{NoNewline}

-- White space that is no newline.
abbrev pub IsBlank : Bytes → Type 0
IsBlank = All (λ c. (is_space c ≡ true) × (c ≢ b'\n'))

pub split_line-NoNewline :
    (line rest : Bytes) → NoNewline line → split_line (line ++ b'\n' ∷ rest) ≡ some (line, rest)
unfolding split_line
split_line-NoNewline [] rest h = refl
split_line-NoNewline (c ∷ line) rest (ne, h) = elim (Bool-cases (c == b'\n')) [
  | inl e ↦ absurd (ne ((==_iff c b'\n').0 e))
  | inr e ↦ rw (e, split_line-NoNewline line rest h) refl
]

pub IsBlank-NoNewline : (s : Bytes) → IsBlank s → NoNewline s
IsBlank-NoNewline [] h = tt
IsBlank-NoNewline (c ∷ s) h = (h.0.1, IsBlank-NoNewline s h.1)
