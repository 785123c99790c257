-- ===== src/Http2/Headers/Meant.antt =====
-- src/KHttp2.cpp: the headers of a request as they are given to `add_method` and `add_header`, and
-- the fields that are meant.
use khttpd.Http2.Headers.Written.{method_text}
use khttpd.Http2.Headers.Names.{same_case, to_lower, low_case}
use khttpd.Http2.Table.Fields.{Field}
use khttpd.Http2.Headers.Send.{add_method, add_named_header, is_upgrade, add_known_header, Method}
use khttpd.Base.{
  leb→le, ap₂, subst, leb, ◌+◌, ==_iff, ◌||◌, ◌&&◌, ◌==◌, same_text_refl, Bool, and_parts,
  same_text→eq, ◌⊎◌, true, false, length-map, arith, ◌∙◌, inr, map, ◌>>=◌, if◌then◌else◌, ◌≡◌, sym,
  inl, codes, ◌≤◌, ap, some, Bool-cases, Option, length, ◌<◌, ℕ, Bytes, List, refl, [], ◌∷◌,
}

-- The headers of a request behind its method, as they are given to `add_header`.
pub data Header : Type 0 where
  known : (type : ℕ) → (val : Bytes) → Header
  named : (name val : Bytes) → Header

abbrev pub add_one : Bytes → Header → Option Bytes
add_one frame (known type val) = add_known_header frame type val
add_one frame (named name val) = add_named_header frame name val

unfoldable pub add_all : Bytes → List Header → Option Bytes
add_all frame [] = some frame
add_all frame (h ∷ hs) = do more ← add_one frame h; add_all more hs

unfoldable pub request_block : Method → List Header → Option Bytes
unfolding add_all
request_block m hs = do frame ← add_method m; add_all frame hs

-- The fields that are meant, with the names in lower case; an upgrade to HTTP/2 is not.
unfoldable pub fields_of : List Header → List Field
fields_of [] = []
fields_of (known type val ∷ hs) = (low_case type, val) ∷ fields_of hs
fields_of (named name val ∷ hs) =
    let rest = fields_of hs in if is_upgrade name val then rest else (map to_lower name, val) ∷ rest

unfoldable pub request_fields : Method → List Header → List Field
unfolding fields_of
request_fields m hs = (codes ":method", method_text m) ∷ fields_of hs

-- A letter from A to Z in lower case, or any other byte
abbrev pub InLowerCase : ℕ → ℕ → Type 0
InLowerCase c d = ((65 ≤ c) × (c ≤ 90) × (d ≡ c + 32)) ⊎ (((c < 65) ⊎ (90 < c)) × (d ≡ c))

abbrev pub Lowered : Bytes → Bytes → Type 0
Lowered [] [] = Unit
Lowered (c ∷ s) (d ∷ t) = InLowerCase c d × Lowered s t
Lowered _ _ = ⊥

-- An upgrade to HTTP/2, as a header of the request
abbrev pub IsUpgrade : Bytes → Bytes → Type 0
IsUpgrade name val =
    Lowered name (codes "upgrade") × (Lowered val (codes "h2") ⊎ Lowered val (codes "h2c"))

-- The fields of headers are these with their names in lower case, in their order, without the named
-- ones that are an upgrade to HTTP/2.
pub data Meant : List Header → List Field → Type 0 where
  no_more : Meant [] []
  kept_known :
      (type : ℕ) (val : Bytes) {hs : List Header} {fs : List Field}
      → Meant hs fs
      → Meant (known type val ∷ hs) ((low_case type, val) ∷ fs)
  kept :
      (name lower val : Bytes) {hs : List Header} {fs : List Field}
      → Lowered name lower
      → ¬ IsUpgrade name val
      → Meant hs fs
      → Meant (named name val ∷ hs) ((lower, val) ∷ fs)
  left_out :
      (name val : Bytes) {hs : List Header} {fs : List Field}
      → IsUpgrade name val
      → Meant hs fs
      → Meant (named name val ∷ hs) fs

outside : (c : ℕ) → (leb b'A' c && leb c b'Z') ≡ false → (c < 65) ⊎ (90 < c)
outside c e = elim (Bool-cases (leb 65 c)) [
  | inl p ↦ inr (ground arith)
  | inr p ↦ inl (ground arith)
]

to_lower-InLowerCase : (c : ℕ) → InLowerCase c (to_lower c)
unfolding to_lower
to_lower-InLowerCase c = elim (Bool-cases (leb b'A' c && leb c b'Z')) [
  | inl e ↦
      let p = and_parts (leb b'A' c) (leb c b'Z') e in
      rw e (inl (leb→le b'A' c p.0, leb→le c b'Z' p.1, refl))
  | inr e ↦ rw e (inr (outside c e, refl))
]

to_lower-Lowered : (s : Bytes) → Lowered s (map to_lower s)
to_lower-Lowered [] = tt
to_lower-Lowered (c ∷ s) = (to_lower-InLowerCase c, to_lower-Lowered s)

InLowerCase-unique : (c d e : ℕ) → InLowerCase c d → InLowerCase c e → d ≡ e
InLowerCase-unique c d e (inl p) (inl q) = omega (arith, p, q)
InLowerCase-unique c d e (inl p) (inr (inl q, r)) = omega (arith, p, q)
InLowerCase-unique c d e (inl p) (inr (inr q, r)) = omega (arith, p, q)
InLowerCase-unique c d e (inr (inl p, r)) (inl q) = omega (arith, p, q)
InLowerCase-unique c d e (inr (inr p, r)) (inl q) = omega (arith, p, q)
InLowerCase-unique c d e (inr p) (inr q) = omega (arith, p.1, q.1)

Lowered-unique : (s t u : Bytes) → Lowered s t → Lowered s u → t ≡ u
Lowered-unique [] [] [] p q = refl
Lowered-unique [] [] (x ∷ u) p q = absurd q
Lowered-unique [] (x ∷ t) u p q = absurd p
Lowered-unique (c ∷ s) [] u p q = absurd p
Lowered-unique (c ∷ s) (d ∷ t) [] p q = absurd q
Lowered-unique (c ∷ s) (d ∷ t) (e ∷ u) p q =
    ap₂ ◌∷◌ (InLowerCase-unique c d e p.0 q.0) (Lowered-unique s t u p.1 q.1)

same_case→Lowered :
    (a b lower : Bytes) → map to_lower b ≡ lower → same_case a b ≡ true → Lowered a lower
unfolding same_case
same_case→Lowered a b lower l e =
    subst (Lowered a) (same_text→eq (map to_lower a) (map to_lower b) e ∙ l) (to_lower-Lowered a)

Lowered→same_case :
    (a b lower : Bytes) → map to_lower b ≡ lower → Lowered a lower → same_case a b ≡ true
unfolding same_case
Lowered→same_case a b lower l e =
    rw (Lowered-unique a (map to_lower a) lower (to_lower-Lowered a) e, l) (same_text_refl lower)

length-Lowered : (s t : Bytes) → Lowered s t → length s ≡ length t
length-Lowered s t h =
    sym (length-map to_lower s)
    ∙ ap length (Lowered-unique s (map to_lower s) t (to_lower-Lowered s) h)

or_parts : (a b : Bool) → (a || b) ≡ true → (a ≡ true) ⊎ (b ≡ true)
or_parts true b e = inl refl
or_parts false b e = inr e

or_true : (a b : Bool) → (a ≡ true) ⊎ (b ≡ true) → (a || b) ≡ true
or_true true b h = refl
or_true false b (inl e) = absurd (ground arith)
or_true false b (inr e) = e

is_upgrade-IsUpgrade : (name val : Bytes) → is_upgrade name val ≡ true → IsUpgrade name val
unfolding is_upgrade to_lower
is_upgrade-IsUpgrade name val e =
    let n = same_case name (codes "upgrade") in
    let h2 = same_case val (codes "h2") in
    let h2c = same_case val (codes "h2c") in
    let p = and_parts (length name == 7 && n) (h2 || h2c) e in
    (
      same_case→Lowered name (codes "upgrade") (codes "upgrade") refl
          (and_parts (length name == 7) n p.0).1,
      elim (or_parts h2 h2c p.1) [
        | inl q ↦ inl (same_case→Lowered val (codes "h2") (codes "h2") refl q)
        | inr q ↦ inr (same_case→Lowered val (codes "h2c") (codes "h2c") refl q)
      ],
    )

IsUpgrade-is_upgrade : (name val : Bytes) → IsUpgrade name val → is_upgrade name val ≡ true
unfolding is_upgrade to_lower
IsUpgrade-is_upgrade name val u =
    let seven : (length name == 7) ≡ true =
      (==_iff (length name) 7).1 (length-Lowered name (codes "upgrade") u.0) in
    let named_so = Lowered→same_case name (codes "upgrade") (codes "upgrade") refl u.0 in
    let h2 = same_case val (codes "h2") in
    let h2c = same_case val (codes "h2c") in
    let either : (h2 ≡ true) ⊎ (h2c ≡ true) = elim u.1 [
      | inl q ↦ inl (Lowered→same_case val (codes "h2") (codes "h2") refl q)
      | inr q ↦ inr (Lowered→same_case val (codes "h2c") (codes "h2c") refl q)
    ] in
    rw (seven, named_so, or_true h2 h2c either) refl

not-IsUpgrade : (name val : Bytes) → is_upgrade name val ≡ false → ¬ IsUpgrade name val
not-IsUpgrade name val e u = let t = IsUpgrade-is_upgrade name val u in absurd (ground arith)

pub fields_of-Meant : (hs : List Header) → Meant hs (fields_of hs)
unfolding fields_of
fields_of-Meant [] = no_more
fields_of-Meant (known type val ∷ hs) = kept_known type val (fields_of-Meant hs)
fields_of-Meant (named name val ∷ hs) = elim (Bool-cases (is_upgrade name val)) [
  | inl e ↦ rw e (left_out name val (is_upgrade-IsUpgrade name val e) (fields_of-Meant hs))
  | inr e ↦ rw e (
      kept name (map to_lower name) val (to_lower-Lowered name) (not-IsUpgrade name val e)
        (fields_of-Meant hs))
]

-- A header that the peer's limits of 4096 bytes take.
unfoldable pub Fits : Header → Type 0
Fits (known type val) = (type < 35) × (length val ≤ 4096)
Fits (named name val) = (0 < length name) × (length name ≤ 4096) × (length val ≤ 4096)
