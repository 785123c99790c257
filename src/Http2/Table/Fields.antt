-- ===== src/Http2/Table/Fields.antt =====
-- What the dynamic table of HPACK is to be, RFC 7541, section 4: a list of header fields, the oldest
-- first, whose costs do not exceed a limit, as the oldest are evicted.
use khttpd.Base.{
  inr, inl, ℕ, ◌+◌, ◌-◌, ◌≤◌, ◌<◌, arith, ◌≡◌, refl, true, false, Bool-cases, leb→le, ltb, leb,
  if◌then◌else◌, List, [], ◌∷◌, ◌++◌, Bytes, length,
}

abbrev pub Field : Type 0
Field = Bytes × Bytes

abbrev pub texts_of : Field → ℕ
texts_of f = length f.0 + length f.1

abbrev pub cost : Field → ℕ
cost f = 32 + texts_of f

abbrev pub texts : List Field → ℕ
texts [] = 0
texts (f ∷ fs) = texts_of f + texts fs

abbrev pub total : List Field → ℕ
total [] = 0
total (f ∷ fs) = cost f + total fs

-- The fields that are left when the oldest are evicted until the costs are within `room`.
unfoldable pub keep_within : ℕ → List Field → List Field
keep_within room [] = []
keep_within room (f ∷ fs) =
    let rest = keep_within room fs in if leb (total (f ∷ fs)) room then f ∷ fs else rest

-- A field is added: one that alone exceeds the limit empties the table.
unfoldable pub insert : ℕ → Field → List Field → List Field
unfolding keep_within
insert limit f fs = if ltb limit (cost f) then [] else keep_within (limit - cost f) fs ++ f ∷ []

pub texts_bound : (fs : List Field) → texts fs ≤ total fs
texts_bound [] = omega arith
texts_bound (f ∷ fs) = omega (arith, texts_bound fs)

pub length_bound : (fs : List Field) → length fs ≤ total fs
length_bound [] = omega arith
length_bound (f ∷ fs) = omega (arith, length_bound fs)

pub keep_within-bound : (room : ℕ) (fs : List Field) → total (keep_within room fs) ≤ room
unfolding keep_within
keep_within-bound room [] = omega arith
keep_within-bound room (f ∷ fs) = elim (Bool-cases (leb (total (f ∷ fs)) room)) [
  | inl w ↦ rw w (leb→le _ _ w)
  | inr w ↦ rw w (keep_within-bound room fs)
]

pub keep_within_all : (room : ℕ) (fs : List Field) → total fs ≤ room → keep_within room fs ≡ fs
unfolding keep_within
keep_within_all room [] h = refl
keep_within_all room (f ∷ fs) h =
    let w : leb (total (f ∷ fs)) room ≡ true = ground arith in rw w refl

pub keep_within_evict :
    (room : ℕ) (f : Field) (fs : List Field)
    → room < total (f ∷ fs)
    → keep_within room (f ∷ fs) ≡ keep_within room fs
unfolding keep_within
keep_within_evict room f fs h =
    let w : leb (total (f ∷ fs)) room ≡ false = ground arith in rw w refl

pub texts-append : (fs gs : List Field) → texts (fs ++ gs) ≡ texts fs + texts gs
texts-append [] gs = omega arith
texts-append (f ∷ fs) gs = omega (arith, texts-append fs gs)

pub total-append : (fs gs : List Field) → total (fs ++ gs) ≡ total fs + total gs
total-append [] gs = omega arith
total-append (f ∷ fs) gs = omega (arith, total-append fs gs)

pub insert_refused :
    (limit : ℕ) (f : Field) (fs : List Field) → limit < cost f → insert limit f fs ≡ []
unfolding insert
insert_refused limit f fs h = let w : ltb limit (cost f) ≡ true = ground arith in rw w refl

pub insert_kept :
    (limit : ℕ) (f : Field) (fs : List Field)
    → cost f ≤ limit
    → insert limit f fs ≡ keep_within (limit - cost f) fs ++ f ∷ []
unfolding insert
insert_kept limit f fs h = let w : ltb limit (cost f) ≡ false = ground arith in rw w refl
