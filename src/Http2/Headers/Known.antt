-- ===== src/Http2/Headers/Known.antt =====
-- src/KHttpHeader.cpp, src/KHttp2.cpp: the places of the known headers in the static table.
use khttpd.Base.{
  ◌≢◌, ◌∙◌, all_below_sound, sym, leb→le, same_text→eq, ltb→lt, ap, all_below, ◌≤◌, none, and_parts,
  ◌-◌, ◌||◌, ◌==◌, same_text, leb, get_elem?, some, arith, ◌&&◌, length, false, ◌<◌, ◌+◌, Bytes,
  ltb, true, ◌≡◌, Bool, ℕ, Option, refl,
}
use mathlib.Core.Bool.{false≢true}
use khttpd.Http2.Table.Static.{static_table}
use khttpd.Http2.Table.Fields.{Field}
use khttpd.Http2.Headers.Names.{low_case, http2_index}

named_by : Option Field → Bytes → Bool
named_by none n = false
named_by (some f) n = same_text f.0 n

-- A known header stands in the static table under its own name, or has no place there.
name_right : ℕ → Bool
unfolding named_by
name_right type =
    let i = http2_index type in
    (ltb 0 (length (low_case type)) && leb (length (low_case type)) 4096)
    && (i == 0 || (ltb (i - 1) 61 && named_by (get_elem? static_table (i - 1)) (low_case type)))

names_right : all_below name_right 35 ≡ true
unfolding name_right named_by http2_index low_case
names_right = refl

-- The place of a known header.
pub record Place (type : ℕ) : Type 0 where
  pub at : ℕ
  pub entry : Field
  pub index_is : http2_index type ≡ 1 + at
  pub below : at < 61
  pub found : get_elem? static_table at ≡ some entry
  pub its_name : entry.0 ≡ low_case type

named-Place :
    (type at : ℕ) (found : Option Field)
    → get_elem? static_table at ≡ found
    → http2_index type ≡ 1 + at
    → at < 61
    → named_by found (low_case type) ≡ true
    → Place type
unfolding named_by
named-Place type at none e i h t = absurd (false≢true t)
named-Place type at (some f) e i h t = record {
  at = at;
  entry = f;
  index_is = i;
  below = h;
  found = e;
  its_name = same_text→eq f.0 (low_case type) t;
}

named_right : (type : ℕ) → type < 35 → name_right type ≡ true
named_right type h = all_below_sound name_right 35 type names_right h

pub low_case-length :
    (type : ℕ) → type < 35 → (0 < length (low_case type)) × (length (low_case type) ≤ 4096)
unfolding name_right
low_case-length type h =
    let p = and_parts _ _ (and_parts _ _ (named_right type h)).0 in (ltb→lt _ _ p.0, leb→le _ _ p.1)

pub Place-of : (type : ℕ) → type < 35 → (http2_index type == 0) ≡ false → Place type
unfolding name_right
Place-of type h e =
    let p = (and_parts _ _ (named_right type h)).1 in
    let q = and_parts _ _ (
      ap
        (λ b.
          b
          || (ltb (http2_index type - 1) 61
              && named_by (get_elem? static_table (http2_index type - 1)) (low_case type)))
        (sym e)
      ∙ p) in
    let nonzero : http2_index type ≢ 0 = ground arith in
    named-Place type (http2_index type - 1) (get_elem? static_table (http2_index type - 1)) refl
      (omega (arith, nonzero)) (ltb→lt _ _ q.0) q.1
