-- ===== src/Http2/Headers/Written.antt =====
-- src/KHttp2.cpp, include/KHttp2WriteBuffer.h: what `add_method`, `add_status` and `add_header` write
-- is a field of a header block.
use khttpd.Http2.Headers.Known.{Place-of, low_case-length}
use khttpd.Http2.Headers.Names.{http2_index, header_cookie, to_lower, same_case, low_case}
use khttpd.Http2.Table.Static.{static_table}
use khttpd.Http2.Headers.Steps.{coded}
use khttpd.Http2.Table.Fields.{Field}
use khttpd.Http2.Integers.Lengths.{TextLength-all, TextLength}
use khttpd.Http2.Headers.Items.{listed, inserted, octets, field_in, plain, Item, IsItem}
use khttpd.Http2.Headers.Send.{
  post, is_upgrade, get, add_header_cookie, add_named_header, add_method, add_known_header, other,
  write_literal, write_incremental, write_text, Method,
}
use khttpd.Base.{
  length-map, inr, ==_iff, and_parts, sym, ◌&&◌, same_text→eq, inl, if◌then◌else◌, map, false, true,
  ◌==◌, Bool-cases, Bool, append_assoc, ap, ◌+◌, ◌∙◌, arith, codes, get_elem?, some, ◌++◌, ◌≤◌, ◌<◌,
  ◌≡◌, length, Option, ℕ, Bytes, refl, [], ◌∷◌,
}

-- What an operation on a frame writes: the field, behind what the frame has.
pub record Writes (frame : Bytes) (result : Option Bytes) (f : Field) : Type 0 where
  pub item : Item
  pub right : IsItem item
  pub same : field_in item ≡ f
  pub written : result ≡ some (frame ++ octets item)

text_length : (text : Bytes) → length text ≤ 4096 → TextLength (length text)
text_length text h = TextLength-all (length text) (omega arith)

write_text-coded :
    (frame text : Bytes) (l : TextLength (length text))
    → write_text frame text ≡ some (frame ++ coded text l)
unfolding write_text
write_text-coded frame text l = rw l.written refl

write_incremental-Writes :
    (frame : Bytes) (i : ℕ) (f : Field) (val : Bytes)
    → i < 61
    → get_elem? static_table i ≡ some f
    → length val ≤ 4096
    → Writes frame (write_incremental frame (1 + i) val) (f.0, val)
unfolding write_incremental IsItem
write_incremental-Writes frame i f val h e v =
    let l = text_length val v in
    let octet : 64 + (1 + i) ≡ 65 + i = omega arith in
    record {
      item = inserted i f val l;
      right = (h, e, v);
      same = refl;
      written = rw octet (
          write_text-coded (frame ++ (65 + i) ∷ []) val l
          ∙ ap some (append_assoc frame ((65 + i) ∷ []) (coded val l)));
    }

write_literal-Writes :
    (frame name val : Bytes)
    → 0 < length name
    → length name ≤ 4096
    → length val ≤ 4096
    → Writes frame (write_literal frame name val) (name, val)
unfolding write_literal IsItem
write_literal-Writes frame name val p n v =
    let l = text_length name n in
    let k = text_length val v in
    let first = write_text-coded (frame ++ 0 ∷ []) name l in
    record {
      item = plain name val l k;
      right = (p, n, v);
      same = refl;
      written = rw first (
          write_text-coded (frame ++ 0 ∷ [] ++ coded name l) val k
          ∙ ap some (
              append_assoc (frame ++ 0 ∷ []) (coded name l) (coded val k)
              ∙ append_assoc frame (0 ∷ []) (coded name l ++ coded val k)));
    }

along :
    {frame : Bytes} {result : Option Bytes} {f f' : Field}
    → f ≡ f'
    → Writes frame result f
    → Writes frame result f'
along e w = record { item = w.item; right = w.right; same = w.same ∙ e; written = w.written }

-- The method, on a new frame.
abbrev pub method_text : Method → Bytes
method_text get = codes "GET"
method_text post = codes "POST"
method_text (other text) = text

pub add_method-Writes :
    (m : Method)
    → length (method_text m) ≤ 4096
    → Writes [] (add_method m) (codes ":method", method_text m)
unfolding add_method IsItem
add_method-Writes get h = record {
  item = listed 1 (codes ":method", codes "GET");
  right = (omega arith, refl);
  same = refl;
  written = refl;
}
add_method-Writes post h = record {
  item = listed 2 (codes ":method", codes "POST");
  right = (omega arith, refl);
  same = refl;
  written = refl;
}
add_method-Writes (other text) h =
    write_incremental-Writes [] 1 (codes ":method", codes "GET") text (omega arith) refl h

add_header_cookie-Writes :
    (frame val : Bytes)
    → length val ≤ 4096
    → Writes frame (add_header_cookie frame val) (codes "cookie", val)
unfolding add_header_cookie
add_header_cookie-Writes frame val h =
    write_incremental-Writes frame 31 (codes "cookie", []) val (omega arith) refl h

known_cookie : low_case header_cookie ≡ codes "cookie"
unfolding low_case
known_cookie = refl

add_known_by :
    (frame : Bytes) (type : ℕ) (val : Bytes)
    → type < 35
    → length val ≤ 4096
    → (no_place : Bool) → (http2_index type == 0) ≡ no_place
    → Writes frame
        (if no_place
          then write_literal frame (low_case type) val
          else write_incremental frame (http2_index type) val)
        (low_case type, val)
add_known_by frame type val t h true e =
    let n = low_case-length type t in write_literal-Writes frame (low_case type) val n.0 n.1 h
add_known_by frame type val t h false e =
    let p = Place-of type t e in
    rw p.index_is (
      along (ap (λ n. (n, val)) p.its_name)
        (write_incremental-Writes frame p.at p.entry val p.below p.found h))

-- A known header is written under its name in lower case.
pub add_known_header-Writes :
    (frame : Bytes) (type : ℕ) (val : Bytes)
    → type < 35
    → length val ≤ 4096
    → Writes frame (add_known_header frame type val) (low_case type, val)
unfolding add_known_header
add_known_header-Writes frame type val t h = elim (Bool-cases (type == header_cookie)) [
  | inl e ↦ rw e (
      along
        (ap (λ n. (n, val))
          (sym known_cookie ∙ ap low_case (sym ((==_iff type header_cookie).0 e))))
        (add_header_cookie-Writes frame val h))
  | inr e ↦ rw e (add_known_by frame type val t h (http2_index type == 0) refl)
]

same_case_name :
    (name : Bytes) → same_case name (codes "cookie") ≡ true → map to_lower name ≡ codes "cookie"
unfolding same_case to_lower
same_case_name name e = same_text→eq (map to_lower name) (codes "cookie") e

-- Any other header is written under its name in lower case, but the upgrade to HTTP/2, which is not
-- written.
pub add_named_header-Writes :
    (frame name val : Bytes)
    → is_upgrade name val ≡ false
    → 0 < length name
    → length name ≤ 4096
    → length val ≤ 4096
    → Writes frame (add_named_header frame name val) (map to_lower name, val)
unfolding add_named_header
add_named_header-Writes frame name val u p n v =
    elim (Bool-cases (length name == 6 && same_case name (codes "cookie"))) [
      | inl e ↦ rw e (
          along (ap (λ m. (m, val)) (sym (same_case_name name (and_parts _ _ e).1)))
            (add_header_cookie-Writes frame val v))
      | inr e ↦
          rw (e, u)
            (write_literal-Writes frame (map to_lower name) val
              (omega (arith, length-map to_lower name)) (omega (arith, length-map to_lower name)) v)
    ]

-- The upgrade to HTTP/2 is not written.
pub add_named_header_upgrade :
    (frame name val : Bytes)
    → is_upgrade name val ≡ true
    → add_named_header frame name val ≡ some frame
unfolding add_named_header is_upgrade
add_named_header_upgrade frame name val e =
    let seven = (==_iff (length name) 7).0 (and_parts _ _ (and_parts _ _ e).0).0 in
    let six : (length name == 6) ≡ false = ground arith in rw (six, e) refl
