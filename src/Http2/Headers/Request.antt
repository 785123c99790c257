-- ===== src/Http2/Headers/Request.antt =====
-- src/KHttp2.cpp: the header block of a request, from `add_method` and `add_header` to the stream of
-- the server.
use khttpd.Http2.Headers.Meant.{
  fields_of-Meant, known, named, Meant, fields_of, Fits, add_all, request_block, Header,
  request_fields,
}
use khttpd.Http2.Headers.Delivered.{Delivered}
use khttpd.Http2.Headers.Loop.{octets_of}
use khttpd.Http2.Headers.Written.{
  add_method-Writes, add_named_header-Writes, add_known_header-Writes, add_named_header_upgrade,
  method_text, Writes,
}
use khttpd.Http2.Headers.Names.{to_lower, low_case}
use khttpd.Http2.Headers.Items.{field_in, octets, IsItem, Item}
use khttpd.Http2.Table.Fields.{Field}
use khttpd.Http2.Headers.Reader.{Reader}
use khttpd.Http2.Headers.Send.{add_named_header, is_upgrade, add_known_header, Method}
use khttpd.Base.{
  append_assoc, ◌∙◌, inr, ap₂, append-nil, map, ◌++◌, ◌>>=◌, ◌≡◌, sym, inl, codes, ◌≤◌, ap, some,
  All, Bool-cases, Option, length, Bytes, List, refl, [], ◌∷◌,
}

-- The items that are written behind a frame.
record Items (frame : Bytes) (result : Option Bytes) (fs : List Field) : Type 0 where
  its : List Item
  right : All IsItem its
  same : map field_in its ≡ fs
  written : result ≡ some (frame ++ octets_of its)

Items-more :
    (frame : Bytes) (first : Option Bytes) (hs : List Header) (f : Field) (fs : List Field)
    → Writes frame first f
    → ((more : Bytes) → Items more (add_all more hs) fs)
    → Items frame (first >>= (λ more. add_all more hs)) (f ∷ fs)
Items-more frame first hs f fs w rest =
    let d = rest (frame ++ octets w.item) in
    record {
      its = w.item ∷ d.its;
      right = (w.right, d.right);
      same = ap₂ ◌∷◌ w.same d.same;
      written =
          rw w.written (d.written ∙ ap some (append_assoc frame (octets w.item) (octets_of d.its)));
    }

Items-named :
    (frame name val : Bytes) (hs : List Header)
    → Fits (named name val)
    → ((more : Bytes) → Items more (add_all more hs) (fields_of hs))
    → Items frame (add_all frame (named name val ∷ hs)) (fields_of (named name val ∷ hs))
unfolding add_all fields_of Fits
Items-named frame name val hs p rest = elim (Bool-cases (is_upgrade name val)) [
  | inl e ↦ rw (e, add_named_header_upgrade frame name val e) (rest frame)
  | inr e ↦ rw e (
      Items-more frame (add_named_header frame name val) hs (map to_lower name, val) (fields_of hs)
        (add_named_header-Writes frame name val e p.0 p.1 p.2) rest)
]

Items-All :
    (frame : Bytes) (hs : List Header) → All Fits hs → Items frame (add_all frame hs) (fields_of hs)
unfolding add_all fields_of Fits
Items-All frame [] p = record {
  its = [];
  right = tt;
  same = refl;
  written = ap some (sym (append-nil frame));
}
Items-All frame (known type val ∷ hs) p =
    Items-more frame (add_known_header frame type val) hs (low_case type, val) (fields_of hs)
      (add_known_header-Writes frame type val p.0.0 p.0.1) (λ more. Items-All more hs p.1)
Items-All frame (named name val ∷ hs) p =
    Items-named frame name val hs p.0 (λ more. Items-All more hs p.1)

-- The items of the block of a request
request_items :
    (m : Method) (hs : List Header)
    → length (method_text m) ≤ 4096
    → All Fits hs
    → (it : Item) × (its : List Item) × (request_block m hs ≡ some (octets_of (it ∷ its)))
      × All IsItem (it ∷ its)
      × (map field_in (it ∷ its) ≡ request_fields m hs)
unfolding request_block request_fields
request_items m hs h p =
    let w = add_method-Writes m h in
    let d = Items-All (octets w.item) hs p in
    (w.item, d.its, rw w.written d.written, (w.right, d.right), ap₂ ◌∷◌ w.same d.same)

-- For texts of at most 4096 bytes and names that are not empty, the block of a request is written. Its
-- fields are the method and the headers in their order, with their names in lower case, without the
-- named headers that are an upgrade to h2 or h2c in any case of letters.
pub request_block-items :
    (m : Method) (hs : List Header)
    → length (method_text m) ≤ 4096
    → All Fits hs
    → (it : Item) × (its : List Item) × (fs : List Field) × (request_block m hs
        ≡ some (octets_of (it ∷ its)))
      × All IsItem (it ∷ its)
      × (map field_in (it ∷ its) ≡ (codes ":method", method_text m) ∷ fs)
      × Meant hs fs
unfolding request_fields
request_block-items m hs h p =
    let q = request_items m hs h p in (q.0, q.1, fields_of hs, q.2, q.3, q.4, fields_of-Meant hs)
