-- ===== src/Http2/Headers/Turns.antt =====
-- src/KHttp2.cpp: one turn of `state_header_block` reads one field of a header block.
use khttpd.Http2.Headers.Found.{IsOpen-along, Found-step, Found}
use khttpd.Http2.Integers.RoundTrip.{parse_int_short}
use khttpd.Http2.Headers.Process.{process_header, process_value, value_taken, state_header_complete}
use khttpd.Http2.Table.Static.{static_table}
use khttpd.Http2.Integers.{value, parse_int}
use khttpd.Http2.Headers.Steps.{IsOpen}
use khttpd.Http2.Table.Fields.{texts_of, Field}
use khttpd.Http2.Headers.Reader.{bytes_of, Step, Stream, Reader}
use khttpd.Http2.Headers.Block.{
  indexed_field, state_process_header, indexed, incremental, mark, prefix_bits, Kind, not_indexed,
  field_of, state_header_block, kind_of,
}
use khttpd.Http2.Headers.Items.{
  listed, fields_after, field_in, given, octets, Between, Item, IsItem,
}
use khttpd.Http2.Table.{Hpack, get_indexed_header}
use khttpd.Base.{
  ap, ◌∙◌, length, ◌-◌, ltb, ◌≤◌, arith, ◌==◌, false, true, ◌++◌, some, leb, ◌∷◌, get_elem?, List,
  ◌+◌, Bool, ◌<◌, Bytes, ℕ, ◌≡◌, refl,
}

-- What one turn of the handler does with a field: the header is complete, and the stream has it.
abbrev pub Turn :
    (Reader → Bytes → Step)
    → Reader
    → Stream
    → Item
    → (len sum limit : ℕ) → List Field
    → Bytes
    → Type 0
Turn turn r s it len sum limit fs rest =
    (r' : Reader) × (turn r (octets it ++ rest) ≡ state_header_complete r' rest)
    × Between r' (given s (field_in it)) (len - length (octets it)) (sum + texts_of (field_in it))
        limit (fields_after limit it fs)

pub static_header :
    (t : Hpack) (i : ℕ) (name_only : Bool) (header f : Field)
    → i < 61
    → get_elem? static_table i ≡ some f
    → get_indexed_header t (1 + i) name_only header ≡ some f
unfolding get_indexed_header
static_header t i b header f h e =
    let positive : (1 + i == 0) ≡ false = ground arith in
    let low : ltb (1 + i - 1) 61 ≡ true = ground arith in
    let same : 1 + i - 1 ≡ i = omega arith in rw (positive, low, same) e

-- The bits of the first octet
kind_of_listed : (i : ℕ) → i < 61 → kind_of (129 + i) ≡ indexed
unfolding kind_of
kind_of_listed i h = let a : leb 128 (129 + i) ≡ true = ground arith in rw a refl

pub kind_of_inserted : (i : ℕ) → i < 61 → kind_of (65 + i) ≡ incremental
unfolding kind_of
kind_of_inserted i h =
    let a : leb 128 (65 + i) ≡ false = ground arith in
    let b : leb 64 (65 + i) ≡ true = ground arith in rw (a, b) refl

pub kind_of_plain : kind_of 0 ≡ not_indexed
unfolding kind_of
kind_of_plain = refl

-- A turn behind the first octet.
pub turn_by :
    (r : Reader) (s : Stream) (ch v len : ℕ) (k : Kind) (more rest : Bytes)
    → IsOpen r s
    → kind_of ch ≡ k
    → parse_int (prefix_bits k) r.len (ch ∷ more) ≡ value v len rest
    → state_header_block r (ch ∷ more) ≡ field_of k (mark k r) (value v len rest) (ch ∷ more)
unfolding state_header_block
turn_by r s ch v len k more rest o e f = rw (e, o.whole, f) refl

pub process_value_off :
    (r : Reader) (pos : Bytes)
    → r.parse_name ≡ false
    → state_process_header r pos ≡ process_value r pos
unfolding state_process_header
process_value_off r pos e = rw e refl

value_taken_off : (r : Reader) → r.parse_value ≡ false → value_taken r ≡ r
unfolding value_taken
value_taken_off r e = rw e refl

pub value_taken_on :
    (r : Reader)
    → r.parse_value ≡ true
    → value_taken r ≡ record r { parse_value = false; val = r.field }
unfolding value_taken
value_taken_on r e = rw e refl

indexed_field_by :
    (r : Reader) (f : Field) (v : ℕ) (pos : Bytes)
    → get_indexed_header r.hpack v false (bytes_of r.name, bytes_of r.val) ≡ some f
    → indexed_field r v pos
      ≡ state_process_header (record r { name = some f.0; val = some f.1 }) pos
unfolding indexed_field
indexed_field_by r f v pos e = rw (indexed_field, e) refl

pub listed-Turn :
    (r : Reader) (s : Stream) (i len sum limit : ℕ) (f : Field) (fs : List Field) (rest : Bytes)
    → Between r s len sum limit fs
    → IsItem (listed i f)
    → 1 ≤ len
    → sum + texts_of f ≤ 1048576
    → Turn state_header_block r s (listed i f) len sum limit fs rest
unfolding IsItem field_of prefix_bits mark process_value
listed-Turn r s i len sum limit f fs rest b it fits small =
    let r1 = record r { len = r.len - 1 } in
    let r2 = record r1 { name = some f.0; val = some f.1 } in
    let t = static_header r.hpack i false (bytes_of r.name, bytes_of r.val) f it.0 it.1 in
    let first =
      parse_int_short 7 (129 + i) (1 + i) r.len rest (omega arith) (omega arith)
        (omega (arith, b.left)) in
    let found : Found r2 s f (len - 1) sum limit fs = record {
      takes = IsOpen-along r r2 s refl refl b.takes;
      no_padding = b.no_padding;
      left = ap (λ k. k - 1) b.left;
      read = b.read;
      no_name = b.no_name;
      name_is = refl;
      value_is = refl;
      no_value = b.no_value;
      shows = b.shows;
      within = b.within;
    } in
    let d = Found-step r2 s f (len - 1) sum limit fs rest found small false b.no_index in
    (
      d.0,
      turn_by r s (129 + i) (1 + i) (r.len - 1) indexed rest rest b.takes (kind_of_listed i it.0)
            first
          ∙ indexed_field_by r1 f (1 + i) rest t
          ∙ process_value_off r2 rest b.no_name
          ∙ ap (λ x. process_header x rest) (value_taken_off r2 b.no_value)
          ∙ d.1,
      d.2,
    )
