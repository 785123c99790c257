-- ===== src/Http2/Headers/Literals.antt =====
-- src/KHttp2.cpp: one turn of `state_header_block` reads one literal field of a header block.
use khttpd.Http2.Headers.Turns.{
  kind_of_inserted, process_value_off, kind_of_plain, listed-Turn, static_header, turn_by, Turn,
  value_taken_on,
}
use khttpd.Http2.Headers.Found.{IsOpen-along, Found-step, Found}
use khttpd.Http2.Integers.RoundTrip.{parse_int_short}
use khttpd.Http2.Integers.Lengths.{TextLength}
use khttpd.Http2.Table.Shows.{Shows}
use khttpd.Http2.Headers.Process.{process_header, process_value, state_header_complete}
use khttpd.Http2.Headers.Steps.{text_step, text_read, coded, IsOpen}
use khttpd.Http2.Table.Fields.{insert, texts_of, Field}
use khttpd.Http2.Headers.Reader.{bytes_of, Step, Stream, Reader}
use khttpd.Http2.Headers.Block.{
  literal_field, state_field_len, state_process_header, incremental, mark, prefix_bits, not_indexed,
  field_of, state_header_block,
}
use khttpd.Http2.Headers.Items.{
  plain, inserted, listed, field_in, given, octets, Between, Item, IsItem,
}
use khttpd.Http2.Table.{prepare, get_indexed_header}
use khttpd.Base.{
  append_assoc, subst, suc, length-append, ap, ◌∙◌, if◌then◌else◌, length, ◌-◌, ◌≤◌, arith, ◌==◌,
  false, true, ◌++◌, some, ◌∷◌, List, ◌+◌, Bool, ◌<◌, Bytes, ℕ, ◌≡◌, refl,
}

-- A header of which the name is known and the value is next.
record Named (r : Reader) (s : Stream) (name : Bytes) (len sum limit : ℕ) (fs : List Field)
    : Type 0 where
  takes : IsOpen r s
  no_padding : r.padding ≡ 0
  left : r.len ≡ len
  read : r.header_length ≡ sum
  no_name : r.parse_name ≡ false
  name_is : r.name ≡ some name
  value_due : r.parse_value ≡ true
  shows : Shows 0 0 (prepare r.hpack) fs
  within : (prepare r.hpack).size ≡ limit

value_step :
    (next : Reader → Bytes → Step) (r : Reader) (s : Stream) (name text : Bytes)
    (l : TextLength (length text)) (len sum limit : ℕ) (fs : List Field) (rest : Bytes)
    → ((r' : Reader) → r'.parse_name ≡ false → next r' rest ≡ process_value r' rest)
    → Named r s name len sum limit fs
    → length (coded text l) ≤ len
    → length text ≤ 4096
    → sum + texts_of (name, text) ≤ 1048576
    → (ix : Bool) → r.index ≡ ix
    → (r' : Reader) × (state_field_len next r (coded text l ++ rest)
        ≡ state_header_complete r' rest)
      × Between r'
          (given s (name, text))
          (len - length (coded text l))
          (sum + texts_of (name, text))
          limit
          (if ix then insert limit (name, text) fs else fs)
unfolding process_value
value_step next r s name text l len sum limit fs rest on h fits short small ix e =
    let n = r.len - length (coded text l) in
    let r1 = text_read r n text in
    let r2 = record r1 { parse_value = false; val = some text } in
    let found : Found r2 s (name, text) (len - length (coded text l)) sum limit fs = record {
      takes = IsOpen-along r r2 s refl refl h.takes;
      no_padding = h.no_padding;
      left = ap (λ k. k - length (coded text l)) h.left;
      read = h.read;
      no_name = h.no_name;
      name_is = h.name_is;
      value_is = refl;
      no_value = refl;
      shows = h.shows;
      within = h.within;
    } in
    let d =
      Found-step r2 s (name, text) (len - length (coded text l)) sum limit fs rest found small ix
        e in
    (
      d.0,
      text_step next r s text rest l h.takes short (omega (arith, h.left))
          ∙ on r1 h.no_name
          ∙ ap (λ x. process_header x rest) (value_taken_on r1 h.value_due)
          ∙ d.1,
      d.2,
    )

-- A literal of which the name stands in the static table, and one with both texts.
named_field_by :
    (r : Reader) (f : Field) (i : ℕ) (pos : Bytes)
    → get_indexed_header r.hpack (1 + i) true (bytes_of r.name, bytes_of r.val) ≡ some f
    → literal_field r (1 + i) pos
      ≡ state_field_len state_process_header
          (record r { name = some f.0; val = some f.1; parse_value = true })
          pos
unfolding literal_field
named_field_by r f i pos e =
    let positive : (1 + i == 0) ≡ false = ground arith in rw (positive, e) refl

inserted-Turn :
    (r : Reader) (s : Stream) (i len sum limit : ℕ) (f : Field) (text : Bytes)
    (l : TextLength (length text)) (fs : List Field) (rest : Bytes)
    → Between r s len sum limit fs
    → IsItem (inserted i f text l)
    → suc (length (coded text l)) ≤ len
    → sum + texts_of (f.0, text) ≤ 1048576
    → Turn state_header_block r s (inserted i f text l) len sum limit fs rest
unfolding IsItem field_of prefix_bits mark
inserted-Turn r s i len sum limit f text l fs rest b it fits small =
    let more = coded text l ++ rest in
    let r1 = record r { index = true; len = r.len - 1 } in
    let r2 = record r1 { name = some f.0; val = some f.1; parse_value = true } in
    let t = static_header r.hpack i true (bytes_of r.name, bytes_of r.val) f it.0 it.1 in
    let first =
      parse_int_short 6 (65 + i) (1 + i) r.len more (omega arith) (omega arith)
        (omega (arith, b.left)) in
    let named : Named r2 s f.0 (len - 1) sum limit fs = record {
      takes = IsOpen-along r r2 s refl refl b.takes;
      no_padding = b.no_padding;
      left = ap (λ k. k - 1) b.left;
      read = b.read;
      no_name = b.no_name;
      name_is = refl;
      value_due = refl;
      shows = b.shows;
      within = b.within;
    } in
    let d =
      value_step state_process_header r2 s f.0 text l (len - 1) sum limit fs rest
        (λ r' e. process_value_off r' rest e) named (omega arith) it.2 small true refl in
    let left : len - 1 - length (coded text l) ≡ len - suc (length (coded text l)) = omega arith in
    (
      d.0,
      turn_by r s (65 + i) (1 + i) (r.len - 1) incremental more more b.takes
            (kind_of_inserted i it.0) first
          ∙ named_field_by r1 f i more t
          ∙ d.1,
      subst
          (λ n.
            Between d.0 (given s (f.0, text)) n (sum + texts_of (f.0, text)) limit
              (insert limit (f.0, text) fs))
          left d.2,
    )

plain_field_by :
    (r : Reader) (pos : Bytes)
    → literal_field r 0 pos
      ≡ state_field_len state_process_header
          (record r { parse_name = true; parse_value = true })
          pos
unfolding literal_field
plain_field_by r pos = refl

-- Behind the name of a literal comes its value.
name_then :
    (r : Reader) (name pos : Bytes)
    → r.parse_name ≡ true
    → r.field ≡ some name
    → 0 < length name
    → state_process_header r pos
      ≡ state_field_len process_value (record r { parse_name = false; name = some name }) pos
unfolding state_process_header
name_then r name pos e f h =
    let some_name : (length name == 0) ≡ false = ground arith in rw (e, f, some_name) refl

plain-Turn :
    (r : Reader) (s : Stream) (len sum limit : ℕ) (name text : Bytes) (k : TextLength (length name))
    (l : TextLength (length text)) (fs : List Field) (rest : Bytes)
    → Between r s len sum limit fs
    → IsItem (plain name text k l)
    → suc (length (coded name k ++ coded text l)) ≤ len
    → sum + texts_of (name, text) ≤ 1048576
    → Turn state_header_block r s (plain name text k l) len sum limit fs rest
unfolding IsItem field_of prefix_bits mark
plain-Turn r s len sum limit name text k l fs rest b it fits small =
    let both = length-append (coded name k) (coded text l) in
    let more = coded text l ++ rest in
    let r1 = record r { len = r.len - 1 } in
    let r2 = record r1 { parse_name = true; parse_value = true } in
    let n = r.len - 1 - length (coded name k) in
    let r3 = text_read r2 n name in
    let r4 = record r3 { parse_name = false; name = some name } in
    let named : Named r4 s name (len - 1 - length (coded name k)) sum limit fs = record {
      takes = IsOpen-along r r4 s refl refl b.takes;
      no_padding = b.no_padding;
      left = ap (λ j. j - 1 - length (coded name k)) b.left;
      read = b.read;
      no_name = refl;
      name_is = refl;
      value_due = refl;
      shows = b.shows;
      within = b.within;
    } in
    let first =
      parse_int_short 4 0 0 r.len (coded name k ++ more) (omega arith) (omega arith)
        (omega (arith, b.left)) in
    let d =
      value_step process_value r4 s name text l (len - 1 - length (coded name k)) sum limit fs rest
        (λ r' e. refl) named (omega arith) it.2 small false b.no_index in
    let left : len - 1 - length (coded name k) - length (coded text l)
        ≡ len - suc (length (coded name k ++ coded text l)) =
      omega arith in
    (
      d.0,
      ap (λ bs. state_header_block r (0 ∷ bs)) (append_assoc (coded name k) (coded text l) rest)
          ∙ turn_by r s 0 0 (r.len - 1) not_indexed (coded name k ++ more) (coded name k ++ more)
              b.takes kind_of_plain first
          ∙ plain_field_by r1 (coded name k ++ more)
          ∙ text_step state_process_header r2 s name more k (IsOpen-along r r2 s refl refl b.takes)
              it.1 (omega (arith, b.left))
          ∙ name_then r3 name more refl refl it.0
          ∙ d.1,
      subst (λ n. Between d.0 (given s (name, text)) n (sum + texts_of (name, text)) limit fs) left
          d.2,
    )

-- One turn of the handler reads one field, whatever its form.
pub item-Turn :
    (r : Reader) (s : Stream) (it : Item) (len sum limit : ℕ) (fs : List Field) (rest : Bytes)
    → Between r s len sum limit fs
    → IsItem it
    → length (octets it) ≤ len
    → sum + texts_of (field_in it) ≤ 1048576
    → Turn state_header_block r s it len sum limit fs rest
item-Turn r s (listed i f) len sum limit fs rest b it fits small =
    listed-Turn r s i len sum limit f fs rest b it fits small
item-Turn r s (inserted i f text l) len sum limit fs rest b it fits small =
    inserted-Turn r s i len sum limit f text l fs rest b it fits small
item-Turn r s (plain name text k l) len sum limit fs rest b it fits small =
    plain-Turn r s len sum limit name text k l fs rest b it fits small
