-- ===== src/Http2/Headers/Items.antt =====
-- src/KHttp2.cpp: the fields of a header block in the three forms that `add_header` and its like
-- write, each read by one turn of `state_header_block`.
use khttpd.Http2.Integers.Lengths.{TextLength}
use khttpd.Http2.Headers.Steps.{coded, IsOpen}
use khttpd.Http2.Table.{prepare}
use khttpd.Http2.Headers.Process.{deliver}
use khttpd.Http2.Headers.Reader.{Stream, Reader}
use khttpd.Base.{
  ◌++◌, [], if◌then◌else◌, ◌≤◌, ◌∷◌, true, length, ◌+◌, false, get_elem?, some, ◌≡◌, List, ℕ, Bool,
  ◌<◌, Bytes,
}
use khttpd.Http2.Table.Static.{static_table}
use khttpd.Http2.Table.Fields.{Field, insert}
use khttpd.Http2.Table.Shows.{Shows}

-- A field of the static table by its index, less 1; one of which the name stands in the static
-- table, to be inserted into the dynamic table; and one with both texts, not indexed.
pub data Item : Type 0 where
  listed : ℕ → Field → Item
  inserted : ℕ → Field → (value : Bytes) → TextLength (length value) → Item
  plain : (name value : Bytes) → TextLength (length name) → TextLength (length value) → Item

abbrev pub octets : Item → Bytes
octets (listed i f) = (129 + i) ∷ []
octets (inserted i f value l) = (65 + i) ∷ coded value l
octets (plain name value l k) = 0 ∷ (coded name l ++ coded value k)

abbrev pub field_in : Item → Field
field_in (listed i f) = f
field_in (inserted i f value l) = (f.0, value)
field_in (plain name value l k) = (name, value)

abbrev pub inserts : Item → Bool
inserts (listed i f) = false
inserts (inserted i f value l) = true
inserts (plain name value l k) = false

unfoldable pub IsItem : Item → Type 0
IsItem (listed i f) = (i < 61) × (get_elem? static_table i ≡ some f)
IsItem (inserted i f value l) =
    (i < 61) × (get_elem? static_table i ≡ some f) × (length value ≤ 4096)
IsItem (plain name value l k) = (0 < length name) × (length name ≤ 4096) × (length value ≤ 4096)

-- The list behind the dynamic table, when the field is read.
abbrev pub fields_after : ℕ → Item → List Field → List Field
fields_after limit it fs = if inserts it then insert limit (field_in it) fs else fs

-- The reader between two fields of a block: `len` bytes of it are left, `sum` bytes of texts were
-- read, and the dynamic table shows the fields `fs` within `limit`.
pub record Between (r : Reader) (s : Stream) (len sum limit : ℕ) (fs : List Field) : Type 0 where
  pub takes : IsOpen r s
  pub no_padding : r.padding ≡ 0
  pub left : r.len ≡ len
  pub read : r.header_length ≡ sum
  pub no_name : r.parse_name ≡ false
  pub no_value : r.parse_value ≡ false
  pub no_index : r.index ≡ false
  pub shows : Shows 0 0 (prepare r.hpack) fs
  pub within : (prepare r.hpack).size ≡ limit

-- The stream when it got the header.
abbrev pub given : Stream → Field → Stream
given s f = deliver s (some f.0) (some f.1)
