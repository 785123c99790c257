-- ===== src/Http2/Headers/Tests.antt =====
-- Runs of the header blocks, and their theorems at concrete inputs.
use khttpd.Http2.Headers.Meant.{named, Meant, known, Fits, request_block, Header}
use khttpd.Http2.Headers.Oversize.{state_field_len-oversize}
use khttpd.Http2.Headers.Steps.{coded}
use khttpd.Http2.Headers.Delivered.{Delivered}
use khttpd.Http2.Headers.Response.{add_status-item}
use khttpd.Http2.Table.Fields.{Field}
use khttpd.Http2.Table.Runs.{zeroed}
use khttpd.Http2.Headers.Loop.{octets_of}
use khttpd.Http2.Headers.Block.{state_field_len}
use khttpd.Http2.Headers.Names.{low_case, http2_index}
use khttpd.Http2.Headers.Request.{request_block-items}
use khttpd.Http2.Headers.Items.{field_in, inserted, octets, listed, IsItem, Item}
use khttpd.Http2.Integers.Lengths.{TextLength-all, TextLength}
use khttpd.Http2.Headers.Send.{get, add_status}
use khttpd.Http2.Headers.Reader.{go, header_block, Reader, Stream}
use khttpd.Base.{
  ◌-◌, zero, suc, length, ◌++◌, map, none, codes, some, arith, All, false, Bytes, ℕ, List, ◌≡◌,
  refl, [], ◌∷◌,
}

content_length_index : http2_index 5 ≡ 28
unfolding http2_index low_case
content_length_index = refl

range_index : http2_index 19 ≡ 0
unfolding http2_index low_case
range_index = refl

-- GET with a known header, one of the client's own and two cookies
abbrev some_headers : List Header
some_headers =
    known 5 (codes "12")
    ∷ named (codes "Ab") (codes "c")
    ∷ named (codes "Cookie") (codes "x")
    ∷ known 30 (codes "y")
    ∷ []

abbrev some_block : Bytes
some_block = 130 ∷ 92 ∷ 2 ∷ 49 ∷ 50 ∷ 0 ∷ 2 ∷ 97 ∷ 98 ∷ 1 ∷ 99 ∷ 96 ∷ 1 ∷ 120 ∷ 96 ∷ 1 ∷ 121 ∷ []

abbrev new_stream : Stream
new_stream = record {
  rst = false;
  destroy_by_http2 = false;
  parsed_header = false;
  cookies = [];
  headers = [];
  started = 0;
}

abbrev reader_of : ℕ → Reader
reader_of n = record {
  sid = 1;
  len = n;
  padding = 0;
  flags = 4;
  parse_name = false;
  parse_value = false;
  index = false;
  field_state = 0;
  field_rest = 0;
  field = none;
  name = none;
  val = none;
  header_length = 0;
  buffer = [];
  handler = header_block;
  stream = some new_stream;
  released = none;
  hpack = zeroed;
}

some_headers_fit : All Fits some_headers
unfolding Fits
some_headers_fit = (
  (omega arith, omega arith),
  (
    (omega arith, omega arith, omega arith),
    ((omega arith, omega arith, omega arith), ((omega arith, omega arith), tt)),
  ),
)

request_block-items_example :
    (it : Item) × (its : List Item) × (fs : List Field) × (request_block get some_headers
      ≡ some (octets_of (it ∷ its)))
    × All IsItem (it ∷ its)
    × (map field_in (it ∷ its) ≡ (codes ":method", codes "GET") ∷ fs)
    × Meant some_headers fs
request_block-items_example = request_block-items get some_headers (omega arith) some_headers_fit

-- A block of one field from the static table and one with both texts.
abbrev short_text : TextLength 1
short_text = TextLength-all 1 (omega arith)

abbrev two_items : List Item
two_items =
    listed 2 (codes ":method", codes "POST")
    ∷ inserted 3 (codes ":path", codes "/") (codes "a") short_text
    ∷ []

add_status-item_example :
    (it : Item) × (add_status (7 ∷ []) 416 ≡ octets it ++ 7 ∷ [])
    × IsItem it
    × (field_in it ≡ (codes ":status", codes "416"))
add_status-item_example = add_status-item (7 ∷ []) 4 1 6 (omega arith) (omega arith) (omega arith)

repeated : ℕ → Bytes
repeated zero = []
repeated (suc n) = b'a' ∷ repeated n

length-repeated : (n : ℕ) → length (repeated n) ≡ n
unfolding repeated
length-repeated zero = refl
length-repeated (suc n) = omega (arith, length-repeated n)

large_text : TextLength (length (repeated 4097))
large_text = TextLength-all (length (repeated 4097)) (omega (arith, length-repeated 4097))

state_field_len-oversize_example :
    state_field_len go
      (reader_of (length (coded (repeated 4097) large_text)))
      (coded (repeated 4097) large_text ++ 7 ∷ [])
    ≡ go
        (record (reader_of (length (coded (repeated 4097) large_text))) {
          len =
              length (coded (repeated 4097) large_text) - length (coded (repeated 4097) large_text);
          field_rest = 0;
        })
        (7 ∷ [])
state_field_len-oversize_example =
    state_field_len-oversize go (reader_of (length (coded (repeated 4097) large_text)))
      (repeated 4097) (7 ∷ []) large_text refl (omega (arith, length-repeated 4097)) (omega arith)
