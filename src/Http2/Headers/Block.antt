-- ===== src/Http2/Headers/Block.antt =====
-- src/KHttp2.cpp: the handlers of the fields of a header block and the loop of `on_read_result` over
-- them. The rest of the handlers on the way from `state_field_len` to `state_process_header` is the
-- parameter `next`, as that one leads to `state_field_len` again behind a name.
use khttpd.Http2.Headers.Reader.{
  protocol_error, size_error, comp_error, Handler, head, skip, header_block, header_complete,
  field_len, field_raw, field_huff, field_skip, Stream, Reader, Step, go, closed, out_of_fuel,
  end_headers, bytes_of,
}
use khttpd.Http2.Headers.Frames.{state_save, state_skip, handle_continuation}
use khttpd.Http2.Headers.Process.{state_header_complete, process_value}
use khttpd.Base.{
  ℕ, zero, suc, ◌-◌, min, Bool, true, false, ◌&&◌, not, Option, none, some, [], ◌∷◌, ◌++◌, ltb, leb,
  ◌==◌, if◌then◌else◌, Bytes, length, take, drop,
}
use khttpd.Huffman.Decode.{huff_decode}
use khttpd.Http2.Integers.{IntResult, value, error, declined, again, parse_int, int_octets}
use khttpd.Http2.Table.{Hpack, table_size, get_indexed_header}

-- The bytes of the field that are there and belong to the frame.
unfoldable pub field_size : Reader → Bytes → ℕ
field_size r pos = min (min (length pos) r.field_rest) r.len

unfoldable pub consume : ℕ → Reader → Reader
consume size r = record r { len = r.len - size; field_rest = r.field_rest - size }

-- The end of `state_field_raw` and its like: on to the header, wait for more, or read a further frame.
unfoldable pub field_end : Handler → (Reader → Bytes → Step) → Reader → Bytes → Step
field_end h next r pos =
    if r.field_rest == 0
    then next r pos
    else if not (r.len == 0)
    then state_save h r pos
    else if end_headers r
    then closed size_error
    else handle_continuation h r pos

unfoldable pub state_field_raw : (Reader → Bytes → Step) → Reader → Bytes → Step
unfolding field_size consume field_end
state_field_raw next r pos =
    let size = field_size r pos in
    field_end field_raw next
      (record (consume size r) { field = some (bytes_of r.field ++ take size pos) }) (drop size pos)

unfoldable pub state_field_skip : (Reader → Bytes → Step) → Reader → Bytes → Step
unfolding field_size consume field_end
state_field_skip next r pos =
    let size = field_size r pos in field_end field_skip next (consume size r) (drop size pos)

unfoldable pub huff_decoded : (Reader → Bytes → Step) → Option (ℕ × Bytes) → Reader → Bytes → Step
unfolding field_end
huff_decoded next none r pos = closed comp_error
huff_decoded next (some (state, text)) r pos =
    field_end field_huff next (record r { field_state = state; field = some text }) pos

unfoldable pub state_field_huff : (Reader → Bytes → Step) → Reader → Bytes → Step
unfolding field_size consume huff_decoded
state_field_huff next r pos =
    let size = field_size r pos in
    let r' = consume size r in
    huff_decoded next
      (huff_decode r.field_state (take size pos) (bytes_of r.field) (r'.field_rest == 0)) r'
      (drop size pos)

-- Whether the stream is gone, so that a field need not be kept.
unfoldable pub no_stream : Option Stream → Bool
no_stream none = true
no_stream (some s) = s.destroy_by_http2

-- `state_field_len` behind `parse_int`; `huff` is the first bit.
unfoldable pub field_begin : (Reader → Bytes → Step) → Bool → Reader → IntResult → Bytes → Step
unfolding no_stream
field_begin next huff r (value v len rest) pos =
    let r' = record r { len = len; field_rest = v } in
    let start = record r' { field = some [] } in
    if ltb 4096 v
    then state_field_skip next r' rest
    else if no_stream r.stream
    then state_field_skip next r' rest
    else if huff
    then state_field_huff next start rest
    else state_field_raw next start rest
field_begin next huff r error pos = closed size_error
field_begin next huff r declined pos = closed comp_error
field_begin next huff r again pos = state_save field_len r pos

unfoldable pub state_field_len : (Reader → Bytes → Step) → Reader → Bytes → Step
unfolding field_begin
state_field_len next r pos =
    if not (end_headers r) && ltb r.len int_octets
    then handle_continuation field_len r pos
    else if ltb r.len 1
    then closed size_error
    else elim pos [
      | [] ↦ state_save field_len r []
      | c ∷ cs ↦ field_begin next (leb 128 c) r (parse_int 7 r.len (c ∷ cs)) (c ∷ cs)
    ]

-- `state_process_header`
unfoldable pub state_process_header : Reader → Bytes → Step
state_process_header r pos =
    if r.parse_name
    then (if length (bytes_of r.field) == 0
        then closed protocol_error
        else state_field_len process_value (record r { parse_name = false; name = r.field }) pos)
    else process_value r pos

-- `state_header_block` behind `parse_int`, by what its first octet announces.
unfoldable pub indexed_field : Reader → ℕ → Bytes → Step
indexed_field r v pos =
    elim (get_indexed_header r.hpack v false (bytes_of r.name, bytes_of r.val)) [
      | none ↦ closed comp_error
      | some (n, x) ↦ state_process_header (record r { name = some n; val = some x }) pos
    ]

unfoldable pub resized_table : Reader → Option (Bool × Hpack) → Bytes → Step
resized_table r none pos = out_of_fuel
resized_table r (some (false, t)) pos = closed comp_error
resized_table r (some (true, t)) pos = state_header_complete (record r { hpack = t }) pos

unfoldable pub literal_field : Reader → ℕ → Bytes → Step
literal_field r v pos =
    if v == 0
    then state_field_len state_process_header (record r { parse_name = true; parse_value = true })
        pos
    else elim (get_indexed_header r.hpack v true (bytes_of r.name, bytes_of r.val)) [
      | none ↦ closed comp_error
      | some (n, x) ↦
          state_field_len state_process_header
            (record r { name = some n; val = some x; parse_value = true }) pos
    ]

-- Which kind of field the first octet announces, with the bits of its prefix.
pub data Kind : Type 0 where
  indexed : Kind
  incremental : Kind
  size_update : Kind
  not_indexed : Kind

unfoldable pub kind_of : ℕ → Kind
kind_of ch =
    if leb 128 ch
    then indexed
    else if leb 64 ch
    then incremental
    else if leb 32 ch
    then size_update
    else not_indexed

unfoldable pub prefix_bits : Kind → ℕ
prefix_bits indexed = 7
prefix_bits incremental = 6
prefix_bits size_update = 5
prefix_bits not_indexed = 4

-- `state.index = 1` for a field with incremental indexing
unfoldable pub mark : Kind → Reader → Reader
mark indexed r = r
mark incremental r = record r { index = true }
mark size_update r = r
mark not_indexed r = r

unfoldable pub field_of : Kind → Reader → IntResult → Bytes → Step
unfolding indexed_field resized_table literal_field
field_of indexed r (value v len rest) pos = indexed_field (record r { len = len }) v rest
field_of size_update r (value v len rest) pos =
    resized_table (record r { len = len }) (table_size v r.hpack) rest
field_of incremental r (value v len rest) pos = literal_field (record r { len = len }) v rest
field_of not_indexed r (value v len rest) pos = literal_field (record r { len = len }) v rest
field_of k r error pos = closed size_error
field_of k r declined pos = closed comp_error
field_of k r again pos = state_save header_block r pos

unfoldable pub state_header_block : Reader → Bytes → Step
unfolding kind_of prefix_bits mark field_of
state_header_block r [] = state_save header_block r []
state_header_block r (ch ∷ rest) =
    let k = kind_of ch in
    if not (end_headers r) && ltb r.len int_octets
    then handle_continuation header_block r (ch ∷ rest)
    else field_of k (mark k r) (parse_int (prefix_bits k) r.len (ch ∷ rest)) (ch ∷ rest)

-- (this->*state.handler)(p, end), for the handlers of a header block.
unfoldable pub handle : Handler → Reader → Bytes → Step
handle head r pos = go r pos
handle skip r pos = state_skip r pos
handle header_block r pos = state_header_block r pos
handle header_complete r pos = state_header_complete r pos
handle field_len r pos = state_field_len state_process_header r pos
handle field_raw r pos = state_field_raw state_process_header r pos
handle field_huff r pos = state_field_huff state_process_header r pos
handle field_skip r pos = state_field_skip state_process_header r pos

unfoldable pub at_head : Handler → Bool
at_head head = true
at_head _ = false

-- `while (p != end)`, which also stops here where the header of a frame is next.
unfoldable pub next_round : (Reader → Bytes → Step) → Step → Step
unfolding at_head
next_round turn out_of_fuel = out_of_fuel
next_round turn (closed s) = closed s
next_round turn (go r []) = go r []
next_round turn (go r (b ∷ bs)) = if at_head r.handler then go r (b ∷ bs) else turn r (b ∷ bs)

-- The loop of `on_read_result` up to the header of a frame, on fuel, one for each round.
unfoldable pub read_block : ℕ → Reader → Bytes → Step
unfolding handle next_round
read_block zero r pos = out_of_fuel
read_block (suc fuel) r pos = next_round (read_block fuel) (handle r.handler r pos)
