-- ===== src/Http2/Headers/Process.antt =====
-- src/KHttp2.cpp: the handlers behind a whole field, `state_process_header` and
-- `state_header_complete`, in a server.
use khttpd.Http2.Headers.Reader.{
  enhance_your_calm, header_block, header_complete, Stream, Reader, Step, go, closed, out_of_fuel,
  end_headers, bytes_of,
}
use khttpd.Http2.Headers.Frames.{state_skip_padded, state_complete, handle_continuation}
use khttpd.Base.{
  ℕ, ◌+◌, ◌%◌, ◌^◌, true, false, ◌||◌, not, Option, none, some, List, [], ◌∷◌, ◌++◌, ltb, ◌==◌,
  if◌then◌else◌, ◌>>=◌, Bytes, length, codes, same_text,
}
use khttpd.Http2.Table.{add_header}

-- `construct_cookie_header`: the cookies joined into one header.
unfoldable pub join_cookies : List Bytes → Bytes
join_cookies [] = []
join_cookies (c ∷ []) = c
join_cookies (c ∷ d ∷ cs) = c ++ (b';' ∷ b' ' ∷ join_cookies (d ∷ cs))

unfoldable pub cookie_header : List Bytes → Stream → Stream
unfolding join_cookies
cookie_header [] s = s
cookie_header (c ∷ cs) s = record s {
  headers = s.headers ++ (codes "cookie", join_cookies (c ∷ cs)) ∷ [];
}

unfoldable pub construct_cookie_header : Stream → Stream
unfolding cookie_header
construct_cookie_header s = cookie_header s.cookies s

-- The fiber starts with the first header block, a later one is a trailer.
unfoldable pub with_fiber : Stream → Stream
with_fiber s =
    if s.parsed_header then s else record s { parsed_header = true; started = s.started + 1 }

unfoldable pub finished : Stream → Stream
unfolding construct_cookie_header with_fiber
finished s = with_fiber (construct_cookie_header s)

-- `on_header_success` of a server. The stream is let go of but where it is not available.
unfoldable pub on_header_success : Stream → Reader → Reader
unfolding finished
on_header_success s r =
    if s.rst || s.destroy_by_http2
    then r
    else record r { stream = none; released = some (finished s) }

unfoldable pub block_done : Option Stream → Reader → Reader
unfolding on_header_success
block_done none r = r
block_done (some s) r = on_header_success s r

unfoldable pub after_block : Reader → Bytes → Step
unfolding state_skip_padded state_complete
after_block r pos = if not (r.padding == 0) then state_skip_padded r pos else state_complete r pos

unfoldable pub state_header_complete : Reader → Bytes → Step
unfolding handle_continuation block_done after_block
state_header_complete r pos =
    if not (r.len == 0)
    then go (record r { handler = header_block }) pos
    else if not (end_headers r)
    then handle_continuation header_complete r pos
    else after_block (block_done r.stream r) pos

-- The end of `state_process_header`: where the header goes.
unfoldable pub deliver : Stream → Option Bytes → Option Bytes → Stream
deliver s none v = s
deliver s (some n) none = s
deliver s (some n) (some v) =
    if same_text n (codes "cookie")
    then record s { cookies = s.cookies ++ v ∷ [] }
    else record s { headers = s.headers ++ (n, v) ∷ [] }

unfoldable pub hand_over : Reader → Reader
unfolding deliver
hand_over r = elim r.stream [
  | none ↦ r
  | some s ↦
      if s.rst || s.destroy_by_http2 then r else record r { stream = some (deliver s r.name r.val) }
]

-- A header to be indexed goes to the dynamic table.
unfoldable pub index_header : Reader → Option Reader
index_header r =
    if r.index
    then (do
      t ← add_header (bytes_of r.name) (bytes_of r.val) r.hpack
      some (record r { hpack = t; index = false }))
    else some r

unfoldable pub header_indexed : Option Reader → Bytes → Step
unfolding hand_over
header_indexed none pos = out_of_fuel
header_indexed (some r) pos = state_header_complete (hand_over r) pos

-- `state_process_header` with `parse_name` off: first the value, where the field is one.
unfoldable pub value_taken : Reader → Reader
value_taken r = if r.parse_value then record r { parse_value = false; val = r.field } else r

-- `state.header_length`, in 32 bits, with the texts of the header
unfoldable pub length_added : Reader → ℕ
length_added r = (r.header_length + length (bytes_of r.name) + length (bytes_of r.val)) % 2 ^ 32

unfoldable pub process_header : Reader → Bytes → Step
unfolding length_added index_header header_indexed
process_header r pos =
    let r' = record r { header_length = length_added r } in
    if ltb 1048576 (length_added r)
    then closed enhance_your_calm
    else header_indexed (index_header r') pos

unfoldable pub process_value : Reader → Bytes → Step
unfolding value_taken process_header
process_value r pos = process_header (value_taken r) pos
