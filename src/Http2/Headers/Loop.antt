-- ===== src/Http2/Headers/Loop.antt =====
-- src/KHttp2.cpp: the loop of `on_read_result` over a header block that is whole in the buffer.
use khttpd.Http2.Headers.Found.{IsOpen-along}
use khttpd.Http2.Headers.Literals.{item-Turn}
use khttpd.Http2.Table.{prepare}
use khttpd.Http2.Table.Shows.{Shows}
use khttpd.Http2.Headers.Frames.{state_complete}
use khttpd.Http2.Table.Fields.{texts_of, Field}
use khttpd.Http2.Headers.Items.{
  Between, plain, inserted, listed, field_in, fields_after, given, octets, IsItem, Item,
}
use khttpd.Http2.Headers.Steps.{IsOpen}
use khttpd.Http2.Headers.Block.{state_header_block, at_head, handle, next_round, read_block}
use khttpd.Http2.Headers.Reader.{end_headers, go, header_block, Step, head, Stream, Reader}
use khttpd.Http2.Headers.Process.{
  finished, after_block, state_header_complete, on_header_success, block_done,
}
use khttpd.Base.{
  ◌-◌, ◌≤◌, length, ◌||◌, ap, [], ◌∷◌, arith, ◌++◌, ◌==◌, suc, ◌+◌, ◌∙◌, true, false, some,
  if◌then◌else◌, none, ◌≡◌, ◌<◌, Bytes, List, ℕ, refl,
}

abbrev pub octets_of : List Item → Bytes
octets_of [] = []
octets_of (it ∷ its) = octets it ++ octets_of its

-- The headers go to the stream in their order.
unfoldable pub given_all : Stream → List Field → Stream
given_all s [] = s
given_all s (f ∷ fs) = given_all (given s f) fs

-- The fields to be inserted go to the dynamic table in their order.
unfoldable pub table_after : ℕ → List Item → List Field → List Field
table_after limit [] fs = fs
table_after limit (it ∷ its) fs = table_after limit its (fields_after limit it fs)

-- The block is read: the header of a frame is next, and the stream is let go of.
pub record BlockRead (r : Reader) (s : Stream) (limit : ℕ) (fs : List Field) : Type 0 where
  pub at_frame : r.handler ≡ head
  pub no_stream : r.stream ≡ none
  pub let_go : r.released ≡ some s
  pub shows : Shows 0 0 (prepare r.hpack) fs
  pub within : (prepare r.hpack).size ≡ limit

read_block_by :
    (fuel : ℕ) (r : Reader) (pos : Bytes)
    → r.handler ≡ header_block
    → read_block (suc fuel) r pos ≡ next_round (read_block fuel) (state_header_block r pos)
unfolding read_block handle
read_block_by fuel r pos e = rw e refl

-- A further field is read in the next round.
next_round_item :
    (turn : Reader → Bytes → Step) (r : Reader) (it : Item) (rest : Bytes)
    → r.handler ≡ header_block
    → next_round turn (go r (octets it ++ rest)) ≡ turn r (octets it ++ rest)
unfolding next_round at_head
next_round_item turn r (listed i f) rest e = rw e refl
next_round_item turn r (inserted i f text l) rest e = rw e refl
next_round_item turn r (plain name text l k) rest e = rw e refl

next_round_head :
    (turn : Reader → Bytes → Step) (r : Reader) (rest : Bytes)
    → r.handler ≡ head
    → next_round turn (go r rest) ≡ go r rest
unfolding next_round at_head
next_round_head turn r [] e = refl
next_round_head turn r (c ∷ cs) e = rw e refl

complete_more :
    (r : Reader) (pos : Bytes)
    → 0 < r.len
    → state_header_complete r pos ≡ go (record r { handler = header_block }) pos
unfolding state_header_complete
complete_more r pos h = let more : (r.len == 0) ≡ false = ground arith in rw more refl

let_go_open :
    (r : Reader) (s : Stream)
    → s.rst ≡ false
    → s.destroy_by_http2 ≡ false
    → on_header_success s r ≡ record r { stream = none; released = some (finished s) }
unfolding on_header_success
let_go_open r s e f =
    ap (λ b. if b then r else record r { stream = none; released = some (finished s) })
      (ap (λ b. b || s.destroy_by_http2) e ∙ f)

complete_whole :
    (r : Reader) (pos : Bytes)
    → r.len ≡ 0
    → end_headers r ≡ true
    → state_header_complete r pos ≡ after_block (block_done r.stream r) pos
unfolding state_header_complete
complete_whole r pos e f = rw (e, f) refl

-- The reader behind the block.
abbrev finish : Reader → Stream → Reader
finish r s = record r { handler = head; stream = none; released = some (finished s) }

after_block_done :
    (r : Reader) (s : Stream) (pos : Bytes)
    → r.padding ≡ 0
    → after_block (record r { stream = none; released = some (finished s) }) pos
      ≡ go (finish r s) pos
unfolding after_block state_complete
after_block_done r s pos e = rw e refl

complete_last :
    (r : Reader) (s : Stream) (pos : Bytes)
    → IsOpen r s
    → r.padding ≡ 0
    → r.len ≡ 0
    → state_header_complete r pos ≡ go (finish r s) pos
unfolding block_done
complete_last r s pos o p e =
    complete_whole r pos e o.whole
    ∙ ap (λ b. after_block (block_done b r) pos) o.has
    ∙ ap (λ x. after_block x pos) (let_go_open r s o.alive o.kept)
    ∙ after_block_done r s pos p

-- The last field of a block.
pub last_round :
    (r : Reader) (s : Stream) (it : Item) (sum limit : ℕ) (fs : List Field) (rest : Bytes)
    (fuel : ℕ)
    → Between r s (length (octets it)) sum limit fs
    → r.handler ≡ header_block
    → IsItem it
    → sum + texts_of (field_in it) ≤ 1048576
    → (r' : Reader) × (read_block (suc fuel) r (octets it ++ rest) ≡ go r' rest)
      × BlockRead r' (finished (given s (field_in it))) limit (fields_after limit it fs)
last_round r s it sum limit fs rest fuel b e i small =
    let d = item-Turn r s it (length (octets it)) sum limit fs rest b i (omega arith) small in
    let r' = finish d.0 (given s (field_in it)) in
    (
      r',
      read_block_by fuel r (octets it ++ rest) e
          ∙ ap (next_round (read_block fuel)) (
              d.1
              ∙ complete_last d.0 (given s (field_in it)) rest d.2.takes d.2.no_padding
                  (omega (arith, d.2.left)))
          ∙ next_round_head (read_block fuel) r' rest refl,
      record {
        at_frame = refl;
        no_stream = refl;
        let_go = refl;
        shows = d.2.shows;
        within = d.2.within;
      },
    )

-- A field with further ones behind it.
pub middle_round :
    (r : Reader) (s : Stream) (it next : Item) (len sum limit : ℕ) (fs : List Field) (rest : Bytes)
    (fuel : ℕ)
    → Between r s (length (octets it) + len) sum limit fs
    → 0 < len
    → r.handler ≡ header_block
    → IsItem it
    → sum + texts_of (field_in it) ≤ 1048576
    → (r' : Reader) × (read_block (suc fuel) r (octets it ++ (octets next ++ rest))
        ≡ read_block fuel r' (octets next ++ rest))
      × (r'.handler ≡ header_block)
      × Between r'
          (given s (field_in it))
          len
          (sum + texts_of (field_in it))
          limit
          (fields_after limit it fs)
middle_round r s it next len sum limit fs rest fuel b more e i small =
    let n = length (octets it) + len in
    let d = item-Turn r s it n sum limit fs (octets next ++ rest) b i (omega arith) small in
    let r' = record d.0 { handler = header_block } in
    let h = d.2 in
    let left : n - length (octets it) ≡ len = omega arith in
    (
      r',
      read_block_by fuel r (octets it ++ (octets next ++ rest)) e
          ∙ ap (next_round (read_block fuel))
              (d.1 ∙ complete_more d.0 (octets next ++ rest) (omega (arith, h.left)))
          ∙ next_round_item (read_block fuel) r' next rest refl,
      refl,
      record {
        takes = IsOpen-along d.0 r' (given s (field_in it)) refl refl h.takes;
        no_padding = h.no_padding;
        left = h.left ∙ left;
        read = h.read;
        no_name = h.no_name;
        no_value = h.no_value;
        no_index = h.no_index;
        shows = h.shows;
        within = h.within;
      },
    )
