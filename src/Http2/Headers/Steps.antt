-- ===== src/Http2/Headers/Steps.antt =====
-- src/KHttp2.cpp: one text of a field, whole in the buffer and in the frame, is read by
-- `state_field_len` and `state_field_raw`.
use khttpd.Http2.Integers.{value}
use khttpd.Http2.Integers.Lengths.{TextLength}
use khttpd.Http2.Headers.Reader.{Handler, field_raw, Stream, Reader, Step, end_headers}
use khttpd.Http2.Headers.Block.{
  field_size, consume, field_end, state_field_raw, no_stream, field_begin, state_field_len,
}
use khttpd.Base.{
  append_assoc, ℕ, suc, ◌-◌, ◌≤◌, min, arith, ◌≡◌, refl, ap, ◌∙◌, true, false, some, [], ◌∷◌, ◌++◌,
  ltb, leb, Bytes, length, length-append, take_all, drop_all,
}

-- The octets of a text: its length and its bytes.
abbrev pub coded : (text : Bytes) → TextLength (length text) → Bytes
coded text l = l.first ∷ (l.more ++ text)

-- The reader when the text is read.
abbrev pub text_read : Reader → ℕ → Bytes → Reader
text_read r len text = record r { len = len; field_rest = 0; field = some text }

-- A stream that takes headers.
pub record IsOpen (r : Reader) (s : Stream) : Type 0 where
  pub whole : end_headers r ≡ true
  pub has : r.stream ≡ some s
  pub alive : s.rst ≡ false
  pub kept : s.destroy_by_http2 ≡ false

-- What of the text and what follows is taken for the field: the text.
pub taken_size :
    (text rest : Bytes) (len : ℕ)
    → length text ≤ len
    → min (min (length (text ++ rest)) (length text)) len ≡ length text
taken_size text rest len h = rw (length-append text rest) (omega arith)

pub field_end_whole :
    (h : Handler) (next : Reader → Bytes → Step) (r : Reader) (pos : Bytes)
    → r.field_rest ≡ 0
    → field_end h next r pos ≡ next r pos
unfolding field_end
field_end_whole h next r pos e = rw e refl

raw_read :
    (next : Reader → Bytes → Step) (r : Reader) (text rest : Bytes)
    → r.field_rest ≡ length text
    → r.field ≡ some []
    → length text ≤ r.len
    → state_field_raw next r (text ++ rest) ≡ next (text_read r (r.len - length text) text) rest
unfolding state_field_raw field_size consume
raw_read next r text rest e f h =
    let gone : length text - length text ≡ 0 = omega arith in
    rw (e, taken_size text rest r.len h, f, take_all text rest, drop_all text rest, gone)
      (field_end_whole field_raw next (text_read r (r.len - length text) text) rest refl)

field_begin_raw :
    (next : Reader → Bytes → Step) (r : Reader) (s : Stream) (n len : ℕ) (rest pos : Bytes)
    → r.stream ≡ some s
    → s.destroy_by_http2 ≡ false
    → n ≤ 4096
    → field_begin next false r (value n len rest) pos
      ≡ state_field_raw next (record r { len = len; field_rest = n; field = some [] }) rest
unfolding field_begin no_stream
field_begin_raw next r s n len rest pos e f h =
    let small : ltb 4096 n ≡ false = ground arith in rw (small, e, f) refl

-- A text of at most 4096 bytes that stands in its frame is read, and the stream gets it.
pub text_step :
    (next : Reader → Bytes → Step) (r : Reader) (s : Stream) (text rest : Bytes)
    (l : TextLength (length text))
    → IsOpen r s
    → length text ≤ 4096
    → length (coded text l) ≤ r.len
    → state_field_len next r (coded text l ++ rest)
      ≡ next (text_read r (r.len - length (coded text l)) text) rest
unfolding state_field_len
text_step next r s text rest l o small h =
    let e = length-append l.more text in
    let some_left : ltb r.len 1 ≡ false = ground arith in
    let raw : leb 128 l.first ≡ false = ground (arith, l.low) in
    let len : r.len - suc (length l.more) - length text ≡ r.len - suc (length (l.more ++ text)) =
      omega (arith, e) in
    let r' = record r {
      len = r.len - suc (length l.more);
      field_rest = length text;
      field = some [];
    } in
    rw
      (
        o.whole,
        some_left,
        raw,
        append_assoc l.more text rest,
        l.reads r.len (text ++ rest) (omega arith),
      )
      (field_begin_raw next r s (length text) (r.len - suc (length l.more)) (text ++ rest)
          (l.first ∷ (l.more ++ (text ++ rest))) o.has o.kept small
        ∙ raw_read next r' text rest refl refl (omega arith)
        ∙ ap (λ n. next (text_read r n text) rest) len)
