-- ===== src/Http2/Headers/Oversize.antt =====
-- src/KHttp2.cpp: a text of a field that exceeds the limit of 4096 bytes, whole in the buffer and in
-- the frame.
use khttpd.Http2.Headers.Steps.{field_end_whole, taken_size, coded}
use khttpd.Http2.Integers.{value}
use khttpd.Http2.Integers.Lengths.{TextLength}
use khttpd.Http2.Headers.Reader.{field_skip, end_headers, Step, Reader}
use khttpd.Http2.Headers.Block.{consume, field_size, field_begin, state_field_len, state_field_skip}
use khttpd.Base.{
  ap, ◌∙◌, leb, append_assoc, drop_all, suc, false, length-append, arith, ltb, ◌-◌, ◌++◌, true, ◌≤◌,
  ◌<◌, length, ℕ, Bool, ◌≡◌, Bytes, refl, ◌∷◌,
}

skip_read :
    (next : Reader → Bytes → Step) (r : Reader) (text rest : Bytes)
    → r.field_rest ≡ length text
    → length text ≤ r.len
    → state_field_skip next r (text ++ rest)
      ≡ next (record r { len = r.len - length text; field_rest = 0 }) rest
unfolding state_field_skip field_size consume
skip_read next r text rest e h =
    let gone : length text - length text ≡ 0 = omega arith in
    rw (e, taken_size text rest r.len h, drop_all text rest, gone)
      (field_end_whole field_skip next (record r { len = r.len - length text; field_rest = 0 }) rest
        refl)

field_begin_skip :
    (next : Reader → Bytes → Step) (huff : Bool) (r : Reader) (n len : ℕ) (rest pos : Bytes)
    → 4096 < n
    → field_begin next huff r (value n len rest) pos
      ≡ state_field_skip next (record r { len = len; field_rest = n }) rest
unfolding field_begin
field_begin_skip next huff r n len rest pos h =
    let large : ltb 4096 n ≡ true = ground arith in rw large refl

-- A text of more than 4096 bytes is skipped, and `field`, which is what the last text left there,
-- is taken for it: the handler of the header gets the reader with no other field changed.
pub state_field_len-oversize :
    (next : Reader → Bytes → Step) (r : Reader) (text rest : Bytes) (l : TextLength (length text))
    → end_headers r ≡ true
    → 4096 < length text
    → length (coded text l) ≤ r.len
    → state_field_len next r (coded text l ++ rest)
      ≡ next (record r { len = r.len - length (coded text l); field_rest = 0 }) rest
unfolding state_field_len
state_field_len-oversize next r text rest l whole large h =
    let e = length-append l.more text in
    let some_left : ltb r.len 1 ≡ false = ground arith in
    let len : r.len - suc (length l.more) - length text ≡ r.len - suc (length (l.more ++ text)) =
      omega (arith, e) in
    let r' = record r { len = r.len - suc (length l.more); field_rest = length text } in
    rw (whole, some_left, append_assoc l.more text rest, l.reads r.len (text ++ rest) (omega arith))
      (field_begin_skip next (leb 128 l.first) r (length text) (r.len - suc (length l.more))
          (text ++ rest) (l.first ∷ (l.more ++ (text ++ rest))) large
        ∙ skip_read next r' text rest refl (omega arith)
        ∙ ap (λ n. next (record r { len = n; field_rest = 0 }) rest) len)
