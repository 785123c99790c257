-- ===== src/Http2/Headers/Frames.antt =====
-- src/KHttp2.cpp: `state_save`, `state_complete`, `state_skip` and `handle_continuation`.
use khttpd.Http2.Headers.Reader.{
  internal_error, protocol_error, Handler, head, skip, Reader, Step, go, closed, uint32_at,
}
use Prim.Native.Nat.{bit_or}
use khttpd.Base.{
  ◌+◌, ◌-◌, ◌/◌, ◌%◌, ◌^◌, min, ◌&&◌, not, none, some, [], ◌++◌, ltb, ◌==◌, if◌then◌else◌, Bytes,
  length, take, drop, get_or,
}

-- `state_save`: the bytes wait in `state.buffer` for the next read.
unfoldable pub state_save : Handler → Reader → Bytes → Step
state_save h r pos =
    if ltb 16 (length pos)
    then closed internal_error
    else go (record r { buffer = pos; handler = h }) []

-- `state_complete`, with `ReleaseStateStream`
unfoldable pub state_complete : Reader → Bytes → Step
state_complete r pos =
    go
      (record r {
        released = elim r.stream [ none ↦ r.released | some s ↦ some s ];
        stream = none;
        handler = head;
      })
      pos

unfoldable pub state_skip : Reader → Bytes → Step
unfolding state_save state_complete
state_skip r pos =
    if ltb (length pos) r.len
    then state_save skip (record r { len = r.len - length pos }) []
    else state_complete r (drop r.len pos)

unfoldable pub state_skip_padded : Reader → Bytes → Step
unfolding state_skip
state_skip_padded r pos = state_skip (record r { len = r.len + r.padding; padding = 0 }) pos

-- The start of `handle_continuation`: padding behind the `len` bytes left of the frame goes.
unfoldable pub drop_padding : Reader → Bytes → Reader × Bytes
drop_padding r pos =
    let gone = min r.padding (length pos - r.len) in
    if not (r.padding == 0) && ltb r.len (length pos)
    then (record r { padding = r.padding - gone }, take r.len pos ++ drop (r.len + gone) pos)
    else (r, pos)

-- The rest of `handle_continuation`: the header of the CONTINUATION frame behind the `len` bytes is
-- read and taken out.
unfoldable pub join_frame : Handler → Reader × Bytes → Step
unfolding state_save
join_frame h (r, pos) =
    let p = drop r.len pos in
    if ltb (length pos) (r.len + 9)
    then state_save h r pos
    else if not (get_or p 3 0 == 9)
    then closed protocol_error
    else if not (r.sid == uint32_at p 5 % 2 ^ 31)
    then closed protocol_error
    else go
        (record r {
          len = r.len + uint32_at p 0 / 256;
          flags = bit_or r.flags (get_or p 4 0);
          handler = h;
        })
        (take r.len pos ++ drop (r.len + 9) pos)

unfoldable pub handle_continuation : Handler → Reader → Bytes → Step
unfolding drop_padding join_frame
handle_continuation h r pos = join_frame h (drop_padding r pos)
