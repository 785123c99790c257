-- ===== src/Http2/Windows/Events.antt =====
-- src/KHttp2.cpp: what changes the windows and the writers, each as an event of the connection. None
-- where the connection is closed.
use khttpd.Http2.Windows.{
  rst_frame, max_window, for_hup, for_writing, for_window, serve, Node, WriteWait, Context,
  Connection, Wire, Source,
}
use khttpd.Base.{
  ◌+ℤ◌, ◌||◌, ◌-ℤ◌, ◌-◌, ◌^◌, ◌++◌, not, ltb_ℤ, ◌&&◌, ◌==◌, ltb, if◌then◌else◌, ◌>>=◌, zero, pos,
  ◌%◌, suc, ◌/◌, ◌+◌, Bool, map, Option, List, ℕ, none, some, [], ◌∷◌, true, false,
}

-- `check_write_wait` at a node, and in the list of one index; it returns where the window of the
-- connection is used up.
unfoldable pub check_stream : Wire → ℕ → Context → Wire × Context
check_stream w sid s = if ltb_ℤ (pos 0) s.send_window then serve w sid s else (w, s)

-- The stream of a node changes, if there is one.
unfoldable pub on_stream :
    (Wire → ℕ → Context → Wire × Context) → Wire → ℕ → Option Context → Wire × Option Context
on_stream act w sid none = (w, none)
on_stream act w sid (some s) = let r = act w sid s in (r.0, some r.1)

unfoldable pub on_node : (Wire → ℕ → Context → Wire × Context) → Wire → Node → Wire × Node
unfolding on_stream
on_node act w n = let r = on_stream act w n.id n.stream in (r.0, record n { stream = r.1 })

unfoldable pub check_list : Wire → List Node → Wire × List Node
unfolding check_stream on_node
check_list w [] = (w, [])
check_list w (n ∷ ns) =
    let r = on_node check_stream w n in
    let rest = check_list r.0 ns in
    if w.send_window == 0 then (w, n ∷ ns) else (rest.0, r.1 ∷ rest.1)

unfoldable pub check_lists : Wire → List (List Node) → Wire × List (List Node)
unfolding check_list
check_lists w [] = (w, [])
check_lists w (ns ∷ index) =
    let r = check_list w ns in let rest = check_lists r.0 index in (rest.0, r.1 ∷ rest.1)

unfoldable pub check_write_wait : Connection → Connection
unfolding check_lists
check_write_wait c =
    let r = check_lists c.wire c.streams_index in record c { wire = r.0; streams_index = r.1 }

-- `adjust_windows` at a stream: `delta` is value - init, and a window that would exceed the largest
-- is left as it is.
unfoldable pub adjust_stream : (init value : ℕ) → Context → Context
adjust_stream init value s =
    if ltb init value && ltb_ℤ (pos (max_window - (value - init))) s.send_window
    then s
    else record s { send_window = s.send_window +ℤ (pos value -ℤ pos init) }

abbrev pub on_option : (Context → Context) → Option Context → Option Context
on_option f none = none
on_option f (some s) = some (f s)

unfoldable pub adjust_node : (init value : ℕ) → Node → Node
unfolding adjust_stream
adjust_node init value n = record n { stream = on_option (adjust_stream init value) n.stream }

unfoldable pub adjust_windows : ℕ → Connection → Connection
unfolding adjust_node check_write_wait
adjust_windows value c = check_write_wait (record c {
  init_window = value;
  streams_index = map (map (adjust_node c.init_window value)) c.streams_index;
})

-- `state_settings_params` at one parameter, of the two that matter here.
unfoldable pub setting : (id value : ℕ) → Connection → Option Connection
unfolding adjust_windows
setting id value c =
    if id == 4
    then (if ltb max_window value then none else some (adjust_windows value c))
    else if id == 5
    then (if ltb (2 ^ 24 - 1) value || ltb value 16384
        then none
        else some (record c { wire = record c.wire { frame_size = value } }))
    else some c

-- `terminate_stream`, for its writer: one that is being written is left alone.
abbrev pub stops : Option WriteWait → Option WriteWait
stops none = none
stops (some for_hup) = none
stops (some (for_window source n)) = none
stops (some (for_writing n)) = some (for_writing n)

unfoldable pub terminate_stream : Wire → ℕ → Context → ℕ → Wire × Context
terminate_stream w sid s status =
    let closed = record s {
      in_closed = true;
      out_closed = true;
      rst = true;
      write_wait = stops s.write_wait;
    } in
    if s.in_closed && s.out_closed
    then (w, closed)
    else (record w { pushed = w.pushed ++ rst_frame sid status ∷ [] }, closed)

-- `state_window_update` of a stream
unfoldable pub widen : ℕ → Wire → ℕ → Context → Wire × Context
unfolding terminate_stream
widen window w sid s =
    if ltb_ℤ (pos max_window -ℤ s.send_window) (pos window)
    then terminate_stream w sid s 3
    else serve w sid (record s { send_window = s.send_window +ℤ pos window })

-- `write` and `sendfile` behind the header of the response: -1 where the stream is closed.
unfoldable pub write : Source → ℕ → Wire → ℕ → Context → Wire × Context
write source buf_len w sid s =
    if s.out_closed
    then (w, s)
    else serve w sid (record s { write_wait = some (for_window source buf_len) })

-- `http2_buff::clean` behind the last byte of a frame: its writer goes on.
unfoldable pub clean : Wire → ℕ → Context → Wire × Context
clean w sid s = (w, record s { write_wait = none })

-- `get_node` in the list of an index, and what is done with the stream that is found.
unfoldable pub at_node :
    (Wire → ℕ → Context → Wire × Context) → ℕ → Wire → List Node → Wire × List Node
unfolding on_node
at_node act sid w [] = (w, [])
at_node act sid w (n ∷ ns) =
    let r = on_node act w n in
    let rest = at_node act sid w ns in if n.id == sid then (r.0, r.1 ∷ ns) else (rest.0, n ∷ rest.1)

unfoldable pub at_list :
    (Wire → List Node → Wire × List Node) → ℕ → Wire → List (List Node) → Wire × List (List Node)
at_list act i w [] = (w, [])
at_list act zero w (ns ∷ index) = let r = act w ns in (r.0, r.1 ∷ index)
at_list act (suc i) w (ns ∷ index) = let rest = at_list act i w index in (rest.0, ns ∷ rest.1)

unfoldable pub at_stream : (Wire → ℕ → Context → Wire × Context) → ℕ → Connection → Connection
unfolding at_node at_list
at_stream act sid c =
    let r = at_list (at_node act sid) (sid / 2 % 16) c.wire c.streams_index in
    record c { wire = r.0; streams_index = r.1 }

-- `state_window_update`
unfoldable pub state_window_update : (sid window : ℕ) → Connection → Option Connection
unfolding check_write_wait at_stream widen
state_window_update sid window c =
    let w = c.wire.send_window in
    let wider = record c { wire = record c.wire { send_window = w + window } } in
    if not (sid == 0)
    then some (at_stream (widen window) sid c)
    else if ltb (max_window - w) window
    then none
    else if w == 0
    then some (check_write_wait wider)
    else some wider

-- A new stream, `create_stream`, in front of the list of its index. `Init` clears `content_left`.
unfoldable pub new_node : (init sid : ℕ) → Bool → Node
new_node init sid in_closed = record {
  id = sid;
  stream = some (record {
    send_window = pos init;
    content_left = some 0;
    in_closed = in_closed;
    out_closed = false;
    rst = false;
    write_wait = none;
  });
}

unfoldable pub open_stream : ℕ → Bool → Connection → Connection
unfolding at_list new_node
open_stream sid in_closed c =
    let r =
      at_list (λ w ns. (w, new_node c.init_window sid in_closed ∷ ns)) (sid / 2 % 16) c.wire
        c.streams_index in
    record c { wire = r.0; streams_index = r.1 }

-- `destroy_node` in the list of an index
unfoldable pub without : ℕ → List Node → List Node
without sid [] = []
without sid (n ∷ ns) = let rest = without sid ns in if n.id == sid then ns else n ∷ rest

unfoldable pub destroy_node : ℕ → Connection → Connection
unfolding at_list without
destroy_node sid c =
    let r = at_list (λ w ns. (w, without sid ns)) (sid / 2 % 16) c.wire c.streams_index in
    record c { wire = r.0; streams_index = r.1 }

pub data Event : Type 0 where
  opened : (sid : ℕ) → Bool → Event
  writes : (sid : ℕ) → Source → (buf_len : ℕ) → Event
  cleaned : (sid : ℕ) → Event
  window_update : (sid window : ℕ) → Event
  settings : (id value : ℕ) → Event
  destroyed : (sid : ℕ) → Event

unfoldable pub step : Event → Connection → Option Connection
unfolding open_stream at_stream write clean state_window_update setting destroy_node
step (opened sid in_closed) c = some (open_stream sid in_closed c)
step (writes sid source n) c = some (at_stream (write source n) sid c)
step (cleaned sid) c = some (at_stream clean sid c)
step (window_update sid window) c = state_window_update sid window c
step (settings id value) c = setting id value c
step (destroyed sid) c = some (destroy_node sid c)

unfoldable pub run : List Event → Connection → Option Connection
unfolding step
run [] c = some c
run (e ∷ es) c = do d ← step e c; run es d
