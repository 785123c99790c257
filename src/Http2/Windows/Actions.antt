-- ===== src/Http2/Windows/Actions.antt =====
-- src/KHttp2.cpp: the actions on one stream, `state_window_update`, `write` and `http2_buff::clean`.
use khttpd.Http2.Windows.Ready.{serve-Moves, FreeStream, AnyStream, RightStream}
use khttpd.Http2.Windows.Moves.{Moves-if, sent-append, Moves-same, waits, IsWindow, Moves}
use khttpd.Http2.Windows.Checks.{Keeps}
use khttpd.Http2.Windows.Events.{stops, clean, terminate_stream, widen, write}
use khttpd.Http2.Windows.{
  rst_frame, serve, for_hup, for_writing, for_window, max_window, Source, Context, WriteWait, Wire,
}
use khttpd.Base.{
  ◌++◌, ap, one_part, add_parts, sub_parts, ◌+ℤ◌, ◌-ℤ◌, ◌&&◌, pos, ◌≡◌, arith, ltb_ℤ, ℤ, ℕ, Option,
  refl, [], ◌∷◌, none, some, true, false,
}

-- A stream that is served after a change of its own.
served_after :
    (w w' : Wire) (init : ℕ) (s t s' : Context)
    → (RightStream init s → RightStream init t)
    → Moves (RightStream init) (RightStream init) AnyStream FreeStream w t w' s'
    → Moves (RightStream init) (RightStream init) FreeStream FreeStream w s w' s'
served_after w w' init s t s' r m = record {
  accounts = m.accounts;
  less = m.less;
  same_size = m.same_size;
  right = λ h. m.right (r h);
  free = λ p u. m.free p tt;
}

pub write-Keeps :
    (init : ℕ) (source : Source) (n : ℕ)
    → Keeps (RightStream init) (RightStream init) FreeStream FreeStream (write source n)
unfolding write
write-Keeps init source n w sid s f =
    let t = record s { write_wait = some (for_window source n) } in
    Moves-if (RightStream init) (RightStream init) FreeStream FreeStream w s s.out_closed (w, s)
      (serve w sid t) (λ e. Moves-same (RightStream init) FreeStream w s)
      (λ e.
        served_after w (serve w sid t).0 init s t (serve w sid t).1 (λ h. h)
          (serve-Moves w init sid t f))

pub clean-Keeps :
    (init : ℕ) → Keeps (RightStream init) (RightStream init) FreeStream FreeStream clean
unfolding clean
clean-Keeps init w sid s f = record {
  accounts = refl;
  less = omega arith;
  same_size = refl;
  right = λ h. h;
  free = λ p u. refl;
}

waits-stops : (we : Option WriteWait) → waits (stops we) ≡ false
waits-stops none = refl
waits-stops (some for_hup) = refl
waits-stops (some (for_window source n)) = refl
waits-stops (some (for_writing n)) = refl

terminate_stream-Moves :
    (w : Wire) (init sid : ℕ) (s : Context) (status : ℕ)
    → Moves
        (RightStream init)
        (RightStream init)
        FreeStream
        FreeStream
        w
        s
        (terminate_stream w sid s status).0
        (terminate_stream w sid s status).1
unfolding terminate_stream
terminate_stream-Moves w init sid s status =
    let closed = record s {
      in_closed = true;
      out_closed = true;
      rst = true;
      write_wait = stops s.write_wait;
    } in
    let free = ap (λ b. b && ltb_ℤ (pos 0) s.send_window) (waits-stops s.write_wait) in
    let p = sent-append w.pushed (rst_frame sid status ∷ []) in
    let w' = record w { pushed = w.pushed ++ rst_frame sid status ∷ [] } in
    Moves-if (RightStream init) (RightStream init) FreeStream FreeStream w s
      (s.in_closed && s.out_closed) (w, closed) (w', closed)
      (λ e. record {
        accounts = refl;
        less = omega arith;
        same_size = refl;
        right = λ h. h;
        free = λ q u. free;
      })
      (λ e. record {
        accounts = omega (arith, p);
        less = omega arith;
        same_size = refl;
        right = λ h. h;
        free = λ q u. free;
      })

IsWindow-more :
    (init window : ℕ) (v : ℤ)
    → IsWindow init v
    → ltb_ℤ (pos max_window -ℤ v) (pos window) ≡ false
    → IsWindow init (v +ℤ pos window)
IsWindow-more init window v h e =
    let p = sub_parts (pos max_window) v in
    let q = add_parts v (pos window) in
    let r = one_part v in
    let t = one_part (v +ℤ pos window) in
    record { initial = h.initial; upper = ground arith; lower = ground arith }

pub widen-Keeps :
    (init window : ℕ)
    → Keeps (RightStream init) (RightStream init) FreeStream FreeStream (widen window)
unfolding widen
widen-Keeps init window w sid s f =
    let t = record s { send_window = s.send_window +ℤ pos window } in
    Moves-if (RightStream init) (RightStream init) FreeStream FreeStream w s
      (ltb_ℤ (pos max_window -ℤ s.send_window) (pos window)) (terminate_stream w sid s 3)
      (serve w sid t) (λ e. terminate_stream-Moves w init sid s 3)
      (λ e.
        served_after w (serve w sid t).0 init s t (serve w sid t).1
          (λ h. IsWindow-more init window s.send_window h e) (serve-Moves w init sid t f))
