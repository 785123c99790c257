-- ===== src/Http2/Windows/Ready.antt =====
-- src/KHttp2.cpp, include/KHttp2.h: `on_write_window_ready` and `build_write_buffer`.
use khttpd.Base.{
  sym, ◌&&◌, true, false, ==_iff, ◌++◌, Option, Bool, ◌≡◌, ltb_ℤ, above_min_zero, ◌<◌, above_min-le,
  length-take, ◌-◌, length, inr, inl, one_part, ◌||◌, ◌==◌, sub_parts, Bool-cases, pos, arith, ◌-ℤ◌,
  above, Bytes, min, ℤ, ◌≤◌, List, ℕ, min_ℤ, refl, [], ◌∷◌, none, some, true, false,
}
use khttpd.Http2.Windows.Moves.{waits, sent-append, sent_by, Moves, is_stuck, IsWindow}
use khttpd.Http2.Windows.{
  serve_as, for_hup, for_writing, for_window, is_last, WriteWait, after_built,
  on_write_window_ready, frame_of, serve, Context, Wire, chain, file, chain, size_of, Source,
  allowed, pieces, total_of,
}

size_of-pieces : (len left : ℕ) (cs : List Bytes) → size_of (pieces len left cs) ≤ min len left
unfolding pieces
size_of-pieces len left [] = omega arith
size_of-pieces len left (c ∷ cs) = elim (Bool-cases (left == 0 || len == 0)) [
  | inl e ↦ rw e (omega arith)
  | inr e ↦
      let used = min len (min (length c) left) in
      rw e (omega (arith, size_of-pieces (len - used) (left - used) cs, length-take used c))
]

pub total_of-le : (source : Source) (len n : ℕ) → total_of source len n ≤ min len n
unfolding total_of
total_of-le (chain cs) len n = size_of-pieces len n cs
total_of-le file len n = omega arith

-- The limits of a frame.
pub allowed-le :
    (w : Wire) (s : Context)
    → (above (allowed w s) ≤ w.send_window)
      × (above (allowed w s) ≤ w.frame_size)
      × (above (allowed w s) ≤ above s.send_window)
unfolding allowed
allowed-le w s =
    let p = above_min-le (min_ℤ (pos w.frame_size) s.send_window) (pos w.send_window) in
    let q = above_min-le (pos w.frame_size) s.send_window in
    (p.1, omega (arith, p.0, q.0), omega (arith, p.0, q.1))

allowed_zero :
    (w : Wire) (s : Context)
    → above (allowed w s) ≤ 0
    → 0 < w.frame_size
    → 0 < above s.send_window
    → w.send_window ≤ 0
unfolding allowed
allowed_zero w s e f h =
    elim (above_min_zero (min_ℤ (pos w.frame_size) s.send_window) (pos w.send_window) e) [
      | inl a ↦ elim (above_min_zero (pos w.frame_size) s.send_window a) [
        | inl b ↦ absurd (omega arith)
        | inr b ↦ absurd (omega arith)
      ]
      | inr a ↦ a
    ]

IsWindow-less :
    (init total : ℕ) (v : ℤ) → IsWindow init v → total ≤ above v → IsWindow init (v -ℤ pos total)
IsWindow-less init total v h t =
    let p = sub_parts v (pos total) in
    let q = one_part v in
    let r = one_part (v -ℤ pos total) in
    record { initial = h.initial; upper = omega (arith, h.upper); lower = ground arith }

abbrev pub RightStream : ℕ → Context → Type 0
RightStream init s = IsWindow init s.send_window

abbrev pub FreeStream : Context → Type 0
FreeStream s = is_stuck s ≡ false

abbrev pub AnyStream : Context → Type 0
AnyStream s = Unit

positive_above : (v : ℤ) → ltb_ℤ (pos 0) v ≡ true → 0 < above v
positive_above v e = ground (arith, one_part v)

pub and_false_right : (b : Bool) → (b && false) ≡ false
and_false_right true = refl
and_false_right false = refl

-- A writer that gets nothing is not stuck while the connection has a window.
not_stuck :
    (w : Wire) (s : Context)
    → 0 < w.frame_size
    → above (allowed w s) ≤ 0
    → 0 < w.send_window
    → is_stuck s ≡ false
not_stuck w s f e p = elim (Bool-cases (ltb_ℤ (pos 0) s.send_window)) [
  | inl a ↦ absurd (omega (arith, allowed_zero w s e f (positive_above s.send_window a)))
  | inr a ↦ rw a (and_false_right (waits s.write_wait))
]

frame_of-sent :
    (source : Source) (sid len n : ℕ) (last : Bool)
    → sent_by (frame_of source sid len n last) ≡ total_of source len n
unfolding frame_of
frame_of-sent (chain cs) sid len n last = refl
frame_of-sent file sid len n last = refl

-- A frame is pushed.
built-Moves :
    (w : Wire) (init sid : ℕ) (s : Context) (source : Source) (len n : ℕ)
    → len ≤ above (allowed w s)
    → let total = total_of source len n in
      Moves
        (RightStream init)
        (RightStream init)
        AnyStream
        FreeStream
        w
        s
        (record w {
          send_window = w.send_window - total;
          pushed = w.pushed ++ frame_of source sid len n (is_last s.content_left total) ∷ [];
        })
        (after_built s total)
unfolding after_built
built-Moves w init sid s source len n h =
    let total = total_of source len n in
    let a = allowed-le w s in
    let frame = frame_of source sid len n (is_last s.content_left total) in
    let e = frame_of-sent source sid len n (is_last s.content_left total) in
    let p = sent-append w.pushed (frame ∷ []) in
    let t = total_of-le source len n in
    record {
      accounts = omega (arith, a.0, e, p, t);
      less = omega arith;
      same_size = refl;
      right = λ r. IsWindow-less init total s.send_window r (omega (arith, a.2, t));
      free = λ q u. refl;
    }

on_write_window_ready-Moves :
    (w : Wire) (init sid : ℕ) (s : Context) (source : Source) (n : ℕ)
    → 0 < w.frame_size
    → let r = on_write_window_ready w sid s source n in
      Moves (RightStream init) (RightStream init) AnyStream FreeStream w s r.0 r.1
unfolding on_write_window_ready
on_write_window_ready-Moves w init sid s source n f = elim (Bool-cases (above (allowed w s) == 0)) [
  | inl e ↦ rw e (record {
    accounts = refl;
    less = omega arith;
    same_size = refl;
    right = λ r. r;
    free = λ p u. not_stuck w s f (omega (arith, (==_iff (above (allowed w s)) 0).0 e)) p;
  })
  | inr e ↦ rw e (built-Moves w init sid s source (above (allowed w s)) n (omega arith))
]

pub Moves-unstuck :
    (w : Wire) (init : ℕ) (s : Context)
    → is_stuck s ≡ false
    → Moves (RightStream init) (RightStream init) AnyStream FreeStream w s w s
Moves-unstuck w init s e = record {
  accounts = refl;
  less = omega arith;
  same_size = refl;
  right = λ r. r;
  free = λ p u. e;
}

pub serve_as-Moves :
    (we : Option WriteWait) (w : Wire) (init sid : ℕ) (s : Context)
    → (waits we && ltb_ℤ (pos 0) s.send_window) ≡ is_stuck s
    → 0 < w.frame_size
    → Moves
        (RightStream init)
        (RightStream init)
        AnyStream
        FreeStream
        w
        s
        (serve_as we w sid s).0
        (serve_as we w sid s).1
unfolding serve_as
serve_as-Moves none w init sid s e f = Moves-unstuck w init s (sym e)
serve_as-Moves (some for_hup) w init sid s e f = Moves-unstuck w init s (sym e)
serve_as-Moves (some (for_window source n)) w init sid s e f =
    on_write_window_ready-Moves w init sid s source n f
serve_as-Moves (some (for_writing n)) w init sid s e f = Moves-unstuck w init s (sym e)

-- When a stream is served, its writer is not stuck while the connection has a window.
pub serve-Moves :
    (w : Wire) (init sid : ℕ) (s : Context)
    → 0 < w.frame_size
    → Moves
        (RightStream init)
        (RightStream init)
        AnyStream
        FreeStream
        w
        s
        (serve w sid s).0
        (serve w sid s).1
unfolding serve
serve-Moves w init sid s f = serve_as-Moves s.write_wait w init sid s refl f
