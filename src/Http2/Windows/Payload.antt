-- ===== src/Http2/Windows/Payload.antt =====
-- include/KHttp2.h: what a DATA frame of `build_write_buffer` carries of a chain.
use khttpd.Http2.Windows.{
  is_last, data_frame, chain, allowed, Context, Wire, after_built, total_of, frame_of, size_of,
  on_write_window_ready, pieces,
}
use khttpd.Base.{
  min_ℤ, false, length-take, above-min, pos, ◌-ℤ◌, above, ◌<◌, ◌≤◌, take-append_any, ◌∙◌, ap, ◌-◌,
  length-append, take_none, arith, sym, length, inr, inl, ◌||◌, ◌==◌, Bool-cases, min, take, ◌≡◌,
  ◌++◌, Bytes, ℕ, List, refl, [], ◌∷◌,
}

abbrev pub joined : List Bytes → Bytes
joined [] = []
joined (c ∷ cs) = c ++ joined cs

-- The pieces are the first bytes of the chain.
pub joined-pieces :
    (len left : ℕ) (cs : List Bytes) → joined (pieces len left cs) ≡ take (min len left) (joined cs)
unfolding pieces
joined-pieces len left [] = sym (take_none (min len left))
joined-pieces len left (c ∷ cs) = elim (Bool-cases (left == 0 || len == 0)) [
  | inl e ↦ let nothing : min len left ≡ 0 = ground arith in rw (e, nothing) refl
  | inr e ↦
      let used = min len (min (length c) left) in
      let first : min (min len left) (length c) ≡ used = omega arith in
      let rest : min (len - used) (left - used) ≡ min len left - length c = omega arith in
      rw e (
        ap (λ bs. take used c ++ bs)
          (joined-pieces (len - used) (left - used) cs ∙ ap (λ k. take k (joined cs)) rest)
        ∙ ap (λ k. take k c ++ take (min len left - length c) (joined cs)) (sym first)
        ∙ sym (take-append_any (min len left) c (joined cs)))
]

size_of-joined : (cs : List Bytes) → size_of cs ≡ length (joined cs)
size_of-joined [] = refl
size_of-joined (c ∷ cs) = omega (arith, size_of-joined cs, length-append c (joined cs))

size_of_chain :
    (len n : ℕ) (cs : List Bytes) → n ≤ size_of cs → size_of (pieces len n cs) ≡ min len n
size_of_chain len n cs h =
    let p = ap length (joined-pieces len n cs) in
    let q = length-take (min len n) (joined cs) in
    omega (arith, size_of-joined (pieces len n cs), p, q, size_of-joined cs)

allowed-min :
    (w : Wire) (s : Context)
    → above (allowed w s) ≡ min w.frame_size (min (above s.send_window) w.send_window)
unfolding allowed
allowed-min w s =
    let p = above-min (min_ℤ (pos w.frame_size) s.send_window) (pos w.send_window) in
    let q = above-min (pos w.frame_size) s.send_window in omega (arith, p, q)

-- The connection and the stream when a DATA frame with the pieces is pushed.
abbrev pushed_chain : Wire → ℕ → Context → List Bytes → ℕ → Wire × Context
pushed_chain w sid s ps total = (
  record w {
    send_window = w.send_window - total;
    pushed = w.pushed ++ data_frame sid total (is_last s.content_left total) ps ∷ [];
  },
  after_built s total,
)

ready_chain :
    (w : Wire) (sid : ℕ) (s : Context) (cs : List Bytes) (n : ℕ)
    → 0 < above (allowed w s)
    → let ps = pieces (above (allowed w s)) n cs in
      on_write_window_ready w sid s (chain cs) n ≡ pushed_chain w sid s ps (size_of ps)
unfolding on_write_window_ready frame_of total_of
ready_chain w sid s cs n p =
    let some_bytes : (above (allowed w s) == 0) ≡ false = ground arith in rw some_bytes refl

-- Where the windows allow some bytes, `on_write_window_ready` of a writer with a chain of at least
-- `buf_len` bytes pushes one DATA frame with the first bytes of the chain, as many as both windows,
-- the size of a frame and `buf_len` allow, and takes their number off both windows.
pub on_write_window_ready-chain :
    (w : Wire) (sid : ℕ) (s : Context) (cs : List Bytes) (n : ℕ)
    → n ≤ size_of cs
    → 0 < above (allowed w s)
    → let total = min (min w.frame_size (min (above s.send_window) w.send_window)) n in
      let r = on_write_window_ready w sid s (chain cs) n in
      (ps : List Bytes) × (r.0 ≡ record w {
        send_window = w.send_window - total;
        pushed = w.pushed ++ data_frame sid total (is_last s.content_left total) ps ∷ [];
      })
      × (joined ps ≡ take total (joined cs))
      × (r.1.send_window ≡ s.send_window -ℤ pos total)
unfolding after_built
on_write_window_ready-chain w sid s cs n h p =
    let ps = pieces (above (allowed w s)) n cs in
    let limit = allowed-min w s in
    let total = size_of_chain (above (allowed w s)) n cs h ∙ ap (λ k. min k n) limit in
    let e = ready_chain w sid s cs n p ∙ ap (pushed_chain w sid s ps) total in
    (
      ps,
      ap (λ r. r.0) e,
      joined-pieces (above (allowed w s)) n cs ∙ ap (λ k. take (min k n) (joined cs)) limit,
      ap (λ r. r.1.send_window) e,
    )
