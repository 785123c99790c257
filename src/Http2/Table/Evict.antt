-- ===== src/Http2/Table/Evict.antt =====
-- src/KHttp2Table.cpp: the loop of evictions leaves what the list keeps.
use khttpd.Http2.Table.Fields.{Field, texts_of, keep_within, keep_within_all, keep_within_evict}
use khttpd.Http2.Table.Shows.{Live, Shows}
use khttpd.Http2.Table.{Hpack, entry_at, evict_one, evict}
use khttpd.Base.{
  inr, inl, ℕ, zero, suc, ◌+◌, ◌-◌, ◌%◌, ◌≤◌, ◌<◌, arith, ◌≡◌, refl, sym, subst, false, Bool-cases,
  ltb→lt, some, List, [], ◌∷◌, length, ltb,
}

pub evict_one-Shows :
    (r w : ℕ) (t : Hpack) (f : Field) (fs : List Field)
    → Shows r w t (f ∷ fs)
    → Shows r w (evict_one t) fs
unfolding evict_one entry_at Live
evict_one-Shows r w t f fs h =
    let e = h.live.0 in
    record {
      start = h.start + texts_of f;
      is_ready = h.is_ready;
      count = omega (arith, h.count);
      reused_le = omega (arith, h.reused_le);
      ring_room = h.ring_room;
      some_allocated = h.some_allocated;
      accounts = omega (arith, h.accounts, e.name_len_eq, e.value_len_eq);
      size_le = h.size_le;
      objects_known = h.objects_known;
      objects_apart = h.objects_apart;
      live =
          subst
            (λ k.
              Live (λ k. t.objects (t.entries (k % t.allocated))) t.storage k (h.start + texts_of f)
                fs)
            (omega arith) h.live.1;
      pos_in_range = h.pos_in_range;
      pos_at = omega (arith, h.pos_at);
    }

size_evict_one : (t : Hpack) → (evict_one t).size ≡ t.size
unfolding evict_one
size_evict_one t = refl

-- The loop of evictions ends with enough free, and leaves what the list keeps.
pub evict-Shows :
    (fuel needed r w : ℕ) (t : Hpack) (fs : List Field)
    → length fs < fuel
    → needed + r ≤ t.size
    → Shows r w t fs
    → (t' : Hpack) × (evict fuel needed t ≡ some t')
      × Shows r w t' (keep_within (t.size - (needed + r)) fs)
      × (t'.size ≡ t.size)
unfolding evict evict_one
evict-Shows zero needed r w t fs hf hn h = absurd (omega arith)
evict-Shows (suc fuel) needed r w t [] hf hn h =
    let a = h.accounts in
    let stop : ltb t.free needed ≡ false = ground arith in
    (t, rw stop refl, subst (Shows r w t) (sym (keep_within_all _ [] (omega arith))) h, refl)
evict-Shows (suc fuel) needed r w t (f ∷ fs) hf hn h = elim (Bool-cases (ltb t.free needed)) [
  | inl go ↦
      let a = h.accounts in
      let lt = ltb→lt t.free needed go in
      let next =
        evict-Shows fuel needed r w (evict_one t) fs (omega arith) (omega (arith, size_evict_one t))
          (evict_one-Shows r w t f fs h) in
      (
        next.0,
        rw go next.1,
        subst (Shows r w next.0)
            (sym (keep_within_evict (t.size - (needed + r)) f fs (omega arith))) next.2,
        next.3,
      )
  | inr stop ↦
      let a = h.accounts in
      let ge : needed ≤ t.free = ground arith in
      (
        t,
        rw stop refl,
        subst (Shows r w t) (sym (keep_within_all _ (f ∷ fs) (omega arith))) h,
        refl,
      )
]
