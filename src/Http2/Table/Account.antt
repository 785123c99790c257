-- ===== src/Http2/Table/Account.antt =====
-- src/KHttp2Table.cpp: `table_account` evicts for a new field what the list does.
use khttpd.Http2.Table.Evict.{evict-Shows, evict_one-Shows}
use khttpd.Http2.Table.Fields.{
  Field, texts, keep_within, keep_within-bound, keep_within_all, keep_within_evict,
}
use khttpd.Http2.Table.Shows.{Live, Shows}
use khttpd.Http2.Table.{Hpack, evict_one, evict, table_account}
use khttpd.Base.{
  inr, inl, ℕ, ◌+◌, ◌-◌, ◌≤◌, ◌<◌, arith, ◌≡◌, refl, sym, ap, subst, ◌∙◌, Bool, true, false,
  Bool-cases, leb→le, some, ◌>>=◌, List, [], ◌∷◌, ltb, leb,
}

-- Bytes that are free are reserved.
reserve :
    (n w : ℕ) (t : Hpack) (fs : List Field)
    → n ≤ t.free
    → Shows 0 w t fs
    → Shows n w (record t { free = t.free - n }) fs
reserve n w t fs le h = record {
  start = h.start;
  is_ready = h.is_ready;
  count = h.count;
  reused_le = h.reused_le;
  ring_room = h.ring_room;
  some_allocated = h.some_allocated;
  accounts = omega (arith, h.accounts);
  size_le = h.size_le;
  objects_known = h.objects_known;
  objects_apart = h.objects_apart;
  live = h.live;
  pos_in_range = h.pos_in_range;
  pos_at = h.pos_at;
}

emptied :
    (w : ℕ) (t : Hpack) (fs : List Field)
    → Shows 0 w t fs
    → Shows 0 w (record t { deleted = t.added; free = t.size }) []
unfolding Live
emptied w t fs h = record {
  start = h.start + texts fs;
  is_ready = h.is_ready;
  count = omega arith;
  reused_le = omega (arith, h.reused_le, h.count);
  ring_room = h.ring_room;
  some_allocated = h.some_allocated;
  accounts = omega arith;
  size_le = h.size_le;
  objects_known = h.objects_known;
  objects_apart = h.objects_apart;
  live = tt;
  pos_in_range = h.pos_in_range;
  pos_at = omega (arith, h.pos_at);
}

-- The do-while of `table_account`, where something must be evicted.
evict_rest :
    (n w : ℕ) (t : Hpack) (fs : List Field)
    → t.free < n + 32
    → n + 32 ≤ t.size
    → Shows 0 w t fs
    → (t' : Hpack) × (◌>>=◌ {B = Bool × Hpack}
          (evict (t.added - t.deleted) (n + 32) (evict_one t))
          (λ e. some (true, record e { free = e.free - (n + 32) }))
        ≡ some (true, t'))
      × Shows (n + 32) w t' (keep_within (t.size - (n + 32)) fs)
      × (t'.size ≡ t.size)
unfolding evict_one
evict_rest n w t [] lt le h = absurd (omega (arith, h.accounts))
evict_rest n w t (f ∷ fs) lt le h =
    let a = h.accounts in
    let r =
      evict-Shows (t.added - t.deleted) (n + 32) 0 w (evict_one t) fs (omega (arith, h.count))
        (omega arith) (evict_one-Shows 0 w t f fs h) in
    let t1 = r.0 in
    let k = keep_within-bound (t.size - (n + 32 + 0)) fs in
    let s = r.2 in
    let b = s.accounts in
    (
      record t1 { free = t1.free - (n + 32) },
      rw r.1 refl,
      subst (Shows (n + 32) w (record t1 { free = t1.free - (n + 32) }))
          (ap (λ m. keep_within m fs) (omega arith)
            ∙ sym (keep_within_evict (t.size - (n + 32)) f fs (omega arith)))
          (reserve (n + 32) w t1 _ (omega (arith, r.3)) s),
      r.3,
    )

-- `table_account` for texts of n bytes that the table can hold evicts what it must and reserves
-- their cost.
pub table_account-Shows :
    (n w : ℕ) (t : Hpack) (fs : List Field)
    → n + 32 ≤ t.size
    → Shows 0 w t fs
    → (t' : Hpack) × (table_account n t ≡ some (true, t'))
      × Shows (n + 32) w t' (keep_within (t.size - (n + 32)) fs)
      × (t'.size ≡ t.size)
unfolding table_account
table_account-Shows n w t fs hn h = elim (Bool-cases (leb (n + 32) t.free)) [
  | inl fits ↦
      let a = h.accounts in
      let le = leb→le (n + 32) t.free fits in
      (
        record t { free = t.free - (n + 32) },
        rw fits refl,
        subst (Shows (n + 32) w (record t { free = t.free - (n + 32) }))
            (sym (keep_within_all _ fs (omega arith))) (reserve (n + 32) w t fs le h),
        refl,
      )
  | inr full ↦
      let lt : t.free < n + 32 = ground arith in
      let ok : ltb t.size (n + 32) ≡ false = ground arith in
      rw (full, ok) (evict_rest n w t fs lt hn h)
]

-- `table_account` for more than the table can hold empties it.
pub table_account-refused :
    (n w : ℕ) (t : Hpack) (fs : List Field)
    → t.size < n + 32
    → Shows 0 w t fs
    → (t' : Hpack) × (table_account n t ≡ some (false, t')) × Shows 0 w t' [] × (t'.size ≡ t.size)
unfolding table_account
table_account-refused n w t fs hn h =
    let a = h.accounts in
    let full : leb (n + 32) t.free ≡ false = ground arith in
    let over : ltb t.size (n + 32) ≡ true = ground arith in
    (record t { deleted = t.added; free = t.size }, rw (full, over) refl, emptied w t fs h, refl)
