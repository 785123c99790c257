-- ===== src/Http2/Table/Resize.antt =====
-- src/KHttp2Table.cpp: `table_size` evicts what the list does.
use khttpd.Http2.Table.Evict.{evict-Shows}
use khttpd.Http2.Table.Fields.{Field, total, keep_within, keep_within-bound, keep_within_all}
use khttpd.Http2.Table.Shows.{Shows}
use khttpd.Http2.Table.{Hpack, table_size}
use khttpd.Base.{
  inr, inl, ℕ, ◌+◌, ◌-◌, ◌≤◌, ◌<◌, arith, ◌≡◌, refl, sym, ap, subst, ◌∙◌, true, false, Bool-cases,
  leb→le, some, List, ltb, leb,
}

-- The size changes to one that the fields and what is free are within.
resized :
    (size free w : ℕ) (t : Hpack) (fs : List Field)
    → free + total fs ≡ size
    → size ≤ 4096
    → Shows 0 w t fs
    → Shows 0 w (record t { size = size; free = free }) fs
resized size free w t fs e le h = record {
  start = h.start;
  is_ready = h.is_ready;
  count = h.count;
  reused_le = h.reused_le;
  ring_room = h.ring_room;
  some_allocated = h.some_allocated;
  accounts = omega arith;
  size_le = le;
  objects_known = h.objects_known;
  objects_apart = h.objects_apart;
  live = h.live;
  pos_in_range = h.pos_in_range;
  pos_at = h.pos_at;
}

kept_same :
    (size limit : ℕ) (fs : List Field)
    → total fs ≤ limit
    → keep_within (limit - (limit - size + 0)) fs ≡ keep_within size fs
kept_same size limit fs h = elim (Bool-cases (leb size limit)) [
  | inl w ↦ let le = leb→le size limit w in ap (λ n. keep_within n fs) (omega arith)
  | inr w ↦
      let lt : limit < size = ground arith in
      keep_within_all _ fs (omega arith) ∙ sym (keep_within_all size fs (omega arith))
]

-- `table_size` refuses a size above 4096, and evicts for any other what it must.
pub table_size-Shows :
    (size w : ℕ) (t : Hpack) (fs : List Field)
    → size ≤ 4096
    → Shows 0 w t fs
    → (t' : Hpack) × (table_size size t ≡ some (true, t'))
      × Shows 0 w t' (keep_within size fs)
      × (t'.size ≡ size)
unfolding table_size
table_size-Shows size w t fs hs h =
    let ok : ltb 4096 size ≡ false = ground arith in
    let a = h.accounts in
    let r =
      evict-Shows (t.added - t.deleted + 1) (t.size - size) 0 w t fs (omega (arith, h.count))
        (omega arith) h in
    let t1 = r.0 in
    let s : Shows 0 w t1 (keep_within size fs) =
      subst (Shows 0 w t1) (kept_same size t.size fs (omega arith)) r.2 in
    let b = s.accounts in
    let k = keep_within-bound size fs in
    let c = r.3 in
    (
      record t1 { size = size; free = t1.free + size - t.size },
      rw (ok, r.1) refl,
      resized size (t1.free + size - t.size) w t1 _ (omega arith) hs s,
      refl,
    )
