-- ===== src/Http2/Table/Insert.antt =====
-- src/KHttp2Table.cpp: the entry for a new header in `add_header`. It is an object that no live
-- entry is.
use khttpd.Http2.Table.Fields.{Field}
use khttpd.Http2.Table.Shows.{Shows}
use khttpd.Http2.Table.{Hpack, take_entry}
use khttpd.Base.{
  ℕ, ◌+◌, ◌%◌, ◌≤◌, ◌<◌, arith, ◌≡◌, ◌≢◌, refl, sym, ◌⊎◌, inl, inr, Bool-cases, ==_iff, List, ◌==◌,
}

-- The object is allocated and no pointer of the ring leads to it.
unfoldable pub IsFresh : ℕ → Hpack → Type 0
IsFresh id t =
    (id < t.next_object) × ((k : ℕ) → t.reused ≤ k → k < t.added → t.entries (k % t.allocated) ≢ id)

-- The ring has a place to spare, or no evicted entry is left in it.
unfoldable pub HasPlace : Hpack → Type 0
HasPlace t = (t.added < t.reused + t.allocated) ⊎ (t.reused ≡ t.deleted)

pub take_entry-Shows :
    (r w : ℕ) (t : Hpack) (fs : List Field)
    → Shows r w t fs
    → let p = take_entry t in
      Shows r w p.1 fs × IsFresh p.0 p.1 × HasPlace p.1 × (p.1.size ≡ t.size)
unfolding take_entry IsFresh HasPlace
take_entry-Shows r w t fs h = elim (Bool-cases (t.reused == t.deleted)) [
  | inl e ↦ rw e (
    record {
      start = h.start;
      is_ready = h.is_ready;
      count = h.count;
      reused_le = h.reused_le;
      ring_room = h.ring_room;
      some_allocated = h.some_allocated;
      accounts = h.accounts;
      size_le = h.size_le;
      objects_known = λ k l u. omega (arith, h.objects_known k l u);
      objects_apart = h.objects_apart;
      live = h.live;
      pos_in_range = h.pos_in_range;
      pos_at = h.pos_at;
    },
    (omega arith, λ k l u q. omega (arith, h.objects_known k l u)),
    inr ((==_iff _ _).0 e),
    refl,
  )
  | inr e ↦
      let lt : t.reused < t.deleted = ground (arith, h.reused_le) in
      rw e (
        record {
          start = h.start;
          is_ready = h.is_ready;
          count = h.count;
          reused_le = omega arith;
          ring_room = omega (arith, h.ring_room);
          some_allocated = h.some_allocated;
          accounts = h.accounts;
          size_le = h.size_le;
          objects_known = λ k l u. h.objects_known k (omega arith) u;
          objects_apart = λ j k l m u. h.objects_apart j k (omega arith) m u;
          live = h.live;
          pos_in_range = h.pos_in_range;
          pos_at = h.pos_at;
        },
        (
          h.objects_known t.reused (omega arith) (omega (arith, h.count)),
          λ k l u q. h.objects_apart t.reused k (omega arith) (omega arith) u (sym q),
        ),
        inl (omega (arith, h.ring_room)),
        refl,
      )
]
