-- ===== src/Http2/Table/Grow.antt =====
-- src/KHttp2Table.cpp: the ring of pointers keeps its order as it grows.
use khttpd.Http2.Table.Insert.{IsFresh, HasPlace}
use native.Mathlib.Nat.{mod-lt, mod-eq_of_lt}
use khttpd.Http2.Table.Fields.{Field}
use khttpd.Http2.Table.Rings.{mod_near, mod_wrapped}
use khttpd.Http2.Table.Shows.{Live-agree, Shows}
use khttpd.Http2.Table.{Hpack, moved, grow}
use khttpd.Base.{
  ℕ, ◌+◌, ◌-◌, ◌%◌, ◌≤◌, ◌<◌, arith, ◌≡◌, ◌≢◌, refl, sym, ap, subst, ◌∙◌, inl, inr, true,
  Bool-cases, ltb→lt, ==_iff, ==-false, List, ltb, ◌==◌,
}

-- The pointers that lead to entries when the ring moves are those of before, in order.
moved_eq :
    (t : Hpack) (k : ℕ) → k < t.allocated → moved t k ≡ t.entries ((t.deleted + k) % t.allocated)
unfolding moved
moved_eq t k h = elim (Bool-cases (ltb k (t.allocated - t.deleted % t.allocated))) [
  | inl w ↦
      let lt = ltb→lt k _ w in
      rw w (ap t.entries (sym (mod_near t.deleted k t.allocated (omega arith))))
  | inr w ↦
      let ge : t.allocated - t.deleted % t.allocated ≤ k = ground arith in
      let ok : ltb k t.allocated ≡ true = ground arith in
      let lt : t.deleted % t.allocated < t.allocated = mod-lt t.deleted (omega arith) in
      let wrapped = mod_wrapped t.deleted k t.allocated h (omega arith) in
      rw (w, ok) (ap t.entries (omega arith))
]

-- The place of the number k in the ring that has moved.
moved_at :
    (t : Hpack) (k : ℕ)
    → k < t.allocated
    → moved t (k % (t.allocated + 64)) ≡ t.entries ((t.deleted + k) % t.allocated)
moved_at t k h = ap (moved t) (mod-eq_of_lt (omega arith)) ∙ moved_eq t k h

module _ (r w id : ℕ) (t : Hpack) (fs : List Field) (h : Shows r w t fs) where
  moved-Shows :
      t.allocated ≡ t.added - t.deleted
      → (g : Shows r w
          (record t {
            entries = moved t;
            added = t.allocated;
            deleted = 0;
            reused = 0;
            allocated = t.allocated + 64;
          })
          fs)
        × (g.start ≡ h.start)
  moved-Shows full =
      let n = h.count in
      (
        record {
          start = h.start;
          is_ready = h.is_ready;
          count = omega arith;
          reused_le = omega arith;
          ring_room = omega arith;
          some_allocated = omega arith;
          accounts = h.accounts;
          size_le = h.size_le;
          objects_known = λ k l u.
              subst (λ x. x < t.next_object) (sym (moved_at t k u))
                (h.objects_known (t.deleted + k) (omega (arith, h.reused_le)) (omega arith));
          objects_apart = λ j k l m u q.
              h.objects_apart (t.deleted + j) (t.deleted + k) (omega (arith, h.reused_le))
                (omega arith) (omega arith)
                (sym (moved_at t j (omega arith)) ∙ (q ∙ moved_at t k u));
          live =
              Live-agree (λ k. t.objects (t.entries (k % t.allocated)))
                (λ k. t.objects (moved t (k % (t.allocated + 64)))) t.storage t.storage t.deleted 0
                h.start fs
                (λ i u.
                  subst
                    (λ n.
                      t.objects (moved t (n % (t.allocated + 64)))
                      ≡ t.objects (t.entries ((t.deleted + i) % t.allocated)))
                    (omega arith) (ap t.objects (moved_at t i (omega arith))))
                (λ q l u. refl) h.live;
          pos_in_range = h.pos_in_range;
          pos_at = h.pos_at;
        },
        refl,
      )

  -- A ring that grows shows the same fields and keeps the new object fresh.
  pub grow-Shows :
      IsFresh id t
      → HasPlace t
      → (g : Shows r w (grow t) fs) × (g.start ≡ h.start)
        × IsFresh id (grow t)
        × ((grow t).added < (grow t).reused + (grow t).allocated)
        × ((grow t).size ≡ t.size)
        × ((grow t).objects ≡ t.objects)
        × ((grow t).storage ≡ t.storage)
  unfolding grow IsFresh HasPlace
  grow-Shows fresh place = elim (Bool-cases (t.allocated == t.added - t.deleted)) [
    | inl e ↦
        let full = (==_iff t.allocated (t.added - t.deleted)).0 e in
        rw e (
          (moved-Shows full).0,
          (moved-Shows full).1,
          (
            fresh.0,
            λ k l u q.
                fresh.1 (t.deleted + k) (omega (arith, h.reused_le)) (omega (arith, h.count))
                  (sym (moved_at t k u) ∙ q),
          ),
          omega (arith, h.some_allocated),
          refl,
          refl,
          refl,
        )
    | inr e ↦
        let some_room : t.allocated ≢ t.added - t.deleted = ==-false _ _ e in
        rw e (
          h,
          refl,
          fresh,
          elim place [ inl p ↦ p | inr p ↦ omega (arith, h.ring_room, h.count) ],
          refl,
          refl,
          refl,
        )
  ]
