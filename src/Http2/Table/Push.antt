-- ===== src/Http2/Table/Push.antt =====
-- src/KHttp2Table.cpp: the entry of a new header is put behind the others.
use khttpd.Http2.Table.Insert.{IsFresh}
use khttpd.Http2.Table.Fields.{Field, texts_of, cost, texts, texts-append, total-append}
use khttpd.Http2.Table.Rings.{mod_apart}
use khttpd.Http2.Table.Storage.{update_other, update_same}
use khttpd.Http2.Table.Shows.{EntryShows, Live-agree, Live-append, Shows}
use khttpd.Http2.Table.{Hpack, update, push_entry}
use khttpd.Base.{
  ℕ, ◌+◌, ◌%◌, ◌≤◌, ◌<◌, arith, ◌≡◌, ◌≢◌, refl, sym, ap, subst, ◌∙◌, inl, inr, Bool-cases, ==_iff,
  ==-false, List, [], ◌∷◌, ◌++◌, ◌==◌, length-append,
}

below_last : (k n : ℕ) → k < n + 1 → k ≢ n → k < n
below_last k n h ne = omega arith

-- The entry written is put into the ring.
pub push_entry-Shows :
    (r w id : ℕ) (t : Hpack) (fs : List Field) (f : Field)
    → (h : Shows r w t fs) → r ≡ cost f
    → w ≡ texts_of f
    → EntryShows t.storage (t.objects id) (h.start + texts fs) f
    → IsFresh id t
    → t.added < t.reused + t.allocated
    → Shows 0 0 (push_entry id t) (fs ++ f ∷ [])
unfolding push_entry IsFresh
push_entry-Shows r w id t fs f h er ew e fresh place =
    let slot = update t.entries (t.added % t.allocated) id in
    let old : (k : ℕ)
        → t.reused ≤ k
        → k < t.added
        → slot (k % t.allocated) ≡ t.entries (k % t.allocated) =
      λ k l u.
        update_other t.entries (t.added % t.allocated) id _
          (λ q. mod_apart k t.added t.allocated u (omega arith) (sym q)) in
    let new : slot (t.added % t.allocated) ≡ id = update_same t.entries _ id in
    record {
      start = h.start;
      is_ready = h.is_ready;
      count = omega (arith, h.count, length-append fs (f ∷ []));
      reused_le = h.reused_le;
      ring_room = omega arith;
      some_allocated = h.some_allocated;
      accounts = omega (arith, h.accounts, total-append fs (f ∷ []));
      size_le = h.size_le;
      objects_known = λ k l u. elim (Bool-cases (k == t.added)) [
        | inl q ↦
            subst (λ n. slot (n % t.allocated) < t.next_object) (sym ((==_iff k t.added).0 q))
              (subst (λ x. x < t.next_object) (sym new) fresh.0)
        | inr q ↦
            let lt : k < t.added = below_last k t.added u (==-false k t.added q) in
            subst (λ x. x < t.next_object) (sym (old k l lt)) (h.objects_known k l lt)
      ];
      objects_apart = λ j k l m u. elim (Bool-cases (k == t.added)) [
        | inl q ↦
            let same = (==_iff k t.added).0 q in
            λ z.
              fresh.1 j l (omega arith)
                (sym (old j l (omega arith)) ∙ (z ∙ (ap (λ n. slot (n % t.allocated)) same ∙ new)))
        | inr q ↦
            let lt : k < t.added = below_last k t.added u (==-false k t.added q) in
            λ z.
              h.objects_apart j k l m lt
                (sym (old j l (omega arith)) ∙ (z ∙ old k (omega arith) lt))
      ];
      live =
          Live-append (λ k. t.objects (slot (k % t.allocated))) t.storage t.deleted h.start fs f
            (Live-agree (λ k. t.objects (t.entries (k % t.allocated)))
              (λ k. t.objects (slot (k % t.allocated))) t.storage t.storage t.deleted t.deleted
              h.start fs
              (λ i u.
                ap t.objects
                  (old (t.deleted + i) (omega (arith, h.reused_le)) (omega (arith, h.count))))
              (λ q l u. refl) h.live)
            (subst
              (λ n.
                EntryShows t.storage (t.objects (slot (n % t.allocated))) (h.start + texts fs) f)
              h.count
              (subst (λ i. EntryShows t.storage (t.objects i) (h.start + texts fs) f) (sym new) e));
      pos_in_range = h.pos_in_range;
      pos_at = omega (arith, h.pos_at, texts-append fs (f ∷ []));
    }
