-- ===== src/Http2/Table/Write.antt =====
-- src/KHttp2Table.cpp: the texts of a new header overwrite no live text.
use khttpd.Http2.Table.Insert.{IsFresh, HasPlace}
use khttpd.Http2.Table.Fields.{Field, texts_of, texts}
use khttpd.Http2.Table.Storage.{
  Holds-agree, Written, put_text-Written, put_text-HasRoom, HasRoom, update_other, update_same,
}
use khttpd.Http2.Table.Shows.{EntryShows, Live-agree, Shows}
use khttpd.Http2.Table.{Entry, Hpack, update, put_text, write_entry}
use khttpd.Base.{ℕ, ◌+◌, ◌-◌, ◌%◌, ◌≤◌, arith, ◌≡◌, refl, sym, subst, ◌∙◌, inl, List, length}

exact_room : (pos n : ℕ) → HasRoom pos (4096 - pos) n
unfolding HasRoom
exact_room pos n = inl refl

-- The entry of a field whose name was written with the outcome n, from the place `start` on.
abbrev new_entry : ℕ → Field → (ℕ → ℕ) × ℕ × ℕ → Entry
new_entry start f n = record {
  name_data = start;
  name_len = length f.0;
  value_data = n.1;
  value_len = length f.1;
}

module _ (r w id : ℕ) (t : Hpack) (fs : List Field) (h : Shows r w t fs) where
  -- The texts of a field written behind those of the table.
  pub write_entry-Shows :
      (f : Field)
      → texts fs + texts_of f ≤ 4096
      → w ≡ 0
      → IsFresh id t
      → let t' = write_entry id f.0 f.1 t in
        (g : Shows r (texts_of f) t' fs) × EntryShows t'.storage
          (t'.objects id)
          (g.start + texts fs)
          f
        × IsFresh id t'
        × (HasPlace t → HasPlace t')
        × (t'.size ≡ t.size)
  unfolding write_entry IsFresh HasPlace
  write_entry-Shows f fits none_yet fresh =
      let p = h.start + texts fs in
      let a = h.pos_at in
      let n = put_text t.storage t.pos (4096 - t.pos) f.0 in
      let v = put_text n.0 n.1 n.2 f.1 in
      let wn : Written t.storage p f.0 n =
        put_text-Written t.storage t.pos (4096 - t.pos) p f.0 h.pos_in_range (omega arith)
          (omega arith) (exact_room t.pos (length f.0)) in
      let wv : Written n.0 (p + length f.0) f.1 v =
        put_text-Written n.0 n.1 n.2 (p + length f.0) f.1 wn.in_range wn.next (omega arith)
          (put_text-HasRoom t.storage t.pos (length f.1) f.0 h.pos_in_range (omega arith)) in
      (
        record {
          start = h.start;
          is_ready = h.is_ready;
          count = h.count;
          reused_le = h.reused_le;
          ring_room = h.ring_room;
          some_allocated = h.some_allocated;
          accounts = h.accounts;
          size_le = h.size_le;
          objects_known = h.objects_known;
          objects_apart = h.objects_apart;
          live =
              Live-agree (λ k. t.objects (t.entries (k % t.allocated)))
                (λ k. update t.objects id (new_entry t.pos f n) (t.entries (k % t.allocated)))
                t.storage v.0 t.deleted t.deleted h.start fs
                (λ i u.
                  update_other t.objects id (new_entry t.pos f n) _
                    (fresh.1 (t.deleted + i) (omega (arith, h.reused_le)) (omega (arith, h.count))))
                (λ q l u. wv.others q (omega arith) (omega arith) ∙ wn.others q u (omega arith))
                h.live;
          pos_in_range = wv.in_range;
          pos_at = omega (arith, wv.next);
        },
        subst (λ e. EntryShows v.0 e p f) (sym (update_same t.objects id (new_entry t.pos f n)))
            (record {
              name_len_eq = refl;
              value_len_eq = refl;
              name_in_range = h.pos_in_range;
              name_at = omega arith;
              value_in_range = wn.in_range;
              value_at = wn.next;
              name_holds =
                  Holds-agree n.0 v.0 p f.0 (λ q l u. wv.others q u (omega arith)) wn.holds;
              value_holds = wv.holds;
            }),
        fresh,
        λ x. x,
        refl,
      )
