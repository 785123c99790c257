-- ===== src/Http2/Table/Refines.antt =====
-- src/KHttp2Table.cpp: `add_header` and `get_indexed_header` against the list of fields.
use khttpd.Http2.Table.Fields.{
  Field, texts_of, cost, texts, keep_within, insert, insert_refused, insert_kept, texts_bound,
}
use khttpd.Http2.Table.Shows.{EntryShows, Live-get, get_text-EntryShows, Shows}
use khttpd.Http2.Table.Account.{table_account-Shows, table_account-refused}
use khttpd.Http2.Table.Insert.{take_entry-Shows}
use khttpd.Http2.Table.Write.{write_entry-Shows}
use khttpd.Http2.Table.Grow.{grow-Shows}
use khttpd.Http2.Table.Push.{push_entry-Shows}
use khttpd.Http2.Table.{
  Hpack, entry_at, prepare, take_entry, write_entry, grow, push_entry, table_account, add_accounted,
  add_header, get_indexed_header,
}
use khttpd.Base.{
  inr, inl, ℕ, ◌+◌, ◌-◌, ◌≤◌, arith, ◌≡◌, refl, sym, ap, subst, ◌∙◌, Bool, true, false, Bool-cases,
  ltb→lt, Option, none, some, List, [], ◌∷◌, ◌++◌, Bytes, length, ltb, if◌then◌else◌, ◌==◌,
  get_elem?,
}

EntryShows-along :
    (t t' : Hpack) (id p : ℕ) (f : Field)
    → t'.objects ≡ t.objects
    → t'.storage ≡ t.storage
    → EntryShows t.storage (t.objects id) p f
    → EntryShows t'.storage (t'.objects id) p f
EntryShows-along t t' id p f eo es e =
    subst (λ o. EntryShows t'.storage (o id) p f) (sym eo)
      (subst (λ s. EntryShows s (t.objects id) p f) (sym es) e)

-- The steps behind a `table_account` that reserved the cost of the field.
add_accounted-Shows :
    (t : Hpack) (fs : List Field) (f : Field)
    → Shows (texts_of f + 32) 0 t fs
    → let t' = add_accounted f.0 f.1 (true, t) in Shows 0 0 t' (fs ++ f ∷ []) × (t'.size ≡ t.size)
unfolding add_accounted push_entry grow
add_accounted-Shows t fs f h =
    let b = texts_bound fs in
    let p = take_entry-Shows (texts_of f + 32) 0 t fs h in
    let q =
      write_entry-Shows (texts_of f + 32) 0 (take_entry t).0 (take_entry t).1 fs p.0 f
        (omega (arith, h.accounts, h.size_le)) refl p.1 in
    let t2 = write_entry (take_entry t).0 f.0 f.1 (take_entry t).1 in
    let g = grow-Shows (texts_of f + 32) (texts_of f) (take_entry t).0 t2 fs q.0 q.2 (q.3 p.2) in
    let id = (take_entry t).0 in
    let e = EntryShows-along t2 (grow t2) id (q.0.start + texts fs) f g.5 g.6 q.1 in
    (
      push_entry-Shows (texts_of f + 32) (texts_of f) id (grow t2) fs f g.0 (omega arith) refl
          (subst (λ n. EntryShows (grow t2).storage ((grow t2).objects id) (n + texts fs) f)
            (sym g.1) e)
          g.2 g.3,
      g.4 ∙ (q.4 ∙ p.3),
    )

pub prepare_ready : (t : Hpack) → t.ready ≡ true → prepare t ≡ t
unfolding prepare
prepare_ready t e = rw e refl

add_header_by :
    (name value : Bytes) (t : Hpack) (a : Bool × Hpack)
    → table_account (length name + length value) (prepare t) ≡ some a
    → add_header name value t ≡ some (add_accounted name value a)
unfolding add_header
add_header_by name value t a e = rw e refl

-- `add_header` once the table is prepared: it succeeds, and the table shows what the list is after
-- the insertion.
pub add_prepared-Shows :
    (t : Hpack) (fs : List Field) (f : Field)
    → Shows 0 0 (prepare t) fs
    → (t' : Hpack) × (add_header f.0 f.1 t ≡ some t')
      × Shows 0 0 t' (insert (prepare t).size f fs)
      × (t'.size ≡ (prepare t).size)
unfolding add_accounted
add_prepared-Shows t fs f h = elim (Bool-cases (ltb (prepare t).size (cost f))) [
  | inl w ↦
      let lt = ltb→lt (prepare t).size (cost f) w in
      let r = table_account-refused (texts_of f) 0 (prepare t) fs (omega arith) h in
      (
        r.0,
        add_header_by f.0 f.1 t (false, r.0) r.1,
        subst (Shows 0 0 r.0) (sym (insert_refused _ f fs lt)) r.2,
        r.3,
      )
  | inr w ↦
      let le : cost f ≤ (prepare t).size = ground arith in
      let r = table_account-Shows (texts_of f) 0 (prepare t) fs (omega arith) h in
      let s = add_accounted-Shows r.0 _ f r.2 in
      (
        add_accounted f.0 f.1 (true, r.0),
        add_header_by f.0 f.1 t (true, r.0) r.1,
        subst (Shows 0 0 (add_accounted f.0 f.1 (true, r.0)))
            (ap (λ n. keep_within ((prepare t).size - n) fs ++ f ∷ []) (omega arith)
              ∙ sym (insert_kept _ f fs le))
            s.0,
        s.1 ∙ r.3,
      )
]

-- The field that the index 62 + i stands for: the newest is the first.
unfoldable pub newest : List Field → ℕ → Option Field
newest fs i = if ltb i (length fs) then get_elem? fs (length fs - i - 1) else none

pub get_indexed_header-Shows :
    (t : Hpack) (fs : List Field) (i : ℕ) (header : Field)
    → Shows 0 0 t fs
    → get_indexed_header t (62 + i) false header ≡ newest fs i
unfolding get_indexed_header newest entry_at
get_indexed_header-Shows t fs i header h =
    let positive : (62 + i == 0) ≡ false = ground arith in
    let dynamic : ltb (62 + i - 1) 61 ≡ false = ground arith in
    let rest : 62 + i - 1 - 61 ≡ i = omega arith in
    let many : t.added - t.deleted ≡ length fs = omega (arith, h.count) in
    rw (positive, dynamic, rest, many)
      (elim (Bool-cases (ltb i (length fs))) [
        | inl w ↦
            let lt = ltb→lt i (length fs) w in
            let b = texts_bound fs in
            let r =
              Live-get (entry_at t) t.storage t.deleted h.start (length fs - i - 1) fs h.live
                (omega arith) in
            let g =
              get_text-EntryShows t.storage _ r.1 r.0 (omega (arith, r.3, h.accounts, h.size_le))
                r.4 in
            let k : t.added - i - 1 ≡ t.deleted + (length fs - i - 1) = omega (arith, h.count) in
            rw (w, k, g.0, g.1) (sym r.2)
        | inr w ↦ rw w refl
      ])
