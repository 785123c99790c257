-- ===== src/Http2/Table/Runs.antt =====
-- src/KHttp2Table.cpp: whole runs of `add_header` and `table_size` from the zeroed table on.
use khttpd.Http2.Table.Fields.{Field, keep_within, insert}
use khttpd.Http2.Table.Shows.{Live, Shows}
use khttpd.Http2.Table.Resize.{table_size-Shows}
use khttpd.Http2.Table.Refines.{prepare_ready, add_prepared-Shows, newest, get_indexed_header-Shows}
use khttpd.Http2.Table.{Hpack, prepare, table_size, add_header, get_indexed_header}
use khttpd.Base.{
  ℕ, ◌+◌, ◌≤◌, arith, ◌≡◌, refl, sym, ap, subst, ◌∙◌, Bool, true, false, Option, none, some, ◌>>=◌,
  List, [], ◌∷◌,
}

-- What a peer may do to the table.
pub data Change : Type 0 where
  add : Field → Change
  resize : ℕ → Change

-- The sizes that a peer may ask for.
abbrev pub Allowed : List Change → Type 0
Allowed [] = Unit
Allowed (add f ∷ cs) = Allowed cs
Allowed (resize n ∷ cs) = (n ≤ 4096) × Allowed cs

unfoldable pub only_true : Bool × Hpack → Option Hpack
only_true (true, t) = some t
only_true (false, t) = none

-- The changes made to the table of the code; none where one fails.
unfoldable pub run : List Change → Hpack → Option Hpack
run [] t = some t
run (add f ∷ cs) t = add_header f.0 f.1 t >>= run cs
run (resize n ∷ cs) t = table_size n t >>= only_true >>= run cs

-- The changes made to the list of fields.
unfoldable pub change_all : List Change → ℕ → List Field → List Field
change_all [] size fs = fs
change_all (add f ∷ cs) size fs = change_all cs size (insert size f fs)
change_all (resize n ∷ cs) size fs = change_all cs n (keep_within n fs)

-- The table as the constructor of KHttp2 leaves it.
abbrev pub zeroed : Hpack
zeroed = record {
  ready = false;
  entries = λ k. 0;
  objects = λ k. record { name_data = 0; name_len = 0; value_data = 0; value_len = 0 };
  next_object = 0;
  added = 0;
  deleted = 0;
  reused = 0;
  allocated = 0;
  size = 0;
  free = 0;
  storage = λ k. 0;
  pos = 0;
}

pub zeroed-Shows : Shows 0 0 (prepare zeroed) []
unfolding prepare Live
zeroed-Shows = record {
  start = 0;
  is_ready = refl;
  count = omega arith;
  reused_le = omega arith;
  ring_room = omega arith;
  some_allocated = omega arith;
  accounts = omega arith;
  size_le = omega arith;
  objects_known = λ k l u. absurd (omega arith);
  objects_apart = λ j k l m u. absurd (omega arith);
  live = tt;
  pos_in_range = omega arith;
  pos_at = omega arith;
}

run-Shows :
    (cs : List Change) (t : Hpack) (fs : List Field)
    → Allowed cs
    → Shows 0 0 t fs
    → (t' : Hpack) × (run cs t ≡ some t') × Shows 0 0 t' (change_all cs t.size fs)
unfolding run change_all only_true
run-Shows [] t fs a h = (t, refl, h)
run-Shows (add f ∷ cs) t fs a h =
    let same = prepare_ready t h.is_ready in
    let r = add_prepared-Shows t fs f (subst (λ s. Shows 0 0 s fs) (sym same) h) in
    let size : r.0.size ≡ t.size = r.3 ∙ ap (λ s. s.size) same in
    let inserted : Shows 0 0 r.0 (insert t.size f fs) =
      subst (λ n. Shows 0 0 r.0 (insert n f fs)) (ap (λ s. s.size) same) r.2 in
    let k = run-Shows cs r.0 (insert t.size f fs) a inserted in
    (k.0, rw r.1 k.1, subst (λ n. Shows 0 0 k.0 (change_all cs n (insert t.size f fs))) size k.2)
run-Shows (resize n ∷ cs) t fs a h =
    let r = table_size-Shows n 0 t fs a.0 h in
    let k = run-Shows cs r.0 (keep_within n fs) a.1 r.2 in
    (k.0, rw r.1 k.1, subst (λ m. Shows 0 0 k.0 (change_all cs m (keep_within n fs))) r.3 k.2)

-- A run of `add_header` and `table_size` that begins with a header on the zeroed table and asks for
-- no size above 4096 succeeds, and then `get_indexed_header` finds under 62 + i the i-th newest of
-- the fields that RFC 7541 keeps of the same run from the size 4096 on, and nothing behind them.
pub run-Refines :
    (f : Field) (cs : List Change)
    → Allowed cs
    → (t : Hpack) × (run (add f ∷ cs) zeroed ≡ some t)
      × ((i : ℕ) (header : Field)
          → get_indexed_header t (62 + i) false header ≡ newest (change_all (add f ∷ cs) 4096 []) i)
unfolding run change_all prepare
run-Refines f cs a =
    let r = add_prepared-Shows zeroed [] f zeroed-Shows in
    let k = run-Shows cs r.0 (insert 4096 f []) a r.2 in
    (
      k.0,
      rw r.1 k.1,
      λ i header.
          get_indexed_header-Shows k.0 (change_all cs 4096 (insert 4096 f [])) i header
            (subst (λ n. Shows 0 0 k.0 (change_all cs n (insert 4096 f []))) r.3 k.2),
    )
