-- ===== src/Http2/Table/Tests.antt =====
-- Runs of the dynamic table, and its theorems at concrete inputs.
use khttpd.Base.{
  ℕ, ◌+◌, ◌≡◌, refl, arith, Option, none, some, true, false, List, [], ◌∷◌, Bytes, codes,
}
use khttpd.Http2.Table.Fields.{Field, insert, keep_within}
use khttpd.Http2.Table.Shows.{Shows}
use khttpd.Http2.Table.Resize.{table_size-Shows}
use khttpd.Http2.Table.Refines.{add_prepared-Shows, newest}
use khttpd.Http2.Table.Runs.{
  Change, add, resize, run, only_true, change_all, zeroed, zeroed-Shows, run-Refines,
}
use khttpd.Http2.Table.{
  Hpack, prepare, add_header, add_accounted, table_account, table_size, evict, take_entry,
  write_entry, grow, push_entry, entry_at, get_text, get_indexed_header,
}

status_404 : get_indexed_header zeroed 13 false ([], []) ≡ some (codes ":status", codes "404")
unfolding get_indexed_header
status_404 = refl

abbrev first : Field
first = (codes "x-a", codes "1")

abbrev changes : List Change
changes = add (codes "x-b", codes "two") ∷ resize 100 ∷ add (codes "x-c", codes "") ∷ []

looked_up : Option Hpack → ℕ → Option (Bytes × Bytes)
looked_up none i = none
looked_up (some t) i = get_indexed_header t i false ([], [])

oldest_evicted :
    (looked_up (run (add first ∷ changes) zeroed) 62 ≡ some (codes "x-c", codes ""))
    × (looked_up (run (add first ∷ changes) zeroed) 63 ≡ some (codes "x-b", codes "two"))
    × (looked_up (run (add first ∷ changes) zeroed) 64 ≡ none)
unfolding looked_up run only_true prepare add_header add_accounted table_account table_size evict
    take_entry write_entry grow push_entry entry_at get_text get_indexed_header
oldest_evicted = (refl, refl, refl)

run-Refines_example :
    (t : Hpack) × (run (add first ∷ changes) zeroed ≡ some t)
    × ((i : ℕ) (header : Field)
        → get_indexed_header t (62 + i) false header
          ≡ newest (change_all (add first ∷ changes) 4096 []) i)
run-Refines_example = run-Refines first changes (omega arith, tt)

add_prepared-Shows_example :
    (t' : Hpack) × (add_header (codes "x-a") (codes "1") zeroed ≡ some t')
    × Shows 0 0 t' (insert (prepare zeroed).size first [])
    × (t'.size ≡ (prepare zeroed).size)
add_prepared-Shows_example = add_prepared-Shows zeroed [] first zeroed-Shows

table_size-Shows_example :
    (t' : Hpack) × (table_size 64 (prepare zeroed) ≡ some (true, t'))
    × Shows 0 0 t' (keep_within 64 [])
    × (t'.size ≡ 64)
table_size-Shows_example = table_size-Shows 64 0 (prepare zeroed) [] (omega arith) zeroed-Shows
