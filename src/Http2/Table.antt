-- ===== src/Http2/Table.antt =====
-- src/KHttp2Table.cpp: the dynamic table of HPACK. The table `hpack` keeps a ring of pointers to
-- entries, whose texts stand in a ring of 4096 bytes, `storage`; an entry that was evicted is used
-- again for a later one. Memory is written out: an entry is an object with a number, `objects` is
-- what stands there, and a place in `storage` is its distance from the start. kgl_palloc is taken
-- to succeed.
pub mod Account
pub mod Evict
pub mod Fields
pub mod Grow
pub mod Insert
pub mod Push
pub mod Refines
pub mod Resize
pub mod Rings
pub mod Runs
pub mod Shows
pub mod Static
pub mod Storage
mod Tests
pub mod Write
use khttpd.Base.{
  ℕ, zero, suc, ◌+◌, ◌-◌, ◌%◌, Bool, true, false, Option, none, some, List, [], ◌∷◌, ◌++◌, ltb, leb,
  ◌==◌, if◌then◌else◌, ◌>>=◌, Bytes, length, get_elem?, take, drop,
}
use Static.{static_table}

abbrev pub table_size_max : ℕ
table_size_max = 4096

-- A `kgl_http_v2_header_t` in the table: where its two texts begin and how long they are.
pub record Entry : Type 0 where
  pub name_data : ℕ
  pub name_len : ℕ
  pub value_data : ℕ
  pub value_len : ℕ

-- `kgl_http_v2_hpack_t`; `ready` says that `entries` is not NULL.
pub record Hpack : Type 0 where
  pub ready : Bool
  pub entries : ℕ → ℕ
  pub objects : ℕ → Entry
  pub next_object : ℕ
  pub added : ℕ
  pub deleted : ℕ
  pub reused : ℕ
  pub allocated : ℕ
  pub size : ℕ
  pub free : ℕ
  pub storage : ℕ → ℕ
  pub pos : ℕ

-- An assignment to one place.
unfoldable pub update {ℓ} : {A : Type ℓ} → (ℕ → A) → ℕ → A → ℕ → A
update f i a j = if j == i then a else f j

-- kgl_cpymem into `storage`, and the bytes that stand there
unfoldable pub copy_to : (ℕ → ℕ) → ℕ → Bytes → ℕ → ℕ
unfolding update
copy_to mem p [] = mem
copy_to mem p (b ∷ bs) = copy_to (update mem p b) (suc p) bs

unfoldable pub copy_from : (ℕ → ℕ) → ℕ → ℕ → Bytes
copy_from mem p zero = []
copy_from mem p (suc n) = mem p ∷ copy_from mem (suc p) n

-- The entry that `hpack.entries[k % hpack.allocated]` points to.
unfoldable pub entry_at : Hpack → ℕ → Entry
entry_at t k = t.objects (t.entries (k % t.allocated))

-- entry = hpack.entries[hpack.deleted++ % hpack.allocated]; hpack.free += ...
unfoldable pub evict_one : Hpack → Hpack
unfolding entry_at
evict_one t =
    let e = entry_at t t.deleted in
    record t { deleted = t.deleted + 1; free = t.free + (32 + e.name_len + e.value_len) }

-- while (needed > free) evict_one; none where the fuel does not suffice
unfoldable pub evict : ℕ → ℕ → Hpack → Option Hpack
unfolding evict_one
evict zero needed t = none
evict (suc fuel) needed t =
    let more = evict fuel needed (evict_one t) in if ltb t.free needed then more else some t

-- `KHttp2::table_size`: none where the fuel does not suffice, else whether it returns true. A
-- negative `needed`, the table growing, is 0 here: then the loop has no round either.
unfoldable pub table_size : ℕ → Hpack → Option (Bool × Hpack)
unfolding evict
table_size size t = if ltb table_size_max size then some (false, t) else do
  t' ← evict (t.added - t.deleted + 1) (t.size - size) t
  some (true, record t' { size = size; free = t'.free + size - t.size })

-- `KHttp2::table_account`, likewise; the loop is a do-while.
unfoldable pub table_account : ℕ → Hpack → Option (Bool × Hpack)
unfolding evict
table_account length t =
    let size = length + 32 in
    let evicted = evict (t.added - t.deleted) size (evict_one t) in
    if leb size t.free
    then some (true, record t { free = t.free - size })
    else if ltb t.size size
    then some (false, record t { deleted = t.added; free = t.size })
    else do t' ← evicted; some (true, record t' { free = t'.free - size })

-- The start of `add_header`, where the table is allocated.
unfoldable pub prepare : Hpack → Hpack
prepare t = if t.ready then t else record t {
  ready = true;
  allocated = 64;
  size = table_size_max;
  free = table_size_max;
  pos = 0;
}

-- The entry for a new header: a new object, or one whose header was evicted.
unfoldable pub take_entry : Hpack → ℕ × Hpack
take_entry t =
    if t.reused == t.deleted
    then (t.next_object, record t { next_object = t.next_object + 1 })
    else (t.entries (t.reused % t.allocated), record t { reused = t.reused + 1 })

-- A text written at `pos` if `avail` bytes are enough, else in two parts: `storage`, `pos` and
-- `avail` behind it.
unfoldable pub put_text : (ℕ → ℕ) → ℕ → ℕ → Bytes → (ℕ → ℕ) × ℕ × ℕ
unfolding copy_to
put_text mem pos avail text =
    if leb (length text) avail
    then (copy_to mem pos text, pos + length text, avail - length text)
    else (
      copy_to (copy_to mem pos (take avail text)) 0 (drop avail text),
      length text - avail,
      table_size_max - length text,
    )

-- The texts of a header written to `storage` and to the entry `id`.
unfoldable pub write_entry : ℕ → Bytes → Bytes → Hpack → Hpack
unfolding put_text update
write_entry id name value t =
    let n = put_text t.storage t.pos (table_size_max - t.pos) name in
    let v = put_text n.0 n.1 n.2 value in
    let e : Entry = record {
      name_data = t.pos;
      name_len = length name;
      value_data = n.1;
      value_len = length value;
    } in
    record t { objects = update t.objects id e; storage = v.0; pos = v.1 }

-- A ring that is full moves to one of 64 places more, its oldest entry first; the new places hold
-- nothing yet, for which 0 stands.
unfoldable pub moved : Hpack → ℕ → ℕ
moved t k =
    let index = t.deleted % t.allocated in
    if ltb k (t.allocated - index)
    then t.entries (index + k)
    else if ltb k t.allocated
    then t.entries (k - (t.allocated - index))
    else 0

unfoldable pub grow : Hpack → Hpack
unfolding moved
grow t =
    if t.allocated == t.added - t.deleted
    then record t {
      entries = moved t;
      added = t.allocated;
      deleted = 0;
      reused = 0;
      allocated = t.allocated + 64;
    }
    else t

-- hpack.entries[hpack.added++ % hpack.allocated] = entry
unfoldable pub push_entry : ℕ → Hpack → Hpack
unfolding update
push_entry id t = record t {
  entries = update t.entries (t.added % t.allocated) id;
  added = t.added + 1;
}

-- What follows `table_account` in `add_header`.
unfoldable pub add_accounted : Bytes → Bytes → Bool × Hpack → Hpack
add_accounted name value (false, t) = t
add_accounted name value (true, t) =
    let taken = take_entry t in push_entry taken.0 (grow (write_entry taken.0 name value taken.1))

-- `KHttp2::add_header`, which returns true: none where the fuel does not suffice.
unfoldable pub add_header : Bytes → Bytes → Hpack → Option Hpack
add_header name value t = do
  accounted ← table_account (length name + length value) (prepare t)
  some (add_accounted name value accounted)

-- A text of an entry, which may begin at the end of `storage` and go on at its start.
unfoldable pub get_text : (ℕ → ℕ) → ℕ → ℕ → Bytes
unfolding copy_from
get_text mem start len =
    let rest = table_size_max - start in
    if ltb rest len
    then copy_from mem start rest ++ copy_from mem 0 (len - rest)
    else copy_from mem start len

-- `KHttp2::get_indexed_header`: the new `state.header`, of which `name_only` leaves the value for
-- an entry of the dynamic table; none where it returns false.
unfoldable pub get_indexed_header : Hpack → ℕ → Bool → Bytes × Bytes → Option (Bytes × Bytes)
get_indexed_header t index name_only header =
    let at = index - 1 in
    let k = at - 61 in
    let e = entry_at t (t.added - k - 1) in
    let name = get_text t.storage e.name_data e.name_len in
    if index == 0
    then none
    else if ltb at 61
    then get_elem? static_table at
    else if ltb k (t.added - t.deleted)
    then (if name_only
        then some (name, header.1)
        else some (name, get_text t.storage e.value_data e.value_len))
    else none
