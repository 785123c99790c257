-- ===== src/Http2/Table/Shows.antt =====
-- src/KHttp2Table.cpp: when the table `hpack` stands for a list of fields.
use khttpd.Http2.Table.Fields.{Field, texts_of, texts, total}
use khttpd.Http2.Table.Storage.{Holds, Holds-agree, get_text-Holds}
use khttpd.Http2.Table.{Entry, Hpack, get_text}
use khttpd.Base.{
  ℕ, zero, suc, ◌+◌, ◌%◌, ◌≤◌, ◌<◌, arith, ◌≡◌, ◌≢◌, refl, sym, subst, true, some, List, [], ◌∷◌,
  ◌++◌, length, get_elem?,
}

-- An entry whose texts are those of the field and stand in the ring from the number `p` on.
pub record EntryShows (mem : ℕ → ℕ) (e : Entry) (p : ℕ) (f : Field) : Type 0 where
  pub name_len_eq : e.name_len ≡ length f.0
  pub value_len_eq : e.value_len ≡ length f.1
  pub name_in_range : e.name_data ≤ 4096
  pub name_at : e.name_data % 4096 ≡ p % 4096
  pub value_in_range : e.value_data ≤ 4096
  pub value_at : e.value_data % 4096 ≡ (p + length f.0) % 4096
  pub name_holds : Holds mem p f.0
  pub value_holds : Holds mem (p + length f.0) f.1

-- The entries with the numbers from `k` on show the fields, one text behind the other.
unfoldable pub Live : (ℕ → Entry) → (ℕ → ℕ) → ℕ → ℕ → List Field → Type 0
Live at mem k p [] = Unit
Live at mem k p (f ∷ fs) = EntryShows mem (at k) p f × Live at mem (suc k) (p + texts_of f) fs

-- The table shows the fields. `reserved` bytes are accounted for a field that is about to come,
-- and `written` bytes of texts stand behind the last of the fields.
pub record Shows (reserved written : ℕ) (t : Hpack) (fs : List Field) : Type 0 where
  pub start : ℕ
  pub is_ready : t.ready ≡ true
  pub count : t.added ≡ t.deleted + length fs
  pub reused_le : t.reused ≤ t.deleted
  pub ring_room : t.added ≤ t.reused + t.allocated
  pub some_allocated : 0 < t.allocated
  pub accounts : t.free + total fs + reserved ≡ t.size
  pub size_le : t.size ≤ 4096
  pub objects_known :
      (k : ℕ) → t.reused ≤ k → k < t.added → t.entries (k % t.allocated) < t.next_object
  pub objects_apart :
      (j k : ℕ)
      → t.reused ≤ j
      → j < k
      → k < t.added
      → t.entries (j % t.allocated) ≢ t.entries (k % t.allocated)
  pub live : Live (λ k. t.objects (t.entries (k % t.allocated))) t.storage t.deleted start fs
  pub pos_in_range : t.pos ≤ 4096
  pub pos_at : t.pos % 4096 ≡ (start + texts fs + written) % 4096

-- Live entries depend on what stands in them and in their texts alone.
pub Live-agree :
    (at at' : ℕ → Entry) (mem mem' : ℕ → ℕ) (k k' p : ℕ) (fs : List Field)
    → ((i : ℕ) → i < length fs → at' (k' + i) ≡ at (k + i))
    → ((q : ℕ) → p ≤ q → q < p + texts fs → mem' (q % 4096) ≡ mem (q % 4096))
    → Live at mem k p fs
    → Live at' mem' k' p fs
unfolding Live
Live-agree at at' mem mem' k k' p [] ha hm h = tt
Live-agree at at' mem mem' k k' p (f ∷ fs) ha hm h =
    let same : at' k' ≡ at k =
      subst (λ j. at' j ≡ at k) (omega arith)
        (subst (λ j. at' (k' + 0) ≡ at j) (omega arith) (ha 0 (omega arith))) in
    let e = h.0 in
    (
      subst (λ a. EntryShows mem' a p f) (sym same)
          (record {
            name_len_eq = e.name_len_eq;
            value_len_eq = e.value_len_eq;
            name_in_range = e.name_in_range;
            name_at = e.name_at;
            value_in_range = e.value_in_range;
            value_at = e.value_at;
            name_holds = Holds-agree mem mem' p f.0 (λ q l u. hm q l (omega arith)) e.name_holds;
            value_holds =
                Holds-agree mem mem' (p + length f.0) f.1
                  (λ q l u. hm q (omega arith) (omega arith)) e.value_holds;
          }),
      Live-agree at at' mem mem' (suc k) (suc k') (p + texts_of f) fs
          (λ i lt.
            subst (λ j. at' j ≡ at (suc k + i)) (omega arith)
              (subst (λ j. at' (k' + suc i) ≡ at j) (omega arith) (ha (suc i) (omega arith))))
          (λ q l u. hm q (omega arith) (omega arith)) h.1,
    )

pub Live-append :
    (at : ℕ → Entry) (mem : ℕ → ℕ) (k p : ℕ) (fs : List Field) (f : Field)
    → Live at mem k p fs
    → EntryShows mem (at (k + length fs)) (p + texts fs) f
    → Live at mem k p (fs ++ f ∷ [])
unfolding Live
Live-append at mem k p [] f h e = (
  subst (λ j. EntryShows mem (at j) p f) (omega arith)
      (subst (λ q. EntryShows mem (at (k + 0)) q f) (omega arith) e),
  tt,
)
Live-append at mem k p (g ∷ gs) f h e = (
  h.0,
  Live-append at mem (suc k) (p + texts_of g) gs f h.1 (
      subst (λ j. EntryShows mem (at j) (p + texts_of g + texts gs) f) (omega arith)
        (subst (λ q. EntryShows mem (at (k + length {A = Field} (g ∷ gs))) q f) (omega arith) e)),
)

-- The entry with the number of the i-th field shows it.
pub Live-get :
    (at : ℕ → Entry) (mem : ℕ → ℕ) (k p i : ℕ) (fs : List Field)
    → Live at mem k p fs
    → i < length fs
    → (f : Field) × (q : ℕ) × (get_elem? fs i ≡ some f)
      × (texts_of f ≤ texts fs)
      × EntryShows mem (at (k + i)) q f
unfolding Live
Live-get at mem k p i [] h lt = absurd (omega arith)
Live-get at mem k p zero (f ∷ fs) h lt =
    (f, p, refl, omega arith, subst (λ j. EntryShows mem (at j) p f) (omega arith) h.0)
Live-get at mem k p (suc i) (f ∷ fs) h lt =
    let r = Live-get at mem (suc k) (p + texts_of f) i fs h.1 (omega arith) in
    (
      r.0,
      r.1,
      r.2,
      omega (arith, r.3),
      subst (λ j. EntryShows mem (at j) r.1 r.0) (omega arith) r.4,
    )

-- The two texts of an entry are those of the field that it shows.
pub get_text-EntryShows :
    (mem : ℕ → ℕ) (e : Entry) (q : ℕ) (f : Field)
    → texts_of f ≤ 4096
    → EntryShows mem e q f
    → (get_text mem e.name_data e.name_len ≡ f.0) × (get_text mem e.value_data e.value_len ≡ f.1)
get_text-EntryShows mem e q f h s = (
  subst (λ n. get_text mem e.name_data n ≡ f.0) (sym s.name_len_eq)
      (get_text-Holds mem e.name_data q f.0 s.name_in_range s.name_at (omega arith) s.name_holds),
  subst (λ n. get_text mem e.value_data n ≡ f.1) (sym s.value_len_eq)
      (get_text-Holds mem e.value_data (q + length f.0) f.1 s.value_in_range s.value_at
        (omega arith) s.value_holds),
)
