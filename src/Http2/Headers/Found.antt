-- ===== src/Http2/Headers/Found.antt =====
-- src/KHttp2.cpp: a whole header behind `state_process_header`: it is counted, indexed and handed over.
use khttpd.Http2.Table.Refines.{prepare_ready, add_prepared-Shows}
use native.Mathlib.Nat.{mod-eq_of_lt}
use khttpd.Http2.Table.Shows.{Shows}
use khttpd.Http2.Headers.Items.{Between, given}
use khttpd.Http2.Headers.Steps.{IsOpen}
use khttpd.Http2.Table.{prepare, add_header, Hpack}
use khttpd.Http2.Table.Fields.{insert, texts_of, Field}
use khttpd.Http2.Headers.Process.{
  state_header_complete, header_indexed, process_header, length_added, hand_over, index_header,
  deliver,
}
use khttpd.Http2.Headers.Reader.{Reader, Stream}
use khttpd.Base.{
  ap, sym, ◌∙◌, arith, ◌==◌, [], ◌%◌, ltb, ◌∷◌, codes, ◌+◌, ◌++◌, ◌/◌, ◌≤◌, true, some,
  if◌then◌else◌, subst, List, same_text, false, Bytes, Bool, ℕ, ◌≡◌, refl,
}

alive_by :
    (s : Stream) (f : Field) (cookie : Bool)
    → let s' =
        if cookie
        then record s { cookies = s.cookies ++ f.1 ∷ [] }
        else record s { headers = s.headers ++ f ∷ [] } in
      (s'.rst ≡ s.rst) × (s'.destroy_by_http2 ≡ s.destroy_by_http2)
alive_by s f true = (refl, refl)
alive_by s f false = (refl, refl)

given_alive :
    (s : Stream) (f : Field)
    → ((given s f).rst ≡ s.rst) × ((given s f).destroy_by_http2 ≡ s.destroy_by_http2)
unfolding deliver
given_alive s f = alive_by s f (same_text f.0 (codes "cookie"))

-- A header that is whole: name and value of the reader are those of the field, and it is to be
-- indexed or not.
pub record Found (r : Reader) (s : Stream) (f : Field) (len sum limit : ℕ) (fs : List Field)
    : Type 0 where
  pub takes : IsOpen r s
  pub no_padding : r.padding ≡ 0
  pub left : r.len ≡ len
  pub read : r.header_length ≡ sum
  pub no_name : r.parse_name ≡ false
  pub name_is : r.name ≡ some f.0
  pub value_is : r.val ≡ some f.1
  pub no_value : r.parse_value ≡ false
  pub shows : Shows 0 0 (prepare r.hpack) fs
  pub within : (prepare r.hpack).size ≡ limit

pub IsOpen-along :
    (r r' : Reader) (s : Stream)
    → r'.flags ≡ r.flags
    → r'.stream ≡ r.stream
    → IsOpen r s
    → IsOpen r' s
IsOpen-along r r' s f e o = record {
  whole = subst (λ n. (n / 4 % 2 == 1) ≡ true) (sym f) o.whole;
  has = e ∙ o.has;
  alive = o.alive;
  kept = o.kept;
}

-- `hand_over` of a whole header.
hand_over-given :
    (r : Reader) (s : Stream) (f : Field)
    → IsOpen r s
    → r.name ≡ some f.0
    → r.val ≡ some f.1
    → hand_over r ≡ record r { stream = some (given s f) }
unfolding hand_over
hand_over-given r s f o e h = rw (o.has, o.alive, o.kept, e, h) refl

-- The reader that hands a whole header over, with the table `t`.
abbrev handed : Reader → Stream → Field → ℕ → Hpack → Reader
handed r s f sum t = record r {
  header_length = sum;
  hpack = t;
  index = false;
  stream = some (given s f);
}

handed-Between :
    (r : Reader) (s : Stream) (f : Field) (len sum sum' limit : ℕ) (fs fs' : List Field) (t : Hpack)
    → Found r s f len sum limit fs
    → Shows 0 0 (prepare t) fs'
    → (prepare t).size ≡ limit
    → Between (handed r s f sum' t) (given s f) len sum' limit fs'
handed-Between r s f len sum sum' limit fs fs' t h e g = record {
  takes = record {
    whole = h.takes.whole;
    has = refl;
    alive = (given_alive s f).0 ∙ h.takes.alive;
    kept = (given_alive s f).1 ∙ h.takes.kept;
  };
  no_padding = h.no_padding;
  left = h.left;
  read = refl;
  no_name = h.no_name;
  no_value = h.no_value;
  no_index = refl;
  shows = e;
  within = g;
}

-- `process_header` once the limit is not exceeded and the table is known.
process_by :
    (r r' : Reader) (pos : Bytes) (sum : ℕ)
    → length_added r ≡ sum
    → sum ≤ 1048576
    → index_header (record r { header_length = sum }) ≡ some r'
    → process_header r pos ≡ state_header_complete (hand_over r') pos
unfolding process_header header_indexed
process_by r r' pos sum e small f =
    let within : ltb 1048576 sum ≡ false = ground arith in rw (e, within, f) refl

length_added-Found :
    (r : Reader) (s : Stream) (f : Field) (len sum limit : ℕ) (fs : List Field)
    → Found r s f len sum limit fs
    → sum + texts_of f ≤ 1048576
    → length_added r ≡ sum + texts_of f
unfolding length_added
length_added-Found r s f len sum limit fs h small =
    rw (h.read, h.name_is, h.value_is) (mod-eq_of_lt (omega arith) ∙ omega arith)

index_header_on :
    (r : Reader) (f : Field) (t : Hpack)
    → r.index ≡ true
    → r.name ≡ some f.0
    → r.val ≡ some f.1
    → add_header f.0 f.1 r.hpack ≡ some t
    → index_header r ≡ some (record r { hpack = t; index = false })
unfolding index_header
index_header_on r f t e n v a = rw (e, n, v, a) refl

index_header_off : (r : Reader) → r.index ≡ false → index_header r ≡ some r
unfolding index_header
index_header_off r e = rw e refl

pub Found-step :
    (r : Reader) (s : Stream) (f : Field) (len sum limit : ℕ) (fs : List Field) (pos : Bytes)
    → Found r s f len sum limit fs
    → sum + texts_of f ≤ 1048576
    → (ix : Bool) → r.index ≡ ix
    → (r' : Reader) × (process_header r pos ≡ state_header_complete r' pos)
      × Between r' (given s f) len (sum + texts_of f) limit (if ix then insert limit f fs else fs)
unfolding index_header
Found-step r s f len sum limit fs pos h small true e =
    let a = add_prepared-Shows r.hpack fs f h.shows in
    let prepared = prepare_ready a.0 a.2.is_ready in
    let r1 = record r { header_length = sum + texts_of f } in
    let r2 = record r1 { hpack = a.0; index = false } in
    (
      handed r s f (sum + texts_of f) a.0,
      process_by r r2 pos (sum + texts_of f) (length_added-Found r s f len sum limit fs h small)
            small (index_header_on r1 f a.0 e h.name_is h.value_is a.1)
          ∙ ap (λ x. state_header_complete x pos)
              (hand_over-given r2 s f (IsOpen-along r r2 s refl refl h.takes) h.name_is h.value_is),
      handed-Between r s f len sum (sum + texts_of f) limit fs (insert limit f fs) a.0 h
          (subst (λ t. Shows 0 0 t (insert limit f fs)) (sym prepared)
            (subst (λ n. Shows 0 0 a.0 (insert n f fs)) h.within a.2))
          (ap (λ t. t.size) prepared ∙ a.3 ∙ h.within),
    )
Found-step r s f len sum limit fs pos h small false e =
    let r1 = record r { header_length = sum + texts_of f } in
    (
      handed r s f (sum + texts_of f) r.hpack,
      process_by r r1 pos (sum + texts_of f) (length_added-Found r s f len sum limit fs h small)
            small (index_header_off r1 e)
          ∙ ap (λ x. state_header_complete x pos)
              (hand_over-given r1 s f (IsOpen-along r r1 s refl refl h.takes) h.name_is h.value_is
                ∙ ap (λ b. record r1 { index = b; stream = some (given s f) }) e),
      handed-Between r s f len sum (sum + texts_of f) limit fs fs r.hpack h h.shows h.within,
    )
