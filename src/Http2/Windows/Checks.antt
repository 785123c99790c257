-- ===== src/Http2/Windows/Checks.antt =====
-- src/KHttp2.cpp: a change at a stream as a change of its node and of the index, and
-- `check_write_wait`.
use khttpd.Http2.Windows.Ready.{
  and_false_right, Moves-unstuck, serve-Moves, FreeStream, AnyStream, RightStream,
}
use khttpd.Http2.Windows.Moves.{
  Moves-cons, Moves-none, waits, Moves-later, Moves-first, Moves-same, OnStream, Moves,
}
use khttpd.Http2.Windows.Events.{
  check_lists, on_stream, at_node, on_node, at_list, check_list, check_stream,
}
use khttpd.Http2.Windows.{Node, Wire, Context}
use khttpd.Base.{
  sym, ==_iff, subst, zero, inr, pos, inl, ltb_ℤ, ◌==◌, suc, Bool-cases, arith, All, Option, ◌<◌,
  List, ℕ, refl, [], ◌∷◌, none, some,
}

-- An action on streams, whatever the stream.
abbrev pub Keeps : (P P' F F' : Context → Type 0) → (Wire → ℕ → Context → Wire × Context) → Type 0
Keeps P P' F F' act =
    (w : Wire) (sid : ℕ) (s : Context)
    → 0 < w.frame_size
    → Moves P P' F F' w s (act w sid s).0 (act w sid s).1

abbrev pub At : (Context → Type 0) → Node → Type 0
At P n = OnStream P n.stream

module _ (P P' F F' : Context → Type 0) (act : Wire → ℕ → Context → Wire × Context)
    (keeps : Keeps P P' F F' act) where
  on_stream-Moves :
      (w : Wire) (sid : ℕ) (o : Option Context)
      → 0 < w.frame_size
      → Moves
          (OnStream P)
          (OnStream P')
          (OnStream F)
          (OnStream F')
          w
          o
          (on_stream act w sid o).0
          (on_stream act w sid o).1
  unfolding on_stream
  on_stream-Moves w sid none f = record {
    accounts = refl;
    less = omega arith;
    same_size = refl;
    right = λ u. tt;
    free = λ p u. tt;
  }
  on_stream-Moves w sid (some s) f =
      let m = keeps w sid s f in
      record {
        accounts = m.accounts;
        less = m.less;
        same_size = m.same_size;
        right = m.right;
        free = m.free;
      }

  pub on_node-Moves :
      (w : Wire) (n : Node)
      → 0 < w.frame_size
      → Moves (At P) (At P') (At F) (At F') w n (on_node act w n).0 (on_node act w n).1
  unfolding on_node
  on_node-Moves w n f =
      let m = on_stream-Moves w n.id n.stream f in
      record {
        accounts = m.accounts;
        less = m.less;
        same_size = m.same_size;
        right = m.right;
        free = m.free;
      }

module _ (P F : Context → Type 0) (act : Wire → ℕ → Context → Wire × Context)
    (keeps : Keeps P P F F act) where
  pub at_node-Moves :
      (sid : ℕ) (w : Wire) (ns : List Node)
      → 0 < w.frame_size
      → Moves
          (All (At P))
          (All (At P))
          (All (At F))
          (All (At F))
          w
          ns
          (at_node act sid w ns).0
          (at_node act sid w ns).1
  unfolding at_node
  at_node-Moves sid w [] f = Moves-same (All (At P)) (All (At F)) w []
  at_node-Moves sid w (n ∷ ns) f = elim (Bool-cases (n.id == sid)) [
    | inl e ↦ rw e (
        Moves-first (At P) (At F) w (on_node act w n).0 n (on_node act w n).1 ns
          (on_node-Moves P P F F act keeps w n f))
    | inr e ↦ rw e (
        Moves-later (At P) (At F) w (at_node act sid w ns).0 n ns (at_node act sid w ns).1
          (at_node-Moves sid w ns f))
  ]

-- A change of one list is one of the index.
pub at_list-Moves :
    (R F : List Node → Type 0) (act : Wire → List Node → Wire × List Node) (i : ℕ) (w : Wire)
    (index : List (List Node))
    → ((ns : List Node) → Moves R R F F w ns (act w ns).0 (act w ns).1)
    → Moves
        (All R)
        (All R)
        (All F)
        (All F)
        w
        index
        (at_list act i w index).0
        (at_list act i w index).1
unfolding at_list
at_list-Moves R F act i w [] h = Moves-same (All R) (All F) w []
at_list-Moves R F act zero w (ns ∷ index) h =
    Moves-first R F w (act w ns).0 ns (act w ns).1 index (h ns)
at_list-Moves R F act (suc i) w (ns ∷ index) h =
    Moves-later R F w (at_list act i w index).0 ns index (at_list act i w index).1
      (at_list-Moves R F act i w index h)

check_stream-Keeps :
    (init : ℕ) → Keeps (RightStream init) (RightStream init) AnyStream FreeStream check_stream
unfolding check_stream
check_stream-Keeps init w sid s f = elim (Bool-cases (ltb_ℤ (pos 0) s.send_window)) [
  | inl e ↦ rw e (serve-Moves w init sid s f)
  | inr e ↦ rw e (Moves-unstuck w init s (rw e (and_false_right (waits s.write_wait))))
]

module _ (init : ℕ) where
  check_list-Moves :
      (w : Wire) (ns : List Node)
      → 0 < w.frame_size
      → Moves
          (All (At (RightStream init)))
          (All (At (RightStream init)))
          (All (At AnyStream))
          (All (At FreeStream))
          w
          ns
          (check_list w ns).0
          (check_list w ns).1
  unfolding check_list
  check_list-Moves w [] f =
      Moves-none (At (RightStream init)) (At (RightStream init)) (At AnyStream) (At FreeStream) w
  check_list-Moves w (n ∷ ns) f = elim (Bool-cases (w.send_window == 0)) [
    | inl e ↦
        let zero_window = (==_iff w.send_window 0).0 e in
        rw e (record {
          accounts = refl;
          less = omega arith;
          same_size = refl;
          right = λ r. r;
          free = λ p u. absurd (omega (arith, zero_window));
        })
    | inr e ↦
        let m =
          on_node-Moves (RightStream init) (RightStream init) AnyStream FreeStream check_stream
            (check_stream-Keeps init) w n f in
        let w' = (on_node check_stream w n).0 in
        let f' = subst (λ k. 0 < k) (sym m.same_size) f in
        rw e (
          Moves-cons (At (RightStream init)) (At (RightStream init)) (At AnyStream) (At FreeStream)
            w w' (check_list w' ns).0 n (on_node check_stream w n).1 ns (check_list w' ns).1 m
            (check_list-Moves w' ns f'))
  ]

  pub check_lists-Moves :
      (w : Wire) (index : List (List Node))
      → 0 < w.frame_size
      → Moves
          (All (All (At (RightStream init))))
          (All (All (At (RightStream init))))
          (All (All (At AnyStream)))
          (All (All (At FreeStream)))
          w
          index
          (check_lists w index).0
          (check_lists w index).1
  unfolding check_lists
  check_lists-Moves w [] f =
      Moves-none (All (At (RightStream init))) (All (At (RightStream init))) (All (At AnyStream))
        (All (At FreeStream)) w
  check_lists-Moves w (ns ∷ index) f =
      let m = check_list-Moves w ns f in
      let w' = (check_list w ns).0 in
      let f' = subst (λ k. 0 < k) (sym m.same_size) f in
      Moves-cons (All (At (RightStream init))) (All (At (RightStream init))) (All (At AnyStream))
        (All (At FreeStream)) w w' (check_lists w' index).0 ns (check_list w ns).1 index
        (check_lists w' index).1 m (check_lists-Moves w' index f')

any_stream : (o : Option Context) → OnStream AnyStream o
any_stream none = tt
any_stream (some s) = tt

any_list : (ns : List Node) → All (At AnyStream) ns
any_list [] = tt
any_list (n ∷ ns) = (any_stream n.stream, any_list ns)

pub any_lists : (index : List (List Node)) → All (All (At AnyStream)) index
any_lists [] = tt
any_lists (ns ∷ index) = (any_list ns, any_lists index)
