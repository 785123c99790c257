-- ===== src/Http2/Windows/Index.antt =====
-- src/KHttp2.cpp: a stream is opened, and one is removed.
use khttpd.Http2.Windows.Ready.{FreeStream, RightStream}
use khttpd.Http2.Windows.Checks.{at_list-Moves, At}
use khttpd.Http2.Windows.Steps.{Steps, IsSound}
use khttpd.Http2.Windows.{Node, Connection}
use khttpd.Http2.Windows.Events.{at_list, new_node, destroy_node, open_stream, without}
use khttpd.Base.{
  sym, ◌<◌, subst, arith, ◌%◌, ◌/◌, ◌==◌, All, Bool, ℕ, List, refl, [], ◌∷◌, Bool-cases, inl, inr,
}

-- A change of the list of one index that sends nothing.
at_list-Steps :
    (c : Connection) (f : List Node → List Node) (i : ℕ)
    → IsSound c
    → ((ns : List Node)
        → All (At (RightStream c.init_window)) ns
        → All (At (RightStream c.init_window)) (f ns))
    → ((ns : List Node) → All (At FreeStream) ns → All (At FreeStream) (f ns))
    → let r = at_list (λ w ns. (w, f ns)) i c.wire c.streams_index in
      Steps c (record c { wire = r.0; streams_index = r.1 }) 0
at_list-Steps c f i h k l =
    let m =
      at_list-Moves (All (At (RightStream c.init_window))) (All (At FreeStream)) (λ w ns. (w, f ns))
        i c.wire c.streams_index
        (λ ns. record {
          accounts = refl;
          less = omega arith;
          same_size = refl;
          right = k ns;
          free = λ p. l ns;
        }) in
    record {
      sound = record {
        some_size = subst (λ n. 0 < n) (sym m.same_size) h.some_size;
        window_le = omega (arith, m.less, h.window_le);
        init_le = h.init_le;
        windows = m.right h.windows;
        served = λ p. m.free p (h.served (omega (arith, m.less)));
      };
      credited = omega (arith, m.accounts);
    }

pub open_stream-Steps :
    (sid : ℕ) (in_closed : Bool) (c : Connection)
    → IsSound c
    → Steps c (open_stream sid in_closed c) 0
unfolding open_stream new_node
open_stream-Steps sid in_closed c h =
    at_list-Steps c (λ ns. new_node c.init_window sid in_closed ∷ ns) (sid / 2 % 16) h
      (λ ns p.
        (record { initial = h.init_le; upper = h.init_le; lower = omega (arith, h.init_le) }, p))
      (λ ns p. (refl, p))

without-All : (P : Node → Type 0) (sid : ℕ) (ns : List Node) → All P ns → All P (without sid ns)
unfolding without
without-All P sid [] p = tt
without-All P sid (n ∷ ns) p = elim (Bool-cases (n.id == sid)) [
  | inl e ↦ rw e p.1
  | inr e ↦ rw e (p.0, without-All P sid ns p.1)
]

pub destroy_node-Steps : (sid : ℕ) (c : Connection) → IsSound c → Steps c (destroy_node sid c) 0
unfolding destroy_node
destroy_node-Steps sid c h =
    at_list-Steps c (without sid) (sid / 2 % 16) h
      (without-All (At (RightStream c.init_window)) sid) (without-All (At FreeStream) sid)
