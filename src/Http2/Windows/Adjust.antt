-- ===== src/Http2/Windows/Adjust.antt =====
-- src/KHttp2.cpp: `adjust_windows` keeps the windows of the streams in their range.
use khttpd.Http2.Windows.Checks.{At}
use native.Mathlib.Decide.{dec_lt}
use khttpd.Http2.Windows.Ready.{RightStream}
use khttpd.Http2.Windows.Moves.{OnStream, IsWindow}
use khttpd.Http2.Windows.{Node, max_window, Context}
use khttpd.Http2.Windows.Events.{on_option, adjust_node, adjust_stream}
use khttpd.Base.{
  ltb→lt, and_parts, Option, if◌then◌else◌, ◌≡◌, ltb_ℤ, ◌&&◌, ltb, Bool, one_part, add_parts, arith,
  sub_parts, ◌-ℤ◌, pos, ◌+ℤ◌, ◌-◌, below, above, ◌+◌, ◌<◌, ◌≤◌, map, All, ℤ, ℕ, List, refl, [], ◌∷◌,
  none, some, true, false,
}

All-map :
    {A : Type 0} (P Q : A → Type 0) (f : A → A)
    → ((a : A) → P a → Q (f a))
    → (xs : List A) → All P xs
    → All Q (map f xs)
All-map P Q f h [] p = tt
All-map P Q f h (x ∷ xs) p = (h x p.0, All-map P Q f h xs p.1)

IsWindow-shift :
    (init value : ℕ) (v : ℤ)
    → IsWindow init v
    → value ≤ max_window
    → (init < value → above v + (value - init) ≤ max_window + below v)
    → IsWindow value (v +ℤ (pos value -ℤ pos init))
IsWindow-shift init value v h m k =
    let p = sub_parts (pos value) (pos init) in
    let q = add_parts v (pos value -ℤ pos init) in
    let r = one_part v in
    let s = one_part (v +ℤ (pos value -ℤ pos init)) in
    let u = one_part (pos value -ℤ pos init) in
    record {
      initial = m;
      upper = elim (dec_lt init value) [
        | yes a ↦ let b = k a in ground arith
        | no a ↦ ground arith
      ];
      lower = ground arith;
    }

adjusted_by :
    (init value : ℕ) (s : Context)
    → value ≤ max_window
    → RightStream init s
    → (b : Bool) → (ltb init value && ltb_ℤ (pos (max_window - (value - init))) s.send_window) ≡ b
    → RightStream value
        (if b then s else record s { send_window = s.send_window +ℤ (pos value -ℤ pos init) })
adjusted_by init value s m h true e =
    let p = and_parts _ _ e in
    let a = ltb→lt init value p.0 in
    let v = s.send_window in
    let b = ltb→lt (max_window - (value - init) + below v) (above v + 0) p.1 in
    record { initial = m; upper = h.upper; lower = ground (arith, one_part v) }
adjusted_by init value s m h false e =
    IsWindow-shift init value s.send_window h m (λ a. ground arith)

adjust_stream-RightStream :
    (init value : ℕ) (s : Context)
    → value ≤ max_window
    → RightStream init s
    → RightStream value (adjust_stream init value s)
unfolding adjust_stream
adjust_stream-RightStream init value s m h = adjusted_by init value s m h _ refl

on_option-OnStream :
    (P Q : Context → Type 0) (f : Context → Context)
    → ((s : Context) → P s → Q (f s))
    → (o : Option Context) → OnStream P o
    → OnStream Q (on_option f o)
on_option-OnStream P Q f h none p = tt
on_option-OnStream P Q f h (some s) p = h s p

adjust_node-At :
    (init value : ℕ)
    → value ≤ max_window
    → (n : Node) → At (RightStream init) n
    → At (RightStream value) (adjust_node init value n)
unfolding adjust_node
adjust_node-At init value m n h =
    on_option-OnStream (RightStream init) (RightStream value) (adjust_stream init value)
      (λ s. adjust_stream-RightStream init value s m) n.stream h

-- Every window is in its range when the initial window has changed.
pub adjust_node-All :
    (init value : ℕ)
    → value ≤ max_window
    → (index : List (List Node)) → All (All (At (RightStream init))) index
    → All (All (At (RightStream value))) (map (map (adjust_node init value)) index)
adjust_node-All init value m =
    All-map (All (At (RightStream init))) (All (At (RightStream value)))
      (map (adjust_node init value))
      (All-map (At (RightStream init)) (At (RightStream value)) (adjust_node init value)
        (adjust_node-At init value m))
