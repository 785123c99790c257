-- ===== src/Http2/Windows/Moves.antt =====
-- src/KHttp2.cpp: what a change of the windows keeps, at one stream, at a list of nodes and at the
-- index of all streams.
use khttpd.Http2.Windows.{
  for_hup, for_writing, for_window, rst_frame, max_window, file_frame, data_frame, WriteWait, Wire,
  Node, Frame, Context,
}
use khttpd.Base.{
  true, false, if◌then◌else◌, true, below, pos, ◌<◌, ltb_ℤ, ◌&&◌, above, ◌∙◌, ◌≤◌, false, ◌++◌, ◌≡◌,
  arith, Bool, ◌+◌, ℤ, All, ℕ, List, Option, refl, [], ◌∷◌, none, some,
}

-- The bytes of the DATA frames that were pushed.
abbrev pub sent_by : Frame → ℕ
sent_by (data_frame sid len last ps) = len
sent_by (file_frame sid len last) = len
sent_by (rst_frame sid status) = 0

abbrev pub sent : List Frame → ℕ
sent [] = 0
sent (f ∷ fs) = sent_by f + sent fs

pub sent-append : (fs gs : List Frame) → sent (fs ++ gs) ≡ sent fs + sent gs
sent-append [] gs = omega arith
sent-append (f ∷ fs) gs = omega (arith, sent-append fs gs)

-- What is sent is taken off the window of the connection; `a` becomes `b`, which is right if `a` is,
-- and free if `a` is and the connection has a window left.
pub record Moves {A : Type 0} (Right Right' Free Free' : A → Type 0) (w : Wire) (a : A) (w' : Wire)
    (b : A) : Type 0 where
  pub accounts : sent w'.pushed + w'.send_window ≡ sent w.pushed + w.send_window
  pub less : w'.send_window ≤ w.send_window
  pub same_size : w'.frame_size ≡ w.frame_size
  pub right : Right a → Right' b
  pub free : 0 < w'.send_window → Free a → Free' b

module _ {A : Type 0} (Right Right' Free Free' : A → Type 0) where
  pub Moves-none : (w : Wire) → Moves (All Right) (All Right') (All Free) (All Free') w [] w []
  Moves-none w = record {
    accounts = refl;
    less = omega arith;
    same_size = refl;
    right = λ h. h;
    free = λ p h. h;
  }

  pub Moves-cons :
      (w w' w'' : Wire) (a b : A) (xs ys : List A)
      → Moves Right Right' Free Free' w a w' b
      → Moves (All Right) (All Right') (All Free) (All Free') w' xs w'' ys
      → Moves (All Right) (All Right') (All Free) (All Free') w (a ∷ xs) w'' (b ∷ ys)
  Moves-cons w w' w'' a b xs ys m ms = record {
    accounts = ms.accounts ∙ m.accounts;
    less = omega (arith, ms.less, m.less);
    same_size = ms.same_size ∙ m.same_size;
    right = λ h. (m.right h.0, ms.right h.1);
    free = λ p h. (m.free (omega (arith, ms.less)) h.0, ms.free p h.1);
  }

-- Nothing changes.
pub Moves-same :
    {A : Type 0} (Right Free : A → Type 0) (w : Wire) (a : A) → Moves Right Right Free Free w a w a
Moves-same Right Free w a = record {
  accounts = refl;
  less = omega arith;
  same_size = refl;
  right = λ h. h;
  free = λ p h. h;
}

-- By cases.
pub Moves-if :
    {A : Type 0} (Right Right' Free Free' : A → Type 0) (w : Wire) (a : A) (b : Bool)
    (x y : Wire × A)
    → (b ≡ true → Moves Right Right' Free Free' w a x.0 x.1)
    → (b ≡ false → Moves Right Right' Free Free' w a y.0 y.1)
    → Moves Right Right' Free Free' w a (if b then x else y).0 (if b then x else y).1
Moves-if Right Right' Free Free' w a true x y p q = p refl
Moves-if Right Right' Free Free' w a false x y p q = q refl

-- One of a list changes.
pub Moves-first :
    {A : Type 0} (Right Free : A → Type 0) (w w' : Wire) (a b : A) (xs : List A)
    → Moves Right Right Free Free w a w' b
    → Moves (All Right) (All Right) (All Free) (All Free) w (a ∷ xs) w' (b ∷ xs)
Moves-first Right Free w w' a b xs m =
    Moves-cons Right Right Free Free w w' w' a b xs xs m (Moves-same (All Right) (All Free) w' xs)

pub Moves-later :
    {A : Type 0} (Right Free : A → Type 0) (w w' : Wire) (a : A) (xs ys : List A)
    → Moves (All Right) (All Right) (All Free) (All Free) w xs w' ys
    → Moves (All Right) (All Right) (All Free) (All Free) w (a ∷ xs) w' (a ∷ ys)
Moves-later Right Free w w' a xs ys m =
    Moves-cons Right Right Free Free w w w' a a xs ys (Moves-same Right Free w a) m

-- The window of a stream is an int that does not overflow: at most the largest window, and at most
-- as far below the initial window.
pub record IsWindow (init : ℕ) (v : ℤ) : Type 0 where
  pub initial : init ≤ max_window
  pub upper : above v ≤ max_window
  pub lower : init + below v ≤ max_window + above v

-- A writer that waits for a window although its stream has one.
abbrev pub waits : Option WriteWait → Bool
waits none = false
waits (some for_hup) = false
waits (some (for_window source n)) = true
waits (some (for_writing n)) = false

abbrev pub is_stuck : Context → Bool
is_stuck s = waits s.write_wait && ltb_ℤ (pos 0) s.send_window

-- Of a node, of which the stream may be gone.
abbrev pub OnStream : (Context → Type 0) → Option Context → Type 0
OnStream P none = Unit
OnStream P (some s) = P s

abbrev pub RightNode : ℕ → Node → Type 0
RightNode init n = OnStream (λ s. IsWindow init s.send_window) n.stream

abbrev pub FreeNode : Node → Type 0
FreeNode n = OnStream (λ s. is_stuck s ≡ false) n.stream
