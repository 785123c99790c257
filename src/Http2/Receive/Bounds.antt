-- ===== src/Http2/Receive/Bounds.antt =====
-- src/KHttp2.cpp: how much is buffered for a stream, and that the peer's count of its windows is that
-- of the server.
use khttpd.Http2.Receive.{
  violated, reads, accepted, bytes, connection_recv_window, terminated, Received,
  stream_recv_window, read, data_frame, state_read_data, Inbox, state_data, arrive, take_stream,
  Arrival, take_connection, check_recv_window, copy_read_buffer,
}
use khttpd.Base.{
  min, ◌<◌, and_parts, subst, ltb→lt, ==_iff, ◌&&◌, not, ◌/◌, ◌++◌, ltb, ◌-◌, ◌==◌, arith, ◌≤◌, ◌≡◌,
  List, Option, ◌+◌, Bool, ℕ, refl, [], ◌∷◌, none, some, true, false, if◌then◌else◌,
}

-- The increments sent for the connection, or for the stream.
abbrev pub of_kind : Bool → Bool × ℕ → ℕ
of_kind true (true, n) = n
of_kind true (false, n) = 0
of_kind false (true, n) = 0
of_kind false (false, n) = n

abbrev pub granted : Bool → List (Bool × ℕ) → ℕ
granted k [] = 0
granted k (u ∷ us) = of_kind k u + granted k us

granted-append :
    (k : Bool) (us vs : List (Bool × ℕ)) → granted k (us ++ vs) ≡ granted k us + granted k vs
granted-append k [] vs = omega arith
granted-append k (u ∷ us) vs = omega (arith, granted-append k us vs)

-- Of a stream that got `got` bytes of DATA frames: its windows are what was granted and not yet
-- used, and what may come and is there has a bound.
pub record IsInbox (got : ℕ) (b : Inbox) : Type 0 where
  pub connection_agrees :
      got + b.connection_window ≡ connection_recv_window + granted true b.updates
  pub stream_agrees : got + b.window ≡ stream_recv_window + granted false b.updates
  pub connection_le : b.connection_window ≤ connection_recv_window
  pub window_le : b.window ≤ stream_recv_window
  pub pending_le : b.pending ≤ stream_recv_window
  pub total_le : b.window + b.buffered + b.pending ≤ 589820

IsInbox-if :
    (got : ℕ) (k : Bool) (x y : Inbox)
    → (k ≡ true → IsInbox got x)
    → (k ≡ false → IsInbox got y)
    → IsInbox got (if k then x else y)
IsInbox-if got true x y p q = p refl
IsInbox-if got false x y p q = q refl

copy_read_buffer-IsInbox :
    (got n : ℕ) (b : Inbox) → IsInbox got b → IsInbox got (copy_read_buffer n b)
unfolding copy_read_buffer
copy_read_buffer-IsInbox got n b h = record {
  connection_agrees = h.connection_agrees;
  stream_agrees = h.stream_agrees;
  connection_le = h.connection_le;
  window_le = h.window_le;
  pending_le = h.pending_le;
  total_le = omega (arith, h.total_le);
}

check_recv_window-IsInbox :
    (got : ℕ) (b : Inbox) → IsInbox got b → IsInbox got (check_recv_window b)
unfolding check_recv_window
check_recv_window-IsInbox got b h =
    let g =
      λ (k : Bool). granted-append k b.updates ((false, stream_recv_window - b.window) ∷ []) in
    let gt = g true in
    let gf = g false in
    IsInbox-if got (not b.in_closed && ltb (b.window + b.buffered) (stream_recv_window / 4)) _ b
      (λ e.
        let small : b.window + b.buffered < stream_recv_window / 4 =
          ltb→lt (b.window + b.buffered) (stream_recv_window / 4)
            (and_parts (not b.in_closed) (ltb (b.window + b.buffered) (stream_recv_window / 4))
              e).1 in
        record {
          connection_agrees = omega (arith, h.connection_agrees, gt);
          stream_agrees = omega (arith, h.stream_agrees, h.window_le, gf);
          connection_le = h.connection_le;
          window_le = omega arith;
          pending_le = h.pending_le;
          total_le = omega (arith, small, h.pending_le);
        })
      (λ e. h)

unread-IsInbox : (got n : ℕ) (b : Inbox) → IsInbox got b → IsInbox got (state_read_data n none b)
unfolding state_read_data
unread-IsInbox got n b h = record {
  connection_agrees = h.connection_agrees;
  stream_agrees = h.stream_agrees;
  connection_le = h.connection_le;
  window_le = h.window_le;
  pending_le = omega (arith, h.pending_le);
  total_le = omega (arith, h.total_le);
}

state_read_data-IsInbox :
    (got n : ℕ) (reader : Option ℕ) (b : Inbox)
    → IsInbox got b
    → IsInbox got (state_read_data n reader b)
unfolding state_read_data
state_read_data-IsInbox got n none b h = unread-IsInbox got n b h
state_read_data-IsInbox got n (some len) b h =
    IsInbox-if got (min n b.pending == 0) _ _ (λ e. unread-IsInbox got n b h)
      (λ e. copy_read_buffer-IsInbox got len (state_read_data n none b) (unread-IsInbox got n b h))

-- The windows when a frame has begun, but for the stream's.
record Taken (got len : ℕ) (b c : Inbox) : Type 0 where
  agrees : got + len + c.connection_window ≡ connection_recv_window + granted true c.updates
  same_grants : granted false c.updates ≡ granted false b.updates
  within : c.connection_window ≤ connection_recv_window
  same_window : c.window ≡ b.window
  same_buffered : c.buffered ≡ b.buffered
  same_pending : c.pending ≡ b.pending

Taken-if :
    (got len : ℕ) (b : Inbox) (k : Bool) (x y : Inbox)
    → Taken got len b x
    → Taken got len b y
    → Taken got len b (if k then x else y)
Taken-if got len b true x y p q = p
Taken-if got len b false x y p q = q

take_connection-Taken :
    (got len : ℕ) (b : Inbox)
    → IsInbox got b
    → len ≤ b.connection_window
    → Taken got len b (take_connection len b)
unfolding take_connection
take_connection-Taken got len b h l =
    let left = b.connection_window - len in
    let g = λ (k : Bool). granted-append k b.updates ((true, connection_recv_window - left) ∷ []) in
    let gt = g true in
    let gf = g false in
    Taken-if got len b (ltb left (connection_recv_window / 4)) _ _
      (record {
        agrees = omega (arith, h.connection_agrees, h.connection_le, gt);
        same_grants = omega (arith, gf);
        within = omega arith;
        same_window = refl;
        same_buffered = refl;
        same_pending = refl;
      })
      (record {
        agrees = omega (arith, h.connection_agrees);
        same_grants = refl;
        within = omega (arith, h.connection_le);
        same_window = refl;
        same_buffered = refl;
        same_pending = refl;
      })

-- What is accepted has the property.
abbrev pub OnAccepted : (Inbox → Type 0) → Received → Type 0
OnAccepted P violated = Unit
OnAccepted P (terminated b) = Unit
OnAccepted P (accepted b) = P b

OnAccepted-if :
    (P : Inbox → Type 0) (k : Bool) (x y : Received)
    → (k ≡ true → OnAccepted P x)
    → (k ≡ false → OnAccepted P y)
    → OnAccepted P (if k then x else y)
OnAccepted-if P true x y p q = p refl
OnAccepted-if P false x y p q = q refl

take_stream-IsInbox :
    (got len : ℕ) (end_stream : Bool) (b c : Inbox)
    → IsInbox got b
    → b.pending ≡ 0
    → Taken got len b c
    → OnAccepted (IsInbox (got + len)) (take_stream len end_stream c)
unfolding take_stream
take_stream-IsInbox got len end_stream b c h z t =
    OnAccepted-if (IsInbox (got + len)) (ltb c.window len) _ _ (λ e. tt)
      (λ e.
        OnAccepted-if (IsInbox (got + len)) c.in_closed _ _ (λ a. tt)
          (λ a.
            let fits : len ≤ c.window = ground arith in
            record {
              connection_agrees = t.agrees;
              stream_agrees = omega (arith, h.stream_agrees, t.same_grants, t.same_window, fits);
              connection_le = t.within;
              window_le = omega (arith, h.window_le, t.same_window);
              pending_le = omega (arith, h.window_le, t.same_window, fits);
              total_le = omega (arith, h.total_le, t.same_window, t.same_buffered, fits);
            }))

state_data-IsInbox :
    (got len : ℕ) (end_stream : Bool) (b : Inbox)
    → IsInbox got b
    → b.pending ≡ 0
    → OnAccepted (IsInbox (got + len)) (state_data len end_stream b)
unfolding state_data
state_data-IsInbox got len end_stream b h z =
    OnAccepted-if (IsInbox (got + len)) (ltb b.connection_window len) _ _ (λ e. tt)
      (λ e.
        take_stream-IsInbox got len end_stream b (take_connection len b) h z
          (take_connection-Taken got len b h (ground arith)))

-- The bytes of a DATA frame that begins.
abbrev pub data_of : Arrival → ℕ
data_of (data_frame len end_stream) = len
data_of (bytes n reader) = 0
data_of (reads n) = 0

pub arrive-IsInbox :
    (got : ℕ) (a : Arrival) (b : Inbox)
    → IsInbox got b
    → OnAccepted (IsInbox (got + data_of a)) (arrive a b)
unfolding arrive read
arrive-IsInbox got (data_frame len end_stream) b h =
    OnAccepted-if (IsInbox (got + len)) (b.pending == 0) (state_data len end_stream b) violated
      (λ e. state_data-IsInbox got len end_stream b h ((==_iff b.pending 0).0 e)) (λ e. tt)
arrive-IsInbox got (bytes n reader) b h =
    subst (λ k. IsInbox k (state_read_data n reader b)) (omega arith)
      (state_read_data-IsInbox got n reader b h)
arrive-IsInbox got (reads n) b h =
    subst (λ k. IsInbox k (copy_read_buffer n (check_recv_window b))) (omega arith)
      (copy_read_buffer-IsInbox got n (check_recv_window b) (check_recv_window-IsInbox got b h))
