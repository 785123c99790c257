-- ===== src/Http2/Receive/Runs.antt =====
-- src/KHttp2.cpp: a stream from its opening on, as the first of its connection.
use khttpd.Http2.Receive.Bounds.{arrive-IsInbox, OnAccepted, granted, data_of, IsInbox}
use khttpd.Http2.Receive.{
  violated, accepted, terminated, then_arrive, Received, arrive, stream_recv_window,
  check_recv_window, arrive_all, Arrival, connection_recv_window, copy_read_buffer, read, Inbox,
}
use khttpd.Base.{
  ◌-◌, ◌++◌, ◌/◌, ◌≤◌, subst, ltb, ◌&&◌, ◌≡◌, ◌+◌, not, Bool, Option, arith, ℕ, List, refl, [], ◌∷◌,
  none, some, true, false, if◌then◌else◌,
}

abbrev pub new_inbox : Inbox
new_inbox = record {
  connection_window = connection_recv_window;
  window = stream_recv_window;
  buffered = 0;
  pending = 0;
  in_closed = false;
  ends = false;
  updates = [];
}

new_inbox-IsInbox : IsInbox 0 new_inbox
new_inbox-IsInbox = record {
  connection_agrees = omega arith;
  stream_agrees = omega arith;
  connection_le = omega arith;
  window_le = omega arith;
  pending_le = omega arith;
  total_le = omega arith;
}

-- The bytes of the DATA frames that began.
abbrev pub data_sent : List Arrival → ℕ
data_sent [] = 0
data_sent (a ∷ more) = data_of a + data_sent more

abbrev Arrived : ℕ → Option Inbox → Type 0
Arrived got none = Unit
Arrived got (some b) = IsInbox got b

then_arrive-Arrived :
    (got got' : ℕ) (f : Inbox → Option Inbox) (r : Received)
    → ((b : Inbox) → IsInbox got b → Arrived got' (f b))
    → OnAccepted (IsInbox got) r
    → Arrived got' (then_arrive r f)
then_arrive-Arrived got got' f violated k h = tt
then_arrive-Arrived got got' f (terminated b) k h = tt
then_arrive-Arrived got got' f (accepted b) k h = k b h

arrive_all-Arrived :
    (got : ℕ) (es : List Arrival) (b : Inbox)
    → IsInbox got b
    → Arrived (got + data_sent es) (arrive_all es b)
unfolding arrive_all
arrive_all-Arrived got [] b h = subst (λ n. IsInbox n b) (omega arith) h
arrive_all-Arrived got (a ∷ es) b h =
    then_arrive-Arrived (got + data_of a) (got + (data_of a + data_sent es)) (arrive_all es)
      (arrive a b)
      (λ c i.
        subst (λ n. Arrived n (arrive_all es c)) (omega arith)
          (arrive_all-Arrived (got + data_of a) es c i))
      (arrive-IsInbox got a b h)

arrived :
    (es : List Arrival) (b : Inbox) → arrive_all es new_inbox ≡ some b → IsInbox (data_sent es) b
arrived es b e = subst (Arrived (data_sent es)) e (
    subst (λ n. Arrived n (arrive_all es new_inbox)) (omega arith)
      (arrive_all-Arrived 0 es new_inbox new_inbox-IsInbox))

-- After any frames without padding, pieces of them and reads that leave the stream open, each window
-- is its first size and the increments sent, less the bytes of the DATA frames, so the peer counts
-- the same; and at most 589820 bytes are buffered, to come or still allowed.
pub arrive_all-IsInbox :
    (es : List Arrival) (b : Inbox)
    → arrive_all es new_inbox ≡ some b
    → (data_sent es + b.connection_window ≡ connection_recv_window + granted true b.updates)
      × (data_sent es + b.window ≡ stream_recv_window + granted false b.updates)
      × (b.window + b.buffered + b.pending ≤ 589820)
arrive_all-IsInbox es b e =
    let h = arrived es b e in (h.connection_agrees, h.stream_agrees, h.total_le)

opened_by :
    (b : Inbox) (k : Bool)
    → (not b.in_closed && ltb (b.window + b.buffered) (stream_recv_window / 4)) ≡ k
    → b.in_closed ≡ false
    → b.buffered ≡ 0
    → 65535
      ≤ (if k
          then record b {
            window = stream_recv_window;
            updates = b.updates ++ (false, stream_recv_window - b.window) ∷ [];
          }
          else b).window
opened_by b true e c z = omega arith
opened_by b false e c z = ground arith

-- A reader that finds an open stream with nothing buffered leaves it with a window of at least a
-- quarter of the first, so the peer can go on.
pub read-window :
    (n : ℕ) (b : Inbox) → b.in_closed ≡ false → b.buffered ≡ 0 → 65535 ≤ (read n b).window
unfolding read copy_read_buffer check_recv_window
read-window n b c z = opened_by b _ refl c z
