-- ===== src/Http2/Windows/Runs.antt =====
-- src/KHttp2.cpp: runs of events from the new connection, as `init` leaves it.
use khttpd.Http2.Windows.Actions.{clean-Keeps, write-Keeps}
use khttpd.Http2.Windows.Index.{destroy_node-Steps, open_stream-Steps}
use khttpd.Http2.Windows.Ready.{FreeStream, RightStream}
use khttpd.Http2.Windows.Checks.{At}
use khttpd.Http2.Windows.Moves.{sent}
use khttpd.Http2.Windows.Steps.{
  setting-Steps, state_window_update-Steps, at_stream-Steps, Steps-same, Steps, granted_by, StepsTo,
  IsSound,
}
use khttpd.Http2.Windows.Events.{
  destroyed, settings, window_update, clean, cleaned, write, writes, opened, step, Event, run,
}
use khttpd.Http2.Windows.{max_window, Node, Connection}
use khttpd.Base.{subst, All, ◌+◌, ◌≤◌, ◌<◌, ℕ, ◌≡◌, Option, arith, ◌>>=◌, List, [], ◌∷◌, none, some}

abbrev empty_index : List (List Node)
empty_index = [] ∷ [] ∷ [] ∷ [] ∷ [] ∷ [] ∷ [] ∷ [] ∷ [] ∷ [] ∷ [] ∷ [] ∷ [] ∷ [] ∷ [] ∷ [] ∷ []

abbrev pub new_connection : Connection
new_connection = record {
  wire = record { send_window = 65535; frame_size = 16384; pushed = [] };
  init_window = 65535;
  streams_index = empty_index;
}

new_connection-IsSound : IsSound new_connection
new_connection-IsSound = record {
  some_size = omega arith;
  window_le = omega arith;
  init_le = omega arith;
  windows = (
    tt,
    (tt, (tt, (tt, (tt, (tt, (tt, (tt, (tt, (tt, (tt, (tt, (tt, (tt, (tt, (tt, tt))))))))))))))),
  );
  served = λ p. (
    tt,
    (tt, (tt, (tt, (tt, (tt, (tt, (tt, (tt, (tt, (tt, (tt, (tt, (tt, (tt, (tt, tt))))))))))))))),
  );
}

-- Every event keeps a connection sound, and its credit grows by what the event grants.
step-StepsTo : (e : Event) (c : Connection) → IsSound c → StepsTo c (step e c) (granted_by e)
unfolding step
step-StepsTo (opened sid in_closed) c h = open_stream-Steps sid in_closed c h
step-StepsTo (writes sid source n) c h =
    at_stream-Steps c (write source n) sid h (write-Keeps c.init_window source n)
step-StepsTo (cleaned sid) c h = at_stream-Steps c clean sid h (clean-Keeps c.init_window)
step-StepsTo (window_update sid window) c h = state_window_update-Steps sid window c h
step-StepsTo (settings id value) c h = setting-Steps id value c h
step-StepsTo (destroyed sid) c h = destroy_node-Steps sid c h

-- What the peer grants the connection in a run.
unfoldable pub granted : List Event → ℕ
granted [] = 0
granted (e ∷ es) = granted_by e + granted es

StepsTo-later :
    (c d : Connection) (o : Option Connection) (g g' : ℕ)
    → Steps c d g
    → StepsTo d o g'
    → StepsTo c o (g + g')
StepsTo-later c d none g g' s t = tt
StepsTo-later c d (some e) g g' s t = record {
  sound = t.sound;
  credited = omega (arith, s.credited, t.credited);
}

StepsTo-bind :
    (c : Connection) (o : Option Connection) (f : Connection → Option Connection) (g g' : ℕ)
    → StepsTo c o g
    → ((d : Connection) → IsSound d → StepsTo d (f d) g')
    → StepsTo c (o >>= f) (g + g')
StepsTo-bind c none f g g' s t = tt
StepsTo-bind c (some d) f g g' s t = StepsTo-later c d (f d) g g' s (t d s.sound)

run-StepsTo : (es : List Event) (c : Connection) → IsSound c → StepsTo c (run es c) (granted es)
unfolding run granted
run-StepsTo [] c h = Steps-same c h
run-StepsTo (e ∷ es) c h =
    StepsTo-bind c (step e c) (run es) (granted_by e) (granted es) (step-StepsTo e c h)
      (run-StepsTo es)

reached :
    (es : List Event) (c : Connection)
    → run es new_connection ≡ some c
    → Steps new_connection c (granted es)
reached es c e =
    subst (λ o. StepsTo new_connection o (granted es)) e
      (run-StepsTo es new_connection new_connection-IsSound)

-- After a run, the bytes of the DATA frames that were pushed and the window of the connection are
-- together the first window of 65535 and what WINDOW_UPDATE granted the connection, so no more is
-- sent than that.
pub run-sent :
    (es : List Event) (c : Connection)
    → run es new_connection ≡ some c
    → sent c.wire.pushed + c.wire.send_window ≡ 65535 + granted es
run-sent es c e = (reached es c e).credited

-- After a run, the window of the connection and every window of a stream are at most 2 ^ 31 - 1, and
-- a window of a stream is at most 2 ^ 31 - 1 below the initial window, so no int overflows.
pub run-IsWindow :
    (es : List Event) (c : Connection)
    → run es new_connection ≡ some c
    → (c.wire.send_window ≤ max_window) × All (All (At (RightStream c.init_window))) c.streams_index
run-IsWindow es c e = let s = (reached es c e).sound in (s.window_le, s.windows)

-- After a run that leaves the connection a window, no writer waits for a window while its stream has
-- one.
pub run-FreeStream :
    (es : List Event) (c : Connection)
    → run es new_connection ≡ some c
    → 0 < c.wire.send_window
    → All (All (At FreeStream)) c.streams_index
run-FreeStream es c e p = (reached es c e).sound.served p
