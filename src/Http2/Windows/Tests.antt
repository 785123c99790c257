-- ===== src/Http2/Windows/Tests.antt =====
-- Runs of the windows, and their theorems at concrete inputs.
use khttpd.Http2.Windows.Payload.{on_write_window_ready-chain, joined}
use khttpd.Http2.Windows.Ready.{FreeStream, RightStream}
use khttpd.Http2.Windows.Runs.{run-sent, run-FreeStream, run-IsWindow, granted, new_connection}
use khttpd.Http2.Windows.Checks.{At}
use khttpd.Http2.Windows.Moves.{sent}
use khttpd.Http2.Windows.{
  serve, data_frame, chain, max_window, Wire, allowed, Connection, Context, on_write_window_ready,
}
use khttpd.Http2.Windows.Events.{window_update, settings, cleaned, writes, opened, Event, step, run}
use khttpd.Base.{
  min_ℤ, ◌+ℤ◌, ◌-ℤ◌, ◌-ℤ◌, arith, true, Bytes, ◌≡◌, codes, false, ◌+◌, pos, above, ◌≤◌, All, Option,
  List, refl, [], ◌∷◌, none, some,
}

-- A stream is opened and sends 4 bytes; the peer shrinks the first window to 2, so that a writer has
-- to wait, and then widens the window of the stream.
abbrev some_events : List Event
some_events =
    opened 1 false
    ∷ writes 1 (chain (codes "ab" ∷ codes "cd" ∷ [])) 4
    ∷ cleaned 1
    ∷ settings 4 2
    ∷ writes 1 (chain (codes "xyz" ∷ [])) 3
    ∷ window_update 0 100
    ∷ window_update 1 4
    ∷ []

abbrev outcome : Option Connection → Connection
outcome none = new_connection
outcome (some c) = c

abbrev some_connection : Connection
some_connection = outcome (run some_events new_connection)

some_events-run : run some_events new_connection ≡ some some_connection
unfolding run step serve min_ℤ ◌+ℤ◌ ◌-ℤ◌
some_events-run = refl

some_frames :
    some_connection.wire.pushed
    ≡ data_frame 1 4 false (codes "ab" ∷ codes "cd" ∷ [])
      ∷ data_frame 1 2 false (codes "xy" ∷ [])
      ∷ []
unfolding run step serve min_ℤ ◌+ℤ◌ ◌-ℤ◌
some_frames = refl

run-sent_example :
    sent some_connection.wire.pushed + some_connection.wire.send_window
    ≡ 65535 + granted some_events
run-sent_example = run-sent some_events some_connection some_events-run

run-IsWindow_example :
    (some_connection.wire.send_window ≤ max_window)
    × All (All (At (RightStream some_connection.init_window))) some_connection.streams_index
run-IsWindow_example = run-IsWindow some_events some_connection some_events-run

some_window : some_connection.wire.send_window ≡ 65629
unfolding run step serve min_ℤ ◌+ℤ◌ ◌-ℤ◌
some_window = refl

run-FreeStream_example : All (All (At FreeStream)) some_connection.streams_index
run-FreeStream_example =
    run-FreeStream some_events some_connection some_events-run (omega (arith, some_window))

abbrev some_wire : Wire
some_wire = record { send_window = 5; frame_size = 16384; pushed = [] }

abbrev some_stream : Context
some_stream = record {
  send_window = pos 3;
  content_left = some 3;
  in_closed = false;
  out_closed = false;
  rst = false;
  write_wait = none;
}

some_allowed : above (allowed some_wire some_stream) ≡ 3
unfolding allowed min_ℤ
some_allowed = refl

on_write_window_ready-chain_example :
    let r =
      on_write_window_ready some_wire 1 some_stream (chain (codes "ab" ∷ codes "cd" ∷ [])) 4 in
    (ps : List Bytes) × (r.0
      ≡ record some_wire { send_window = 2; pushed = data_frame 1 3 true ps ∷ [] })
    × (joined ps ≡ codes "abc")
    × (r.1.send_window ≡ pos 3 -ℤ pos 3)
on_write_window_ready-chain_example =
    on_write_window_ready-chain some_wire 1 some_stream (codes "ab" ∷ codes "cd" ∷ []) 4
      (omega arith) (omega (arith, some_allowed))
