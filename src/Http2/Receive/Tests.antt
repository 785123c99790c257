-- ===== src/Http2/Receive/Tests.antt =====
-- A run of the windows for receiving, and their theorems at concrete inputs.
use khttpd.Http2.Receive.Runs.{arrive_all-IsInbox, read-window, new_inbox}
use khttpd.Http2.Receive.{
  reads, bytes, stream_recv_window, connection_recv_window, data_frame, Arrival, read, arrive_all,
  Inbox,
}
use khttpd.Base.{◌-◌, ◌^◌, ◌≡◌, ◌+◌, ◌≤◌, List, refl, [], ◌∷◌, none, some, true, false}

abbrev some_arrivals : List Arrival
some_arrivals =
    data_frame 200000 false
    ∷ bytes 150000 none
    ∷ reads 150000
    ∷ bytes 50000 (some 50000)
    ∷ reads 1000
    ∷ data_frame 10 true
    ∷ bytes 10 none
    ∷ []

abbrev some_inbox : Inbox
some_inbox = record {
  connection_window = 2 ^ 31 - 1 - 200010;
  window = 262133;
  buffered = 10;
  pending = 0;
  in_closed = true;
  ends = true;
  updates = (false, 200000) ∷ [];
}

some_arrivals-arrive : arrive_all some_arrivals new_inbox ≡ some some_inbox
unfolding arrive_all
some_arrivals-arrive = refl

arrive_all-IsInbox_example :
    (200010 + some_inbox.connection_window ≡ connection_recv_window + 0)
    × (200010 + some_inbox.window ≡ stream_recv_window + 200000)
    × (some_inbox.window + some_inbox.buffered + some_inbox.pending ≤ 589820)
arrive_all-IsInbox_example = arrive_all-IsInbox some_arrivals some_inbox some_arrivals-arrive

read-window_example : 65535 ≤ (read 10 (record new_inbox { window = 7 })).window
read-window_example = read-window 10 (record new_inbox { window = 7 }) refl refl
