-- ===== src/Http2/Receive.antt =====
-- src/KHttp2.cpp: the windows for receiving, `state_data`, `state_read_data`, `read` and
-- `check_recv_window`, for one stream of a connection that has read its header block.
pub mod Bounds
pub mod Runs
mod Tests
use khttpd.Base.{
  ℕ, ◌+◌, ◌-◌, ◌/◌, ◌%◌, ◌^◌, min, Bool, true, false, Option, none, some, List, [], ◌∷◌, ◌++◌, ltb,
  ◌==◌, ◌&&◌, not, if◌then◌else◌, ◌>>=◌,
}

-- `window` and `buffered` are `recv_window` and the bytes of `read_buffer` of the stream, `pending`
-- is `state.length`, the bytes of its DATA frame that are to come; `updates` are the WINDOW_UPDATE
-- frames sent, true for one of the connection.
pub record Inbox : Type 0 where
  pub connection_window : ℕ
  pub window : ℕ
  pub buffered : ℕ
  pub pending : ℕ
  pub in_closed : Bool
  pub ends : Bool
  pub updates : List (Bool × ℕ)

abbrev pub connection_recv_window : ℕ
connection_recv_window = 2 ^ 31 - 1

abbrev pub stream_recv_window : ℕ
stream_recv_window = 262143

-- What `state_data` does: it closes the connection, terminates the stream, or goes on with the data.
pub data Received : Type 0 where
  violated : Received
  terminated : Inbox → Received
  accepted : Inbox → Received

-- The window of the connection, and its update
unfoldable pub take_connection : ℕ → Inbox → Inbox
take_connection len b =
    let left = b.connection_window - len in
    if ltb left (connection_recv_window / 4)
    then record b {
      connection_window = connection_recv_window;
      updates = b.updates ++ (true, connection_recv_window - left) ∷ [];
    }
    else record b { connection_window = left }

-- The window of the stream
unfoldable pub take_stream : ℕ → Bool → Inbox → Received
take_stream len end_stream b =
    if ltb b.window len
    then terminated b
    else if b.in_closed
    then terminated (record b { window = b.window - len })
    else accepted (record b { window = b.window - len; pending = len; ends = end_stream })

-- `state_data` behind the padding, for a DATA frame of `len` bytes
unfoldable pub state_data : ℕ → Bool → Inbox → Received
unfolding take_connection take_stream
state_data len end_stream b =
    if ltb b.connection_window len
    then violated
    else take_stream len end_stream (take_connection len b)

-- `copy_read_buffer` into a buffer of `n` bytes
unfoldable pub copy_read_buffer : ℕ → Inbox → Inbox
copy_read_buffer n b = record b { buffered = b.buffered - min n b.buffered }

-- `state_read_data` with `n` bytes there, for a stream without `skip_data`; `append` takes its
-- length as a `uint16_t`. `reader` is the buffer of a reader that waits.
unfoldable pub state_read_data : ℕ → Option ℕ → Inbox → Inbox
unfolding copy_read_buffer
state_read_data n reader b =
    let size = min n b.pending in
    let c = record b {
      buffered = b.buffered + size % 2 ^ 16;
      pending = b.pending - size;
      in_closed = if b.pending - size == 0 && b.ends then true else b.in_closed;
    } in
    elim reader [ none ↦ c | some len ↦ if size == 0 then c else copy_read_buffer len c ]

unfoldable pub check_recv_window : Inbox → Inbox
check_recv_window b =
    if not b.in_closed && ltb (b.window + b.buffered) (stream_recv_window / 4)
    then record b {
      window = stream_recv_window;
      updates = b.updates ++ (false, stream_recv_window - b.window) ∷ [];
    }
    else b

-- `read` of a stream that was not reset: with nothing buffered it waits or ends, and takes nothing.
unfoldable pub read : ℕ → Inbox → Inbox
unfolding check_recv_window copy_read_buffer
read n b = copy_read_buffer n (check_recv_window b)

-- What happens to an open stream. A frame begins when the one before has come.
pub data Arrival : Type 0 where
  data_frame : (len : ℕ) → (end_stream : Bool) → Arrival
  bytes : (n : ℕ) → (reader : Option ℕ) → Arrival
  reads : (n : ℕ) → Arrival

unfoldable pub arrive : Arrival → Inbox → Received
unfolding state_data state_read_data read
arrive (data_frame len end_stream) b =
    if b.pending == 0 then state_data len end_stream b else violated
arrive (bytes n reader) b = accepted (state_read_data n reader b)
arrive (reads n) b = accepted (read n b)

abbrev pub then_arrive : Received → (Inbox → Option Inbox) → Option Inbox
then_arrive violated f = none
then_arrive (terminated b) f = none
then_arrive (accepted b) f = f b

unfoldable pub arrive_all : List Arrival → Inbox → Option Inbox
unfolding arrive
arrive_all [] b = some b
arrive_all (a ∷ more) b = then_arrive (arrive a b) (arrive_all more)
