-- ===== src/Http2/Headers/Reader.antt =====
-- src/KHttp2.cpp, include/KHttp2.h: the state of the reading of a header block. `Reader` has the
-- fields of `state` that the handlers use, with `hpack`; of the stream it has what they read and
-- write.
use khttpd.Base.{ℕ, ◌+◌, ◌*◌, ◌/◌, ◌%◌, Bool, Option, none, some, List, [], ◌==◌, Bytes, get_or}
use khttpd.Http2.Table.{Hpack}

-- KGL_HTTP_V2_PROTOCOL_ERROR and the other codes that these handlers close the connection with.
pub data Status : Type 0 where
  protocol_error : Status
  internal_error : Status
  flow_ctrl_error : Status
  size_error : Status
  comp_error : Status
  enhance_your_calm : Status

-- `state.handler`, of the handlers of a header block, and where they lead.
pub data Handler : Type 0 where
  head : Handler
  skip : Handler
  header_block : Handler
  header_complete : Handler
  field_len : Handler
  field_raw : Handler
  field_huff : Handler
  field_skip : Handler

-- The stream, a `KHttp2Context` with its sink: `headers` are the headers given to the sink's
-- `parse_header`, `started` counts the fibers created for it.
pub record Stream : Type 0 where
  pub rst : Bool
  pub destroy_by_http2 : Bool
  pub parsed_header : Bool
  pub cookies : List Bytes
  pub headers : List (Bytes × Bytes)
  pub started : ℕ

-- `field` is what stands from `field_start` to `field_end`, none where they are NULL; `released` is
-- the stream that `state_complete` or `on_header_success` let go of.
pub record Reader : Type 0 where
  pub sid : ℕ
  pub len : ℕ
  pub padding : ℕ
  pub flags : ℕ
  pub parse_name : Bool
  pub parse_value : Bool
  pub index : Bool
  pub field_state : ℕ
  pub field_rest : ℕ
  pub field : Option Bytes
  pub name : Option Bytes
  pub val : Option Bytes
  pub header_length : ℕ
  pub buffer : Bytes
  pub handler : Handler
  pub stream : Option Stream
  pub released : Option Stream
  pub hpack : Hpack

-- What a handler returns: the position to go on from, NULL behind `close(true, status)`, or that the
-- fuel of the dynamic table ran out, which it never does.
pub data Step : Type 0 where
  go : Reader → Bytes → Step
  closed : Status → Step
  out_of_fuel : Step

abbrev pub end_headers : Reader → Bool
end_headers r = r.flags / 4 % 2 == 1

abbrev pub bytes_of : Option Bytes → Bytes
bytes_of none = []
bytes_of (some bs) = bs

-- kgl_http_v2_parse_uint32 of the bytes from `i` on
abbrev pub uint32_at : Bytes → ℕ → ℕ
uint32_at p i =
    ((get_or p i 0 * 256 + get_or p (i + 1) 0) * 256 + get_or p (i + 2) 0) * 256
    + get_or p (i + 3) 0
