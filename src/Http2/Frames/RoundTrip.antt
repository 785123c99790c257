-- ===== src/Http2/Frames/RoundTrip.antt =====
-- src/KHttp2.cpp: `state_head` reads the header that `get_frame` writes.
use khttpd.Http2.Headers.Reader.{Reader}
