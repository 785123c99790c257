-- ===== src/Http2/Headers/RoundTrip.antt =====
-- src/KHttp2.cpp: a header block of fields as `add_header` and its like write them, read by the loop.
use khttpd.Http2.Headers.Reader.{Reader}
