-- ===== src/Http2.antt =====
-- The HTTP/2 connection, src/KHttp2.cpp, include/KHttp2.h and include/KHttp2WriteBuffer.h.
pub mod Headers
pub mod Windows
pub mod Frames
pub mod Receive
pub mod Integers
pub mod Table
