-- ===== src/Http2/Headers.antt =====
-- src/KHttp2.cpp and include/KHttp2WriteBuffer.h: header blocks of HTTP/2, read by a server and
-- written by either side. A handler of the reader takes the bytes from `pos` to `end`.
pub mod Reader
pub mod Frames
pub mod Process
pub mod Block
pub mod Names
pub mod Send
pub mod Steps
pub mod Items
pub mod Found
pub mod Turns
pub mod Literals
pub mod Loop
pub mod Known
pub mod Written
pub mod RoundTrip
pub mod Delivered
pub mod Meant
pub mod Request
pub mod Response
pub mod Oversize
mod Tests
