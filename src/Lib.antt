-- ===== src/Lib.antt =====
-- Verification of httpd, an HTTP server and client library.
--
-- The parts modelled, with the files of the repository that they stand for:
--
-- Dechunk is the incremental decoder of chunked bodies, KDechunkEngine::dechunk of
-- src/KDechunkEngine.cpp, and Dechunk.Reader is KDechunkReader::read of include/KDechunkEngine.h. The
-- engine is its word `chunk_size`; a call takes the bytes from `*buf` to `end` and returns the word,
-- the bytes left and the result. The reader's connection is a parameter, a state with a function
-- `read(buf, len)`, and so is kgl_memcpy, which the reader calls on places that may overlap.
-- Dechunk.Reader.Messages has the chunked messages of RFC 9112. The outer loop runs on fuel, as a connection may deliver bytes for ever without
-- a piece; its inner loop has one round for each byte and one more, which is enough.
-- Huffman is the Huffman code of HPACK. Huffman.Decode is kgl_http_v2_huff_decode of
-- src/KHuffDecode.cpp with its table of 256 states, Huffman.Encode holds the tables of
-- src/KHuffEncode.cpp. Huffman.Tree is the specification, the tree of the encoder's code words read
-- bit by bit; Huffman.Tree.Check compares every entry of the decoder's table with it.
-- Http2.Integers has the integers of HPACK, KHttp2::parse_int of src/KHttp2.cpp and
-- KHttp2HeaderFrame::write_int of include/KHttp2WriteBuffer.h. The loop of `write_int` has fuel 10,
-- enough for 64 bits.
-- Http2.Table is the dynamic table of src/KHttp2Table.cpp, with the memory that it manages: the ring
-- of pointers, the entries that are used again and the ring of bytes. Http2.Table.Fields is the
-- specification, a list of fields with eviction from RFC 7541. The loops of evictions have a round for
-- each entry of the ring as fuel and `table_size` one more, which is enough.
-- Http2.Headers has the header blocks of src/KHttp2.cpp. Reader, Frames, Process and Block are the
-- handlers of a server from state_header_block to state_header_complete, with CONTINUATION frames, and
-- the loop of on_read_result over them, on fuel; Names and Send are add_method, add_status and
-- add_header; Meant says which headers are to be written. The other modules follow a header from the sender to the stream of the receiver, with
-- one round of the loop for each field.
-- Http2.Windows has the windows that limit what is sent, in src/KHttp2.cpp and include/KHttp2.h: a
-- connection with its index of streams, `on_write_window_ready` with `build_write_buffer`; its module
-- Events has check_write_wait, adjust_windows, WINDOW_UPDATE, write and the rest as the events of a
-- run, in any order. A state keeps the frames that were pushed.
-- Http2.Receive has the windows for receiving of one stream, `state_data`, `state_read_data` and
-- `read` of src/KHttp2.cpp, as the events of a run.
-- Http2.Frames has the header of a frame, get_frame and state_head, and KHttp2HeaderFrame of
-- include/KHttp2WriteBuffer.h: its chunks and, of src/KHttp2WriteBuffer.cpp, `create`.
--
-- HttpLib has the pure helpers of src/KHttpLib.cpp on texts: HttpLib.Url the coding of URLs,
-- HttpLib.Base64 the coding base64, HttpLib.Range the choice of a range of bytes, for which an int64_t
-- is an integer and the sum that can overflow wraps.
--
-- Base has the shared names, tests, lists and their lemmas. Bytes are natural numbers below 256 where
-- a statement needs it; machine words keep their wrap-around written out. Buffers are lists of bytes,
-- so lengths that the source holds in an int are taken to fit.
--
-- Not modelled: the asynchronous input and output, fibers and pools of the library kasync, which the
-- source only calls; locks; HTTP/3, which another library implements; the XML and WebDAV client.
pub mod Base
pub mod Dechunk
pub mod Http2
pub mod HttpLib
pub mod Huffman
