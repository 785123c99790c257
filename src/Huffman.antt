-- ===== src/Huffman.antt =====
-- src/KHuffDecode.cpp and src/KHuffEncode.cpp: the Huffman code of HPACK. `Code` has the entries of
-- the tables, `Decode` and `Encode` the tables and functions.
pub mod Code
pub mod Decode
pub mod Encode
mod Tests
pub mod Tree
