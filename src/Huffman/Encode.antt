-- ===== src/Huffman/Encode.antt =====
-- src/KHuffEncode.cpp: the code words of the 256 bytes.
pub mod Table
pub mod LowerTable
