-- ===== src/Huffman/Code.antt =====
-- The entries of the Huffman tables: `kgl_http_v2_huff_decode_code_t` of src/KHuffDecode.cpp and
-- `kgl_http_v2_huff_encode_code_t` of src/KHuffEncode.cpp.
use khttpd.Base.{ℕ}

-- The fields `next`, `emit`, `sym`, `ending`.
pub data DecodeCode : Type 0 where
  code : ℕ → ℕ → ℕ → ℕ → DecodeCode

-- The fields `code`, `len`.
pub data EncodeCode : Type 0 where
  code : ℕ → ℕ → EncodeCode
