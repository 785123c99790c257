-- ===== src/Huffman/Decode/Codes2.antt =====
-- Rows 64 to 95 of `kgl_http_v2_huff_decode_codes`, src/KHuffDecode.cpp.
use khttpd.Base.{List, [], ◌∷◌}
use khttpd.Huffman.Code.{DecodeCode, code}

abbrev pub decode_codes_64 : List (List DecodeCode)
decode_codes_64 =
    (code 0x01 1 0x77 0
      ∷ code 0x16 1 0x77 1
      ∷ code 0x01 1 0x78 0
      ∷ code 0x16 1 0x78 1
      ∷ code 0x01 1 0x79 0
      ∷ code 0x16 1 0x79 1
      ∷ code 0x01 1 0x7a 0
      ∷ code 0x16 1 0x7a 1
      ∷ code 0x00 1 0x26 1
      ∷ code 0x00 1 0x2a 1
      ∷ code 0x00 1 0x2c 1
      ∷ code 0x00 1 0x3b 1
      ∷ code 0x00 1 0x58 1
      ∷ code 0x00 1 0x5a 1
      ∷ code 0x4b 0 0x00 0
      ∷ code 0x4e 0 0x00 1
      ∷ [])
    ∷ (code 0x02 1 0x77 0
        ∷ code 0x09 1 0x77 0
        ∷ code 0x17 1 0x77 0
        ∷ code 0x28 1 0x77 1
        ∷ code 0x02 1 0x78 0
        ∷ code 0x09 1 0x78 0
        ∷ code 0x17 1 0x78 0
        ∷ code 0x28 1 0x78 1
        ∷ code 0x02 1 0x79 0
        ∷ code 0x09 1 0x79 0
        ∷ code 0x17 1 0x79 0
        ∷ code 0x28 1 0x79 1
        ∷ code 0x02 1 0x7a 0
        ∷ code 0x09 1 0x7a 0
        ∷ code 0x17 1 0x7a 0
        ∷ code 0x28 1 0x7a 1
        ∷ [])
    ∷ (code 0x03 1 0x77 0
        ∷ code 0x06 1 0x77 0
        ∷ code 0x0a 1 0x77 0
        ∷ code 0x0f 1 0x77 0
        ∷ code 0x18 1 0x77 0
        ∷ code 0x1f 1 0x77 0
        ∷ code 0x29 1 0x77 0
        ∷ code 0x38 1 0x77 1
        ∷ code 0x03 1 0x78 0
        ∷ code 0x06 1 0x78 0
        ∷ code 0x0a 1 0x78 0
        ∷ code 0x0f 1 0x78 0
        ∷ code 0x18 1 0x78 0
        ∷ code 0x1f 1 0x78 0
        ∷ code 0x29 1 0x78 0
        ∷ code 0x38 1 0x78 1
        ∷ [])
    ∷ (code 0x03 1 0x79 0
        ∷ code 0x06 1 0x79 0
        ∷ code 0x0a 1 0x79 0
        ∷ code 0x0f 1 0x79 0
        ∷ code 0x18 1 0x79 0
        ∷ code 0x1f 1 0x79 0
        ∷ code 0x29 1 0x79 0
        ∷ code 0x38 1 0x79 1
        ∷ code 0x03 1 0x7a 0
        ∷ code 0x06 1 0x7a 0
        ∷ code 0x0a 1 0x7a 0
        ∷ code 0x0f 1 0x7a 0
        ∷ code 0x18 1 0x7a 0
        ∷ code 0x1f 1 0x7a 0
        ∷ code 0x29 1 0x7a 0
        ∷ code 0x38 1 0x7a 1
        ∷ [])
    ∷ (code 0x01 1 0x26 0
        ∷ code 0x16 1 0x26 1
        ∷ code 0x01 1 0x2a 0
        ∷ code 0x16 1 0x2a 1
        ∷ code 0x01 1 0x2c 0
        ∷ code 0x16 1 0x2c 1
        ∷ code 0x01 1 0x3b 0
        ∷ code 0x16 1 0x3b 1
        ∷ code 0x01 1 0x58 0
        ∷ code 0x16 1 0x58 1
        ∷ code 0x01 1 0x5a 0
        ∷ code 0x16 1 0x5a 1
        ∷ code 0x4c 0 0x00 0
        ∷ code 0x4d 0 0x00 0
        ∷ code 0x4f 0 0x00 0
        ∷ code 0x51 0 0x00 1
        ∷ [])
    ∷ (code 0x02 1 0x26 0
        ∷ code 0x09 1 0x26 0
        ∷ code 0x17 1 0x26 0
        ∷ code 0x28 1 0x26 1
        ∷ code 0x02 1 0x2a 0
        ∷ code 0x09 1 0x2a 0
        ∷ code 0x17 1 0x2a 0
        ∷ code 0x28 1 0x2a 1
        ∷ code 0x02 1 0x2c 0
        ∷ code 0x09 1 0x2c 0
        ∷ code 0x17 1 0x2c 0
        ∷ code 0x28 1 0x2c 1
        ∷ code 0x02 1 0x3b 0
        ∷ code 0x09 1 0x3b 0
        ∷ code 0x17 1 0x3b 0
        ∷ code 0x28 1 0x3b 1
        ∷ [])
    ∷ (code 0x03 1 0x26 0
        ∷ code 0x06 1 0x26 0
        ∷ code 0x0a 1 0x26 0
        ∷ code 0x0f 1 0x26 0
        ∷ code 0x18 1 0x26 0
        ∷ code 0x1f 1 0x26 0
        ∷ code 0x29 1 0x26 0
        ∷ code 0x38 1 0x26 1
        ∷ code 0x03 1 0x2a 0
        ∷ code 0x06 1 0x2a 0
        ∷ code 0x0a 1 0x2a 0
        ∷ code 0x0f 1 0x2a 0
        ∷ code 0x18 1 0x2a 0
        ∷ code 0x1f 1 0x2a 0
        ∷ code 0x29 1 0x2a 0
        ∷ code 0x38 1 0x2a 1
        ∷ [])
    ∷ (code 0x03 1 0x2c 0
        ∷ code 0x06 1 0x2c 0
        ∷ code 0x0a 1 0x2c 0
        ∷ code 0x0f 1 0x2c 0
        ∷ code 0x18 1 0x2c 0
        ∷ code 0x1f 1 0x2c 0
        ∷ code 0x29 1 0x2c 0
        ∷ code 0x38 1 0x2c 1
        ∷ code 0x03 1 0x3b 0
        ∷ code 0x06 1 0x3b 0
        ∷ code 0x0a 1 0x3b 0
        ∷ code 0x0f 1 0x3b 0
        ∷ code 0x18 1 0x3b 0
        ∷ code 0x1f 1 0x3b 0
        ∷ code 0x29 1 0x3b 0
        ∷ code 0x38 1 0x3b 1
        ∷ [])
    ∷ []

abbrev pub decode_codes_72 : List (List DecodeCode)
decode_codes_72 =
    (code 0x02 1 0x58 0
      ∷ code 0x09 1 0x58 0
      ∷ code 0x17 1 0x58 0
      ∷ code 0x28 1 0x58 1
      ∷ code 0x02 1 0x5a 0
      ∷ code 0x09 1 0x5a 0
      ∷ code 0x17 1 0x5a 0
      ∷ code 0x28 1 0x5a 1
      ∷ code 0x00 1 0x21 1
      ∷ code 0x00 1 0x22 1
      ∷ code 0x00 1 0x28 1
      ∷ code 0x00 1 0x29 1
      ∷ code 0x00 1 0x3f 1
      ∷ code 0x50 0 0x00 0
      ∷ code 0x52 0 0x00 0
      ∷ code 0x54 0 0x00 1
      ∷ [])
    ∷ (code 0x03 1 0x58 0
        ∷ code 0x06 1 0x58 0
        ∷ code 0x0a 1 0x58 0
        ∷ code 0x0f 1 0x58 0
        ∷ code 0x18 1 0x58 0
        ∷ code 0x1f 1 0x58 0
        ∷ code 0x29 1 0x58 0
        ∷ code 0x38 1 0x58 1
        ∷ code 0x03 1 0x5a 0
        ∷ code 0x06 1 0x5a 0
        ∷ code 0x0a 1 0x5a 0
        ∷ code 0x0f 1 0x5a 0
        ∷ code 0x18 1 0x5a 0
        ∷ code 0x1f 1 0x5a 0
        ∷ code 0x29 1 0x5a 0
        ∷ code 0x38 1 0x5a 1
        ∷ [])
    ∷ (code 0x01 1 0x21 0
        ∷ code 0x16 1 0x21 1
        ∷ code 0x01 1 0x22 0
        ∷ code 0x16 1 0x22 1
        ∷ code 0x01 1 0x28 0
        ∷ code 0x16 1 0x28 1
        ∷ code 0x01 1 0x29 0
        ∷ code 0x16 1 0x29 1
        ∷ code 0x01 1 0x3f 0
        ∷ code 0x16 1 0x3f 1
        ∷ code 0x00 1 0x27 1
        ∷ code 0x00 1 0x2b 1
        ∷ code 0x00 1 0x7c 1
        ∷ code 0x53 0 0x00 0
        ∷ code 0x55 0 0x00 0
        ∷ code 0x58 0 0x00 1
        ∷ [])
    ∷ (code 0x02 1 0x21 0
        ∷ code 0x09 1 0x21 0
        ∷ code 0x17 1 0x21 0
        ∷ code 0x28 1 0x21 1
        ∷ code 0x02 1 0x22 0
        ∷ code 0x09 1 0x22 0
        ∷ code 0x17 1 0x22 0
        ∷ code 0x28 1 0x22 1
        ∷ code 0x02 1 0x28 0
        ∷ code 0x09 1 0x28 0
        ∷ code 0x17 1 0x28 0
        ∷ code 0x28 1 0x28 1
        ∷ code 0x02 1 0x29 0
        ∷ code 0x09 1 0x29 0
        ∷ code 0x17 1 0x29 0
        ∷ code 0x28 1 0x29 1
        ∷ [])
    ∷ (code 0x03 1 0x21 0
        ∷ code 0x06 1 0x21 0
        ∷ code 0x0a 1 0x21 0
        ∷ code 0x0f 1 0x21 0
        ∷ code 0x18 1 0x21 0
        ∷ code 0x1f 1 0x21 0
        ∷ code 0x29 1 0x21 0
        ∷ code 0x38 1 0x21 1
        ∷ code 0x03 1 0x22 0
        ∷ code 0x06 1 0x22 0
        ∷ code 0x0a 1 0x22 0
        ∷ code 0x0f 1 0x22 0
        ∷ code 0x18 1 0x22 0
        ∷ code 0x1f 1 0x22 0
        ∷ code 0x29 1 0x22 0
        ∷ code 0x38 1 0x22 1
        ∷ [])
    ∷ (code 0x03 1 0x28 0
        ∷ code 0x06 1 0x28 0
        ∷ code 0x0a 1 0x28 0
        ∷ code 0x0f 1 0x28 0
        ∷ code 0x18 1 0x28 0
        ∷ code 0x1f 1 0x28 0
        ∷ code 0x29 1 0x28 0
        ∷ code 0x38 1 0x28 1
        ∷ code 0x03 1 0x29 0
        ∷ code 0x06 1 0x29 0
        ∷ code 0x0a 1 0x29 0
        ∷ code 0x0f 1 0x29 0
        ∷ code 0x18 1 0x29 0
        ∷ code 0x1f 1 0x29 0
        ∷ code 0x29 1 0x29 0
        ∷ code 0x38 1 0x29 1
        ∷ [])
    ∷ (code 0x02 1 0x3f 0
        ∷ code 0x09 1 0x3f 0
        ∷ code 0x17 1 0x3f 0
        ∷ code 0x28 1 0x3f 1
        ∷ code 0x01 1 0x27 0
        ∷ code 0x16 1 0x27 1
        ∷ code 0x01 1 0x2b 0
        ∷ code 0x16 1 0x2b 1
        ∷ code 0x01 1 0x7c 0
        ∷ code 0x16 1 0x7c 1
        ∷ code 0x00 1 0x23 1
        ∷ code 0x00 1 0x3e 1
        ∷ code 0x56 0 0x00 0
        ∷ code 0x57 0 0x00 0
        ∷ code 0x59 0 0x00 0
        ∷ code 0x5a 0 0x00 1
        ∷ [])
    ∷ (code 0x03 1 0x3f 0
        ∷ code 0x06 1 0x3f 0
        ∷ code 0x0a 1 0x3f 0
        ∷ code 0x0f 1 0x3f 0
        ∷ code 0x18 1 0x3f 0
        ∷ code 0x1f 1 0x3f 0
        ∷ code 0x29 1 0x3f 0
        ∷ code 0x38 1 0x3f 1
        ∷ code 0x02 1 0x27 0
        ∷ code 0x09 1 0x27 0
        ∷ code 0x17 1 0x27 0
        ∷ code 0x28 1 0x27 1
        ∷ code 0x02 1 0x2b 0
        ∷ code 0x09 1 0x2b 0
        ∷ code 0x17 1 0x2b 0
        ∷ code 0x28 1 0x2b 1
        ∷ [])
    ∷ []

abbrev pub decode_codes_80 : List (List DecodeCode)
decode_codes_80 =
    (code 0x03 1 0x27 0
      ∷ code 0x06 1 0x27 0
      ∷ code 0x0a 1 0x27 0
      ∷ code 0x0f 1 0x27 0
      ∷ code 0x18 1 0x27 0
      ∷ code 0x1f 1 0x27 0
      ∷ code 0x29 1 0x27 0
      ∷ code 0x38 1 0x27 1
      ∷ code 0x03 1 0x2b 0
      ∷ code 0x06 1 0x2b 0
      ∷ code 0x0a 1 0x2b 0
      ∷ code 0x0f 1 0x2b 0
      ∷ code 0x18 1 0x2b 0
      ∷ code 0x1f 1 0x2b 0
      ∷ code 0x29 1 0x2b 0
      ∷ code 0x38 1 0x2b 1
      ∷ [])
    ∷ (code 0x02 1 0x7c 0
        ∷ code 0x09 1 0x7c 0
        ∷ code 0x17 1 0x7c 0
        ∷ code 0x28 1 0x7c 1
        ∷ code 0x01 1 0x23 0
        ∷ code 0x16 1 0x23 1
        ∷ code 0x01 1 0x3e 0
        ∷ code 0x16 1 0x3e 1
        ∷ code 0x00 1 0x00 1
        ∷ code 0x00 1 0x24 1
        ∷ code 0x00 1 0x40 1
        ∷ code 0x00 1 0x5b 1
        ∷ code 0x00 1 0x5d 1
        ∷ code 0x00 1 0x7e 1
        ∷ code 0x5b 0 0x00 0
        ∷ code 0x5c 0 0x00 1
        ∷ [])
    ∷ (code 0x03 1 0x7c 0
        ∷ code 0x06 1 0x7c 0
        ∷ code 0x0a 1 0x7c 0
        ∷ code 0x0f 1 0x7c 0
        ∷ code 0x18 1 0x7c 0
        ∷ code 0x1f 1 0x7c 0
        ∷ code 0x29 1 0x7c 0
        ∷ code 0x38 1 0x7c 1
        ∷ code 0x02 1 0x23 0
        ∷ code 0x09 1 0x23 0
        ∷ code 0x17 1 0x23 0
        ∷ code 0x28 1 0x23 1
        ∷ code 0x02 1 0x3e 0
        ∷ code 0x09 1 0x3e 0
        ∷ code 0x17 1 0x3e 0
        ∷ code 0x28 1 0x3e 1
        ∷ [])
    ∷ (code 0x03 1 0x23 0
        ∷ code 0x06 1 0x23 0
        ∷ code 0x0a 1 0x23 0
        ∷ code 0x0f 1 0x23 0
        ∷ code 0x18 1 0x23 0
        ∷ code 0x1f 1 0x23 0
        ∷ code 0x29 1 0x23 0
        ∷ code 0x38 1 0x23 1
        ∷ code 0x03 1 0x3e 0
        ∷ code 0x06 1 0x3e 0
        ∷ code 0x0a 1 0x3e 0
        ∷ code 0x0f 1 0x3e 0
        ∷ code 0x18 1 0x3e 0
        ∷ code 0x1f 1 0x3e 0
        ∷ code 0x29 1 0x3e 0
        ∷ code 0x38 1 0x3e 1
        ∷ [])
    ∷ (code 0x01 1 0x00 0
        ∷ code 0x16 1 0x00 1
        ∷ code 0x01 1 0x24 0
        ∷ code 0x16 1 0x24 1
        ∷ code 0x01 1 0x40 0
        ∷ code 0x16 1 0x40 1
        ∷ code 0x01 1 0x5b 0
        ∷ code 0x16 1 0x5b 1
        ∷ code 0x01 1 0x5d 0
        ∷ code 0x16 1 0x5d 1
        ∷ code 0x01 1 0x7e 0
        ∷ code 0x16 1 0x7e 1
        ∷ code 0x00 1 0x5e 1
        ∷ code 0x00 1 0x7d 1
        ∷ code 0x5d 0 0x00 0
        ∷ code 0x5e 0 0x00 1
        ∷ [])
    ∷ (code 0x02 1 0x00 0
        ∷ code 0x09 1 0x00 0
        ∷ code 0x17 1 0x00 0
        ∷ code 0x28 1 0x00 1
        ∷ code 0x02 1 0x24 0
        ∷ code 0x09 1 0x24 0
        ∷ code 0x17 1 0x24 0
        ∷ code 0x28 1 0x24 1
        ∷ code 0x02 1 0x40 0
        ∷ code 0x09 1 0x40 0
        ∷ code 0x17 1 0x40 0
        ∷ code 0x28 1 0x40 1
        ∷ code 0x02 1 0x5b 0
        ∷ code 0x09 1 0x5b 0
        ∷ code 0x17 1 0x5b 0
        ∷ code 0x28 1 0x5b 1
        ∷ [])
    ∷ (code 0x03 1 0x00 0
        ∷ code 0x06 1 0x00 0
        ∷ code 0x0a 1 0x00 0
        ∷ code 0x0f 1 0x00 0
        ∷ code 0x18 1 0x00 0
        ∷ code 0x1f 1 0x00 0
        ∷ code 0x29 1 0x00 0
        ∷ code 0x38 1 0x00 1
        ∷ code 0x03 1 0x24 0
        ∷ code 0x06 1 0x24 0
        ∷ code 0x0a 1 0x24 0
        ∷ code 0x0f 1 0x24 0
        ∷ code 0x18 1 0x24 0
        ∷ code 0x1f 1 0x24 0
        ∷ code 0x29 1 0x24 0
        ∷ code 0x38 1 0x24 1
        ∷ [])
    ∷ (code 0x03 1 0x40 0
        ∷ code 0x06 1 0x40 0
        ∷ code 0x0a 1 0x40 0
        ∷ code 0x0f 1 0x40 0
        ∷ code 0x18 1 0x40 0
        ∷ code 0x1f 1 0x40 0
        ∷ code 0x29 1 0x40 0
        ∷ code 0x38 1 0x40 1
        ∷ code 0x03 1 0x5b 0
        ∷ code 0x06 1 0x5b 0
        ∷ code 0x0a 1 0x5b 0
        ∷ code 0x0f 1 0x5b 0
        ∷ code 0x18 1 0x5b 0
        ∷ code 0x1f 1 0x5b 0
        ∷ code 0x29 1 0x5b 0
        ∷ code 0x38 1 0x5b 1
        ∷ [])
    ∷ []

abbrev pub decode_codes_88 : List (List DecodeCode)
decode_codes_88 =
    (code 0x02 1 0x5d 0
      ∷ code 0x09 1 0x5d 0
      ∷ code 0x17 1 0x5d 0
      ∷ code 0x28 1 0x5d 1
      ∷ code 0x02 1 0x7e 0
      ∷ code 0x09 1 0x7e 0
      ∷ code 0x17 1 0x7e 0
      ∷ code 0x28 1 0x7e 1
      ∷ code 0x01 1 0x5e 0
      ∷ code 0x16 1 0x5e 1
      ∷ code 0x01 1 0x7d 0
      ∷ code 0x16 1 0x7d 1
      ∷ code 0x00 1 0x3c 1
      ∷ code 0x00 1 0x60 1
      ∷ code 0x00 1 0x7b 1
      ∷ code 0x5f 0 0x00 1
      ∷ [])
    ∷ (code 0x03 1 0x5d 0
        ∷ code 0x06 1 0x5d 0
        ∷ code 0x0a 1 0x5d 0
        ∷ code 0x0f 1 0x5d 0
        ∷ code 0x18 1 0x5d 0
        ∷ code 0x1f 1 0x5d 0
        ∷ code 0x29 1 0x5d 0
        ∷ code 0x38 1 0x5d 1
        ∷ code 0x03 1 0x7e 0
        ∷ code 0x06 1 0x7e 0
        ∷ code 0x0a 1 0x7e 0
        ∷ code 0x0f 1 0x7e 0
        ∷ code 0x18 1 0x7e 0
        ∷ code 0x1f 1 0x7e 0
        ∷ code 0x29 1 0x7e 0
        ∷ code 0x38 1 0x7e 1
        ∷ [])
    ∷ (code 0x02 1 0x5e 0
        ∷ code 0x09 1 0x5e 0
        ∷ code 0x17 1 0x5e 0
        ∷ code 0x28 1 0x5e 1
        ∷ code 0x02 1 0x7d 0
        ∷ code 0x09 1 0x7d 0
        ∷ code 0x17 1 0x7d 0
        ∷ code 0x28 1 0x7d 1
        ∷ code 0x01 1 0x3c 0
        ∷ code 0x16 1 0x3c 1
        ∷ code 0x01 1 0x60 0
        ∷ code 0x16 1 0x60 1
        ∷ code 0x01 1 0x7b 0
        ∷ code 0x16 1 0x7b 1
        ∷ code 0x60 0 0x00 0
        ∷ code 0x6e 0 0x00 1
        ∷ [])
    ∷ (code 0x03 1 0x5e 0
        ∷ code 0x06 1 0x5e 0
        ∷ code 0x0a 1 0x5e 0
        ∷ code 0x0f 1 0x5e 0
        ∷ code 0x18 1 0x5e 0
        ∷ code 0x1f 1 0x5e 0
        ∷ code 0x29 1 0x5e 0
        ∷ code 0x38 1 0x5e 1
        ∷ code 0x03 1 0x7d 0
        ∷ code 0x06 1 0x7d 0
        ∷ code 0x0a 1 0x7d 0
        ∷ code 0x0f 1 0x7d 0
        ∷ code 0x18 1 0x7d 0
        ∷ code 0x1f 1 0x7d 0
        ∷ code 0x29 1 0x7d 0
        ∷ code 0x38 1 0x7d 1
        ∷ [])
    ∷ (code 0x02 1 0x3c 0
        ∷ code 0x09 1 0x3c 0
        ∷ code 0x17 1 0x3c 0
        ∷ code 0x28 1 0x3c 1
        ∷ code 0x02 1 0x60 0
        ∷ code 0x09 1 0x60 0
        ∷ code 0x17 1 0x60 0
        ∷ code 0x28 1 0x60 1
        ∷ code 0x02 1 0x7b 0
        ∷ code 0x09 1 0x7b 0
        ∷ code 0x17 1 0x7b 0
        ∷ code 0x28 1 0x7b 1
        ∷ code 0x61 0 0x00 0
        ∷ code 0x65 0 0x00 0
        ∷ code 0x6f 0 0x00 0
        ∷ code 0x85 0 0x00 1
        ∷ [])
    ∷ (code 0x03 1 0x3c 0
        ∷ code 0x06 1 0x3c 0
        ∷ code 0x0a 1 0x3c 0
        ∷ code 0x0f 1 0x3c 0
        ∷ code 0x18 1 0x3c 0
        ∷ code 0x1f 1 0x3c 0
        ∷ code 0x29 1 0x3c 0
        ∷ code 0x38 1 0x3c 1
        ∷ code 0x03 1 0x60 0
        ∷ code 0x06 1 0x60 0
        ∷ code 0x0a 1 0x60 0
        ∷ code 0x0f 1 0x60 0
        ∷ code 0x18 1 0x60 0
        ∷ code 0x1f 1 0x60 0
        ∷ code 0x29 1 0x60 0
        ∷ code 0x38 1 0x60 1
        ∷ [])
    ∷ (code 0x03 1 0x7b 0
        ∷ code 0x06 1 0x7b 0
        ∷ code 0x0a 1 0x7b 0
        ∷ code 0x0f 1 0x7b 0
        ∷ code 0x18 1 0x7b 0
        ∷ code 0x1f 1 0x7b 0
        ∷ code 0x29 1 0x7b 0
        ∷ code 0x38 1 0x7b 1
        ∷ code 0x62 0 0x00 0
        ∷ code 0x63 0 0x00 0
        ∷ code 0x66 0 0x00 0
        ∷ code 0x69 0 0x00 0
        ∷ code 0x70 0 0x00 0
        ∷ code 0x77 0 0x00 0
        ∷ code 0x86 0 0x00 0
        ∷ code 0x99 0 0x00 1
        ∷ [])
    ∷ (code 0x00 1 0x5c 1
        ∷ code 0x00 1 0xc3 1
        ∷ code 0x00 1 0xd0 1
        ∷ code 0x64 0 0x00 0
        ∷ code 0x67 0 0x00 0
        ∷ code 0x68 0 0x00 0
        ∷ code 0x6a 0 0x00 0
        ∷ code 0x6b 0 0x00 0
        ∷ code 0x71 0 0x00 0
        ∷ code 0x74 0 0x00 0
        ∷ code 0x78 0 0x00 0
        ∷ code 0x7e 0 0x00 0
        ∷ code 0x87 0 0x00 0
        ∷ code 0x8e 0 0x00 0
        ∷ code 0x9a 0 0x00 0
        ∷ code 0xa9 0 0x00 1
        ∷ [])
    ∷ []
