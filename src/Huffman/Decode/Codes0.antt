-- ===== src/Huffman/Decode/Codes0.antt =====
-- Rows 0 to 31 of `kgl_http_v2_huff_decode_codes`, src/KHuffDecode.cpp.
use khttpd.Base.{List, [], ◌∷◌}
use khttpd.Huffman.Code.{DecodeCode, code}

abbrev pub decode_codes_0 : List (List DecodeCode)
decode_codes_0 =
    (code 0x04 0 0x00 0
      ∷ code 0x05 0 0x00 0
      ∷ code 0x07 0 0x00 0
      ∷ code 0x08 0 0x00 0
      ∷ code 0x0b 0 0x00 0
      ∷ code 0x0c 0 0x00 0
      ∷ code 0x10 0 0x00 0
      ∷ code 0x13 0 0x00 0
      ∷ code 0x19 0 0x00 0
      ∷ code 0x1c 0 0x00 0
      ∷ code 0x20 0 0x00 0
      ∷ code 0x23 0 0x00 0
      ∷ code 0x2a 0 0x00 0
      ∷ code 0x31 0 0x00 0
      ∷ code 0x39 0 0x00 0
      ∷ code 0x40 0 0x00 1
      ∷ [])
    ∷ (code 0x00 1 0x30 1
        ∷ code 0x00 1 0x31 1
        ∷ code 0x00 1 0x32 1
        ∷ code 0x00 1 0x61 1
        ∷ code 0x00 1 0x63 1
        ∷ code 0x00 1 0x65 1
        ∷ code 0x00 1 0x69 1
        ∷ code 0x00 1 0x6f 1
        ∷ code 0x00 1 0x73 1
        ∷ code 0x00 1 0x74 1
        ∷ code 0x0d 0 0x00 0
        ∷ code 0x0e 0 0x00 0
        ∷ code 0x11 0 0x00 0
        ∷ code 0x12 0 0x00 0
        ∷ code 0x14 0 0x00 0
        ∷ code 0x15 0 0x00 0
        ∷ [])
    ∷ (code 0x01 1 0x30 0
        ∷ code 0x16 1 0x30 1
        ∷ code 0x01 1 0x31 0
        ∷ code 0x16 1 0x31 1
        ∷ code 0x01 1 0x32 0
        ∷ code 0x16 1 0x32 1
        ∷ code 0x01 1 0x61 0
        ∷ code 0x16 1 0x61 1
        ∷ code 0x01 1 0x63 0
        ∷ code 0x16 1 0x63 1
        ∷ code 0x01 1 0x65 0
        ∷ code 0x16 1 0x65 1
        ∷ code 0x01 1 0x69 0
        ∷ code 0x16 1 0x69 1
        ∷ code 0x01 1 0x6f 0
        ∷ code 0x16 1 0x6f 1
        ∷ [])
    ∷ (code 0x02 1 0x30 0
        ∷ code 0x09 1 0x30 0
        ∷ code 0x17 1 0x30 0
        ∷ code 0x28 1 0x30 1
        ∷ code 0x02 1 0x31 0
        ∷ code 0x09 1 0x31 0
        ∷ code 0x17 1 0x31 0
        ∷ code 0x28 1 0x31 1
        ∷ code 0x02 1 0x32 0
        ∷ code 0x09 1 0x32 0
        ∷ code 0x17 1 0x32 0
        ∷ code 0x28 1 0x32 1
        ∷ code 0x02 1 0x61 0
        ∷ code 0x09 1 0x61 0
        ∷ code 0x17 1 0x61 0
        ∷ code 0x28 1 0x61 1
        ∷ [])
    ∷ (code 0x03 1 0x30 0
        ∷ code 0x06 1 0x30 0
        ∷ code 0x0a 1 0x30 0
        ∷ code 0x0f 1 0x30 0
        ∷ code 0x18 1 0x30 0
        ∷ code 0x1f 1 0x30 0
        ∷ code 0x29 1 0x30 0
        ∷ code 0x38 1 0x30 1
        ∷ code 0x03 1 0x31 0
        ∷ code 0x06 1 0x31 0
        ∷ code 0x0a 1 0x31 0
        ∷ code 0x0f 1 0x31 0
        ∷ code 0x18 1 0x31 0
        ∷ code 0x1f 1 0x31 0
        ∷ code 0x29 1 0x31 0
        ∷ code 0x38 1 0x31 1
        ∷ [])
    ∷ (code 0x03 1 0x32 0
        ∷ code 0x06 1 0x32 0
        ∷ code 0x0a 1 0x32 0
        ∷ code 0x0f 1 0x32 0
        ∷ code 0x18 1 0x32 0
        ∷ code 0x1f 1 0x32 0
        ∷ code 0x29 1 0x32 0
        ∷ code 0x38 1 0x32 1
        ∷ code 0x03 1 0x61 0
        ∷ code 0x06 1 0x61 0
        ∷ code 0x0a 1 0x61 0
        ∷ code 0x0f 1 0x61 0
        ∷ code 0x18 1 0x61 0
        ∷ code 0x1f 1 0x61 0
        ∷ code 0x29 1 0x61 0
        ∷ code 0x38 1 0x61 1
        ∷ [])
    ∷ (code 0x02 1 0x63 0
        ∷ code 0x09 1 0x63 0
        ∷ code 0x17 1 0x63 0
        ∷ code 0x28 1 0x63 1
        ∷ code 0x02 1 0x65 0
        ∷ code 0x09 1 0x65 0
        ∷ code 0x17 1 0x65 0
        ∷ code 0x28 1 0x65 1
        ∷ code 0x02 1 0x69 0
        ∷ code 0x09 1 0x69 0
        ∷ code 0x17 1 0x69 0
        ∷ code 0x28 1 0x69 1
        ∷ code 0x02 1 0x6f 0
        ∷ code 0x09 1 0x6f 0
        ∷ code 0x17 1 0x6f 0
        ∷ code 0x28 1 0x6f 1
        ∷ [])
    ∷ (code 0x03 1 0x63 0
        ∷ code 0x06 1 0x63 0
        ∷ code 0x0a 1 0x63 0
        ∷ code 0x0f 1 0x63 0
        ∷ code 0x18 1 0x63 0
        ∷ code 0x1f 1 0x63 0
        ∷ code 0x29 1 0x63 0
        ∷ code 0x38 1 0x63 1
        ∷ code 0x03 1 0x65 0
        ∷ code 0x06 1 0x65 0
        ∷ code 0x0a 1 0x65 0
        ∷ code 0x0f 1 0x65 0
        ∷ code 0x18 1 0x65 0
        ∷ code 0x1f 1 0x65 0
        ∷ code 0x29 1 0x65 0
        ∷ code 0x38 1 0x65 1
        ∷ [])
    ∷ []

abbrev pub decode_codes_8 : List (List DecodeCode)
decode_codes_8 =
    (code 0x03 1 0x69 0
      ∷ code 0x06 1 0x69 0
      ∷ code 0x0a 1 0x69 0
      ∷ code 0x0f 1 0x69 0
      ∷ code 0x18 1 0x69 0
      ∷ code 0x1f 1 0x69 0
      ∷ code 0x29 1 0x69 0
      ∷ code 0x38 1 0x69 1
      ∷ code 0x03 1 0x6f 0
      ∷ code 0x06 1 0x6f 0
      ∷ code 0x0a 1 0x6f 0
      ∷ code 0x0f 1 0x6f 0
      ∷ code 0x18 1 0x6f 0
      ∷ code 0x1f 1 0x6f 0
      ∷ code 0x29 1 0x6f 0
      ∷ code 0x38 1 0x6f 1
      ∷ [])
    ∷ (code 0x01 1 0x73 0
        ∷ code 0x16 1 0x73 1
        ∷ code 0x01 1 0x74 0
        ∷ code 0x16 1 0x74 1
        ∷ code 0x00 1 0x20 1
        ∷ code 0x00 1 0x25 1
        ∷ code 0x00 1 0x2d 1
        ∷ code 0x00 1 0x2e 1
        ∷ code 0x00 1 0x2f 1
        ∷ code 0x00 1 0x33 1
        ∷ code 0x00 1 0x34 1
        ∷ code 0x00 1 0x35 1
        ∷ code 0x00 1 0x36 1
        ∷ code 0x00 1 0x37 1
        ∷ code 0x00 1 0x38 1
        ∷ code 0x00 1 0x39 1
        ∷ [])
    ∷ (code 0x02 1 0x73 0
        ∷ code 0x09 1 0x73 0
        ∷ code 0x17 1 0x73 0
        ∷ code 0x28 1 0x73 1
        ∷ code 0x02 1 0x74 0
        ∷ code 0x09 1 0x74 0
        ∷ code 0x17 1 0x74 0
        ∷ code 0x28 1 0x74 1
        ∷ code 0x01 1 0x20 0
        ∷ code 0x16 1 0x20 1
        ∷ code 0x01 1 0x25 0
        ∷ code 0x16 1 0x25 1
        ∷ code 0x01 1 0x2d 0
        ∷ code 0x16 1 0x2d 1
        ∷ code 0x01 1 0x2e 0
        ∷ code 0x16 1 0x2e 1
        ∷ [])
    ∷ (code 0x03 1 0x73 0
        ∷ code 0x06 1 0x73 0
        ∷ code 0x0a 1 0x73 0
        ∷ code 0x0f 1 0x73 0
        ∷ code 0x18 1 0x73 0
        ∷ code 0x1f 1 0x73 0
        ∷ code 0x29 1 0x73 0
        ∷ code 0x38 1 0x73 1
        ∷ code 0x03 1 0x74 0
        ∷ code 0x06 1 0x74 0
        ∷ code 0x0a 1 0x74 0
        ∷ code 0x0f 1 0x74 0
        ∷ code 0x18 1 0x74 0
        ∷ code 0x1f 1 0x74 0
        ∷ code 0x29 1 0x74 0
        ∷ code 0x38 1 0x74 1
        ∷ [])
    ∷ (code 0x02 1 0x20 0
        ∷ code 0x09 1 0x20 0
        ∷ code 0x17 1 0x20 0
        ∷ code 0x28 1 0x20 1
        ∷ code 0x02 1 0x25 0
        ∷ code 0x09 1 0x25 0
        ∷ code 0x17 1 0x25 0
        ∷ code 0x28 1 0x25 1
        ∷ code 0x02 1 0x2d 0
        ∷ code 0x09 1 0x2d 0
        ∷ code 0x17 1 0x2d 0
        ∷ code 0x28 1 0x2d 1
        ∷ code 0x02 1 0x2e 0
        ∷ code 0x09 1 0x2e 0
        ∷ code 0x17 1 0x2e 0
        ∷ code 0x28 1 0x2e 1
        ∷ [])
    ∷ (code 0x03 1 0x20 0
        ∷ code 0x06 1 0x20 0
        ∷ code 0x0a 1 0x20 0
        ∷ code 0x0f 1 0x20 0
        ∷ code 0x18 1 0x20 0
        ∷ code 0x1f 1 0x20 0
        ∷ code 0x29 1 0x20 0
        ∷ code 0x38 1 0x20 1
        ∷ code 0x03 1 0x25 0
        ∷ code 0x06 1 0x25 0
        ∷ code 0x0a 1 0x25 0
        ∷ code 0x0f 1 0x25 0
        ∷ code 0x18 1 0x25 0
        ∷ code 0x1f 1 0x25 0
        ∷ code 0x29 1 0x25 0
        ∷ code 0x38 1 0x25 1
        ∷ [])
    ∷ (code 0x03 1 0x2d 0
        ∷ code 0x06 1 0x2d 0
        ∷ code 0x0a 1 0x2d 0
        ∷ code 0x0f 1 0x2d 0
        ∷ code 0x18 1 0x2d 0
        ∷ code 0x1f 1 0x2d 0
        ∷ code 0x29 1 0x2d 0
        ∷ code 0x38 1 0x2d 1
        ∷ code 0x03 1 0x2e 0
        ∷ code 0x06 1 0x2e 0
        ∷ code 0x0a 1 0x2e 0
        ∷ code 0x0f 1 0x2e 0
        ∷ code 0x18 1 0x2e 0
        ∷ code 0x1f 1 0x2e 0
        ∷ code 0x29 1 0x2e 0
        ∷ code 0x38 1 0x2e 1
        ∷ [])
    ∷ (code 0x01 1 0x2f 0
        ∷ code 0x16 1 0x2f 1
        ∷ code 0x01 1 0x33 0
        ∷ code 0x16 1 0x33 1
        ∷ code 0x01 1 0x34 0
        ∷ code 0x16 1 0x34 1
        ∷ code 0x01 1 0x35 0
        ∷ code 0x16 1 0x35 1
        ∷ code 0x01 1 0x36 0
        ∷ code 0x16 1 0x36 1
        ∷ code 0x01 1 0x37 0
        ∷ code 0x16 1 0x37 1
        ∷ code 0x01 1 0x38 0
        ∷ code 0x16 1 0x38 1
        ∷ code 0x01 1 0x39 0
        ∷ code 0x16 1 0x39 1
        ∷ [])
    ∷ []

abbrev pub decode_codes_16 : List (List DecodeCode)
decode_codes_16 =
    (code 0x02 1 0x2f 0
      ∷ code 0x09 1 0x2f 0
      ∷ code 0x17 1 0x2f 0
      ∷ code 0x28 1 0x2f 1
      ∷ code 0x02 1 0x33 0
      ∷ code 0x09 1 0x33 0
      ∷ code 0x17 1 0x33 0
      ∷ code 0x28 1 0x33 1
      ∷ code 0x02 1 0x34 0
      ∷ code 0x09 1 0x34 0
      ∷ code 0x17 1 0x34 0
      ∷ code 0x28 1 0x34 1
      ∷ code 0x02 1 0x35 0
      ∷ code 0x09 1 0x35 0
      ∷ code 0x17 1 0x35 0
      ∷ code 0x28 1 0x35 1
      ∷ [])
    ∷ (code 0x03 1 0x2f 0
        ∷ code 0x06 1 0x2f 0
        ∷ code 0x0a 1 0x2f 0
        ∷ code 0x0f 1 0x2f 0
        ∷ code 0x18 1 0x2f 0
        ∷ code 0x1f 1 0x2f 0
        ∷ code 0x29 1 0x2f 0
        ∷ code 0x38 1 0x2f 1
        ∷ code 0x03 1 0x33 0
        ∷ code 0x06 1 0x33 0
        ∷ code 0x0a 1 0x33 0
        ∷ code 0x0f 1 0x33 0
        ∷ code 0x18 1 0x33 0
        ∷ code 0x1f 1 0x33 0
        ∷ code 0x29 1 0x33 0
        ∷ code 0x38 1 0x33 1
        ∷ [])
    ∷ (code 0x03 1 0x34 0
        ∷ code 0x06 1 0x34 0
        ∷ code 0x0a 1 0x34 0
        ∷ code 0x0f 1 0x34 0
        ∷ code 0x18 1 0x34 0
        ∷ code 0x1f 1 0x34 0
        ∷ code 0x29 1 0x34 0
        ∷ code 0x38 1 0x34 1
        ∷ code 0x03 1 0x35 0
        ∷ code 0x06 1 0x35 0
        ∷ code 0x0a 1 0x35 0
        ∷ code 0x0f 1 0x35 0
        ∷ code 0x18 1 0x35 0
        ∷ code 0x1f 1 0x35 0
        ∷ code 0x29 1 0x35 0
        ∷ code 0x38 1 0x35 1
        ∷ [])
    ∷ (code 0x02 1 0x36 0
        ∷ code 0x09 1 0x36 0
        ∷ code 0x17 1 0x36 0
        ∷ code 0x28 1 0x36 1
        ∷ code 0x02 1 0x37 0
        ∷ code 0x09 1 0x37 0
        ∷ code 0x17 1 0x37 0
        ∷ code 0x28 1 0x37 1
        ∷ code 0x02 1 0x38 0
        ∷ code 0x09 1 0x38 0
        ∷ code 0x17 1 0x38 0
        ∷ code 0x28 1 0x38 1
        ∷ code 0x02 1 0x39 0
        ∷ code 0x09 1 0x39 0
        ∷ code 0x17 1 0x39 0
        ∷ code 0x28 1 0x39 1
        ∷ [])
    ∷ (code 0x03 1 0x36 0
        ∷ code 0x06 1 0x36 0
        ∷ code 0x0a 1 0x36 0
        ∷ code 0x0f 1 0x36 0
        ∷ code 0x18 1 0x36 0
        ∷ code 0x1f 1 0x36 0
        ∷ code 0x29 1 0x36 0
        ∷ code 0x38 1 0x36 1
        ∷ code 0x03 1 0x37 0
        ∷ code 0x06 1 0x37 0
        ∷ code 0x0a 1 0x37 0
        ∷ code 0x0f 1 0x37 0
        ∷ code 0x18 1 0x37 0
        ∷ code 0x1f 1 0x37 0
        ∷ code 0x29 1 0x37 0
        ∷ code 0x38 1 0x37 1
        ∷ [])
    ∷ (code 0x03 1 0x38 0
        ∷ code 0x06 1 0x38 0
        ∷ code 0x0a 1 0x38 0
        ∷ code 0x0f 1 0x38 0
        ∷ code 0x18 1 0x38 0
        ∷ code 0x1f 1 0x38 0
        ∷ code 0x29 1 0x38 0
        ∷ code 0x38 1 0x38 1
        ∷ code 0x03 1 0x39 0
        ∷ code 0x06 1 0x39 0
        ∷ code 0x0a 1 0x39 0
        ∷ code 0x0f 1 0x39 0
        ∷ code 0x18 1 0x39 0
        ∷ code 0x1f 1 0x39 0
        ∷ code 0x29 1 0x39 0
        ∷ code 0x38 1 0x39 1
        ∷ [])
    ∷ (code 0x1a 0 0x00 0
        ∷ code 0x1b 0 0x00 0
        ∷ code 0x1d 0 0x00 0
        ∷ code 0x1e 0 0x00 0
        ∷ code 0x21 0 0x00 0
        ∷ code 0x22 0 0x00 0
        ∷ code 0x24 0 0x00 0
        ∷ code 0x25 0 0x00 0
        ∷ code 0x2b 0 0x00 0
        ∷ code 0x2e 0 0x00 0
        ∷ code 0x32 0 0x00 0
        ∷ code 0x35 0 0x00 0
        ∷ code 0x3a 0 0x00 0
        ∷ code 0x3d 0 0x00 0
        ∷ code 0x41 0 0x00 0
        ∷ code 0x44 0 0x00 1
        ∷ [])
    ∷ (code 0x00 1 0x3d 1
        ∷ code 0x00 1 0x41 1
        ∷ code 0x00 1 0x5f 1
        ∷ code 0x00 1 0x62 1
        ∷ code 0x00 1 0x64 1
        ∷ code 0x00 1 0x66 1
        ∷ code 0x00 1 0x67 1
        ∷ code 0x00 1 0x68 1
        ∷ code 0x00 1 0x6c 1
        ∷ code 0x00 1 0x6d 1
        ∷ code 0x00 1 0x6e 1
        ∷ code 0x00 1 0x70 1
        ∷ code 0x00 1 0x72 1
        ∷ code 0x00 1 0x75 1
        ∷ code 0x26 0 0x00 0
        ∷ code 0x27 0 0x00 0
        ∷ [])
    ∷ []

abbrev pub decode_codes_24 : List (List DecodeCode)
decode_codes_24 =
    (code 0x01 1 0x3d 0
      ∷ code 0x16 1 0x3d 1
      ∷ code 0x01 1 0x41 0
      ∷ code 0x16 1 0x41 1
      ∷ code 0x01 1 0x5f 0
      ∷ code 0x16 1 0x5f 1
      ∷ code 0x01 1 0x62 0
      ∷ code 0x16 1 0x62 1
      ∷ code 0x01 1 0x64 0
      ∷ code 0x16 1 0x64 1
      ∷ code 0x01 1 0x66 0
      ∷ code 0x16 1 0x66 1
      ∷ code 0x01 1 0x67 0
      ∷ code 0x16 1 0x67 1
      ∷ code 0x01 1 0x68 0
      ∷ code 0x16 1 0x68 1
      ∷ [])
    ∷ (code 0x02 1 0x3d 0
        ∷ code 0x09 1 0x3d 0
        ∷ code 0x17 1 0x3d 0
        ∷ code 0x28 1 0x3d 1
        ∷ code 0x02 1 0x41 0
        ∷ code 0x09 1 0x41 0
        ∷ code 0x17 1 0x41 0
        ∷ code 0x28 1 0x41 1
        ∷ code 0x02 1 0x5f 0
        ∷ code 0x09 1 0x5f 0
        ∷ code 0x17 1 0x5f 0
        ∷ code 0x28 1 0x5f 1
        ∷ code 0x02 1 0x62 0
        ∷ code 0x09 1 0x62 0
        ∷ code 0x17 1 0x62 0
        ∷ code 0x28 1 0x62 1
        ∷ [])
    ∷ (code 0x03 1 0x3d 0
        ∷ code 0x06 1 0x3d 0
        ∷ code 0x0a 1 0x3d 0
        ∷ code 0x0f 1 0x3d 0
        ∷ code 0x18 1 0x3d 0
        ∷ code 0x1f 1 0x3d 0
        ∷ code 0x29 1 0x3d 0
        ∷ code 0x38 1 0x3d 1
        ∷ code 0x03 1 0x41 0
        ∷ code 0x06 1 0x41 0
        ∷ code 0x0a 1 0x41 0
        ∷ code 0x0f 1 0x41 0
        ∷ code 0x18 1 0x41 0
        ∷ code 0x1f 1 0x41 0
        ∷ code 0x29 1 0x41 0
        ∷ code 0x38 1 0x41 1
        ∷ [])
    ∷ (code 0x03 1 0x5f 0
        ∷ code 0x06 1 0x5f 0
        ∷ code 0x0a 1 0x5f 0
        ∷ code 0x0f 1 0x5f 0
        ∷ code 0x18 1 0x5f 0
        ∷ code 0x1f 1 0x5f 0
        ∷ code 0x29 1 0x5f 0
        ∷ code 0x38 1 0x5f 1
        ∷ code 0x03 1 0x62 0
        ∷ code 0x06 1 0x62 0
        ∷ code 0x0a 1 0x62 0
        ∷ code 0x0f 1 0x62 0
        ∷ code 0x18 1 0x62 0
        ∷ code 0x1f 1 0x62 0
        ∷ code 0x29 1 0x62 0
        ∷ code 0x38 1 0x62 1
        ∷ [])
    ∷ (code 0x02 1 0x64 0
        ∷ code 0x09 1 0x64 0
        ∷ code 0x17 1 0x64 0
        ∷ code 0x28 1 0x64 1
        ∷ code 0x02 1 0x66 0
        ∷ code 0x09 1 0x66 0
        ∷ code 0x17 1 0x66 0
        ∷ code 0x28 1 0x66 1
        ∷ code 0x02 1 0x67 0
        ∷ code 0x09 1 0x67 0
        ∷ code 0x17 1 0x67 0
        ∷ code 0x28 1 0x67 1
        ∷ code 0x02 1 0x68 0
        ∷ code 0x09 1 0x68 0
        ∷ code 0x17 1 0x68 0
        ∷ code 0x28 1 0x68 1
        ∷ [])
    ∷ (code 0x03 1 0x64 0
        ∷ code 0x06 1 0x64 0
        ∷ code 0x0a 1 0x64 0
        ∷ code 0x0f 1 0x64 0
        ∷ code 0x18 1 0x64 0
        ∷ code 0x1f 1 0x64 0
        ∷ code 0x29 1 0x64 0
        ∷ code 0x38 1 0x64 1
        ∷ code 0x03 1 0x66 0
        ∷ code 0x06 1 0x66 0
        ∷ code 0x0a 1 0x66 0
        ∷ code 0x0f 1 0x66 0
        ∷ code 0x18 1 0x66 0
        ∷ code 0x1f 1 0x66 0
        ∷ code 0x29 1 0x66 0
        ∷ code 0x38 1 0x66 1
        ∷ [])
    ∷ (code 0x03 1 0x67 0
        ∷ code 0x06 1 0x67 0
        ∷ code 0x0a 1 0x67 0
        ∷ code 0x0f 1 0x67 0
        ∷ code 0x18 1 0x67 0
        ∷ code 0x1f 1 0x67 0
        ∷ code 0x29 1 0x67 0
        ∷ code 0x38 1 0x67 1
        ∷ code 0x03 1 0x68 0
        ∷ code 0x06 1 0x68 0
        ∷ code 0x0a 1 0x68 0
        ∷ code 0x0f 1 0x68 0
        ∷ code 0x18 1 0x68 0
        ∷ code 0x1f 1 0x68 0
        ∷ code 0x29 1 0x68 0
        ∷ code 0x38 1 0x68 1
        ∷ [])
    ∷ (code 0x01 1 0x6c 0
        ∷ code 0x16 1 0x6c 1
        ∷ code 0x01 1 0x6d 0
        ∷ code 0x16 1 0x6d 1
        ∷ code 0x01 1 0x6e 0
        ∷ code 0x16 1 0x6e 1
        ∷ code 0x01 1 0x70 0
        ∷ code 0x16 1 0x70 1
        ∷ code 0x01 1 0x72 0
        ∷ code 0x16 1 0x72 1
        ∷ code 0x01 1 0x75 0
        ∷ code 0x16 1 0x75 1
        ∷ code 0x00 1 0x3a 1
        ∷ code 0x00 1 0x42 1
        ∷ code 0x00 1 0x43 1
        ∷ code 0x00 1 0x44 1
        ∷ [])
    ∷ []
