-- ===== src/Huffman/Decode/Codes3.antt =====
-- Rows 96 to 127 of `kgl_http_v2_huff_decode_codes`, src/KHuffDecode.cpp.
use khttpd.Base.{List, [], ◌∷◌}
use khttpd.Huffman.Code.{DecodeCode, code}

abbrev pub decode_codes_96 : List (List DecodeCode)
decode_codes_96 =
    (code 0x01 1 0x5c 0
      ∷ code 0x16 1 0x5c 1
      ∷ code 0x01 1 0xc3 0
      ∷ code 0x16 1 0xc3 1
      ∷ code 0x01 1 0xd0 0
      ∷ code 0x16 1 0xd0 1
      ∷ code 0x00 1 0x80 1
      ∷ code 0x00 1 0x82 1
      ∷ code 0x00 1 0x83 1
      ∷ code 0x00 1 0xa2 1
      ∷ code 0x00 1 0xb8 1
      ∷ code 0x00 1 0xc2 1
      ∷ code 0x00 1 0xe0 1
      ∷ code 0x00 1 0xe2 1
      ∷ code 0x6c 0 0x00 0
      ∷ code 0x6d 0 0x00 0
      ∷ [])
    ∷ (code 0x02 1 0x5c 0
        ∷ code 0x09 1 0x5c 0
        ∷ code 0x17 1 0x5c 0
        ∷ code 0x28 1 0x5c 1
        ∷ code 0x02 1 0xc3 0
        ∷ code 0x09 1 0xc3 0
        ∷ code 0x17 1 0xc3 0
        ∷ code 0x28 1 0xc3 1
        ∷ code 0x02 1 0xd0 0
        ∷ code 0x09 1 0xd0 0
        ∷ code 0x17 1 0xd0 0
        ∷ code 0x28 1 0xd0 1
        ∷ code 0x01 1 0x80 0
        ∷ code 0x16 1 0x80 1
        ∷ code 0x01 1 0x82 0
        ∷ code 0x16 1 0x82 1
        ∷ [])
    ∷ (code 0x03 1 0x5c 0
        ∷ code 0x06 1 0x5c 0
        ∷ code 0x0a 1 0x5c 0
        ∷ code 0x0f 1 0x5c 0
        ∷ code 0x18 1 0x5c 0
        ∷ code 0x1f 1 0x5c 0
        ∷ code 0x29 1 0x5c 0
        ∷ code 0x38 1 0x5c 1
        ∷ code 0x03 1 0xc3 0
        ∷ code 0x06 1 0xc3 0
        ∷ code 0x0a 1 0xc3 0
        ∷ code 0x0f 1 0xc3 0
        ∷ code 0x18 1 0xc3 0
        ∷ code 0x1f 1 0xc3 0
        ∷ code 0x29 1 0xc3 0
        ∷ code 0x38 1 0xc3 1
        ∷ [])
    ∷ (code 0x03 1 0xd0 0
        ∷ code 0x06 1 0xd0 0
        ∷ code 0x0a 1 0xd0 0
        ∷ code 0x0f 1 0xd0 0
        ∷ code 0x18 1 0xd0 0
        ∷ code 0x1f 1 0xd0 0
        ∷ code 0x29 1 0xd0 0
        ∷ code 0x38 1 0xd0 1
        ∷ code 0x02 1 0x80 0
        ∷ code 0x09 1 0x80 0
        ∷ code 0x17 1 0x80 0
        ∷ code 0x28 1 0x80 1
        ∷ code 0x02 1 0x82 0
        ∷ code 0x09 1 0x82 0
        ∷ code 0x17 1 0x82 0
        ∷ code 0x28 1 0x82 1
        ∷ [])
    ∷ (code 0x03 1 0x80 0
        ∷ code 0x06 1 0x80 0
        ∷ code 0x0a 1 0x80 0
        ∷ code 0x0f 1 0x80 0
        ∷ code 0x18 1 0x80 0
        ∷ code 0x1f 1 0x80 0
        ∷ code 0x29 1 0x80 0
        ∷ code 0x38 1 0x80 1
        ∷ code 0x03 1 0x82 0
        ∷ code 0x06 1 0x82 0
        ∷ code 0x0a 1 0x82 0
        ∷ code 0x0f 1 0x82 0
        ∷ code 0x18 1 0x82 0
        ∷ code 0x1f 1 0x82 0
        ∷ code 0x29 1 0x82 0
        ∷ code 0x38 1 0x82 1
        ∷ [])
    ∷ (code 0x01 1 0x83 0
        ∷ code 0x16 1 0x83 1
        ∷ code 0x01 1 0xa2 0
        ∷ code 0x16 1 0xa2 1
        ∷ code 0x01 1 0xb8 0
        ∷ code 0x16 1 0xb8 1
        ∷ code 0x01 1 0xc2 0
        ∷ code 0x16 1 0xc2 1
        ∷ code 0x01 1 0xe0 0
        ∷ code 0x16 1 0xe0 1
        ∷ code 0x01 1 0xe2 0
        ∷ code 0x16 1 0xe2 1
        ∷ code 0x00 1 0x99 1
        ∷ code 0x00 1 0xa1 1
        ∷ code 0x00 1 0xa7 1
        ∷ code 0x00 1 0xac 1
        ∷ [])
    ∷ (code 0x02 1 0x83 0
        ∷ code 0x09 1 0x83 0
        ∷ code 0x17 1 0x83 0
        ∷ code 0x28 1 0x83 1
        ∷ code 0x02 1 0xa2 0
        ∷ code 0x09 1 0xa2 0
        ∷ code 0x17 1 0xa2 0
        ∷ code 0x28 1 0xa2 1
        ∷ code 0x02 1 0xb8 0
        ∷ code 0x09 1 0xb8 0
        ∷ code 0x17 1 0xb8 0
        ∷ code 0x28 1 0xb8 1
        ∷ code 0x02 1 0xc2 0
        ∷ code 0x09 1 0xc2 0
        ∷ code 0x17 1 0xc2 0
        ∷ code 0x28 1 0xc2 1
        ∷ [])
    ∷ (code 0x03 1 0x83 0
        ∷ code 0x06 1 0x83 0
        ∷ code 0x0a 1 0x83 0
        ∷ code 0x0f 1 0x83 0
        ∷ code 0x18 1 0x83 0
        ∷ code 0x1f 1 0x83 0
        ∷ code 0x29 1 0x83 0
        ∷ code 0x38 1 0x83 1
        ∷ code 0x03 1 0xa2 0
        ∷ code 0x06 1 0xa2 0
        ∷ code 0x0a 1 0xa2 0
        ∷ code 0x0f 1 0xa2 0
        ∷ code 0x18 1 0xa2 0
        ∷ code 0x1f 1 0xa2 0
        ∷ code 0x29 1 0xa2 0
        ∷ code 0x38 1 0xa2 1
        ∷ [])
    ∷ []

abbrev pub decode_codes_104 : List (List DecodeCode)
decode_codes_104 =
    (code 0x03 1 0xb8 0
      ∷ code 0x06 1 0xb8 0
      ∷ code 0x0a 1 0xb8 0
      ∷ code 0x0f 1 0xb8 0
      ∷ code 0x18 1 0xb8 0
      ∷ code 0x1f 1 0xb8 0
      ∷ code 0x29 1 0xb8 0
      ∷ code 0x38 1 0xb8 1
      ∷ code 0x03 1 0xc2 0
      ∷ code 0x06 1 0xc2 0
      ∷ code 0x0a 1 0xc2 0
      ∷ code 0x0f 1 0xc2 0
      ∷ code 0x18 1 0xc2 0
      ∷ code 0x1f 1 0xc2 0
      ∷ code 0x29 1 0xc2 0
      ∷ code 0x38 1 0xc2 1
      ∷ [])
    ∷ (code 0x02 1 0xe0 0
        ∷ code 0x09 1 0xe0 0
        ∷ code 0x17 1 0xe0 0
        ∷ code 0x28 1 0xe0 1
        ∷ code 0x02 1 0xe2 0
        ∷ code 0x09 1 0xe2 0
        ∷ code 0x17 1 0xe2 0
        ∷ code 0x28 1 0xe2 1
        ∷ code 0x01 1 0x99 0
        ∷ code 0x16 1 0x99 1
        ∷ code 0x01 1 0xa1 0
        ∷ code 0x16 1 0xa1 1
        ∷ code 0x01 1 0xa7 0
        ∷ code 0x16 1 0xa7 1
        ∷ code 0x01 1 0xac 0
        ∷ code 0x16 1 0xac 1
        ∷ [])
    ∷ (code 0x03 1 0xe0 0
        ∷ code 0x06 1 0xe0 0
        ∷ code 0x0a 1 0xe0 0
        ∷ code 0x0f 1 0xe0 0
        ∷ code 0x18 1 0xe0 0
        ∷ code 0x1f 1 0xe0 0
        ∷ code 0x29 1 0xe0 0
        ∷ code 0x38 1 0xe0 1
        ∷ code 0x03 1 0xe2 0
        ∷ code 0x06 1 0xe2 0
        ∷ code 0x0a 1 0xe2 0
        ∷ code 0x0f 1 0xe2 0
        ∷ code 0x18 1 0xe2 0
        ∷ code 0x1f 1 0xe2 0
        ∷ code 0x29 1 0xe2 0
        ∷ code 0x38 1 0xe2 1
        ∷ [])
    ∷ (code 0x02 1 0x99 0
        ∷ code 0x09 1 0x99 0
        ∷ code 0x17 1 0x99 0
        ∷ code 0x28 1 0x99 1
        ∷ code 0x02 1 0xa1 0
        ∷ code 0x09 1 0xa1 0
        ∷ code 0x17 1 0xa1 0
        ∷ code 0x28 1 0xa1 1
        ∷ code 0x02 1 0xa7 0
        ∷ code 0x09 1 0xa7 0
        ∷ code 0x17 1 0xa7 0
        ∷ code 0x28 1 0xa7 1
        ∷ code 0x02 1 0xac 0
        ∷ code 0x09 1 0xac 0
        ∷ code 0x17 1 0xac 0
        ∷ code 0x28 1 0xac 1
        ∷ [])
    ∷ (code 0x03 1 0x99 0
        ∷ code 0x06 1 0x99 0
        ∷ code 0x0a 1 0x99 0
        ∷ code 0x0f 1 0x99 0
        ∷ code 0x18 1 0x99 0
        ∷ code 0x1f 1 0x99 0
        ∷ code 0x29 1 0x99 0
        ∷ code 0x38 1 0x99 1
        ∷ code 0x03 1 0xa1 0
        ∷ code 0x06 1 0xa1 0
        ∷ code 0x0a 1 0xa1 0
        ∷ code 0x0f 1 0xa1 0
        ∷ code 0x18 1 0xa1 0
        ∷ code 0x1f 1 0xa1 0
        ∷ code 0x29 1 0xa1 0
        ∷ code 0x38 1 0xa1 1
        ∷ [])
    ∷ (code 0x03 1 0xa7 0
        ∷ code 0x06 1 0xa7 0
        ∷ code 0x0a 1 0xa7 0
        ∷ code 0x0f 1 0xa7 0
        ∷ code 0x18 1 0xa7 0
        ∷ code 0x1f 1 0xa7 0
        ∷ code 0x29 1 0xa7 0
        ∷ code 0x38 1 0xa7 1
        ∷ code 0x03 1 0xac 0
        ∷ code 0x06 1 0xac 0
        ∷ code 0x0a 1 0xac 0
        ∷ code 0x0f 1 0xac 0
        ∷ code 0x18 1 0xac 0
        ∷ code 0x1f 1 0xac 0
        ∷ code 0x29 1 0xac 0
        ∷ code 0x38 1 0xac 1
        ∷ [])
    ∷ (code 0x72 0 0x00 0
        ∷ code 0x73 0 0x00 0
        ∷ code 0x75 0 0x00 0
        ∷ code 0x76 0 0x00 0
        ∷ code 0x79 0 0x00 0
        ∷ code 0x7b 0 0x00 0
        ∷ code 0x7f 0 0x00 0
        ∷ code 0x82 0 0x00 0
        ∷ code 0x88 0 0x00 0
        ∷ code 0x8b 0 0x00 0
        ∷ code 0x8f 0 0x00 0
        ∷ code 0x92 0 0x00 0
        ∷ code 0x9b 0 0x00 0
        ∷ code 0xa2 0 0x00 0
        ∷ code 0xaa 0 0x00 0
        ∷ code 0xb4 0 0x00 1
        ∷ [])
    ∷ (code 0x00 1 0xb0 1
        ∷ code 0x00 1 0xb1 1
        ∷ code 0x00 1 0xb3 1
        ∷ code 0x00 1 0xd1 1
        ∷ code 0x00 1 0xd8 1
        ∷ code 0x00 1 0xd9 1
        ∷ code 0x00 1 0xe3 1
        ∷ code 0x00 1 0xe5 1
        ∷ code 0x00 1 0xe6 1
        ∷ code 0x7a 0 0x00 0
        ∷ code 0x7c 0 0x00 0
        ∷ code 0x7d 0 0x00 0
        ∷ code 0x80 0 0x00 0
        ∷ code 0x81 0 0x00 0
        ∷ code 0x83 0 0x00 0
        ∷ code 0x84 0 0x00 0
        ∷ [])
    ∷ []

abbrev pub decode_codes_112 : List (List DecodeCode)
decode_codes_112 =
    (code 0x01 1 0xb0 0
      ∷ code 0x16 1 0xb0 1
      ∷ code 0x01 1 0xb1 0
      ∷ code 0x16 1 0xb1 1
      ∷ code 0x01 1 0xb3 0
      ∷ code 0x16 1 0xb3 1
      ∷ code 0x01 1 0xd1 0
      ∷ code 0x16 1 0xd1 1
      ∷ code 0x01 1 0xd8 0
      ∷ code 0x16 1 0xd8 1
      ∷ code 0x01 1 0xd9 0
      ∷ code 0x16 1 0xd9 1
      ∷ code 0x01 1 0xe3 0
      ∷ code 0x16 1 0xe3 1
      ∷ code 0x01 1 0xe5 0
      ∷ code 0x16 1 0xe5 1
      ∷ [])
    ∷ (code 0x02 1 0xb0 0
        ∷ code 0x09 1 0xb0 0
        ∷ code 0x17 1 0xb0 0
        ∷ code 0x28 1 0xb0 1
        ∷ code 0x02 1 0xb1 0
        ∷ code 0x09 1 0xb1 0
        ∷ code 0x17 1 0xb1 0
        ∷ code 0x28 1 0xb1 1
        ∷ code 0x02 1 0xb3 0
        ∷ code 0x09 1 0xb3 0
        ∷ code 0x17 1 0xb3 0
        ∷ code 0x28 1 0xb3 1
        ∷ code 0x02 1 0xd1 0
        ∷ code 0x09 1 0xd1 0
        ∷ code 0x17 1 0xd1 0
        ∷ code 0x28 1 0xd1 1
        ∷ [])
    ∷ (code 0x03 1 0xb0 0
        ∷ code 0x06 1 0xb0 0
        ∷ code 0x0a 1 0xb0 0
        ∷ code 0x0f 1 0xb0 0
        ∷ code 0x18 1 0xb0 0
        ∷ code 0x1f 1 0xb0 0
        ∷ code 0x29 1 0xb0 0
        ∷ code 0x38 1 0xb0 1
        ∷ code 0x03 1 0xb1 0
        ∷ code 0x06 1 0xb1 0
        ∷ code 0x0a 1 0xb1 0
        ∷ code 0x0f 1 0xb1 0
        ∷ code 0x18 1 0xb1 0
        ∷ code 0x1f 1 0xb1 0
        ∷ code 0x29 1 0xb1 0
        ∷ code 0x38 1 0xb1 1
        ∷ [])
    ∷ (code 0x03 1 0xb3 0
        ∷ code 0x06 1 0xb3 0
        ∷ code 0x0a 1 0xb3 0
        ∷ code 0x0f 1 0xb3 0
        ∷ code 0x18 1 0xb3 0
        ∷ code 0x1f 1 0xb3 0
        ∷ code 0x29 1 0xb3 0
        ∷ code 0x38 1 0xb3 1
        ∷ code 0x03 1 0xd1 0
        ∷ code 0x06 1 0xd1 0
        ∷ code 0x0a 1 0xd1 0
        ∷ code 0x0f 1 0xd1 0
        ∷ code 0x18 1 0xd1 0
        ∷ code 0x1f 1 0xd1 0
        ∷ code 0x29 1 0xd1 0
        ∷ code 0x38 1 0xd1 1
        ∷ [])
    ∷ (code 0x02 1 0xd8 0
        ∷ code 0x09 1 0xd8 0
        ∷ code 0x17 1 0xd8 0
        ∷ code 0x28 1 0xd8 1
        ∷ code 0x02 1 0xd9 0
        ∷ code 0x09 1 0xd9 0
        ∷ code 0x17 1 0xd9 0
        ∷ code 0x28 1 0xd9 1
        ∷ code 0x02 1 0xe3 0
        ∷ code 0x09 1 0xe3 0
        ∷ code 0x17 1 0xe3 0
        ∷ code 0x28 1 0xe3 1
        ∷ code 0x02 1 0xe5 0
        ∷ code 0x09 1 0xe5 0
        ∷ code 0x17 1 0xe5 0
        ∷ code 0x28 1 0xe5 1
        ∷ [])
    ∷ (code 0x03 1 0xd8 0
        ∷ code 0x06 1 0xd8 0
        ∷ code 0x0a 1 0xd8 0
        ∷ code 0x0f 1 0xd8 0
        ∷ code 0x18 1 0xd8 0
        ∷ code 0x1f 1 0xd8 0
        ∷ code 0x29 1 0xd8 0
        ∷ code 0x38 1 0xd8 1
        ∷ code 0x03 1 0xd9 0
        ∷ code 0x06 1 0xd9 0
        ∷ code 0x0a 1 0xd9 0
        ∷ code 0x0f 1 0xd9 0
        ∷ code 0x18 1 0xd9 0
        ∷ code 0x1f 1 0xd9 0
        ∷ code 0x29 1 0xd9 0
        ∷ code 0x38 1 0xd9 1
        ∷ [])
    ∷ (code 0x03 1 0xe3 0
        ∷ code 0x06 1 0xe3 0
        ∷ code 0x0a 1 0xe3 0
        ∷ code 0x0f 1 0xe3 0
        ∷ code 0x18 1 0xe3 0
        ∷ code 0x1f 1 0xe3 0
        ∷ code 0x29 1 0xe3 0
        ∷ code 0x38 1 0xe3 1
        ∷ code 0x03 1 0xe5 0
        ∷ code 0x06 1 0xe5 0
        ∷ code 0x0a 1 0xe5 0
        ∷ code 0x0f 1 0xe5 0
        ∷ code 0x18 1 0xe5 0
        ∷ code 0x1f 1 0xe5 0
        ∷ code 0x29 1 0xe5 0
        ∷ code 0x38 1 0xe5 1
        ∷ [])
    ∷ (code 0x01 1 0xe6 0
        ∷ code 0x16 1 0xe6 1
        ∷ code 0x00 1 0x81 1
        ∷ code 0x00 1 0x84 1
        ∷ code 0x00 1 0x85 1
        ∷ code 0x00 1 0x86 1
        ∷ code 0x00 1 0x88 1
        ∷ code 0x00 1 0x92 1
        ∷ code 0x00 1 0x9a 1
        ∷ code 0x00 1 0x9c 1
        ∷ code 0x00 1 0xa0 1
        ∷ code 0x00 1 0xa3 1
        ∷ code 0x00 1 0xa4 1
        ∷ code 0x00 1 0xa9 1
        ∷ code 0x00 1 0xaa 1
        ∷ code 0x00 1 0xad 1
        ∷ [])
    ∷ []

abbrev pub decode_codes_120 : List (List DecodeCode)
decode_codes_120 =
    (code 0x02 1 0xe6 0
      ∷ code 0x09 1 0xe6 0
      ∷ code 0x17 1 0xe6 0
      ∷ code 0x28 1 0xe6 1
      ∷ code 0x01 1 0x81 0
      ∷ code 0x16 1 0x81 1
      ∷ code 0x01 1 0x84 0
      ∷ code 0x16 1 0x84 1
      ∷ code 0x01 1 0x85 0
      ∷ code 0x16 1 0x85 1
      ∷ code 0x01 1 0x86 0
      ∷ code 0x16 1 0x86 1
      ∷ code 0x01 1 0x88 0
      ∷ code 0x16 1 0x88 1
      ∷ code 0x01 1 0x92 0
      ∷ code 0x16 1 0x92 1
      ∷ [])
    ∷ (code 0x03 1 0xe6 0
        ∷ code 0x06 1 0xe6 0
        ∷ code 0x0a 1 0xe6 0
        ∷ code 0x0f 1 0xe6 0
        ∷ code 0x18 1 0xe6 0
        ∷ code 0x1f 1 0xe6 0
        ∷ code 0x29 1 0xe6 0
        ∷ code 0x38 1 0xe6 1
        ∷ code 0x02 1 0x81 0
        ∷ code 0x09 1 0x81 0
        ∷ code 0x17 1 0x81 0
        ∷ code 0x28 1 0x81 1
        ∷ code 0x02 1 0x84 0
        ∷ code 0x09 1 0x84 0
        ∷ code 0x17 1 0x84 0
        ∷ code 0x28 1 0x84 1
        ∷ [])
    ∷ (code 0x03 1 0x81 0
        ∷ code 0x06 1 0x81 0
        ∷ code 0x0a 1 0x81 0
        ∷ code 0x0f 1 0x81 0
        ∷ code 0x18 1 0x81 0
        ∷ code 0x1f 1 0x81 0
        ∷ code 0x29 1 0x81 0
        ∷ code 0x38 1 0x81 1
        ∷ code 0x03 1 0x84 0
        ∷ code 0x06 1 0x84 0
        ∷ code 0x0a 1 0x84 0
        ∷ code 0x0f 1 0x84 0
        ∷ code 0x18 1 0x84 0
        ∷ code 0x1f 1 0x84 0
        ∷ code 0x29 1 0x84 0
        ∷ code 0x38 1 0x84 1
        ∷ [])
    ∷ (code 0x02 1 0x85 0
        ∷ code 0x09 1 0x85 0
        ∷ code 0x17 1 0x85 0
        ∷ code 0x28 1 0x85 1
        ∷ code 0x02 1 0x86 0
        ∷ code 0x09 1 0x86 0
        ∷ code 0x17 1 0x86 0
        ∷ code 0x28 1 0x86 1
        ∷ code 0x02 1 0x88 0
        ∷ code 0x09 1 0x88 0
        ∷ code 0x17 1 0x88 0
        ∷ code 0x28 1 0x88 1
        ∷ code 0x02 1 0x92 0
        ∷ code 0x09 1 0x92 0
        ∷ code 0x17 1 0x92 0
        ∷ code 0x28 1 0x92 1
        ∷ [])
    ∷ (code 0x03 1 0x85 0
        ∷ code 0x06 1 0x85 0
        ∷ code 0x0a 1 0x85 0
        ∷ code 0x0f 1 0x85 0
        ∷ code 0x18 1 0x85 0
        ∷ code 0x1f 1 0x85 0
        ∷ code 0x29 1 0x85 0
        ∷ code 0x38 1 0x85 1
        ∷ code 0x03 1 0x86 0
        ∷ code 0x06 1 0x86 0
        ∷ code 0x0a 1 0x86 0
        ∷ code 0x0f 1 0x86 0
        ∷ code 0x18 1 0x86 0
        ∷ code 0x1f 1 0x86 0
        ∷ code 0x29 1 0x86 0
        ∷ code 0x38 1 0x86 1
        ∷ [])
    ∷ (code 0x03 1 0x88 0
        ∷ code 0x06 1 0x88 0
        ∷ code 0x0a 1 0x88 0
        ∷ code 0x0f 1 0x88 0
        ∷ code 0x18 1 0x88 0
        ∷ code 0x1f 1 0x88 0
        ∷ code 0x29 1 0x88 0
        ∷ code 0x38 1 0x88 1
        ∷ code 0x03 1 0x92 0
        ∷ code 0x06 1 0x92 0
        ∷ code 0x0a 1 0x92 0
        ∷ code 0x0f 1 0x92 0
        ∷ code 0x18 1 0x92 0
        ∷ code 0x1f 1 0x92 0
        ∷ code 0x29 1 0x92 0
        ∷ code 0x38 1 0x92 1
        ∷ [])
    ∷ (code 0x01 1 0x9a 0
        ∷ code 0x16 1 0x9a 1
        ∷ code 0x01 1 0x9c 0
        ∷ code 0x16 1 0x9c 1
        ∷ code 0x01 1 0xa0 0
        ∷ code 0x16 1 0xa0 1
        ∷ code 0x01 1 0xa3 0
        ∷ code 0x16 1 0xa3 1
        ∷ code 0x01 1 0xa4 0
        ∷ code 0x16 1 0xa4 1
        ∷ code 0x01 1 0xa9 0
        ∷ code 0x16 1 0xa9 1
        ∷ code 0x01 1 0xaa 0
        ∷ code 0x16 1 0xaa 1
        ∷ code 0x01 1 0xad 0
        ∷ code 0x16 1 0xad 1
        ∷ [])
    ∷ (code 0x02 1 0x9a 0
        ∷ code 0x09 1 0x9a 0
        ∷ code 0x17 1 0x9a 0
        ∷ code 0x28 1 0x9a 1
        ∷ code 0x02 1 0x9c 0
        ∷ code 0x09 1 0x9c 0
        ∷ code 0x17 1 0x9c 0
        ∷ code 0x28 1 0x9c 1
        ∷ code 0x02 1 0xa0 0
        ∷ code 0x09 1 0xa0 0
        ∷ code 0x17 1 0xa0 0
        ∷ code 0x28 1 0xa0 1
        ∷ code 0x02 1 0xa3 0
        ∷ code 0x09 1 0xa3 0
        ∷ code 0x17 1 0xa3 0
        ∷ code 0x28 1 0xa3 1
        ∷ [])
    ∷ []
