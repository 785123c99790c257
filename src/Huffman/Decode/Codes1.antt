-- ===== src/Huffman/Decode/Codes1.antt =====
-- Rows 32 to 63 of `kgl_http_v2_huff_decode_codes`, src/KHuffDecode.cpp.
use khttpd.Base.{List, [], ◌∷◌}
use khttpd.Huffman.Code.{DecodeCode, code}

abbrev pub decode_codes_32 : List (List DecodeCode)
decode_codes_32 =
    (code 0x02 1 0x6c 0
      ∷ code 0x09 1 0x6c 0
      ∷ code 0x17 1 0x6c 0
      ∷ code 0x28 1 0x6c 1
      ∷ code 0x02 1 0x6d 0
      ∷ code 0x09 1 0x6d 0
      ∷ code 0x17 1 0x6d 0
      ∷ code 0x28 1 0x6d 1
      ∷ code 0x02 1 0x6e 0
      ∷ code 0x09 1 0x6e 0
      ∷ code 0x17 1 0x6e 0
      ∷ code 0x28 1 0x6e 1
      ∷ code 0x02 1 0x70 0
      ∷ code 0x09 1 0x70 0
      ∷ code 0x17 1 0x70 0
      ∷ code 0x28 1 0x70 1
      ∷ [])
    ∷ (code 0x03 1 0x6c 0
        ∷ code 0x06 1 0x6c 0
        ∷ code 0x0a 1 0x6c 0
        ∷ code 0x0f 1 0x6c 0
        ∷ code 0x18 1 0x6c 0
        ∷ code 0x1f 1 0x6c 0
        ∷ code 0x29 1 0x6c 0
        ∷ code 0x38 1 0x6c 1
        ∷ code 0x03 1 0x6d 0
        ∷ code 0x06 1 0x6d 0
        ∷ code 0x0a 1 0x6d 0
        ∷ code 0x0f 1 0x6d 0
        ∷ code 0x18 1 0x6d 0
        ∷ code 0x1f 1 0x6d 0
        ∷ code 0x29 1 0x6d 0
        ∷ code 0x38 1 0x6d 1
        ∷ [])
    ∷ (code 0x03 1 0x6e 0
        ∷ code 0x06 1 0x6e 0
        ∷ code 0x0a 1 0x6e 0
        ∷ code 0x0f 1 0x6e 0
        ∷ code 0x18 1 0x6e 0
        ∷ code 0x1f 1 0x6e 0
        ∷ code 0x29 1 0x6e 0
        ∷ code 0x38 1 0x6e 1
        ∷ code 0x03 1 0x70 0
        ∷ code 0x06 1 0x70 0
        ∷ code 0x0a 1 0x70 0
        ∷ code 0x0f 1 0x70 0
        ∷ code 0x18 1 0x70 0
        ∷ code 0x1f 1 0x70 0
        ∷ code 0x29 1 0x70 0
        ∷ code 0x38 1 0x70 1
        ∷ [])
    ∷ (code 0x02 1 0x72 0
        ∷ code 0x09 1 0x72 0
        ∷ code 0x17 1 0x72 0
        ∷ code 0x28 1 0x72 1
        ∷ code 0x02 1 0x75 0
        ∷ code 0x09 1 0x75 0
        ∷ code 0x17 1 0x75 0
        ∷ code 0x28 1 0x75 1
        ∷ code 0x01 1 0x3a 0
        ∷ code 0x16 1 0x3a 1
        ∷ code 0x01 1 0x42 0
        ∷ code 0x16 1 0x42 1
        ∷ code 0x01 1 0x43 0
        ∷ code 0x16 1 0x43 1
        ∷ code 0x01 1 0x44 0
        ∷ code 0x16 1 0x44 1
        ∷ [])
    ∷ (code 0x03 1 0x72 0
        ∷ code 0x06 1 0x72 0
        ∷ code 0x0a 1 0x72 0
        ∷ code 0x0f 1 0x72 0
        ∷ code 0x18 1 0x72 0
        ∷ code 0x1f 1 0x72 0
        ∷ code 0x29 1 0x72 0
        ∷ code 0x38 1 0x72 1
        ∷ code 0x03 1 0x75 0
        ∷ code 0x06 1 0x75 0
        ∷ code 0x0a 1 0x75 0
        ∷ code 0x0f 1 0x75 0
        ∷ code 0x18 1 0x75 0
        ∷ code 0x1f 1 0x75 0
        ∷ code 0x29 1 0x75 0
        ∷ code 0x38 1 0x75 1
        ∷ [])
    ∷ (code 0x02 1 0x3a 0
        ∷ code 0x09 1 0x3a 0
        ∷ code 0x17 1 0x3a 0
        ∷ code 0x28 1 0x3a 1
        ∷ code 0x02 1 0x42 0
        ∷ code 0x09 1 0x42 0
        ∷ code 0x17 1 0x42 0
        ∷ code 0x28 1 0x42 1
        ∷ code 0x02 1 0x43 0
        ∷ code 0x09 1 0x43 0
        ∷ code 0x17 1 0x43 0
        ∷ code 0x28 1 0x43 1
        ∷ code 0x02 1 0x44 0
        ∷ code 0x09 1 0x44 0
        ∷ code 0x17 1 0x44 0
        ∷ code 0x28 1 0x44 1
        ∷ [])
    ∷ (code 0x03 1 0x3a 0
        ∷ code 0x06 1 0x3a 0
        ∷ code 0x0a 1 0x3a 0
        ∷ code 0x0f 1 0x3a 0
        ∷ code 0x18 1 0x3a 0
        ∷ code 0x1f 1 0x3a 0
        ∷ code 0x29 1 0x3a 0
        ∷ code 0x38 1 0x3a 1
        ∷ code 0x03 1 0x42 0
        ∷ code 0x06 1 0x42 0
        ∷ code 0x0a 1 0x42 0
        ∷ code 0x0f 1 0x42 0
        ∷ code 0x18 1 0x42 0
        ∷ code 0x1f 1 0x42 0
        ∷ code 0x29 1 0x42 0
        ∷ code 0x38 1 0x42 1
        ∷ [])
    ∷ (code 0x03 1 0x43 0
        ∷ code 0x06 1 0x43 0
        ∷ code 0x0a 1 0x43 0
        ∷ code 0x0f 1 0x43 0
        ∷ code 0x18 1 0x43 0
        ∷ code 0x1f 1 0x43 0
        ∷ code 0x29 1 0x43 0
        ∷ code 0x38 1 0x43 1
        ∷ code 0x03 1 0x44 0
        ∷ code 0x06 1 0x44 0
        ∷ code 0x0a 1 0x44 0
        ∷ code 0x0f 1 0x44 0
        ∷ code 0x18 1 0x44 0
        ∷ code 0x1f 1 0x44 0
        ∷ code 0x29 1 0x44 0
        ∷ code 0x38 1 0x44 1
        ∷ [])
    ∷ []

abbrev pub decode_codes_40 : List (List DecodeCode)
decode_codes_40 =
    (code 0x2c 0 0x00 0
      ∷ code 0x2d 0 0x00 0
      ∷ code 0x2f 0 0x00 0
      ∷ code 0x30 0 0x00 0
      ∷ code 0x33 0 0x00 0
      ∷ code 0x34 0 0x00 0
      ∷ code 0x36 0 0x00 0
      ∷ code 0x37 0 0x00 0
      ∷ code 0x3b 0 0x00 0
      ∷ code 0x3c 0 0x00 0
      ∷ code 0x3e 0 0x00 0
      ∷ code 0x3f 0 0x00 0
      ∷ code 0x42 0 0x00 0
      ∷ code 0x43 0 0x00 0
      ∷ code 0x45 0 0x00 0
      ∷ code 0x48 0 0x00 1
      ∷ [])
    ∷ (code 0x00 1 0x45 1
        ∷ code 0x00 1 0x46 1
        ∷ code 0x00 1 0x47 1
        ∷ code 0x00 1 0x48 1
        ∷ code 0x00 1 0x49 1
        ∷ code 0x00 1 0x4a 1
        ∷ code 0x00 1 0x4b 1
        ∷ code 0x00 1 0x4c 1
        ∷ code 0x00 1 0x4d 1
        ∷ code 0x00 1 0x4e 1
        ∷ code 0x00 1 0x4f 1
        ∷ code 0x00 1 0x50 1
        ∷ code 0x00 1 0x51 1
        ∷ code 0x00 1 0x52 1
        ∷ code 0x00 1 0x53 1
        ∷ code 0x00 1 0x54 1
        ∷ [])
    ∷ (code 0x01 1 0x45 0
        ∷ code 0x16 1 0x45 1
        ∷ code 0x01 1 0x46 0
        ∷ code 0x16 1 0x46 1
        ∷ code 0x01 1 0x47 0
        ∷ code 0x16 1 0x47 1
        ∷ code 0x01 1 0x48 0
        ∷ code 0x16 1 0x48 1
        ∷ code 0x01 1 0x49 0
        ∷ code 0x16 1 0x49 1
        ∷ code 0x01 1 0x4a 0
        ∷ code 0x16 1 0x4a 1
        ∷ code 0x01 1 0x4b 0
        ∷ code 0x16 1 0x4b 1
        ∷ code 0x01 1 0x4c 0
        ∷ code 0x16 1 0x4c 1
        ∷ [])
    ∷ (code 0x02 1 0x45 0
        ∷ code 0x09 1 0x45 0
        ∷ code 0x17 1 0x45 0
        ∷ code 0x28 1 0x45 1
        ∷ code 0x02 1 0x46 0
        ∷ code 0x09 1 0x46 0
        ∷ code 0x17 1 0x46 0
        ∷ code 0x28 1 0x46 1
        ∷ code 0x02 1 0x47 0
        ∷ code 0x09 1 0x47 0
        ∷ code 0x17 1 0x47 0
        ∷ code 0x28 1 0x47 1
        ∷ code 0x02 1 0x48 0
        ∷ code 0x09 1 0x48 0
        ∷ code 0x17 1 0x48 0
        ∷ code 0x28 1 0x48 1
        ∷ [])
    ∷ (code 0x03 1 0x45 0
        ∷ code 0x06 1 0x45 0
        ∷ code 0x0a 1 0x45 0
        ∷ code 0x0f 1 0x45 0
        ∷ code 0x18 1 0x45 0
        ∷ code 0x1f 1 0x45 0
        ∷ code 0x29 1 0x45 0
        ∷ code 0x38 1 0x45 1
        ∷ code 0x03 1 0x46 0
        ∷ code 0x06 1 0x46 0
        ∷ code 0x0a 1 0x46 0
        ∷ code 0x0f 1 0x46 0
        ∷ code 0x18 1 0x46 0
        ∷ code 0x1f 1 0x46 0
        ∷ code 0x29 1 0x46 0
        ∷ code 0x38 1 0x46 1
        ∷ [])
    ∷ (code 0x03 1 0x47 0
        ∷ code 0x06 1 0x47 0
        ∷ code 0x0a 1 0x47 0
        ∷ code 0x0f 1 0x47 0
        ∷ code 0x18 1 0x47 0
        ∷ code 0x1f 1 0x47 0
        ∷ code 0x29 1 0x47 0
        ∷ code 0x38 1 0x47 1
        ∷ code 0x03 1 0x48 0
        ∷ code 0x06 1 0x48 0
        ∷ code 0x0a 1 0x48 0
        ∷ code 0x0f 1 0x48 0
        ∷ code 0x18 1 0x48 0
        ∷ code 0x1f 1 0x48 0
        ∷ code 0x29 1 0x48 0
        ∷ code 0x38 1 0x48 1
        ∷ [])
    ∷ (code 0x02 1 0x49 0
        ∷ code 0x09 1 0x49 0
        ∷ code 0x17 1 0x49 0
        ∷ code 0x28 1 0x49 1
        ∷ code 0x02 1 0x4a 0
        ∷ code 0x09 1 0x4a 0
        ∷ code 0x17 1 0x4a 0
        ∷ code 0x28 1 0x4a 1
        ∷ code 0x02 1 0x4b 0
        ∷ code 0x09 1 0x4b 0
        ∷ code 0x17 1 0x4b 0
        ∷ code 0x28 1 0x4b 1
        ∷ code 0x02 1 0x4c 0
        ∷ code 0x09 1 0x4c 0
        ∷ code 0x17 1 0x4c 0
        ∷ code 0x28 1 0x4c 1
        ∷ [])
    ∷ (code 0x03 1 0x49 0
        ∷ code 0x06 1 0x49 0
        ∷ code 0x0a 1 0x49 0
        ∷ code 0x0f 1 0x49 0
        ∷ code 0x18 1 0x49 0
        ∷ code 0x1f 1 0x49 0
        ∷ code 0x29 1 0x49 0
        ∷ code 0x38 1 0x49 1
        ∷ code 0x03 1 0x4a 0
        ∷ code 0x06 1 0x4a 0
        ∷ code 0x0a 1 0x4a 0
        ∷ code 0x0f 1 0x4a 0
        ∷ code 0x18 1 0x4a 0
        ∷ code 0x1f 1 0x4a 0
        ∷ code 0x29 1 0x4a 0
        ∷ code 0x38 1 0x4a 1
        ∷ [])
    ∷ []

abbrev pub decode_codes_48 : List (List DecodeCode)
decode_codes_48 =
    (code 0x03 1 0x4b 0
      ∷ code 0x06 1 0x4b 0
      ∷ code 0x0a 1 0x4b 0
      ∷ code 0x0f 1 0x4b 0
      ∷ code 0x18 1 0x4b 0
      ∷ code 0x1f 1 0x4b 0
      ∷ code 0x29 1 0x4b 0
      ∷ code 0x38 1 0x4b 1
      ∷ code 0x03 1 0x4c 0
      ∷ code 0x06 1 0x4c 0
      ∷ code 0x0a 1 0x4c 0
      ∷ code 0x0f 1 0x4c 0
      ∷ code 0x18 1 0x4c 0
      ∷ code 0x1f 1 0x4c 0
      ∷ code 0x29 1 0x4c 0
      ∷ code 0x38 1 0x4c 1
      ∷ [])
    ∷ (code 0x01 1 0x4d 0
        ∷ code 0x16 1 0x4d 1
        ∷ code 0x01 1 0x4e 0
        ∷ code 0x16 1 0x4e 1
        ∷ code 0x01 1 0x4f 0
        ∷ code 0x16 1 0x4f 1
        ∷ code 0x01 1 0x50 0
        ∷ code 0x16 1 0x50 1
        ∷ code 0x01 1 0x51 0
        ∷ code 0x16 1 0x51 1
        ∷ code 0x01 1 0x52 0
        ∷ code 0x16 1 0x52 1
        ∷ code 0x01 1 0x53 0
        ∷ code 0x16 1 0x53 1
        ∷ code 0x01 1 0x54 0
        ∷ code 0x16 1 0x54 1
        ∷ [])
    ∷ (code 0x02 1 0x4d 0
        ∷ code 0x09 1 0x4d 0
        ∷ code 0x17 1 0x4d 0
        ∷ code 0x28 1 0x4d 1
        ∷ code 0x02 1 0x4e 0
        ∷ code 0x09 1 0x4e 0
        ∷ code 0x17 1 0x4e 0
        ∷ code 0x28 1 0x4e 1
        ∷ code 0x02 1 0x4f 0
        ∷ code 0x09 1 0x4f 0
        ∷ code 0x17 1 0x4f 0
        ∷ code 0x28 1 0x4f 1
        ∷ code 0x02 1 0x50 0
        ∷ code 0x09 1 0x50 0
        ∷ code 0x17 1 0x50 0
        ∷ code 0x28 1 0x50 1
        ∷ [])
    ∷ (code 0x03 1 0x4d 0
        ∷ code 0x06 1 0x4d 0
        ∷ code 0x0a 1 0x4d 0
        ∷ code 0x0f 1 0x4d 0
        ∷ code 0x18 1 0x4d 0
        ∷ code 0x1f 1 0x4d 0
        ∷ code 0x29 1 0x4d 0
        ∷ code 0x38 1 0x4d 1
        ∷ code 0x03 1 0x4e 0
        ∷ code 0x06 1 0x4e 0
        ∷ code 0x0a 1 0x4e 0
        ∷ code 0x0f 1 0x4e 0
        ∷ code 0x18 1 0x4e 0
        ∷ code 0x1f 1 0x4e 0
        ∷ code 0x29 1 0x4e 0
        ∷ code 0x38 1 0x4e 1
        ∷ [])
    ∷ (code 0x03 1 0x4f 0
        ∷ code 0x06 1 0x4f 0
        ∷ code 0x0a 1 0x4f 0
        ∷ code 0x0f 1 0x4f 0
        ∷ code 0x18 1 0x4f 0
        ∷ code 0x1f 1 0x4f 0
        ∷ code 0x29 1 0x4f 0
        ∷ code 0x38 1 0x4f 1
        ∷ code 0x03 1 0x50 0
        ∷ code 0x06 1 0x50 0
        ∷ code 0x0a 1 0x50 0
        ∷ code 0x0f 1 0x50 0
        ∷ code 0x18 1 0x50 0
        ∷ code 0x1f 1 0x50 0
        ∷ code 0x29 1 0x50 0
        ∷ code 0x38 1 0x50 1
        ∷ [])
    ∷ (code 0x02 1 0x51 0
        ∷ code 0x09 1 0x51 0
        ∷ code 0x17 1 0x51 0
        ∷ code 0x28 1 0x51 1
        ∷ code 0x02 1 0x52 0
        ∷ code 0x09 1 0x52 0
        ∷ code 0x17 1 0x52 0
        ∷ code 0x28 1 0x52 1
        ∷ code 0x02 1 0x53 0
        ∷ code 0x09 1 0x53 0
        ∷ code 0x17 1 0x53 0
        ∷ code 0x28 1 0x53 1
        ∷ code 0x02 1 0x54 0
        ∷ code 0x09 1 0x54 0
        ∷ code 0x17 1 0x54 0
        ∷ code 0x28 1 0x54 1
        ∷ [])
    ∷ (code 0x03 1 0x51 0
        ∷ code 0x06 1 0x51 0
        ∷ code 0x0a 1 0x51 0
        ∷ code 0x0f 1 0x51 0
        ∷ code 0x18 1 0x51 0
        ∷ code 0x1f 1 0x51 0
        ∷ code 0x29 1 0x51 0
        ∷ code 0x38 1 0x51 1
        ∷ code 0x03 1 0x52 0
        ∷ code 0x06 1 0x52 0
        ∷ code 0x0a 1 0x52 0
        ∷ code 0x0f 1 0x52 0
        ∷ code 0x18 1 0x52 0
        ∷ code 0x1f 1 0x52 0
        ∷ code 0x29 1 0x52 0
        ∷ code 0x38 1 0x52 1
        ∷ [])
    ∷ (code 0x03 1 0x53 0
        ∷ code 0x06 1 0x53 0
        ∷ code 0x0a 1 0x53 0
        ∷ code 0x0f 1 0x53 0
        ∷ code 0x18 1 0x53 0
        ∷ code 0x1f 1 0x53 0
        ∷ code 0x29 1 0x53 0
        ∷ code 0x38 1 0x53 1
        ∷ code 0x03 1 0x54 0
        ∷ code 0x06 1 0x54 0
        ∷ code 0x0a 1 0x54 0
        ∷ code 0x0f 1 0x54 0
        ∷ code 0x18 1 0x54 0
        ∷ code 0x1f 1 0x54 0
        ∷ code 0x29 1 0x54 0
        ∷ code 0x38 1 0x54 1
        ∷ [])
    ∷ []

abbrev pub decode_codes_56 : List (List DecodeCode)
decode_codes_56 =
    (code 0x00 1 0x55 1
      ∷ code 0x00 1 0x56 1
      ∷ code 0x00 1 0x57 1
      ∷ code 0x00 1 0x59 1
      ∷ code 0x00 1 0x6a 1
      ∷ code 0x00 1 0x6b 1
      ∷ code 0x00 1 0x71 1
      ∷ code 0x00 1 0x76 1
      ∷ code 0x00 1 0x77 1
      ∷ code 0x00 1 0x78 1
      ∷ code 0x00 1 0x79 1
      ∷ code 0x00 1 0x7a 1
      ∷ code 0x46 0 0x00 0
      ∷ code 0x47 0 0x00 0
      ∷ code 0x49 0 0x00 0
      ∷ code 0x4a 0 0x00 1
      ∷ [])
    ∷ (code 0x01 1 0x55 0
        ∷ code 0x16 1 0x55 1
        ∷ code 0x01 1 0x56 0
        ∷ code 0x16 1 0x56 1
        ∷ code 0x01 1 0x57 0
        ∷ code 0x16 1 0x57 1
        ∷ code 0x01 1 0x59 0
        ∷ code 0x16 1 0x59 1
        ∷ code 0x01 1 0x6a 0
        ∷ code 0x16 1 0x6a 1
        ∷ code 0x01 1 0x6b 0
        ∷ code 0x16 1 0x6b 1
        ∷ code 0x01 1 0x71 0
        ∷ code 0x16 1 0x71 1
        ∷ code 0x01 1 0x76 0
        ∷ code 0x16 1 0x76 1
        ∷ [])
    ∷ (code 0x02 1 0x55 0
        ∷ code 0x09 1 0x55 0
        ∷ code 0x17 1 0x55 0
        ∷ code 0x28 1 0x55 1
        ∷ code 0x02 1 0x56 0
        ∷ code 0x09 1 0x56 0
        ∷ code 0x17 1 0x56 0
        ∷ code 0x28 1 0x56 1
        ∷ code 0x02 1 0x57 0
        ∷ code 0x09 1 0x57 0
        ∷ code 0x17 1 0x57 0
        ∷ code 0x28 1 0x57 1
        ∷ code 0x02 1 0x59 0
        ∷ code 0x09 1 0x59 0
        ∷ code 0x17 1 0x59 0
        ∷ code 0x28 1 0x59 1
        ∷ [])
    ∷ (code 0x03 1 0x55 0
        ∷ code 0x06 1 0x55 0
        ∷ code 0x0a 1 0x55 0
        ∷ code 0x0f 1 0x55 0
        ∷ code 0x18 1 0x55 0
        ∷ code 0x1f 1 0x55 0
        ∷ code 0x29 1 0x55 0
        ∷ code 0x38 1 0x55 1
        ∷ code 0x03 1 0x56 0
        ∷ code 0x06 1 0x56 0
        ∷ code 0x0a 1 0x56 0
        ∷ code 0x0f 1 0x56 0
        ∷ code 0x18 1 0x56 0
        ∷ code 0x1f 1 0x56 0
        ∷ code 0x29 1 0x56 0
        ∷ code 0x38 1 0x56 1
        ∷ [])
    ∷ (code 0x03 1 0x57 0
        ∷ code 0x06 1 0x57 0
        ∷ code 0x0a 1 0x57 0
        ∷ code 0x0f 1 0x57 0
        ∷ code 0x18 1 0x57 0
        ∷ code 0x1f 1 0x57 0
        ∷ code 0x29 1 0x57 0
        ∷ code 0x38 1 0x57 1
        ∷ code 0x03 1 0x59 0
        ∷ code 0x06 1 0x59 0
        ∷ code 0x0a 1 0x59 0
        ∷ code 0x0f 1 0x59 0
        ∷ code 0x18 1 0x59 0
        ∷ code 0x1f 1 0x59 0
        ∷ code 0x29 1 0x59 0
        ∷ code 0x38 1 0x59 1
        ∷ [])
    ∷ (code 0x02 1 0x6a 0
        ∷ code 0x09 1 0x6a 0
        ∷ code 0x17 1 0x6a 0
        ∷ code 0x28 1 0x6a 1
        ∷ code 0x02 1 0x6b 0
        ∷ code 0x09 1 0x6b 0
        ∷ code 0x17 1 0x6b 0
        ∷ code 0x28 1 0x6b 1
        ∷ code 0x02 1 0x71 0
        ∷ code 0x09 1 0x71 0
        ∷ code 0x17 1 0x71 0
        ∷ code 0x28 1 0x71 1
        ∷ code 0x02 1 0x76 0
        ∷ code 0x09 1 0x76 0
        ∷ code 0x17 1 0x76 0
        ∷ code 0x28 1 0x76 1
        ∷ [])
    ∷ (code 0x03 1 0x6a 0
        ∷ code 0x06 1 0x6a 0
        ∷ code 0x0a 1 0x6a 0
        ∷ code 0x0f 1 0x6a 0
        ∷ code 0x18 1 0x6a 0
        ∷ code 0x1f 1 0x6a 0
        ∷ code 0x29 1 0x6a 0
        ∷ code 0x38 1 0x6a 1
        ∷ code 0x03 1 0x6b 0
        ∷ code 0x06 1 0x6b 0
        ∷ code 0x0a 1 0x6b 0
        ∷ code 0x0f 1 0x6b 0
        ∷ code 0x18 1 0x6b 0
        ∷ code 0x1f 1 0x6b 0
        ∷ code 0x29 1 0x6b 0
        ∷ code 0x38 1 0x6b 1
        ∷ [])
    ∷ (code 0x03 1 0x71 0
        ∷ code 0x06 1 0x71 0
        ∷ code 0x0a 1 0x71 0
        ∷ code 0x0f 1 0x71 0
        ∷ code 0x18 1 0x71 0
        ∷ code 0x1f 1 0x71 0
        ∷ code 0x29 1 0x71 0
        ∷ code 0x38 1 0x71 1
        ∷ code 0x03 1 0x76 0
        ∷ code 0x06 1 0x76 0
        ∷ code 0x0a 1 0x76 0
        ∷ code 0x0f 1 0x76 0
        ∷ code 0x18 1 0x76 0
        ∷ code 0x1f 1 0x76 0
        ∷ code 0x29 1 0x76 0
        ∷ code 0x38 1 0x76 1
        ∷ [])
    ∷ []
