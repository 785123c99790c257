-- ===== src/Huffman/Decode/Codes5.antt =====
-- Rows 160 to 191 of `kgl_http_v2_huff_decode_codes`, src/KHuffDecode.cpp.
use khttpd.Base.{List, [], ◌∷◌}
use khttpd.Huffman.Code.{DecodeCode, code}

abbrev pub decode_codes_160 : List (List DecodeCode)
decode_codes_160 =
    (code 0x03 1 0x98 0
      ∷ code 0x06 1 0x98 0
      ∷ code 0x0a 1 0x98 0
      ∷ code 0x0f 1 0x98 0
      ∷ code 0x18 1 0x98 0
      ∷ code 0x1f 1 0x98 0
      ∷ code 0x29 1 0x98 0
      ∷ code 0x38 1 0x98 1
      ∷ code 0x03 1 0x9b 0
      ∷ code 0x06 1 0x9b 0
      ∷ code 0x0a 1 0x9b 0
      ∷ code 0x0f 1 0x9b 0
      ∷ code 0x18 1 0x9b 0
      ∷ code 0x1f 1 0x9b 0
      ∷ code 0x29 1 0x9b 0
      ∷ code 0x38 1 0x9b 1
      ∷ [])
    ∷ (code 0x03 1 0x9d 0
        ∷ code 0x06 1 0x9d 0
        ∷ code 0x0a 1 0x9d 0
        ∷ code 0x0f 1 0x9d 0
        ∷ code 0x18 1 0x9d 0
        ∷ code 0x1f 1 0x9d 0
        ∷ code 0x29 1 0x9d 0
        ∷ code 0x38 1 0x9d 1
        ∷ code 0x03 1 0x9e 0
        ∷ code 0x06 1 0x9e 0
        ∷ code 0x0a 1 0x9e 0
        ∷ code 0x0f 1 0x9e 0
        ∷ code 0x18 1 0x9e 0
        ∷ code 0x1f 1 0x9e 0
        ∷ code 0x29 1 0x9e 0
        ∷ code 0x38 1 0x9e 1
        ∷ [])
    ∷ (code 0x01 1 0xa5 0
        ∷ code 0x16 1 0xa5 1
        ∷ code 0x01 1 0xa6 0
        ∷ code 0x16 1 0xa6 1
        ∷ code 0x01 1 0xa8 0
        ∷ code 0x16 1 0xa8 1
        ∷ code 0x01 1 0xae 0
        ∷ code 0x16 1 0xae 1
        ∷ code 0x01 1 0xaf 0
        ∷ code 0x16 1 0xaf 1
        ∷ code 0x01 1 0xb4 0
        ∷ code 0x16 1 0xb4 1
        ∷ code 0x01 1 0xb6 0
        ∷ code 0x16 1 0xb6 1
        ∷ code 0x01 1 0xb7 0
        ∷ code 0x16 1 0xb7 1
        ∷ [])
    ∷ (code 0x02 1 0xa5 0
        ∷ code 0x09 1 0xa5 0
        ∷ code 0x17 1 0xa5 0
        ∷ code 0x28 1 0xa5 1
        ∷ code 0x02 1 0xa6 0
        ∷ code 0x09 1 0xa6 0
        ∷ code 0x17 1 0xa6 0
        ∷ code 0x28 1 0xa6 1
        ∷ code 0x02 1 0xa8 0
        ∷ code 0x09 1 0xa8 0
        ∷ code 0x17 1 0xa8 0
        ∷ code 0x28 1 0xa8 1
        ∷ code 0x02 1 0xae 0
        ∷ code 0x09 1 0xae 0
        ∷ code 0x17 1 0xae 0
        ∷ code 0x28 1 0xae 1
        ∷ [])
    ∷ (code 0x03 1 0xa5 0
        ∷ code 0x06 1 0xa5 0
        ∷ code 0x0a 1 0xa5 0
        ∷ code 0x0f 1 0xa5 0
        ∷ code 0x18 1 0xa5 0
        ∷ code 0x1f 1 0xa5 0
        ∷ code 0x29 1 0xa5 0
        ∷ code 0x38 1 0xa5 1
        ∷ code 0x03 1 0xa6 0
        ∷ code 0x06 1 0xa6 0
        ∷ code 0x0a 1 0xa6 0
        ∷ code 0x0f 1 0xa6 0
        ∷ code 0x18 1 0xa6 0
        ∷ code 0x1f 1 0xa6 0
        ∷ code 0x29 1 0xa6 0
        ∷ code 0x38 1 0xa6 1
        ∷ [])
    ∷ (code 0x03 1 0xa8 0
        ∷ code 0x06 1 0xa8 0
        ∷ code 0x0a 1 0xa8 0
        ∷ code 0x0f 1 0xa8 0
        ∷ code 0x18 1 0xa8 0
        ∷ code 0x1f 1 0xa8 0
        ∷ code 0x29 1 0xa8 0
        ∷ code 0x38 1 0xa8 1
        ∷ code 0x03 1 0xae 0
        ∷ code 0x06 1 0xae 0
        ∷ code 0x0a 1 0xae 0
        ∷ code 0x0f 1 0xae 0
        ∷ code 0x18 1 0xae 0
        ∷ code 0x1f 1 0xae 0
        ∷ code 0x29 1 0xae 0
        ∷ code 0x38 1 0xae 1
        ∷ [])
    ∷ (code 0x02 1 0xaf 0
        ∷ code 0x09 1 0xaf 0
        ∷ code 0x17 1 0xaf 0
        ∷ code 0x28 1 0xaf 1
        ∷ code 0x02 1 0xb4 0
        ∷ code 0x09 1 0xb4 0
        ∷ code 0x17 1 0xb4 0
        ∷ code 0x28 1 0xb4 1
        ∷ code 0x02 1 0xb6 0
        ∷ code 0x09 1 0xb6 0
        ∷ code 0x17 1 0xb6 0
        ∷ code 0x28 1 0xb6 1
        ∷ code 0x02 1 0xb7 0
        ∷ code 0x09 1 0xb7 0
        ∷ code 0x17 1 0xb7 0
        ∷ code 0x28 1 0xb7 1
        ∷ [])
    ∷ (code 0x03 1 0xaf 0
        ∷ code 0x06 1 0xaf 0
        ∷ code 0x0a 1 0xaf 0
        ∷ code 0x0f 1 0xaf 0
        ∷ code 0x18 1 0xaf 0
        ∷ code 0x1f 1 0xaf 0
        ∷ code 0x29 1 0xaf 0
        ∷ code 0x38 1 0xaf 1
        ∷ code 0x03 1 0xb4 0
        ∷ code 0x06 1 0xb4 0
        ∷ code 0x0a 1 0xb4 0
        ∷ code 0x0f 1 0xb4 0
        ∷ code 0x18 1 0xb4 0
        ∷ code 0x1f 1 0xb4 0
        ∷ code 0x29 1 0xb4 0
        ∷ code 0x38 1 0xb4 1
        ∷ [])
    ∷ []

abbrev pub decode_codes_168 : List (List DecodeCode)
decode_codes_168 =
    (code 0x03 1 0xb6 0
      ∷ code 0x06 1 0xb6 0
      ∷ code 0x0a 1 0xb6 0
      ∷ code 0x0f 1 0xb6 0
      ∷ code 0x18 1 0xb6 0
      ∷ code 0x1f 1 0xb6 0
      ∷ code 0x29 1 0xb6 0
      ∷ code 0x38 1 0xb6 1
      ∷ code 0x03 1 0xb7 0
      ∷ code 0x06 1 0xb7 0
      ∷ code 0x0a 1 0xb7 0
      ∷ code 0x0f 1 0xb7 0
      ∷ code 0x18 1 0xb7 0
      ∷ code 0x1f 1 0xb7 0
      ∷ code 0x29 1 0xb7 0
      ∷ code 0x38 1 0xb7 1
      ∷ [])
    ∷ (code 0x00 1 0xbc 1
        ∷ code 0x00 1 0xbf 1
        ∷ code 0x00 1 0xc5 1
        ∷ code 0x00 1 0xe7 1
        ∷ code 0x00 1 0xef 1
        ∷ code 0xb0 0 0x00 0
        ∷ code 0xb2 0 0x00 0
        ∷ code 0xb3 0 0x00 0
        ∷ code 0xb7 0 0x00 0
        ∷ code 0xb8 0 0x00 0
        ∷ code 0xba 0 0x00 0
        ∷ code 0xbb 0 0x00 0
        ∷ code 0xc0 0 0x00 0
        ∷ code 0xc7 0 0x00 0
        ∷ code 0xd0 0 0x00 0
        ∷ code 0xdf 0 0x00 1
        ∷ [])
    ∷ (code 0x01 1 0xbc 0
        ∷ code 0x16 1 0xbc 1
        ∷ code 0x01 1 0xbf 0
        ∷ code 0x16 1 0xbf 1
        ∷ code 0x01 1 0xc5 0
        ∷ code 0x16 1 0xc5 1
        ∷ code 0x01 1 0xe7 0
        ∷ code 0x16 1 0xe7 1
        ∷ code 0x01 1 0xef 0
        ∷ code 0x16 1 0xef 1
        ∷ code 0x00 1 0x09 1
        ∷ code 0x00 1 0x8e 1
        ∷ code 0x00 1 0x90 1
        ∷ code 0x00 1 0x91 1
        ∷ code 0x00 1 0x94 1
        ∷ code 0x00 1 0x9f 1
        ∷ [])
    ∷ (code 0x02 1 0xbc 0
        ∷ code 0x09 1 0xbc 0
        ∷ code 0x17 1 0xbc 0
        ∷ code 0x28 1 0xbc 1
        ∷ code 0x02 1 0xbf 0
        ∷ code 0x09 1 0xbf 0
        ∷ code 0x17 1 0xbf 0
        ∷ code 0x28 1 0xbf 1
        ∷ code 0x02 1 0xc5 0
        ∷ code 0x09 1 0xc5 0
        ∷ code 0x17 1 0xc5 0
        ∷ code 0x28 1 0xc5 1
        ∷ code 0x02 1 0xe7 0
        ∷ code 0x09 1 0xe7 0
        ∷ code 0x17 1 0xe7 0
        ∷ code 0x28 1 0xe7 1
        ∷ [])
    ∷ (code 0x03 1 0xbc 0
        ∷ code 0x06 1 0xbc 0
        ∷ code 0x0a 1 0xbc 0
        ∷ code 0x0f 1 0xbc 0
        ∷ code 0x18 1 0xbc 0
        ∷ code 0x1f 1 0xbc 0
        ∷ code 0x29 1 0xbc 0
        ∷ code 0x38 1 0xbc 1
        ∷ code 0x03 1 0xbf 0
        ∷ code 0x06 1 0xbf 0
        ∷ code 0x0a 1 0xbf 0
        ∷ code 0x0f 1 0xbf 0
        ∷ code 0x18 1 0xbf 0
        ∷ code 0x1f 1 0xbf 0
        ∷ code 0x29 1 0xbf 0
        ∷ code 0x38 1 0xbf 1
        ∷ [])
    ∷ (code 0x03 1 0xc5 0
        ∷ code 0x06 1 0xc5 0
        ∷ code 0x0a 1 0xc5 0
        ∷ code 0x0f 1 0xc5 0
        ∷ code 0x18 1 0xc5 0
        ∷ code 0x1f 1 0xc5 0
        ∷ code 0x29 1 0xc5 0
        ∷ code 0x38 1 0xc5 1
        ∷ code 0x03 1 0xe7 0
        ∷ code 0x06 1 0xe7 0
        ∷ code 0x0a 1 0xe7 0
        ∷ code 0x0f 1 0xe7 0
        ∷ code 0x18 1 0xe7 0
        ∷ code 0x1f 1 0xe7 0
        ∷ code 0x29 1 0xe7 0
        ∷ code 0x38 1 0xe7 1
        ∷ [])
    ∷ (code 0x02 1 0xef 0
        ∷ code 0x09 1 0xef 0
        ∷ code 0x17 1 0xef 0
        ∷ code 0x28 1 0xef 1
        ∷ code 0x01 1 0x09 0
        ∷ code 0x16 1 0x09 1
        ∷ code 0x01 1 0x8e 0
        ∷ code 0x16 1 0x8e 1
        ∷ code 0x01 1 0x90 0
        ∷ code 0x16 1 0x90 1
        ∷ code 0x01 1 0x91 0
        ∷ code 0x16 1 0x91 1
        ∷ code 0x01 1 0x94 0
        ∷ code 0x16 1 0x94 1
        ∷ code 0x01 1 0x9f 0
        ∷ code 0x16 1 0x9f 1
        ∷ [])
    ∷ (code 0x03 1 0xef 0
        ∷ code 0x06 1 0xef 0
        ∷ code 0x0a 1 0xef 0
        ∷ code 0x0f 1 0xef 0
        ∷ code 0x18 1 0xef 0
        ∷ code 0x1f 1 0xef 0
        ∷ code 0x29 1 0xef 0
        ∷ code 0x38 1 0xef 1
        ∷ code 0x02 1 0x09 0
        ∷ code 0x09 1 0x09 0
        ∷ code 0x17 1 0x09 0
        ∷ code 0x28 1 0x09 1
        ∷ code 0x02 1 0x8e 0
        ∷ code 0x09 1 0x8e 0
        ∷ code 0x17 1 0x8e 0
        ∷ code 0x28 1 0x8e 1
        ∷ [])
    ∷ []

abbrev pub decode_codes_176 : List (List DecodeCode)
decode_codes_176 =
    (code 0x03 1 0x09 0
      ∷ code 0x06 1 0x09 0
      ∷ code 0x0a 1 0x09 0
      ∷ code 0x0f 1 0x09 0
      ∷ code 0x18 1 0x09 0
      ∷ code 0x1f 1 0x09 0
      ∷ code 0x29 1 0x09 0
      ∷ code 0x38 1 0x09 1
      ∷ code 0x03 1 0x8e 0
      ∷ code 0x06 1 0x8e 0
      ∷ code 0x0a 1 0x8e 0
      ∷ code 0x0f 1 0x8e 0
      ∷ code 0x18 1 0x8e 0
      ∷ code 0x1f 1 0x8e 0
      ∷ code 0x29 1 0x8e 0
      ∷ code 0x38 1 0x8e 1
      ∷ [])
    ∷ (code 0x02 1 0x90 0
        ∷ code 0x09 1 0x90 0
        ∷ code 0x17 1 0x90 0
        ∷ code 0x28 1 0x90 1
        ∷ code 0x02 1 0x91 0
        ∷ code 0x09 1 0x91 0
        ∷ code 0x17 1 0x91 0
        ∷ code 0x28 1 0x91 1
        ∷ code 0x02 1 0x94 0
        ∷ code 0x09 1 0x94 0
        ∷ code 0x17 1 0x94 0
        ∷ code 0x28 1 0x94 1
        ∷ code 0x02 1 0x9f 0
        ∷ code 0x09 1 0x9f 0
        ∷ code 0x17 1 0x9f 0
        ∷ code 0x28 1 0x9f 1
        ∷ [])
    ∷ (code 0x03 1 0x90 0
        ∷ code 0x06 1 0x90 0
        ∷ code 0x0a 1 0x90 0
        ∷ code 0x0f 1 0x90 0
        ∷ code 0x18 1 0x90 0
        ∷ code 0x1f 1 0x90 0
        ∷ code 0x29 1 0x90 0
        ∷ code 0x38 1 0x90 1
        ∷ code 0x03 1 0x91 0
        ∷ code 0x06 1 0x91 0
        ∷ code 0x0a 1 0x91 0
        ∷ code 0x0f 1 0x91 0
        ∷ code 0x18 1 0x91 0
        ∷ code 0x1f 1 0x91 0
        ∷ code 0x29 1 0x91 0
        ∷ code 0x38 1 0x91 1
        ∷ [])
    ∷ (code 0x03 1 0x94 0
        ∷ code 0x06 1 0x94 0
        ∷ code 0x0a 1 0x94 0
        ∷ code 0x0f 1 0x94 0
        ∷ code 0x18 1 0x94 0
        ∷ code 0x1f 1 0x94 0
        ∷ code 0x29 1 0x94 0
        ∷ code 0x38 1 0x94 1
        ∷ code 0x03 1 0x9f 0
        ∷ code 0x06 1 0x9f 0
        ∷ code 0x0a 1 0x9f 0
        ∷ code 0x0f 1 0x9f 0
        ∷ code 0x18 1 0x9f 0
        ∷ code 0x1f 1 0x9f 0
        ∷ code 0x29 1 0x9f 0
        ∷ code 0x38 1 0x9f 1
        ∷ [])
    ∷ (code 0x00 1 0xab 1
        ∷ code 0x00 1 0xce 1
        ∷ code 0x00 1 0xd7 1
        ∷ code 0x00 1 0xe1 1
        ∷ code 0x00 1 0xec 1
        ∷ code 0x00 1 0xed 1
        ∷ code 0xbc 0 0x00 0
        ∷ code 0xbd 0 0x00 0
        ∷ code 0xc1 0 0x00 0
        ∷ code 0xc4 0 0x00 0
        ∷ code 0xc8 0 0x00 0
        ∷ code 0xcb 0 0x00 0
        ∷ code 0xd1 0 0x00 0
        ∷ code 0xd8 0 0x00 0
        ∷ code 0xe0 0 0x00 0
        ∷ code 0xee 0 0x00 1
        ∷ [])
    ∷ (code 0x01 1 0xab 0
        ∷ code 0x16 1 0xab 1
        ∷ code 0x01 1 0xce 0
        ∷ code 0x16 1 0xce 1
        ∷ code 0x01 1 0xd7 0
        ∷ code 0x16 1 0xd7 1
        ∷ code 0x01 1 0xe1 0
        ∷ code 0x16 1 0xe1 1
        ∷ code 0x01 1 0xec 0
        ∷ code 0x16 1 0xec 1
        ∷ code 0x01 1 0xed 0
        ∷ code 0x16 1 0xed 1
        ∷ code 0x00 1 0xc7 1
        ∷ code 0x00 1 0xcf 1
        ∷ code 0x00 1 0xea 1
        ∷ code 0x00 1 0xeb 1
        ∷ [])
    ∷ (code 0x02 1 0xab 0
        ∷ code 0x09 1 0xab 0
        ∷ code 0x17 1 0xab 0
        ∷ code 0x28 1 0xab 1
        ∷ code 0x02 1 0xce 0
        ∷ code 0x09 1 0xce 0
        ∷ code 0x17 1 0xce 0
        ∷ code 0x28 1 0xce 1
        ∷ code 0x02 1 0xd7 0
        ∷ code 0x09 1 0xd7 0
        ∷ code 0x17 1 0xd7 0
        ∷ code 0x28 1 0xd7 1
        ∷ code 0x02 1 0xe1 0
        ∷ code 0x09 1 0xe1 0
        ∷ code 0x17 1 0xe1 0
        ∷ code 0x28 1 0xe1 1
        ∷ [])
    ∷ (code 0x03 1 0xab 0
        ∷ code 0x06 1 0xab 0
        ∷ code 0x0a 1 0xab 0
        ∷ code 0x0f 1 0xab 0
        ∷ code 0x18 1 0xab 0
        ∷ code 0x1f 1 0xab 0
        ∷ code 0x29 1 0xab 0
        ∷ code 0x38 1 0xab 1
        ∷ code 0x03 1 0xce 0
        ∷ code 0x06 1 0xce 0
        ∷ code 0x0a 1 0xce 0
        ∷ code 0x0f 1 0xce 0
        ∷ code 0x18 1 0xce 0
        ∷ code 0x1f 1 0xce 0
        ∷ code 0x29 1 0xce 0
        ∷ code 0x38 1 0xce 1
        ∷ [])
    ∷ []

abbrev pub decode_codes_184 : List (List DecodeCode)
decode_codes_184 =
    (code 0x03 1 0xd7 0
      ∷ code 0x06 1 0xd7 0
      ∷ code 0x0a 1 0xd7 0
      ∷ code 0x0f 1 0xd7 0
      ∷ code 0x18 1 0xd7 0
      ∷ code 0x1f 1 0xd7 0
      ∷ code 0x29 1 0xd7 0
      ∷ code 0x38 1 0xd7 1
      ∷ code 0x03 1 0xe1 0
      ∷ code 0x06 1 0xe1 0
      ∷ code 0x0a 1 0xe1 0
      ∷ code 0x0f 1 0xe1 0
      ∷ code 0x18 1 0xe1 0
      ∷ code 0x1f 1 0xe1 0
      ∷ code 0x29 1 0xe1 0
      ∷ code 0x38 1 0xe1 1
      ∷ [])
    ∷ (code 0x02 1 0xec 0
        ∷ code 0x09 1 0xec 0
        ∷ code 0x17 1 0xec 0
        ∷ code 0x28 1 0xec 1
        ∷ code 0x02 1 0xed 0
        ∷ code 0x09 1 0xed 0
        ∷ code 0x17 1 0xed 0
        ∷ code 0x28 1 0xed 1
        ∷ code 0x01 1 0xc7 0
        ∷ code 0x16 1 0xc7 1
        ∷ code 0x01 1 0xcf 0
        ∷ code 0x16 1 0xcf 1
        ∷ code 0x01 1 0xea 0
        ∷ code 0x16 1 0xea 1
        ∷ code 0x01 1 0xeb 0
        ∷ code 0x16 1 0xeb 1
        ∷ [])
    ∷ (code 0x03 1 0xec 0
        ∷ code 0x06 1 0xec 0
        ∷ code 0x0a 1 0xec 0
        ∷ code 0x0f 1 0xec 0
        ∷ code 0x18 1 0xec 0
        ∷ code 0x1f 1 0xec 0
        ∷ code 0x29 1 0xec 0
        ∷ code 0x38 1 0xec 1
        ∷ code 0x03 1 0xed 0
        ∷ code 0x06 1 0xed 0
        ∷ code 0x0a 1 0xed 0
        ∷ code 0x0f 1 0xed 0
        ∷ code 0x18 1 0xed 0
        ∷ code 0x1f 1 0xed 0
        ∷ code 0x29 1 0xed 0
        ∷ code 0x38 1 0xed 1
        ∷ [])
    ∷ (code 0x02 1 0xc7 0
        ∷ code 0x09 1 0xc7 0
        ∷ code 0x17 1 0xc7 0
        ∷ code 0x28 1 0xc7 1
        ∷ code 0x02 1 0xcf 0
        ∷ code 0x09 1 0xcf 0
        ∷ code 0x17 1 0xcf 0
        ∷ code 0x28 1 0xcf 1
        ∷ code 0x02 1 0xea 0
        ∷ code 0x09 1 0xea 0
        ∷ code 0x17 1 0xea 0
        ∷ code 0x28 1 0xea 1
        ∷ code 0x02 1 0xeb 0
        ∷ code 0x09 1 0xeb 0
        ∷ code 0x17 1 0xeb 0
        ∷ code 0x28 1 0xeb 1
        ∷ [])
    ∷ (code 0x03 1 0xc7 0
        ∷ code 0x06 1 0xc7 0
        ∷ code 0x0a 1 0xc7 0
        ∷ code 0x0f 1 0xc7 0
        ∷ code 0x18 1 0xc7 0
        ∷ code 0x1f 1 0xc7 0
        ∷ code 0x29 1 0xc7 0
        ∷ code 0x38 1 0xc7 1
        ∷ code 0x03 1 0xcf 0
        ∷ code 0x06 1 0xcf 0
        ∷ code 0x0a 1 0xcf 0
        ∷ code 0x0f 1 0xcf 0
        ∷ code 0x18 1 0xcf 0
        ∷ code 0x1f 1 0xcf 0
        ∷ code 0x29 1 0xcf 0
        ∷ code 0x38 1 0xcf 1
        ∷ [])
    ∷ (code 0x03 1 0xea 0
        ∷ code 0x06 1 0xea 0
        ∷ code 0x0a 1 0xea 0
        ∷ code 0x0f 1 0xea 0
        ∷ code 0x18 1 0xea 0
        ∷ code 0x1f 1 0xea 0
        ∷ code 0x29 1 0xea 0
        ∷ code 0x38 1 0xea 1
        ∷ code 0x03 1 0xeb 0
        ∷ code 0x06 1 0xeb 0
        ∷ code 0x0a 1 0xeb 0
        ∷ code 0x0f 1 0xeb 0
        ∷ code 0x18 1 0xeb 0
        ∷ code 0x1f 1 0xeb 0
        ∷ code 0x29 1 0xeb 0
        ∷ code 0x38 1 0xeb 1
        ∷ [])
    ∷ (code 0xc2 0 0x00 0
        ∷ code 0xc3 0 0x00 0
        ∷ code 0xc5 0 0x00 0
        ∷ code 0xc6 0 0x00 0
        ∷ code 0xc9 0 0x00 0
        ∷ code 0xca 0 0x00 0
        ∷ code 0xcc 0 0x00 0
        ∷ code 0xcd 0 0x00 0
        ∷ code 0xd2 0 0x00 0
        ∷ code 0xd5 0 0x00 0
        ∷ code 0xd9 0 0x00 0
        ∷ code 0xdc 0 0x00 0
        ∷ code 0xe1 0 0x00 0
        ∷ code 0xe7 0 0x00 0
        ∷ code 0xef 0 0x00 0
        ∷ code 0xf6 0 0x00 1
        ∷ [])
    ∷ (code 0x00 1 0xc0 1
        ∷ code 0x00 1 0xc1 1
        ∷ code 0x00 1 0xc8 1
        ∷ code 0x00 1 0xc9 1
        ∷ code 0x00 1 0xca 1
        ∷ code 0x00 1 0xcd 1
        ∷ code 0x00 1 0xd2 1
        ∷ code 0x00 1 0xd5 1
        ∷ code 0x00 1 0xda 1
        ∷ code 0x00 1 0xdb 1
        ∷ code 0x00 1 0xee 1
        ∷ code 0x00 1 0xf0 1
        ∷ code 0x00 1 0xf2 1
        ∷ code 0x00 1 0xf3 1
        ∷ code 0x00 1 0xff 1
        ∷ code 0xce 0 0x00 0
        ∷ [])
    ∷ []
