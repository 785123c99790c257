-- ===== src/Huffman/Decode/Codes4.antt =====
-- Rows 128 to 159 of `kgl_http_v2_huff_decode_codes`, src/KHuffDecode.cpp.
use khttpd.Base.{List, [], ◌∷◌}
use khttpd.Huffman.Code.{DecodeCode, code}

abbrev pub decode_codes_128 : List (List DecodeCode)
decode_codes_128 =
    (code 0x03 1 0x9a 0
      ∷ code 0x06 1 0x9a 0
      ∷ code 0x0a 1 0x9a 0
      ∷ code 0x0f 1 0x9a 0
      ∷ code 0x18 1 0x9a 0
      ∷ code 0x1f 1 0x9a 0
      ∷ code 0x29 1 0x9a 0
      ∷ code 0x38 1 0x9a 1
      ∷ code 0x03 1 0x9c 0
      ∷ code 0x06 1 0x9c 0
      ∷ code 0x0a 1 0x9c 0
      ∷ code 0x0f 1 0x9c 0
      ∷ code 0x18 1 0x9c 0
      ∷ code 0x1f 1 0x9c 0
      ∷ code 0x29 1 0x9c 0
      ∷ code 0x38 1 0x9c 1
      ∷ [])
    ∷ (code 0x03 1 0xa0 0
        ∷ code 0x06 1 0xa0 0
        ∷ code 0x0a 1 0xa0 0
        ∷ code 0x0f 1 0xa0 0
        ∷ code 0x18 1 0xa0 0
        ∷ code 0x1f 1 0xa0 0
        ∷ code 0x29 1 0xa0 0
        ∷ code 0x38 1 0xa0 1
        ∷ code 0x03 1 0xa3 0
        ∷ code 0x06 1 0xa3 0
        ∷ code 0x0a 1 0xa3 0
        ∷ code 0x0f 1 0xa3 0
        ∷ code 0x18 1 0xa3 0
        ∷ code 0x1f 1 0xa3 0
        ∷ code 0x29 1 0xa3 0
        ∷ code 0x38 1 0xa3 1
        ∷ [])
    ∷ (code 0x02 1 0xa4 0
        ∷ code 0x09 1 0xa4 0
        ∷ code 0x17 1 0xa4 0
        ∷ code 0x28 1 0xa4 1
        ∷ code 0x02 1 0xa9 0
        ∷ code 0x09 1 0xa9 0
        ∷ code 0x17 1 0xa9 0
        ∷ code 0x28 1 0xa9 1
        ∷ code 0x02 1 0xaa 0
        ∷ code 0x09 1 0xaa 0
        ∷ code 0x17 1 0xaa 0
        ∷ code 0x28 1 0xaa 1
        ∷ code 0x02 1 0xad 0
        ∷ code 0x09 1 0xad 0
        ∷ code 0x17 1 0xad 0
        ∷ code 0x28 1 0xad 1
        ∷ [])
    ∷ (code 0x03 1 0xa4 0
        ∷ code 0x06 1 0xa4 0
        ∷ code 0x0a 1 0xa4 0
        ∷ code 0x0f 1 0xa4 0
        ∷ code 0x18 1 0xa4 0
        ∷ code 0x1f 1 0xa4 0
        ∷ code 0x29 1 0xa4 0
        ∷ code 0x38 1 0xa4 1
        ∷ code 0x03 1 0xa9 0
        ∷ code 0x06 1 0xa9 0
        ∷ code 0x0a 1 0xa9 0
        ∷ code 0x0f 1 0xa9 0
        ∷ code 0x18 1 0xa9 0
        ∷ code 0x1f 1 0xa9 0
        ∷ code 0x29 1 0xa9 0
        ∷ code 0x38 1 0xa9 1
        ∷ [])
    ∷ (code 0x03 1 0xaa 0
        ∷ code 0x06 1 0xaa 0
        ∷ code 0x0a 1 0xaa 0
        ∷ code 0x0f 1 0xaa 0
        ∷ code 0x18 1 0xaa 0
        ∷ code 0x1f 1 0xaa 0
        ∷ code 0x29 1 0xaa 0
        ∷ code 0x38 1 0xaa 1
        ∷ code 0x03 1 0xad 0
        ∷ code 0x06 1 0xad 0
        ∷ code 0x0a 1 0xad 0
        ∷ code 0x0f 1 0xad 0
        ∷ code 0x18 1 0xad 0
        ∷ code 0x1f 1 0xad 0
        ∷ code 0x29 1 0xad 0
        ∷ code 0x38 1 0xad 1
        ∷ [])
    ∷ (code 0x89 0 0x00 0
        ∷ code 0x8a 0 0x00 0
        ∷ code 0x8c 0 0x00 0
        ∷ code 0x8d 0 0x00 0
        ∷ code 0x90 0 0x00 0
        ∷ code 0x91 0 0x00 0
        ∷ code 0x93 0 0x00 0
        ∷ code 0x96 0 0x00 0
        ∷ code 0x9c 0 0x00 0
        ∷ code 0x9f 0 0x00 0
        ∷ code 0xa3 0 0x00 0
        ∷ code 0xa6 0 0x00 0
        ∷ code 0xab 0 0x00 0
        ∷ code 0xae 0 0x00 0
        ∷ code 0xb5 0 0x00 0
        ∷ code 0xbe 0 0x00 1
        ∷ [])
    ∷ (code 0x00 1 0xb2 1
        ∷ code 0x00 1 0xb5 1
        ∷ code 0x00 1 0xb9 1
        ∷ code 0x00 1 0xba 1
        ∷ code 0x00 1 0xbb 1
        ∷ code 0x00 1 0xbd 1
        ∷ code 0x00 1 0xbe 1
        ∷ code 0x00 1 0xc4 1
        ∷ code 0x00 1 0xc6 1
        ∷ code 0x00 1 0xe4 1
        ∷ code 0x00 1 0xe8 1
        ∷ code 0x00 1 0xe9 1
        ∷ code 0x94 0 0x00 0
        ∷ code 0x95 0 0x00 0
        ∷ code 0x97 0 0x00 0
        ∷ code 0x98 0 0x00 0
        ∷ [])
    ∷ (code 0x01 1 0xb2 0
        ∷ code 0x16 1 0xb2 1
        ∷ code 0x01 1 0xb5 0
        ∷ code 0x16 1 0xb5 1
        ∷ code 0x01 1 0xb9 0
        ∷ code 0x16 1 0xb9 1
        ∷ code 0x01 1 0xba 0
        ∷ code 0x16 1 0xba 1
        ∷ code 0x01 1 0xbb 0
        ∷ code 0x16 1 0xbb 1
        ∷ code 0x01 1 0xbd 0
        ∷ code 0x16 1 0xbd 1
        ∷ code 0x01 1 0xbe 0
        ∷ code 0x16 1 0xbe 1
        ∷ code 0x01 1 0xc4 0
        ∷ code 0x16 1 0xc4 1
        ∷ [])
    ∷ []

abbrev pub decode_codes_136 : List (List DecodeCode)
decode_codes_136 =
    (code 0x02 1 0xb2 0
      ∷ code 0x09 1 0xb2 0
      ∷ code 0x17 1 0xb2 0
      ∷ code 0x28 1 0xb2 1
      ∷ code 0x02 1 0xb5 0
      ∷ code 0x09 1 0xb5 0
      ∷ code 0x17 1 0xb5 0
      ∷ code 0x28 1 0xb5 1
      ∷ code 0x02 1 0xb9 0
      ∷ code 0x09 1 0xb9 0
      ∷ code 0x17 1 0xb9 0
      ∷ code 0x28 1 0xb9 1
      ∷ code 0x02 1 0xba 0
      ∷ code 0x09 1 0xba 0
      ∷ code 0x17 1 0xba 0
      ∷ code 0x28 1 0xba 1
      ∷ [])
    ∷ (code 0x03 1 0xb2 0
        ∷ code 0x06 1 0xb2 0
        ∷ code 0x0a 1 0xb2 0
        ∷ code 0x0f 1 0xb2 0
        ∷ code 0x18 1 0xb2 0
        ∷ code 0x1f 1 0xb2 0
        ∷ code 0x29 1 0xb2 0
        ∷ code 0x38 1 0xb2 1
        ∷ code 0x03 1 0xb5 0
        ∷ code 0x06 1 0xb5 0
        ∷ code 0x0a 1 0xb5 0
        ∷ code 0x0f 1 0xb5 0
        ∷ code 0x18 1 0xb5 0
        ∷ code 0x1f 1 0xb5 0
        ∷ code 0x29 1 0xb5 0
        ∷ code 0x38 1 0xb5 1
        ∷ [])
    ∷ (code 0x03 1 0xb9 0
        ∷ code 0x06 1 0xb9 0
        ∷ code 0x0a 1 0xb9 0
        ∷ code 0x0f 1 0xb9 0
        ∷ code 0x18 1 0xb9 0
        ∷ code 0x1f 1 0xb9 0
        ∷ code 0x29 1 0xb9 0
        ∷ code 0x38 1 0xb9 1
        ∷ code 0x03 1 0xba 0
        ∷ code 0x06 1 0xba 0
        ∷ code 0x0a 1 0xba 0
        ∷ code 0x0f 1 0xba 0
        ∷ code 0x18 1 0xba 0
        ∷ code 0x1f 1 0xba 0
        ∷ code 0x29 1 0xba 0
        ∷ code 0x38 1 0xba 1
        ∷ [])
    ∷ (code 0x02 1 0xbb 0
        ∷ code 0x09 1 0xbb 0
        ∷ code 0x17 1 0xbb 0
        ∷ code 0x28 1 0xbb 1
        ∷ code 0x02 1 0xbd 0
        ∷ code 0x09 1 0xbd 0
        ∷ code 0x17 1 0xbd 0
        ∷ code 0x28 1 0xbd 1
        ∷ code 0x02 1 0xbe 0
        ∷ code 0x09 1 0xbe 0
        ∷ code 0x17 1 0xbe 0
        ∷ code 0x28 1 0xbe 1
        ∷ code 0x02 1 0xc4 0
        ∷ code 0x09 1 0xc4 0
        ∷ code 0x17 1 0xc4 0
        ∷ code 0x28 1 0xc4 1
        ∷ [])
    ∷ (code 0x03 1 0xbb 0
        ∷ code 0x06 1 0xbb 0
        ∷ code 0x0a 1 0xbb 0
        ∷ code 0x0f 1 0xbb 0
        ∷ code 0x18 1 0xbb 0
        ∷ code 0x1f 1 0xbb 0
        ∷ code 0x29 1 0xbb 0
        ∷ code 0x38 1 0xbb 1
        ∷ code 0x03 1 0xbd 0
        ∷ code 0x06 1 0xbd 0
        ∷ code 0x0a 1 0xbd 0
        ∷ code 0x0f 1 0xbd 0
        ∷ code 0x18 1 0xbd 0
        ∷ code 0x1f 1 0xbd 0
        ∷ code 0x29 1 0xbd 0
        ∷ code 0x38 1 0xbd 1
        ∷ [])
    ∷ (code 0x03 1 0xbe 0
        ∷ code 0x06 1 0xbe 0
        ∷ code 0x0a 1 0xbe 0
        ∷ code 0x0f 1 0xbe 0
        ∷ code 0x18 1 0xbe 0
        ∷ code 0x1f 1 0xbe 0
        ∷ code 0x29 1 0xbe 0
        ∷ code 0x38 1 0xbe 1
        ∷ code 0x03 1 0xc4 0
        ∷ code 0x06 1 0xc4 0
        ∷ code 0x0a 1 0xc4 0
        ∷ code 0x0f 1 0xc4 0
        ∷ code 0x18 1 0xc4 0
        ∷ code 0x1f 1 0xc4 0
        ∷ code 0x29 1 0xc4 0
        ∷ code 0x38 1 0xc4 1
        ∷ [])
    ∷ (code 0x01 1 0xc6 0
        ∷ code 0x16 1 0xc6 1
        ∷ code 0x01 1 0xe4 0
        ∷ code 0x16 1 0xe4 1
        ∷ code 0x01 1 0xe8 0
        ∷ code 0x16 1 0xe8 1
        ∷ code 0x01 1 0xe9 0
        ∷ code 0x16 1 0xe9 1
        ∷ code 0x00 1 0x01 1
        ∷ code 0x00 1 0x87 1
        ∷ code 0x00 1 0x89 1
        ∷ code 0x00 1 0x8a 1
        ∷ code 0x00 1 0x8b 1
        ∷ code 0x00 1 0x8c 1
        ∷ code 0x00 1 0x8d 1
        ∷ code 0x00 1 0x8f 1
        ∷ [])
    ∷ (code 0x02 1 0xc6 0
        ∷ code 0x09 1 0xc6 0
        ∷ code 0x17 1 0xc6 0
        ∷ code 0x28 1 0xc6 1
        ∷ code 0x02 1 0xe4 0
        ∷ code 0x09 1 0xe4 0
        ∷ code 0x17 1 0xe4 0
        ∷ code 0x28 1 0xe4 1
        ∷ code 0x02 1 0xe8 0
        ∷ code 0x09 1 0xe8 0
        ∷ code 0x17 1 0xe8 0
        ∷ code 0x28 1 0xe8 1
        ∷ code 0x02 1 0xe9 0
        ∷ code 0x09 1 0xe9 0
        ∷ code 0x17 1 0xe9 0
        ∷ code 0x28 1 0xe9 1
        ∷ [])
    ∷ []

abbrev pub decode_codes_144 : List (List DecodeCode)
decode_codes_144 =
    (code 0x03 1 0xc6 0
      ∷ code 0x06 1 0xc6 0
      ∷ code 0x0a 1 0xc6 0
      ∷ code 0x0f 1 0xc6 0
      ∷ code 0x18 1 0xc6 0
      ∷ code 0x1f 1 0xc6 0
      ∷ code 0x29 1 0xc6 0
      ∷ code 0x38 1 0xc6 1
      ∷ code 0x03 1 0xe4 0
      ∷ code 0x06 1 0xe4 0
      ∷ code 0x0a 1 0xe4 0
      ∷ code 0x0f 1 0xe4 0
      ∷ code 0x18 1 0xe4 0
      ∷ code 0x1f 1 0xe4 0
      ∷ code 0x29 1 0xe4 0
      ∷ code 0x38 1 0xe4 1
      ∷ [])
    ∷ (code 0x03 1 0xe8 0
        ∷ code 0x06 1 0xe8 0
        ∷ code 0x0a 1 0xe8 0
        ∷ code 0x0f 1 0xe8 0
        ∷ code 0x18 1 0xe8 0
        ∷ code 0x1f 1 0xe8 0
        ∷ code 0x29 1 0xe8 0
        ∷ code 0x38 1 0xe8 1
        ∷ code 0x03 1 0xe9 0
        ∷ code 0x06 1 0xe9 0
        ∷ code 0x0a 1 0xe9 0
        ∷ code 0x0f 1 0xe9 0
        ∷ code 0x18 1 0xe9 0
        ∷ code 0x1f 1 0xe9 0
        ∷ code 0x29 1 0xe9 0
        ∷ code 0x38 1 0xe9 1
        ∷ [])
    ∷ (code 0x01 1 0x01 0
        ∷ code 0x16 1 0x01 1
        ∷ code 0x01 1 0x87 0
        ∷ code 0x16 1 0x87 1
        ∷ code 0x01 1 0x89 0
        ∷ code 0x16 1 0x89 1
        ∷ code 0x01 1 0x8a 0
        ∷ code 0x16 1 0x8a 1
        ∷ code 0x01 1 0x8b 0
        ∷ code 0x16 1 0x8b 1
        ∷ code 0x01 1 0x8c 0
        ∷ code 0x16 1 0x8c 1
        ∷ code 0x01 1 0x8d 0
        ∷ code 0x16 1 0x8d 1
        ∷ code 0x01 1 0x8f 0
        ∷ code 0x16 1 0x8f 1
        ∷ [])
    ∷ (code 0x02 1 0x01 0
        ∷ code 0x09 1 0x01 0
        ∷ code 0x17 1 0x01 0
        ∷ code 0x28 1 0x01 1
        ∷ code 0x02 1 0x87 0
        ∷ code 0x09 1 0x87 0
        ∷ code 0x17 1 0x87 0
        ∷ code 0x28 1 0x87 1
        ∷ code 0x02 1 0x89 0
        ∷ code 0x09 1 0x89 0
        ∷ code 0x17 1 0x89 0
        ∷ code 0x28 1 0x89 1
        ∷ code 0x02 1 0x8a 0
        ∷ code 0x09 1 0x8a 0
        ∷ code 0x17 1 0x8a 0
        ∷ code 0x28 1 0x8a 1
        ∷ [])
    ∷ (code 0x03 1 0x01 0
        ∷ code 0x06 1 0x01 0
        ∷ code 0x0a 1 0x01 0
        ∷ code 0x0f 1 0x01 0
        ∷ code 0x18 1 0x01 0
        ∷ code 0x1f 1 0x01 0
        ∷ code 0x29 1 0x01 0
        ∷ code 0x38 1 0x01 1
        ∷ code 0x03 1 0x87 0
        ∷ code 0x06 1 0x87 0
        ∷ code 0x0a 1 0x87 0
        ∷ code 0x0f 1 0x87 0
        ∷ code 0x18 1 0x87 0
        ∷ code 0x1f 1 0x87 0
        ∷ code 0x29 1 0x87 0
        ∷ code 0x38 1 0x87 1
        ∷ [])
    ∷ (code 0x03 1 0x89 0
        ∷ code 0x06 1 0x89 0
        ∷ code 0x0a 1 0x89 0
        ∷ code 0x0f 1 0x89 0
        ∷ code 0x18 1 0x89 0
        ∷ code 0x1f 1 0x89 0
        ∷ code 0x29 1 0x89 0
        ∷ code 0x38 1 0x89 1
        ∷ code 0x03 1 0x8a 0
        ∷ code 0x06 1 0x8a 0
        ∷ code 0x0a 1 0x8a 0
        ∷ code 0x0f 1 0x8a 0
        ∷ code 0x18 1 0x8a 0
        ∷ code 0x1f 1 0x8a 0
        ∷ code 0x29 1 0x8a 0
        ∷ code 0x38 1 0x8a 1
        ∷ [])
    ∷ (code 0x02 1 0x8b 0
        ∷ code 0x09 1 0x8b 0
        ∷ code 0x17 1 0x8b 0
        ∷ code 0x28 1 0x8b 1
        ∷ code 0x02 1 0x8c 0
        ∷ code 0x09 1 0x8c 0
        ∷ code 0x17 1 0x8c 0
        ∷ code 0x28 1 0x8c 1
        ∷ code 0x02 1 0x8d 0
        ∷ code 0x09 1 0x8d 0
        ∷ code 0x17 1 0x8d 0
        ∷ code 0x28 1 0x8d 1
        ∷ code 0x02 1 0x8f 0
        ∷ code 0x09 1 0x8f 0
        ∷ code 0x17 1 0x8f 0
        ∷ code 0x28 1 0x8f 1
        ∷ [])
    ∷ (code 0x03 1 0x8b 0
        ∷ code 0x06 1 0x8b 0
        ∷ code 0x0a 1 0x8b 0
        ∷ code 0x0f 1 0x8b 0
        ∷ code 0x18 1 0x8b 0
        ∷ code 0x1f 1 0x8b 0
        ∷ code 0x29 1 0x8b 0
        ∷ code 0x38 1 0x8b 1
        ∷ code 0x03 1 0x8c 0
        ∷ code 0x06 1 0x8c 0
        ∷ code 0x0a 1 0x8c 0
        ∷ code 0x0f 1 0x8c 0
        ∷ code 0x18 1 0x8c 0
        ∷ code 0x1f 1 0x8c 0
        ∷ code 0x29 1 0x8c 0
        ∷ code 0x38 1 0x8c 1
        ∷ [])
    ∷ []

abbrev pub decode_codes_152 : List (List DecodeCode)
decode_codes_152 =
    (code 0x03 1 0x8d 0
      ∷ code 0x06 1 0x8d 0
      ∷ code 0x0a 1 0x8d 0
      ∷ code 0x0f 1 0x8d 0
      ∷ code 0x18 1 0x8d 0
      ∷ code 0x1f 1 0x8d 0
      ∷ code 0x29 1 0x8d 0
      ∷ code 0x38 1 0x8d 1
      ∷ code 0x03 1 0x8f 0
      ∷ code 0x06 1 0x8f 0
      ∷ code 0x0a 1 0x8f 0
      ∷ code 0x0f 1 0x8f 0
      ∷ code 0x18 1 0x8f 0
      ∷ code 0x1f 1 0x8f 0
      ∷ code 0x29 1 0x8f 0
      ∷ code 0x38 1 0x8f 1
      ∷ [])
    ∷ (code 0x9d 0 0x00 0
        ∷ code 0x9e 0 0x00 0
        ∷ code 0xa0 0 0x00 0
        ∷ code 0xa1 0 0x00 0
        ∷ code 0xa4 0 0x00 0
        ∷ code 0xa5 0 0x00 0
        ∷ code 0xa7 0 0x00 0
        ∷ code 0xa8 0 0x00 0
        ∷ code 0xac 0 0x00 0
        ∷ code 0xad 0 0x00 0
        ∷ code 0xaf 0 0x00 0
        ∷ code 0xb1 0 0x00 0
        ∷ code 0xb6 0 0x00 0
        ∷ code 0xb9 0 0x00 0
        ∷ code 0xbf 0 0x00 0
        ∷ code 0xcf 0 0x00 1
        ∷ [])
    ∷ (code 0x00 1 0x93 1
        ∷ code 0x00 1 0x95 1
        ∷ code 0x00 1 0x96 1
        ∷ code 0x00 1 0x97 1
        ∷ code 0x00 1 0x98 1
        ∷ code 0x00 1 0x9b 1
        ∷ code 0x00 1 0x9d 1
        ∷ code 0x00 1 0x9e 1
        ∷ code 0x00 1 0xa5 1
        ∷ code 0x00 1 0xa6 1
        ∷ code 0x00 1 0xa8 1
        ∷ code 0x00 1 0xae 1
        ∷ code 0x00 1 0xaf 1
        ∷ code 0x00 1 0xb4 1
        ∷ code 0x00 1 0xb6 1
        ∷ code 0x00 1 0xb7 1
        ∷ [])
    ∷ (code 0x01 1 0x93 0
        ∷ code 0x16 1 0x93 1
        ∷ code 0x01 1 0x95 0
        ∷ code 0x16 1 0x95 1
        ∷ code 0x01 1 0x96 0
        ∷ code 0x16 1 0x96 1
        ∷ code 0x01 1 0x97 0
        ∷ code 0x16 1 0x97 1
        ∷ code 0x01 1 0x98 0
        ∷ code 0x16 1 0x98 1
        ∷ code 0x01 1 0x9b 0
        ∷ code 0x16 1 0x9b 1
        ∷ code 0x01 1 0x9d 0
        ∷ code 0x16 1 0x9d 1
        ∷ code 0x01 1 0x9e 0
        ∷ code 0x16 1 0x9e 1
        ∷ [])
    ∷ (code 0x02 1 0x93 0
        ∷ code 0x09 1 0x93 0
        ∷ code 0x17 1 0x93 0
        ∷ code 0x28 1 0x93 1
        ∷ code 0x02 1 0x95 0
        ∷ code 0x09 1 0x95 0
        ∷ code 0x17 1 0x95 0
        ∷ code 0x28 1 0x95 1
        ∷ code 0x02 1 0x96 0
        ∷ code 0x09 1 0x96 0
        ∷ code 0x17 1 0x96 0
        ∷ code 0x28 1 0x96 1
        ∷ code 0x02 1 0x97 0
        ∷ code 0x09 1 0x97 0
        ∷ code 0x17 1 0x97 0
        ∷ code 0x28 1 0x97 1
        ∷ [])
    ∷ (code 0x03 1 0x93 0
        ∷ code 0x06 1 0x93 0
        ∷ code 0x0a 1 0x93 0
        ∷ code 0x0f 1 0x93 0
        ∷ code 0x18 1 0x93 0
        ∷ code 0x1f 1 0x93 0
        ∷ code 0x29 1 0x93 0
        ∷ code 0x38 1 0x93 1
        ∷ code 0x03 1 0x95 0
        ∷ code 0x06 1 0x95 0
        ∷ code 0x0a 1 0x95 0
        ∷ code 0x0f 1 0x95 0
        ∷ code 0x18 1 0x95 0
        ∷ code 0x1f 1 0x95 0
        ∷ code 0x29 1 0x95 0
        ∷ code 0x38 1 0x95 1
        ∷ [])
    ∷ (code 0x03 1 0x96 0
        ∷ code 0x06 1 0x96 0
        ∷ code 0x0a 1 0x96 0
        ∷ code 0x0f 1 0x96 0
        ∷ code 0x18 1 0x96 0
        ∷ code 0x1f 1 0x96 0
        ∷ code 0x29 1 0x96 0
        ∷ code 0x38 1 0x96 1
        ∷ code 0x03 1 0x97 0
        ∷ code 0x06 1 0x97 0
        ∷ code 0x0a 1 0x97 0
        ∷ code 0x0f 1 0x97 0
        ∷ code 0x18 1 0x97 0
        ∷ code 0x1f 1 0x97 0
        ∷ code 0x29 1 0x97 0
        ∷ code 0x38 1 0x97 1
        ∷ [])
    ∷ (code 0x02 1 0x98 0
        ∷ code 0x09 1 0x98 0
        ∷ code 0x17 1 0x98 0
        ∷ code 0x28 1 0x98 1
        ∷ code 0x02 1 0x9b 0
        ∷ code 0x09 1 0x9b 0
        ∷ code 0x17 1 0x9b 0
        ∷ code 0x28 1 0x9b 1
        ∷ code 0x02 1 0x9d 0
        ∷ code 0x09 1 0x9d 0
        ∷ code 0x17 1 0x9d 0
        ∷ code 0x28 1 0x9d 1
        ∷ code 0x02 1 0x9e 0
        ∷ code 0x09 1 0x9e 0
        ∷ code 0x17 1 0x9e 0
        ∷ code 0x28 1 0x9e 1
        ∷ [])
    ∷ []
