-- ===== src/Huffman/Decode/Codes6.antt =====
-- Rows 192 to 223 of `kgl_http_v2_huff_decode_codes`, src/KHuffDecode.cpp.
use khttpd.Base.{List, [], ◌∷◌}
use khttpd.Huffman.Code.{DecodeCode, code}

abbrev pub decode_codes_192 : List (List DecodeCode)
decode_codes_192 =
    (code 0x01 1 0xc0 0
      ∷ code 0x16 1 0xc0 1
      ∷ code 0x01 1 0xc1 0
      ∷ code 0x16 1 0xc1 1
      ∷ code 0x01 1 0xc8 0
      ∷ code 0x16 1 0xc8 1
      ∷ code 0x01 1 0xc9 0
      ∷ code 0x16 1 0xc9 1
      ∷ code 0x01 1 0xca 0
      ∷ code 0x16 1 0xca 1
      ∷ code 0x01 1 0xcd 0
      ∷ code 0x16 1 0xcd 1
      ∷ code 0x01 1 0xd2 0
      ∷ code 0x16 1 0xd2 1
      ∷ code 0x01 1 0xd5 0
      ∷ code 0x16 1 0xd5 1
      ∷ [])
    ∷ (code 0x02 1 0xc0 0
        ∷ code 0x09 1 0xc0 0
        ∷ code 0x17 1 0xc0 0
        ∷ code 0x28 1 0xc0 1
        ∷ code 0x02 1 0xc1 0
        ∷ code 0x09 1 0xc1 0
        ∷ code 0x17 1 0xc1 0
        ∷ code 0x28 1 0xc1 1
        ∷ code 0x02 1 0xc8 0
        ∷ code 0x09 1 0xc8 0
        ∷ code 0x17 1 0xc8 0
        ∷ code 0x28 1 0xc8 1
        ∷ code 0x02 1 0xc9 0
        ∷ code 0x09 1 0xc9 0
        ∷ code 0x17 1 0xc9 0
        ∷ code 0x28 1 0xc9 1
        ∷ [])
    ∷ (code 0x03 1 0xc0 0
        ∷ code 0x06 1 0xc0 0
        ∷ code 0x0a 1 0xc0 0
        ∷ code 0x0f 1 0xc0 0
        ∷ code 0x18 1 0xc0 0
        ∷ code 0x1f 1 0xc0 0
        ∷ code 0x29 1 0xc0 0
        ∷ code 0x38 1 0xc0 1
        ∷ code 0x03 1 0xc1 0
        ∷ code 0x06 1 0xc1 0
        ∷ code 0x0a 1 0xc1 0
        ∷ code 0x0f 1 0xc1 0
        ∷ code 0x18 1 0xc1 0
        ∷ code 0x1f 1 0xc1 0
        ∷ code 0x29 1 0xc1 0
        ∷ code 0x38 1 0xc1 1
        ∷ [])
    ∷ (code 0x03 1 0xc8 0
        ∷ code 0x06 1 0xc8 0
        ∷ code 0x0a 1 0xc8 0
        ∷ code 0x0f 1 0xc8 0
        ∷ code 0x18 1 0xc8 0
        ∷ code 0x1f 1 0xc8 0
        ∷ code 0x29 1 0xc8 0
        ∷ code 0x38 1 0xc8 1
        ∷ code 0x03 1 0xc9 0
        ∷ code 0x06 1 0xc9 0
        ∷ code 0x0a 1 0xc9 0
        ∷ code 0x0f 1 0xc9 0
        ∷ code 0x18 1 0xc9 0
        ∷ code 0x1f 1 0xc9 0
        ∷ code 0x29 1 0xc9 0
        ∷ code 0x38 1 0xc9 1
        ∷ [])
    ∷ (code 0x02 1 0xca 0
        ∷ code 0x09 1 0xca 0
        ∷ code 0x17 1 0xca 0
        ∷ code 0x28 1 0xca 1
        ∷ code 0x02 1 0xcd 0
        ∷ code 0x09 1 0xcd 0
        ∷ code 0x17 1 0xcd 0
        ∷ code 0x28 1 0xcd 1
        ∷ code 0x02 1 0xd2 0
        ∷ code 0x09 1 0xd2 0
        ∷ code 0x17 1 0xd2 0
        ∷ code 0x28 1 0xd2 1
        ∷ code 0x02 1 0xd5 0
        ∷ code 0x09 1 0xd5 0
        ∷ code 0x17 1 0xd5 0
        ∷ code 0x28 1 0xd5 1
        ∷ [])
    ∷ (code 0x03 1 0xca 0
        ∷ code 0x06 1 0xca 0
        ∷ code 0x0a 1 0xca 0
        ∷ code 0x0f 1 0xca 0
        ∷ code 0x18 1 0xca 0
        ∷ code 0x1f 1 0xca 0
        ∷ code 0x29 1 0xca 0
        ∷ code 0x38 1 0xca 1
        ∷ code 0x03 1 0xcd 0
        ∷ code 0x06 1 0xcd 0
        ∷ code 0x0a 1 0xcd 0
        ∷ code 0x0f 1 0xcd 0
        ∷ code 0x18 1 0xcd 0
        ∷ code 0x1f 1 0xcd 0
        ∷ code 0x29 1 0xcd 0
        ∷ code 0x38 1 0xcd 1
        ∷ [])
    ∷ (code 0x03 1 0xd2 0
        ∷ code 0x06 1 0xd2 0
        ∷ code 0x0a 1 0xd2 0
        ∷ code 0x0f 1 0xd2 0
        ∷ code 0x18 1 0xd2 0
        ∷ code 0x1f 1 0xd2 0
        ∷ code 0x29 1 0xd2 0
        ∷ code 0x38 1 0xd2 1
        ∷ code 0x03 1 0xd5 0
        ∷ code 0x06 1 0xd5 0
        ∷ code 0x0a 1 0xd5 0
        ∷ code 0x0f 1 0xd5 0
        ∷ code 0x18 1 0xd5 0
        ∷ code 0x1f 1 0xd5 0
        ∷ code 0x29 1 0xd5 0
        ∷ code 0x38 1 0xd5 1
        ∷ [])
    ∷ (code 0x01 1 0xda 0
        ∷ code 0x16 1 0xda 1
        ∷ code 0x01 1 0xdb 0
        ∷ code 0x16 1 0xdb 1
        ∷ code 0x01 1 0xee 0
        ∷ code 0x16 1 0xee 1
        ∷ code 0x01 1 0xf0 0
        ∷ code 0x16 1 0xf0 1
        ∷ code 0x01 1 0xf2 0
        ∷ code 0x16 1 0xf2 1
        ∷ code 0x01 1 0xf3 0
        ∷ code 0x16 1 0xf3 1
        ∷ code 0x01 1 0xff 0
        ∷ code 0x16 1 0xff 1
        ∷ code 0x00 1 0xcb 1
        ∷ code 0x00 1 0xcc 1
        ∷ [])
    ∷ []

abbrev pub decode_codes_200 : List (List DecodeCode)
decode_codes_200 =
    (code 0x02 1 0xda 0
      ∷ code 0x09 1 0xda 0
      ∷ code 0x17 1 0xda 0
      ∷ code 0x28 1 0xda 1
      ∷ code 0x02 1 0xdb 0
      ∷ code 0x09 1 0xdb 0
      ∷ code 0x17 1 0xdb 0
      ∷ code 0x28 1 0xdb 1
      ∷ code 0x02 1 0xee 0
      ∷ code 0x09 1 0xee 0
      ∷ code 0x17 1 0xee 0
      ∷ code 0x28 1 0xee 1
      ∷ code 0x02 1 0xf0 0
      ∷ code 0x09 1 0xf0 0
      ∷ code 0x17 1 0xf0 0
      ∷ code 0x28 1 0xf0 1
      ∷ [])
    ∷ (code 0x03 1 0xda 0
        ∷ code 0x06 1 0xda 0
        ∷ code 0x0a 1 0xda 0
        ∷ code 0x0f 1 0xda 0
        ∷ code 0x18 1 0xda 0
        ∷ code 0x1f 1 0xda 0
        ∷ code 0x29 1 0xda 0
        ∷ code 0x38 1 0xda 1
        ∷ code 0x03 1 0xdb 0
        ∷ code 0x06 1 0xdb 0
        ∷ code 0x0a 1 0xdb 0
        ∷ code 0x0f 1 0xdb 0
        ∷ code 0x18 1 0xdb 0
        ∷ code 0x1f 1 0xdb 0
        ∷ code 0x29 1 0xdb 0
        ∷ code 0x38 1 0xdb 1
        ∷ [])
    ∷ (code 0x03 1 0xee 0
        ∷ code 0x06 1 0xee 0
        ∷ code 0x0a 1 0xee 0
        ∷ code 0x0f 1 0xee 0
        ∷ code 0x18 1 0xee 0
        ∷ code 0x1f 1 0xee 0
        ∷ code 0x29 1 0xee 0
        ∷ code 0x38 1 0xee 1
        ∷ code 0x03 1 0xf0 0
        ∷ code 0x06 1 0xf0 0
        ∷ code 0x0a 1 0xf0 0
        ∷ code 0x0f 1 0xf0 0
        ∷ code 0x18 1 0xf0 0
        ∷ code 0x1f 1 0xf0 0
        ∷ code 0x29 1 0xf0 0
        ∷ code 0x38 1 0xf0 1
        ∷ [])
    ∷ (code 0x02 1 0xf2 0
        ∷ code 0x09 1 0xf2 0
        ∷ code 0x17 1 0xf2 0
        ∷ code 0x28 1 0xf2 1
        ∷ code 0x02 1 0xf3 0
        ∷ code 0x09 1 0xf3 0
        ∷ code 0x17 1 0xf3 0
        ∷ code 0x28 1 0xf3 1
        ∷ code 0x02 1 0xff 0
        ∷ code 0x09 1 0xff 0
        ∷ code 0x17 1 0xff 0
        ∷ code 0x28 1 0xff 1
        ∷ code 0x01 1 0xcb 0
        ∷ code 0x16 1 0xcb 1
        ∷ code 0x01 1 0xcc 0
        ∷ code 0x16 1 0xcc 1
        ∷ [])
    ∷ (code 0x03 1 0xf2 0
        ∷ code 0x06 1 0xf2 0
        ∷ code 0x0a 1 0xf2 0
        ∷ code 0x0f 1 0xf2 0
        ∷ code 0x18 1 0xf2 0
        ∷ code 0x1f 1 0xf2 0
        ∷ code 0x29 1 0xf2 0
        ∷ code 0x38 1 0xf2 1
        ∷ code 0x03 1 0xf3 0
        ∷ code 0x06 1 0xf3 0
        ∷ code 0x0a 1 0xf3 0
        ∷ code 0x0f 1 0xf3 0
        ∷ code 0x18 1 0xf3 0
        ∷ code 0x1f 1 0xf3 0
        ∷ code 0x29 1 0xf3 0
        ∷ code 0x38 1 0xf3 1
        ∷ [])
    ∷ (code 0x03 1 0xff 0
        ∷ code 0x06 1 0xff 0
        ∷ code 0x0a 1 0xff 0
        ∷ code 0x0f 1 0xff 0
        ∷ code 0x18 1 0xff 0
        ∷ code 0x1f 1 0xff 0
        ∷ code 0x29 1 0xff 0
        ∷ code 0x38 1 0xff 1
        ∷ code 0x02 1 0xcb 0
        ∷ code 0x09 1 0xcb 0
        ∷ code 0x17 1 0xcb 0
        ∷ code 0x28 1 0xcb 1
        ∷ code 0x02 1 0xcc 0
        ∷ code 0x09 1 0xcc 0
        ∷ code 0x17 1 0xcc 0
        ∷ code 0x28 1 0xcc 1
        ∷ [])
    ∷ (code 0x03 1 0xcb 0
        ∷ code 0x06 1 0xcb 0
        ∷ code 0x0a 1 0xcb 0
        ∷ code 0x0f 1 0xcb 0
        ∷ code 0x18 1 0xcb 0
        ∷ code 0x1f 1 0xcb 0
        ∷ code 0x29 1 0xcb 0
        ∷ code 0x38 1 0xcb 1
        ∷ code 0x03 1 0xcc 0
        ∷ code 0x06 1 0xcc 0
        ∷ code 0x0a 1 0xcc 0
        ∷ code 0x0f 1 0xcc 0
        ∷ code 0x18 1 0xcc 0
        ∷ code 0x1f 1 0xcc 0
        ∷ code 0x29 1 0xcc 0
        ∷ code 0x38 1 0xcc 1
        ∷ [])
    ∷ (code 0xd3 0 0x00 0
        ∷ code 0xd4 0 0x00 0
        ∷ code 0xd6 0 0x00 0
        ∷ code 0xd7 0 0x00 0
        ∷ code 0xda 0 0x00 0
        ∷ code 0xdb 0 0x00 0
        ∷ code 0xdd 0 0x00 0
        ∷ code 0xde 0 0x00 0
        ∷ code 0xe2 0 0x00 0
        ∷ code 0xe4 0 0x00 0
        ∷ code 0xe8 0 0x00 0
        ∷ code 0xeb 0 0x00 0
        ∷ code 0xf0 0 0x00 0
        ∷ code 0xf3 0 0x00 0
        ∷ code 0xf7 0 0x00 0
        ∷ code 0xfa 0 0x00 1
        ∷ [])
    ∷ []

abbrev pub decode_codes_208 : List (List DecodeCode)
decode_codes_208 =
    (code 0x00 1 0xd3 1
      ∷ code 0x00 1 0xd4 1
      ∷ code 0x00 1 0xd6 1
      ∷ code 0x00 1 0xdd 1
      ∷ code 0x00 1 0xde 1
      ∷ code 0x00 1 0xdf 1
      ∷ code 0x00 1 0xf1 1
      ∷ code 0x00 1 0xf4 1
      ∷ code 0x00 1 0xf5 1
      ∷ code 0x00 1 0xf6 1
      ∷ code 0x00 1 0xf7 1
      ∷ code 0x00 1 0xf8 1
      ∷ code 0x00 1 0xfa 1
      ∷ code 0x00 1 0xfb 1
      ∷ code 0x00 1 0xfc 1
      ∷ code 0x00 1 0xfd 1
      ∷ [])
    ∷ (code 0x01 1 0xd3 0
        ∷ code 0x16 1 0xd3 1
        ∷ code 0x01 1 0xd4 0
        ∷ code 0x16 1 0xd4 1
        ∷ code 0x01 1 0xd6 0
        ∷ code 0x16 1 0xd6 1
        ∷ code 0x01 1 0xdd 0
        ∷ code 0x16 1 0xdd 1
        ∷ code 0x01 1 0xde 0
        ∷ code 0x16 1 0xde 1
        ∷ code 0x01 1 0xdf 0
        ∷ code 0x16 1 0xdf 1
        ∷ code 0x01 1 0xf1 0
        ∷ code 0x16 1 0xf1 1
        ∷ code 0x01 1 0xf4 0
        ∷ code 0x16 1 0xf4 1
        ∷ [])
    ∷ (code 0x02 1 0xd3 0
        ∷ code 0x09 1 0xd3 0
        ∷ code 0x17 1 0xd3 0
        ∷ code 0x28 1 0xd3 1
        ∷ code 0x02 1 0xd4 0
        ∷ code 0x09 1 0xd4 0
        ∷ code 0x17 1 0xd4 0
        ∷ code 0x28 1 0xd4 1
        ∷ code 0x02 1 0xd6 0
        ∷ code 0x09 1 0xd6 0
        ∷ code 0x17 1 0xd6 0
        ∷ code 0x28 1 0xd6 1
        ∷ code 0x02 1 0xdd 0
        ∷ code 0x09 1 0xdd 0
        ∷ code 0x17 1 0xdd 0
        ∷ code 0x28 1 0xdd 1
        ∷ [])
    ∷ (code 0x03 1 0xd3 0
        ∷ code 0x06 1 0xd3 0
        ∷ code 0x0a 1 0xd3 0
        ∷ code 0x0f 1 0xd3 0
        ∷ code 0x18 1 0xd3 0
        ∷ code 0x1f 1 0xd3 0
        ∷ code 0x29 1 0xd3 0
        ∷ code 0x38 1 0xd3 1
        ∷ code 0x03 1 0xd4 0
        ∷ code 0x06 1 0xd4 0
        ∷ code 0x0a 1 0xd4 0
        ∷ code 0x0f 1 0xd4 0
        ∷ code 0x18 1 0xd4 0
        ∷ code 0x1f 1 0xd4 0
        ∷ code 0x29 1 0xd4 0
        ∷ code 0x38 1 0xd4 1
        ∷ [])
    ∷ (code 0x03 1 0xd6 0
        ∷ code 0x06 1 0xd6 0
        ∷ code 0x0a 1 0xd6 0
        ∷ code 0x0f 1 0xd6 0
        ∷ code 0x18 1 0xd6 0
        ∷ code 0x1f 1 0xd6 0
        ∷ code 0x29 1 0xd6 0
        ∷ code 0x38 1 0xd6 1
        ∷ code 0x03 1 0xdd 0
        ∷ code 0x06 1 0xdd 0
        ∷ code 0x0a 1 0xdd 0
        ∷ code 0x0f 1 0xdd 0
        ∷ code 0x18 1 0xdd 0
        ∷ code 0x1f 1 0xdd 0
        ∷ code 0x29 1 0xdd 0
        ∷ code 0x38 1 0xdd 1
        ∷ [])
    ∷ (code 0x02 1 0xde 0
        ∷ code 0x09 1 0xde 0
        ∷ code 0x17 1 0xde 0
        ∷ code 0x28 1 0xde 1
        ∷ code 0x02 1 0xdf 0
        ∷ code 0x09 1 0xdf 0
        ∷ code 0x17 1 0xdf 0
        ∷ code 0x28 1 0xdf 1
        ∷ code 0x02 1 0xf1 0
        ∷ code 0x09 1 0xf1 0
        ∷ code 0x17 1 0xf1 0
        ∷ code 0x28 1 0xf1 1
        ∷ code 0x02 1 0xf4 0
        ∷ code 0x09 1 0xf4 0
        ∷ code 0x17 1 0xf4 0
        ∷ code 0x28 1 0xf4 1
        ∷ [])
    ∷ (code 0x03 1 0xde 0
        ∷ code 0x06 1 0xde 0
        ∷ code 0x0a 1 0xde 0
        ∷ code 0x0f 1 0xde 0
        ∷ code 0x18 1 0xde 0
        ∷ code 0x1f 1 0xde 0
        ∷ code 0x29 1 0xde 0
        ∷ code 0x38 1 0xde 1
        ∷ code 0x03 1 0xdf 0
        ∷ code 0x06 1 0xdf 0
        ∷ code 0x0a 1 0xdf 0
        ∷ code 0x0f 1 0xdf 0
        ∷ code 0x18 1 0xdf 0
        ∷ code 0x1f 1 0xdf 0
        ∷ code 0x29 1 0xdf 0
        ∷ code 0x38 1 0xdf 1
        ∷ [])
    ∷ (code 0x03 1 0xf1 0
        ∷ code 0x06 1 0xf1 0
        ∷ code 0x0a 1 0xf1 0
        ∷ code 0x0f 1 0xf1 0
        ∷ code 0x18 1 0xf1 0
        ∷ code 0x1f 1 0xf1 0
        ∷ code 0x29 1 0xf1 0
        ∷ code 0x38 1 0xf1 1
        ∷ code 0x03 1 0xf4 0
        ∷ code 0x06 1 0xf4 0
        ∷ code 0x0a 1 0xf4 0
        ∷ code 0x0f 1 0xf4 0
        ∷ code 0x18 1 0xf4 0
        ∷ code 0x1f 1 0xf4 0
        ∷ code 0x29 1 0xf4 0
        ∷ code 0x38 1 0xf4 1
        ∷ [])
    ∷ []

abbrev pub decode_codes_216 : List (List DecodeCode)
decode_codes_216 =
    (code 0x01 1 0xf5 0
      ∷ code 0x16 1 0xf5 1
      ∷ code 0x01 1 0xf6 0
      ∷ code 0x16 1 0xf6 1
      ∷ code 0x01 1 0xf7 0
      ∷ code 0x16 1 0xf7 1
      ∷ code 0x01 1 0xf8 0
      ∷ code 0x16 1 0xf8 1
      ∷ code 0x01 1 0xfa 0
      ∷ code 0x16 1 0xfa 1
      ∷ code 0x01 1 0xfb 0
      ∷ code 0x16 1 0xfb 1
      ∷ code 0x01 1 0xfc 0
      ∷ code 0x16 1 0xfc 1
      ∷ code 0x01 1 0xfd 0
      ∷ code 0x16 1 0xfd 1
      ∷ [])
    ∷ (code 0x02 1 0xf5 0
        ∷ code 0x09 1 0xf5 0
        ∷ code 0x17 1 0xf5 0
        ∷ code 0x28 1 0xf5 1
        ∷ code 0x02 1 0xf6 0
        ∷ code 0x09 1 0xf6 0
        ∷ code 0x17 1 0xf6 0
        ∷ code 0x28 1 0xf6 1
        ∷ code 0x02 1 0xf7 0
        ∷ code 0x09 1 0xf7 0
        ∷ code 0x17 1 0xf7 0
        ∷ code 0x28 1 0xf7 1
        ∷ code 0x02 1 0xf8 0
        ∷ code 0x09 1 0xf8 0
        ∷ code 0x17 1 0xf8 0
        ∷ code 0x28 1 0xf8 1
        ∷ [])
    ∷ (code 0x03 1 0xf5 0
        ∷ code 0x06 1 0xf5 0
        ∷ code 0x0a 1 0xf5 0
        ∷ code 0x0f 1 0xf5 0
        ∷ code 0x18 1 0xf5 0
        ∷ code 0x1f 1 0xf5 0
        ∷ code 0x29 1 0xf5 0
        ∷ code 0x38 1 0xf5 1
        ∷ code 0x03 1 0xf6 0
        ∷ code 0x06 1 0xf6 0
        ∷ code 0x0a 1 0xf6 0
        ∷ code 0x0f 1 0xf6 0
        ∷ code 0x18 1 0xf6 0
        ∷ code 0x1f 1 0xf6 0
        ∷ code 0x29 1 0xf6 0
        ∷ code 0x38 1 0xf6 1
        ∷ [])
    ∷ (code 0x03 1 0xf7 0
        ∷ code 0x06 1 0xf7 0
        ∷ code 0x0a 1 0xf7 0
        ∷ code 0x0f 1 0xf7 0
        ∷ code 0x18 1 0xf7 0
        ∷ code 0x1f 1 0xf7 0
        ∷ code 0x29 1 0xf7 0
        ∷ code 0x38 1 0xf7 1
        ∷ code 0x03 1 0xf8 0
        ∷ code 0x06 1 0xf8 0
        ∷ code 0x0a 1 0xf8 0
        ∷ code 0x0f 1 0xf8 0
        ∷ code 0x18 1 0xf8 0
        ∷ code 0x1f 1 0xf8 0
        ∷ code 0x29 1 0xf8 0
        ∷ code 0x38 1 0xf8 1
        ∷ [])
    ∷ (code 0x02 1 0xfa 0
        ∷ code 0x09 1 0xfa 0
        ∷ code 0x17 1 0xfa 0
        ∷ code 0x28 1 0xfa 1
        ∷ code 0x02 1 0xfb 0
        ∷ code 0x09 1 0xfb 0
        ∷ code 0x17 1 0xfb 0
        ∷ code 0x28 1 0xfb 1
        ∷ code 0x02 1 0xfc 0
        ∷ code 0x09 1 0xfc 0
        ∷ code 0x17 1 0xfc 0
        ∷ code 0x28 1 0xfc 1
        ∷ code 0x02 1 0xfd 0
        ∷ code 0x09 1 0xfd 0
        ∷ code 0x17 1 0xfd 0
        ∷ code 0x28 1 0xfd 1
        ∷ [])
    ∷ (code 0x03 1 0xfa 0
        ∷ code 0x06 1 0xfa 0
        ∷ code 0x0a 1 0xfa 0
        ∷ code 0x0f 1 0xfa 0
        ∷ code 0x18 1 0xfa 0
        ∷ code 0x1f 1 0xfa 0
        ∷ code 0x29 1 0xfa 0
        ∷ code 0x38 1 0xfa 1
        ∷ code 0x03 1 0xfb 0
        ∷ code 0x06 1 0xfb 0
        ∷ code 0x0a 1 0xfb 0
        ∷ code 0x0f 1 0xfb 0
        ∷ code 0x18 1 0xfb 0
        ∷ code 0x1f 1 0xfb 0
        ∷ code 0x29 1 0xfb 0
        ∷ code 0x38 1 0xfb 1
        ∷ [])
    ∷ (code 0x03 1 0xfc 0
        ∷ code 0x06 1 0xfc 0
        ∷ code 0x0a 1 0xfc 0
        ∷ code 0x0f 1 0xfc 0
        ∷ code 0x18 1 0xfc 0
        ∷ code 0x1f 1 0xfc 0
        ∷ code 0x29 1 0xfc 0
        ∷ code 0x38 1 0xfc 1
        ∷ code 0x03 1 0xfd 0
        ∷ code 0x06 1 0xfd 0
        ∷ code 0x0a 1 0xfd 0
        ∷ code 0x0f 1 0xfd 0
        ∷ code 0x18 1 0xfd 0
        ∷ code 0x1f 1 0xfd 0
        ∷ code 0x29 1 0xfd 0
        ∷ code 0x38 1 0xfd 1
        ∷ [])
    ∷ (code 0x00 1 0xfe 1
        ∷ code 0xe3 0 0x00 0
        ∷ code 0xe5 0 0x00 0
        ∷ code 0xe6 0 0x00 0
        ∷ code 0xe9 0 0x00 0
        ∷ code 0xea 0 0x00 0
        ∷ code 0xec 0 0x00 0
        ∷ code 0xed 0 0x00 0
        ∷ code 0xf1 0 0x00 0
        ∷ code 0xf2 0 0x00 0
        ∷ code 0xf4 0 0x00 0
        ∷ code 0xf5 0 0x00 0
        ∷ code 0xf8 0 0x00 0
        ∷ code 0xf9 0 0x00 0
        ∷ code 0xfb 0 0x00 0
        ∷ code 0xfc 0 0x00 1
        ∷ [])
    ∷ []
