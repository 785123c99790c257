-- ===== src/Huffman/Decode/Codes7.antt =====
-- Rows 224 to 255 of `kgl_http_v2_huff_decode_codes`, src/KHuffDecode.cpp.
use khttpd.Base.{List, [], ◌∷◌}
use khttpd.Huffman.Code.{DecodeCode, code}

abbrev pub decode_codes_224 : List (List DecodeCode)
decode_codes_224 =
    (code 0x01 1 0xfe 0
      ∷ code 0x16 1 0xfe 1
      ∷ code 0x00 1 0x02 1
      ∷ code 0x00 1 0x03 1
      ∷ code 0x00 1 0x04 1
      ∷ code 0x00 1 0x05 1
      ∷ code 0x00 1 0x06 1
      ∷ code 0x00 1 0x07 1
      ∷ code 0x00 1 0x08 1
      ∷ code 0x00 1 0x0b 1
      ∷ code 0x00 1 0x0c 1
      ∷ code 0x00 1 0x0e 1
      ∷ code 0x00 1 0x0f 1
      ∷ code 0x00 1 0x10 1
      ∷ code 0x00 1 0x11 1
      ∷ code 0x00 1 0x12 1
      ∷ [])
    ∷ (code 0x02 1 0xfe 0
        ∷ code 0x09 1 0xfe 0
        ∷ code 0x17 1 0xfe 0
        ∷ code 0x28 1 0xfe 1
        ∷ code 0x01 1 0x02 0
        ∷ code 0x16 1 0x02 1
        ∷ code 0x01 1 0x03 0
        ∷ code 0x16 1 0x03 1
        ∷ code 0x01 1 0x04 0
        ∷ code 0x16 1 0x04 1
        ∷ code 0x01 1 0x05 0
        ∷ code 0x16 1 0x05 1
        ∷ code 0x01 1 0x06 0
        ∷ code 0x16 1 0x06 1
        ∷ code 0x01 1 0x07 0
        ∷ code 0x16 1 0x07 1
        ∷ [])
    ∷ (code 0x03 1 0xfe 0
        ∷ code 0x06 1 0xfe 0
        ∷ code 0x0a 1 0xfe 0
        ∷ code 0x0f 1 0xfe 0
        ∷ code 0x18 1 0xfe 0
        ∷ code 0x1f 1 0xfe 0
        ∷ code 0x29 1 0xfe 0
        ∷ code 0x38 1 0xfe 1
        ∷ code 0x02 1 0x02 0
        ∷ code 0x09 1 0x02 0
        ∷ code 0x17 1 0x02 0
        ∷ code 0x28 1 0x02 1
        ∷ code 0x02 1 0x03 0
        ∷ code 0x09 1 0x03 0
        ∷ code 0x17 1 0x03 0
        ∷ code 0x28 1 0x03 1
        ∷ [])
    ∷ (code 0x03 1 0x02 0
        ∷ code 0x06 1 0x02 0
        ∷ code 0x0a 1 0x02 0
        ∷ code 0x0f 1 0x02 0
        ∷ code 0x18 1 0x02 0
        ∷ code 0x1f 1 0x02 0
        ∷ code 0x29 1 0x02 0
        ∷ code 0x38 1 0x02 1
        ∷ code 0x03 1 0x03 0
        ∷ code 0x06 1 0x03 0
        ∷ code 0x0a 1 0x03 0
        ∷ code 0x0f 1 0x03 0
        ∷ code 0x18 1 0x03 0
        ∷ code 0x1f 1 0x03 0
        ∷ code 0x29 1 0x03 0
        ∷ code 0x38 1 0x03 1
        ∷ [])
    ∷ (code 0x02 1 0x04 0
        ∷ code 0x09 1 0x04 0
        ∷ code 0x17 1 0x04 0
        ∷ code 0x28 1 0x04 1
        ∷ code 0x02 1 0x05 0
        ∷ code 0x09 1 0x05 0
        ∷ code 0x17 1 0x05 0
        ∷ code 0x28 1 0x05 1
        ∷ code 0x02 1 0x06 0
        ∷ code 0x09 1 0x06 0
        ∷ code 0x17 1 0x06 0
        ∷ code 0x28 1 0x06 1
        ∷ code 0x02 1 0x07 0
        ∷ code 0x09 1 0x07 0
        ∷ code 0x17 1 0x07 0
        ∷ code 0x28 1 0x07 1
        ∷ [])
    ∷ (code 0x03 1 0x04 0
        ∷ code 0x06 1 0x04 0
        ∷ code 0x0a 1 0x04 0
        ∷ code 0x0f 1 0x04 0
        ∷ code 0x18 1 0x04 0
        ∷ code 0x1f 1 0x04 0
        ∷ code 0x29 1 0x04 0
        ∷ code 0x38 1 0x04 1
        ∷ code 0x03 1 0x05 0
        ∷ code 0x06 1 0x05 0
        ∷ code 0x0a 1 0x05 0
        ∷ code 0x0f 1 0x05 0
        ∷ code 0x18 1 0x05 0
        ∷ code 0x1f 1 0x05 0
        ∷ code 0x29 1 0x05 0
        ∷ code 0x38 1 0x05 1
        ∷ [])
    ∷ (code 0x03 1 0x06 0
        ∷ code 0x06 1 0x06 0
        ∷ code 0x0a 1 0x06 0
        ∷ code 0x0f 1 0x06 0
        ∷ code 0x18 1 0x06 0
        ∷ code 0x1f 1 0x06 0
        ∷ code 0x29 1 0x06 0
        ∷ code 0x38 1 0x06 1
        ∷ code 0x03 1 0x07 0
        ∷ code 0x06 1 0x07 0
        ∷ code 0x0a 1 0x07 0
        ∷ code 0x0f 1 0x07 0
        ∷ code 0x18 1 0x07 0
        ∷ code 0x1f 1 0x07 0
        ∷ code 0x29 1 0x07 0
        ∷ code 0x38 1 0x07 1
        ∷ [])
    ∷ (code 0x01 1 0x08 0
        ∷ code 0x16 1 0x08 1
        ∷ code 0x01 1 0x0b 0
        ∷ code 0x16 1 0x0b 1
        ∷ code 0x01 1 0x0c 0
        ∷ code 0x16 1 0x0c 1
        ∷ code 0x01 1 0x0e 0
        ∷ code 0x16 1 0x0e 1
        ∷ code 0x01 1 0x0f 0
        ∷ code 0x16 1 0x0f 1
        ∷ code 0x01 1 0x10 0
        ∷ code 0x16 1 0x10 1
        ∷ code 0x01 1 0x11 0
        ∷ code 0x16 1 0x11 1
        ∷ code 0x01 1 0x12 0
        ∷ code 0x16 1 0x12 1
        ∷ [])
    ∷ []

abbrev pub decode_codes_232 : List (List DecodeCode)
decode_codes_232 =
    (code 0x02 1 0x08 0
      ∷ code 0x09 1 0x08 0
      ∷ code 0x17 1 0x08 0
      ∷ code 0x28 1 0x08 1
      ∷ code 0x02 1 0x0b 0
      ∷ code 0x09 1 0x0b 0
      ∷ code 0x17 1 0x0b 0
      ∷ code 0x28 1 0x0b 1
      ∷ code 0x02 1 0x0c 0
      ∷ code 0x09 1 0x0c 0
      ∷ code 0x17 1 0x0c 0
      ∷ code 0x28 1 0x0c 1
      ∷ code 0x02 1 0x0e 0
      ∷ code 0x09 1 0x0e 0
      ∷ code 0x17 1 0x0e 0
      ∷ code 0x28 1 0x0e 1
      ∷ [])
    ∷ (code 0x03 1 0x08 0
        ∷ code 0x06 1 0x08 0
        ∷ code 0x0a 1 0x08 0
        ∷ code 0x0f 1 0x08 0
        ∷ code 0x18 1 0x08 0
        ∷ code 0x1f 1 0x08 0
        ∷ code 0x29 1 0x08 0
        ∷ code 0x38 1 0x08 1
        ∷ code 0x03 1 0x0b 0
        ∷ code 0x06 1 0x0b 0
        ∷ code 0x0a 1 0x0b 0
        ∷ code 0x0f 1 0x0b 0
        ∷ code 0x18 1 0x0b 0
        ∷ code 0x1f 1 0x0b 0
        ∷ code 0x29 1 0x0b 0
        ∷ code 0x38 1 0x0b 1
        ∷ [])
    ∷ (code 0x03 1 0x0c 0
        ∷ code 0x06 1 0x0c 0
        ∷ code 0x0a 1 0x0c 0
        ∷ code 0x0f 1 0x0c 0
        ∷ code 0x18 1 0x0c 0
        ∷ code 0x1f 1 0x0c 0
        ∷ code 0x29 1 0x0c 0
        ∷ code 0x38 1 0x0c 1
        ∷ code 0x03 1 0x0e 0
        ∷ code 0x06 1 0x0e 0
        ∷ code 0x0a 1 0x0e 0
        ∷ code 0x0f 1 0x0e 0
        ∷ code 0x18 1 0x0e 0
        ∷ code 0x1f 1 0x0e 0
        ∷ code 0x29 1 0x0e 0
        ∷ code 0x38 1 0x0e 1
        ∷ [])
    ∷ (code 0x02 1 0x0f 0
        ∷ code 0x09 1 0x0f 0
        ∷ code 0x17 1 0x0f 0
        ∷ code 0x28 1 0x0f 1
        ∷ code 0x02 1 0x10 0
        ∷ code 0x09 1 0x10 0
        ∷ code 0x17 1 0x10 0
        ∷ code 0x28 1 0x10 1
        ∷ code 0x02 1 0x11 0
        ∷ code 0x09 1 0x11 0
        ∷ code 0x17 1 0x11 0
        ∷ code 0x28 1 0x11 1
        ∷ code 0x02 1 0x12 0
        ∷ code 0x09 1 0x12 0
        ∷ code 0x17 1 0x12 0
        ∷ code 0x28 1 0x12 1
        ∷ [])
    ∷ (code 0x03 1 0x0f 0
        ∷ code 0x06 1 0x0f 0
        ∷ code 0x0a 1 0x0f 0
        ∷ code 0x0f 1 0x0f 0
        ∷ code 0x18 1 0x0f 0
        ∷ code 0x1f 1 0x0f 0
        ∷ code 0x29 1 0x0f 0
        ∷ code 0x38 1 0x0f 1
        ∷ code 0x03 1 0x10 0
        ∷ code 0x06 1 0x10 0
        ∷ code 0x0a 1 0x10 0
        ∷ code 0x0f 1 0x10 0
        ∷ code 0x18 1 0x10 0
        ∷ code 0x1f 1 0x10 0
        ∷ code 0x29 1 0x10 0
        ∷ code 0x38 1 0x10 1
        ∷ [])
    ∷ (code 0x03 1 0x11 0
        ∷ code 0x06 1 0x11 0
        ∷ code 0x0a 1 0x11 0
        ∷ code 0x0f 1 0x11 0
        ∷ code 0x18 1 0x11 0
        ∷ code 0x1f 1 0x11 0
        ∷ code 0x29 1 0x11 0
        ∷ code 0x38 1 0x11 1
        ∷ code 0x03 1 0x12 0
        ∷ code 0x06 1 0x12 0
        ∷ code 0x0a 1 0x12 0
        ∷ code 0x0f 1 0x12 0
        ∷ code 0x18 1 0x12 0
        ∷ code 0x1f 1 0x12 0
        ∷ code 0x29 1 0x12 0
        ∷ code 0x38 1 0x12 1
        ∷ [])
    ∷ (code 0x00 1 0x13 1
        ∷ code 0x00 1 0x14 1
        ∷ code 0x00 1 0x15 1
        ∷ code 0x00 1 0x17 1
        ∷ code 0x00 1 0x18 1
        ∷ code 0x00 1 0x19 1
        ∷ code 0x00 1 0x1a 1
        ∷ code 0x00 1 0x1b 1
        ∷ code 0x00 1 0x1c 1
        ∷ code 0x00 1 0x1d 1
        ∷ code 0x00 1 0x1e 1
        ∷ code 0x00 1 0x1f 1
        ∷ code 0x00 1 0x7f 1
        ∷ code 0x00 1 0xdc 1
        ∷ code 0x00 1 0xf9 1
        ∷ code 0xfd 0 0x00 1
        ∷ [])
    ∷ (code 0x01 1 0x13 0
        ∷ code 0x16 1 0x13 1
        ∷ code 0x01 1 0x14 0
        ∷ code 0x16 1 0x14 1
        ∷ code 0x01 1 0x15 0
        ∷ code 0x16 1 0x15 1
        ∷ code 0x01 1 0x17 0
        ∷ code 0x16 1 0x17 1
        ∷ code 0x01 1 0x18 0
        ∷ code 0x16 1 0x18 1
        ∷ code 0x01 1 0x19 0
        ∷ code 0x16 1 0x19 1
        ∷ code 0x01 1 0x1a 0
        ∷ code 0x16 1 0x1a 1
        ∷ code 0x01 1 0x1b 0
        ∷ code 0x16 1 0x1b 1
        ∷ [])
    ∷ []

abbrev pub decode_codes_240 : List (List DecodeCode)
decode_codes_240 =
    (code 0x02 1 0x13 0
      ∷ code 0x09 1 0x13 0
      ∷ code 0x17 1 0x13 0
      ∷ code 0x28 1 0x13 1
      ∷ code 0x02 1 0x14 0
      ∷ code 0x09 1 0x14 0
      ∷ code 0x17 1 0x14 0
      ∷ code 0x28 1 0x14 1
      ∷ code 0x02 1 0x15 0
      ∷ code 0x09 1 0x15 0
      ∷ code 0x17 1 0x15 0
      ∷ code 0x28 1 0x15 1
      ∷ code 0x02 1 0x17 0
      ∷ code 0x09 1 0x17 0
      ∷ code 0x17 1 0x17 0
      ∷ code 0x28 1 0x17 1
      ∷ [])
    ∷ (code 0x03 1 0x13 0
        ∷ code 0x06 1 0x13 0
        ∷ code 0x0a 1 0x13 0
        ∷ code 0x0f 1 0x13 0
        ∷ code 0x18 1 0x13 0
        ∷ code 0x1f 1 0x13 0
        ∷ code 0x29 1 0x13 0
        ∷ code 0x38 1 0x13 1
        ∷ code 0x03 1 0x14 0
        ∷ code 0x06 1 0x14 0
        ∷ code 0x0a 1 0x14 0
        ∷ code 0x0f 1 0x14 0
        ∷ code 0x18 1 0x14 0
        ∷ code 0x1f 1 0x14 0
        ∷ code 0x29 1 0x14 0
        ∷ code 0x38 1 0x14 1
        ∷ [])
    ∷ (code 0x03 1 0x15 0
        ∷ code 0x06 1 0x15 0
        ∷ code 0x0a 1 0x15 0
        ∷ code 0x0f 1 0x15 0
        ∷ code 0x18 1 0x15 0
        ∷ code 0x1f 1 0x15 0
        ∷ code 0x29 1 0x15 0
        ∷ code 0x38 1 0x15 1
        ∷ code 0x03 1 0x17 0
        ∷ code 0x06 1 0x17 0
        ∷ code 0x0a 1 0x17 0
        ∷ code 0x0f 1 0x17 0
        ∷ code 0x18 1 0x17 0
        ∷ code 0x1f 1 0x17 0
        ∷ code 0x29 1 0x17 0
        ∷ code 0x38 1 0x17 1
        ∷ [])
    ∷ (code 0x02 1 0x18 0
        ∷ code 0x09 1 0x18 0
        ∷ code 0x17 1 0x18 0
        ∷ code 0x28 1 0x18 1
        ∷ code 0x02 1 0x19 0
        ∷ code 0x09 1 0x19 0
        ∷ code 0x17 1 0x19 0
        ∷ code 0x28 1 0x19 1
        ∷ code 0x02 1 0x1a 0
        ∷ code 0x09 1 0x1a 0
        ∷ code 0x17 1 0x1a 0
        ∷ code 0x28 1 0x1a 1
        ∷ code 0x02 1 0x1b 0
        ∷ code 0x09 1 0x1b 0
        ∷ code 0x17 1 0x1b 0
        ∷ code 0x28 1 0x1b 1
        ∷ [])
    ∷ (code 0x03 1 0x18 0
        ∷ code 0x06 1 0x18 0
        ∷ code 0x0a 1 0x18 0
        ∷ code 0x0f 1 0x18 0
        ∷ code 0x18 1 0x18 0
        ∷ code 0x1f 1 0x18 0
        ∷ code 0x29 1 0x18 0
        ∷ code 0x38 1 0x18 1
        ∷ code 0x03 1 0x19 0
        ∷ code 0x06 1 0x19 0
        ∷ code 0x0a 1 0x19 0
        ∷ code 0x0f 1 0x19 0
        ∷ code 0x18 1 0x19 0
        ∷ code 0x1f 1 0x19 0
        ∷ code 0x29 1 0x19 0
        ∷ code 0x38 1 0x19 1
        ∷ [])
    ∷ (code 0x03 1 0x1a 0
        ∷ code 0x06 1 0x1a 0
        ∷ code 0x0a 1 0x1a 0
        ∷ code 0x0f 1 0x1a 0
        ∷ code 0x18 1 0x1a 0
        ∷ code 0x1f 1 0x1a 0
        ∷ code 0x29 1 0x1a 0
        ∷ code 0x38 1 0x1a 1
        ∷ code 0x03 1 0x1b 0
        ∷ code 0x06 1 0x1b 0
        ∷ code 0x0a 1 0x1b 0
        ∷ code 0x0f 1 0x1b 0
        ∷ code 0x18 1 0x1b 0
        ∷ code 0x1f 1 0x1b 0
        ∷ code 0x29 1 0x1b 0
        ∷ code 0x38 1 0x1b 1
        ∷ [])
    ∷ (code 0x01 1 0x1c 0
        ∷ code 0x16 1 0x1c 1
        ∷ code 0x01 1 0x1d 0
        ∷ code 0x16 1 0x1d 1
        ∷ code 0x01 1 0x1e 0
        ∷ code 0x16 1 0x1e 1
        ∷ code 0x01 1 0x1f 0
        ∷ code 0x16 1 0x1f 1
        ∷ code 0x01 1 0x7f 0
        ∷ code 0x16 1 0x7f 1
        ∷ code 0x01 1 0xdc 0
        ∷ code 0x16 1 0xdc 1
        ∷ code 0x01 1 0xf9 0
        ∷ code 0x16 1 0xf9 1
        ∷ code 0xfe 0 0x00 0
        ∷ code 0xff 0 0x00 1
        ∷ [])
    ∷ (code 0x02 1 0x1c 0
        ∷ code 0x09 1 0x1c 0
        ∷ code 0x17 1 0x1c 0
        ∷ code 0x28 1 0x1c 1
        ∷ code 0x02 1 0x1d 0
        ∷ code 0x09 1 0x1d 0
        ∷ code 0x17 1 0x1d 0
        ∷ code 0x28 1 0x1d 1
        ∷ code 0x02 1 0x1e 0
        ∷ code 0x09 1 0x1e 0
        ∷ code 0x17 1 0x1e 0
        ∷ code 0x28 1 0x1e 1
        ∷ code 0x02 1 0x1f 0
        ∷ code 0x09 1 0x1f 0
        ∷ code 0x17 1 0x1f 0
        ∷ code 0x28 1 0x1f 1
        ∷ [])
    ∷ []

abbrev pub decode_codes_248 : List (List DecodeCode)
decode_codes_248 =
    (code 0x03 1 0x1c 0
      ∷ code 0x06 1 0x1c 0
      ∷ code 0x0a 1 0x1c 0
      ∷ code 0x0f 1 0x1c 0
      ∷ code 0x18 1 0x1c 0
      ∷ code 0x1f 1 0x1c 0
      ∷ code 0x29 1 0x1c 0
      ∷ code 0x38 1 0x1c 1
      ∷ code 0x03 1 0x1d 0
      ∷ code 0x06 1 0x1d 0
      ∷ code 0x0a 1 0x1d 0
      ∷ code 0x0f 1 0x1d 0
      ∷ code 0x18 1 0x1d 0
      ∷ code 0x1f 1 0x1d 0
      ∷ code 0x29 1 0x1d 0
      ∷ code 0x38 1 0x1d 1
      ∷ [])
    ∷ (code 0x03 1 0x1e 0
        ∷ code 0x06 1 0x1e 0
        ∷ code 0x0a 1 0x1e 0
        ∷ code 0x0f 1 0x1e 0
        ∷ code 0x18 1 0x1e 0
        ∷ code 0x1f 1 0x1e 0
        ∷ code 0x29 1 0x1e 0
        ∷ code 0x38 1 0x1e 1
        ∷ code 0x03 1 0x1f 0
        ∷ code 0x06 1 0x1f 0
        ∷ code 0x0a 1 0x1f 0
        ∷ code 0x0f 1 0x1f 0
        ∷ code 0x18 1 0x1f 0
        ∷ code 0x1f 1 0x1f 0
        ∷ code 0x29 1 0x1f 0
        ∷ code 0x38 1 0x1f 1
        ∷ [])
    ∷ (code 0x02 1 0x7f 0
        ∷ code 0x09 1 0x7f 0
        ∷ code 0x17 1 0x7f 0
        ∷ code 0x28 1 0x7f 1
        ∷ code 0x02 1 0xdc 0
        ∷ code 0x09 1 0xdc 0
        ∷ code 0x17 1 0xdc 0
        ∷ code 0x28 1 0xdc 1
        ∷ code 0x02 1 0xf9 0
        ∷ code 0x09 1 0xf9 0
        ∷ code 0x17 1 0xf9 0
        ∷ code 0x28 1 0xf9 1
        ∷ code 0x00 1 0x0a 1
        ∷ code 0x00 1 0x0d 1
        ∷ code 0x00 1 0x16 1
        ∷ code 0xfa 0 0x00 0
        ∷ [])
    ∷ (code 0x03 1 0x7f 0
        ∷ code 0x06 1 0x7f 0
        ∷ code 0x0a 1 0x7f 0
        ∷ code 0x0f 1 0x7f 0
        ∷ code 0x18 1 0x7f 0
        ∷ code 0x1f 1 0x7f 0
        ∷ code 0x29 1 0x7f 0
        ∷ code 0x38 1 0x7f 1
        ∷ code 0x03 1 0xdc 0
        ∷ code 0x06 1 0xdc 0
        ∷ code 0x0a 1 0xdc 0
        ∷ code 0x0f 1 0xdc 0
        ∷ code 0x18 1 0xdc 0
        ∷ code 0x1f 1 0xdc 0
        ∷ code 0x29 1 0xdc 0
        ∷ code 0x38 1 0xdc 1
        ∷ [])
    ∷ (code 0x03 1 0xf9 0
        ∷ code 0x06 1 0xf9 0
        ∷ code 0x0a 1 0xf9 0
        ∷ code 0x0f 1 0xf9 0
        ∷ code 0x18 1 0xf9 0
        ∷ code 0x1f 1 0xf9 0
        ∷ code 0x29 1 0xf9 0
        ∷ code 0x38 1 0xf9 1
        ∷ code 0x01 1 0x0a 0
        ∷ code 0x16 1 0x0a 1
        ∷ code 0x01 1 0x0d 0
        ∷ code 0x16 1 0x0d 1
        ∷ code 0x01 1 0x16 0
        ∷ code 0x16 1 0x16 1
        ∷ code 0xfc 0 0x00 0
        ∷ code 0xfc 0 0x00 0
        ∷ [])
    ∷ (code 0x02 1 0x0a 0
        ∷ code 0x09 1 0x0a 0
        ∷ code 0x17 1 0x0a 0
        ∷ code 0x28 1 0x0a 1
        ∷ code 0x02 1 0x0d 0
        ∷ code 0x09 1 0x0d 0
        ∷ code 0x17 1 0x0d 0
        ∷ code 0x28 1 0x0d 1
        ∷ code 0x02 1 0x16 0
        ∷ code 0x09 1 0x16 0
        ∷ code 0x17 1 0x16 0
        ∷ code 0x28 1 0x16 1
        ∷ code 0xfd 0 0x00 0
        ∷ code 0xfd 0 0x00 0
        ∷ code 0xfd 0 0x00 0
        ∷ code 0xfd 0 0x00 0
        ∷ [])
    ∷ (code 0x03 1 0x0a 0
        ∷ code 0x06 1 0x0a 0
        ∷ code 0x0a 1 0x0a 0
        ∷ code 0x0f 1 0x0a 0
        ∷ code 0x18 1 0x0a 0
        ∷ code 0x1f 1 0x0a 0
        ∷ code 0x29 1 0x0a 0
        ∷ code 0x38 1 0x0a 1
        ∷ code 0x03 1 0x0d 0
        ∷ code 0x06 1 0x0d 0
        ∷ code 0x0a 1 0x0d 0
        ∷ code 0x0f 1 0x0d 0
        ∷ code 0x18 1 0x0d 0
        ∷ code 0x1f 1 0x0d 0
        ∷ code 0x29 1 0x0d 0
        ∷ code 0x38 1 0x0d 1
        ∷ [])
    ∷ (code 0x03 1 0x16 0
        ∷ code 0x06 1 0x16 0
        ∷ code 0x0a 1 0x16 0
        ∷ code 0x0f 1 0x16 0
        ∷ code 0x18 1 0x16 0
        ∷ code 0x1f 1 0x16 0
        ∷ code 0x29 1 0x16 0
        ∷ code 0x38 1 0x16 1
        ∷ code 0xff 0 0x00 0
        ∷ code 0xff 0 0x00 0
        ∷ code 0xff 0 0x00 0
        ∷ code 0xff 0 0x00 0
        ∷ code 0xff 0 0x00 0
        ∷ code 0xff 0 0x00 0
        ∷ code 0xff 0 0x00 0
        ∷ code 0xff 0 0x00 0
        ∷ [])
    ∷ []
