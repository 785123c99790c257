-- ===== src/Huffman/Decode/Table.antt =====
-- The whole table `kgl_http_v2_huff_decode_codes`, joined from its parts.
use khttpd.Base.{List, ◌++◌}
use khttpd.Huffman.Code.{DecodeCode}
use khttpd.Huffman.Decode.Codes0.{decode_codes_0, decode_codes_8, decode_codes_16, decode_codes_24}
use khttpd.Huffman.Decode.Codes1.{
  decode_codes_32, decode_codes_40, decode_codes_48, decode_codes_56,
}
use khttpd.Huffman.Decode.Codes2.{
  decode_codes_64, decode_codes_72, decode_codes_80, decode_codes_88,
}
use khttpd.Huffman.Decode.Codes3.{
  decode_codes_96, decode_codes_104, decode_codes_112, decode_codes_120,
}
use khttpd.Huffman.Decode.Codes4.{
  decode_codes_128, decode_codes_136, decode_codes_144, decode_codes_152,
}
use khttpd.Huffman.Decode.Codes5.{
  decode_codes_160, decode_codes_168, decode_codes_176, decode_codes_184,
}
use khttpd.Huffman.Decode.Codes6.{
  decode_codes_192, decode_codes_200, decode_codes_208, decode_codes_216,
}
use khttpd.Huffman.Decode.Codes7.{
  decode_codes_224, decode_codes_232, decode_codes_240, decode_codes_248,
}

unfoldable pub decode_codes : List (List DecodeCode)
decode_codes =
    (decode_codes_0
      ++ (decode_codes_8
          ++ (decode_codes_16
              ++ (decode_codes_24
                  ++ (decode_codes_32
                      ++ (decode_codes_40
                          ++ (decode_codes_48
                              ++ (decode_codes_56
                                  ++ (decode_codes_64
                                      ++ (decode_codes_72
                                          ++ (decode_codes_80
                                              ++ (decode_codes_88
                                                  ++ (decode_codes_96
                                                      ++ (decode_codes_104
                                                          ++ (decode_codes_112
                                                            ++ (decode_codes_120
                                                            ++ (decode_codes_128
                                                            ++ (decode_codes_136
                                                            ++ (decode_codes_144
                                                            ++ (decode_codes_152
                                                            ++ (decode_codes_160
                                                            ++ (decode_codes_168
                                                            ++ (decode_codes_176
                                                            ++ (decode_codes_184
                                                            ++ (decode_codes_192
                                                            ++ (decode_codes_200
                                                            ++ (decode_codes_208
                                                            ++ (decode_codes_216
                                                            ++ (decode_codes_224
                                                            ++ (decode_codes_232
                                                            ++ (decode_codes_240
                                                            ++ decode_codes_248)))))))))))))))))))))))))))))))
