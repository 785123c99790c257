-- ===== src/Huffman/Tree/Paths.antt =====
-- The bits that the decoder has read since the last symbol, for each state of its automaton: a 1
-- and then those bits, as a binary number.
use khttpd.Base.{ℕ, List, [], ◌∷◌}

unfoldable pub path_keys : List ℕ
path_keys =
    0x1 ∷ 0x2 ∷ 0x4 ∷ 0x8 ∷ 0x10 ∷ 0x11 ∷ 0x9 ∷ 0x12 ∷ 0x13 ∷ 0x5 ∷ 0xa ∷ 0x14 ∷ 0x15 ∷ 0x2a ∷ 0x2b
    ∷ 0xb ∷ 0x16 ∷ 0x2c ∷ 0x2d ∷ 0x17 ∷ 0x2e ∷ 0x2f ∷ 0x3 ∷ 0x6 ∷ 0xc ∷ 0x18 ∷ 0x30 ∷ 0x31 ∷ 0x19
    ∷ 0x32 ∷ 0x33 ∷ 0xd ∷ 0x1a ∷ 0x34 ∷ 0x35 ∷ 0x1b ∷ 0x36 ∷ 0x37 ∷ 0x6e ∷ 0x6f ∷ 0x7 ∷ 0xe ∷ 0x1c
    ∷ 0x38 ∷ 0x70 ∷ 0x71 ∷ 0x39 ∷ 0x72 ∷ 0x73 ∷ 0x1d ∷ 0x3a ∷ 0x74 ∷ 0x75 ∷ 0x3b ∷ 0x76 ∷ 0x77 ∷ 0xf
    ∷ 0x1e ∷ 0x3c ∷ 0x78 ∷ 0x79 ∷ 0x3d ∷ 0x7a ∷ 0x7b ∷ 0x1f ∷ 0x3e ∷ 0x7c ∷ 0x7d ∷ 0x3f ∷ 0x7e
    ∷ 0xfc ∷ 0xfd ∷ 0x7f ∷ 0xfe ∷ 0xff ∷ 0x1fe ∷ 0x3fc ∷ 0x3fd ∷ 0x1ff ∷ 0x3fe ∷ 0x7fd ∷ 0x3ff
    ∷ 0x7fe ∷ 0xffd ∷ 0x7ff ∷ 0xffe ∷ 0x1ffc ∷ 0x1ffd ∷ 0xfff ∷ 0x1ffe ∷ 0x1fff ∷ 0x3ffe ∷ 0x3fff
    ∷ 0x7ffe ∷ 0x7fff ∷ 0xffff ∷ 0x1fffe ∷ 0x3fffc ∷ 0x7fff8 ∷ 0x7fff9 ∷ 0xffff3 ∷ 0x3fffd ∷ 0x7fffa
    ∷ 0xffff4 ∷ 0xffff5 ∷ 0x7fffb ∷ 0xffff6 ∷ 0xffff7 ∷ 0x1fffee ∷ 0x1fffef ∷ 0x1ffff ∷ 0x3fffe
    ∷ 0x7fffc ∷ 0xffff8 ∷ 0x1ffff0 ∷ 0x1ffff1 ∷ 0xffff9 ∷ 0x1ffff2 ∷ 0x1ffff3 ∷ 0x7fffd ∷ 0xffffa
    ∷ 0x1ffff4 ∷ 0x3fffe9 ∷ 0x1ffff5 ∷ 0x3fffea ∷ 0x3fffeb ∷ 0xffffb ∷ 0x1ffff6 ∷ 0x3fffec
    ∷ 0x3fffed ∷ 0x1ffff7 ∷ 0x3fffee ∷ 0x3fffef ∷ 0x3ffff ∷ 0x7fffe ∷ 0xffffc ∷ 0x1ffff8 ∷ 0x3ffff0
    ∷ 0x3ffff1 ∷ 0x1ffff9 ∷ 0x3ffff2 ∷ 0x3ffff3 ∷ 0xffffd ∷ 0x1ffffa ∷ 0x3ffff4 ∷ 0x3ffff5
    ∷ 0x1ffffb ∷ 0x3ffff6 ∷ 0x7fffec ∷ 0x7fffed ∷ 0x3ffff7 ∷ 0x7fffee ∷ 0x7fffef ∷ 0x7ffff ∷ 0xffffe
    ∷ 0x1ffffc ∷ 0x3ffff8 ∷ 0x7ffff0 ∷ 0x7ffff1 ∷ 0x3ffff9 ∷ 0x7ffff2 ∷ 0x7ffff3 ∷ 0x1ffffd
    ∷ 0x3ffffa ∷ 0x7ffff4 ∷ 0x7ffff5 ∷ 0x3ffffb ∷ 0x7ffff6 ∷ 0x7ffff7 ∷ 0xfffff ∷ 0x1ffffe
    ∷ 0x3ffffc ∷ 0x7ffff8 ∷ 0x7ffff9 ∷ 0x3ffffd ∷ 0x7ffffa ∷ 0xfffff5 ∷ 0x7ffffb ∷ 0xfffff6
    ∷ 0xfffff7 ∷ 0x1fffff ∷ 0x3ffffe ∷ 0x7ffffc ∷ 0xfffff8 ∷ 0xfffff9 ∷ 0x7ffffd ∷ 0xfffffa
    ∷ 0xfffffb ∷ 0x1fffff6 ∷ 0x1fffff7 ∷ 0x3fffff ∷ 0x7ffffe ∷ 0xfffffc ∷ 0x1fffff8 ∷ 0x3fffff0
    ∷ 0x3fffff1 ∷ 0x1fffff9 ∷ 0x3fffff2 ∷ 0x3fffff3 ∷ 0xfffffd ∷ 0x1fffffa ∷ 0x3fffff4 ∷ 0x3fffff5
    ∷ 0x1fffffb ∷ 0x3fffff6 ∷ 0x3fffff7 ∷ 0x7ffffef ∷ 0x7fffff ∷ 0xfffffe ∷ 0x1fffffc ∷ 0x3fffff8
    ∷ 0x7fffff0 ∷ 0x7fffff1 ∷ 0x3fffff9 ∷ 0x7fffff2 ∷ 0x7fffff3 ∷ 0x1fffffd ∷ 0x3fffffa ∷ 0x7fffff4
    ∷ 0x7fffff5 ∷ 0x3fffffb ∷ 0x7fffff6 ∷ 0x7fffff7 ∷ 0xffffff ∷ 0x1fffffe ∷ 0x3fffffc ∷ 0x7fffff8
    ∷ 0xffffff1 ∷ 0x7fffff9 ∷ 0xffffff2 ∷ 0xffffff3 ∷ 0x3fffffd ∷ 0x7fffffa ∷ 0xffffff4 ∷ 0xffffff5
    ∷ 0x7fffffb ∷ 0xffffff6 ∷ 0xffffff7 ∷ 0x1ffffff ∷ 0x3fffffe ∷ 0x7fffffc ∷ 0xffffff8 ∷ 0xffffff9
    ∷ 0x7fffffd ∷ 0xffffffa ∷ 0xffffffb ∷ 0x3ffffff ∷ 0x7fffffe ∷ 0xffffffc ∷ 0xffffffd ∷ 0x7ffffff
    ∷ 0xffffffe ∷ 0xfffffff ∷ 0x1fffffff ∷ 0x3ffffffe ∷ 0x3fffffff ∷ []
