-- ===== src/Http2/Integers/Lengths.antt =====
-- The length of a text as an HPACK integer with a prefix of seven bits: its octets, of which the
-- first has its upper bit, the mark of Huffman's code, off.
use native.Mathlib.Decide.{dec_lt}
use khttpd.Base.{
  ℕ, suc, ◌+◌, ◌-◌, ◌^◌, ◌≤◌, ◌<◌, ◌≡◌, refl, ap, ◌∙◌, some, [], ◌∷◌, ◌++◌, arith, Bytes, length,
}
use khttpd.Http2.Integers.{value, last_octet, parse_int, write_int}
use khttpd.Http2.Integers.RoundTrip.{
  Written, Written-all, write_int_short, write_int_long, parse_int_short, parse_int_long,
  last_octet_value,
}

pub record TextLength (n : ℕ) : Type 0 where
  pub first : ℕ
  pub more : Bytes
  pub written : write_int 0 7 n ≡ some (first ∷ more)
  pub low : first < 128
  pub short : length more ≤ 3
  pub reads :
      (len : ℕ) (rest : Bytes)
      → suc (length more) ≤ len
      → parse_int 7 len (first ∷ (more ++ rest)) ≡ value n (len - suc (length more)) rest

-- The octets behind a full prefix.
long_length : (n : ℕ) → 127 ≤ n → Written 2 10 (n - 127) → TextLength n
long_length n h w = record {
  first = 127;
  more = w.os;
  written = write_int_long 7 0 n w.os h w.written;
  low = omega arith;
  short = w.short;
  reads = λ len rest le.
      parse_int_long 7 127 len (w.os ++ rest) refl
      ∙ w.reads 127 1 1 len rest
      ∙ ap (λ (x : ℕ). last_octet x (1 + length w.os) len rest) (omega arith)
      ∙ last_octet_value n (1 + length w.os) len rest (omega arith)
      ∙ ap (λ (x : ℕ). value n (len - x) rest) (omega arith);
}

pub TextLength-all : (n : ℕ) → n < 127 + 2 ^ 21 → TextLength n
TextLength-all n h = elim (dec_lt n 127) [
  | yes small ↦ record {
    first = 0 + n;
    more = [];
    written = write_int_short 7 0 n small;
    low = omega arith;
    short = omega arith;
    reads = λ len rest le.
        parse_int_short 7 (0 + n) n len rest (omega arith) small (omega arith)
        ∙ ap (λ (x : ℕ). value n (len - x) rest) (omega arith);
  }
  | no large ↦ long_length n (omega arith) (Written-all 2 10 (n - 127) (omega arith) (omega arith))
]
