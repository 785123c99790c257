-- ===== src/Huffman/Decode.antt =====
-- src/KHuffDecode.cpp: the decoder, an automaton that reads four bits at a time. Its state is a byte
-- that outlives a call, so that a text may arrive in parts. `dst` is the list of bytes written.
pub mod Codes0
pub mod Codes1
pub mod Codes2
pub mod Codes3
pub mod Codes4
pub mod Codes5
pub mod Codes6
pub mod Codes7
pub mod Table
pub mod Parts
pub mod Refines
pub mod Room
pub mod RoundTrip
pub mod Padding
pub mod Sound
pub mod Spelled
use khttpd.Base.{
  ℕ, ◌/◌, ◌%◌, Bool, [], ◌∷◌, ◌++◌, Option, none, some, ◌==◌, if◌then◌else◌, Bytes, get_or, ◌>>=◌,
}
use khttpd.Huffman.Code.{DecodeCode, code}
use Table.{decode_codes}

-- kgl_http_v2_huff_decode_codes[state][bits]; the state is a byte and `bits` half of one, so no
-- index is out of range.
unfoldable pub lookup_code : ℕ → ℕ → DecodeCode
unfolding decode_codes
lookup_code state bits = get_or (get_or decode_codes state []) bits (code 0 0 0 0)

-- The variables that the decoder writes: `*state`, `ending` and what is behind `*dst`.
pub record Progress : Type 0 where
  pub state : ℕ
  pub ending : ℕ
  pub dst : Bytes

unfoldable pub follow : Progress → DecodeCode → Option Progress
follow p (code next emit sym ending) =
    if next == p.state
    then none
    else some (record {
      state = next;
      ending = ending;
      dst = if emit == 0 then p.dst else p.dst ++ sym ∷ [];
    })

-- `kgl_http_v2_huff_decode_bits`; none where it returns false.
unfoldable pub huff_decode_bits : Progress → ℕ → Option Progress
unfolding follow
huff_decode_bits p bits = follow p (lookup_code p.state bits)

-- The loop over the bytes of `src`.
unfoldable pub decode_bytes : Progress → Bytes → Option Progress
unfolding huff_decode_bits
decode_bytes p [] = some p
decode_bytes p (ch ∷ src) = do
  q ← huff_decode_bits p (ch / 16)
  r ← huff_decode_bits q (ch % 16)
  decode_bytes r src

-- The check at the end of the last part, which also resets the state.
unfoldable pub finish_last : Bool → Option Progress → Option (ℕ × Bytes)
finish_last last none = none
finish_last last (some p) =
    if last then (if p.ending == 0 then none else some (0, p.dst)) else some (p.state, p.dst)

-- `kgl_http_v2_huff_decode`: the new state and `dst`, none where it returns false.
unfoldable pub huff_decode : ℕ → Bytes → Bytes → Bool → Option (ℕ × Bytes)
unfolding decode_bytes finish_last
huff_decode state src dst last =
    finish_last last (decode_bytes (record { state = state; ending = 1; dst = dst }) src)
