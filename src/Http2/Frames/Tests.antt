-- ===== src/Http2/Frames/Tests.antt =====
-- Runs of the frames, and their theorems at concrete inputs.
use khttpd.Http2.Table.Runs.{zeroed}
use khttpd.Http2.Headers.Reader.{head}
use khttpd.Http2.Frames.Create.{create_one, create_cleared}
use khttpd.Http2.Frames.Chunks.{write_chunks-joined, insert_chunk, IsSized, write_chunks}
use khttpd.Http2.Windows.Payload.{joined}
use khttpd.Http2.Frames.{network_order, Reader, create, FrameHeader, header_bytes}
use khttpd.Base.{false, none, arith, codes, ◌≡◌, Bytes, true, List, refl, [], ◌∷◌}

abbrev some_header : FrameHeader
some_header = record { size = 300; type = 1; flags = 5; sid = 7 }

some_bytes : header_bytes some_header ≡ 0 ∷ 1 ∷ 44 ∷ 1 ∷ 5 ∷ 0 ∷ 0 ∷ 0 ∷ 7 ∷ []
unfolding header_bytes network_order
some_bytes = refl

abbrev some_reader : Reader
some_reader = record {
  sid = 0;
  len = 0;
  padding = 0;
  flags = 0;
  parse_name = false;
  parse_value = false;
  index = false;
  field_state = 0;
  field_rest = 0;
  field = none;
  name = none;
  val = none;
  header_length = 0;
  buffer = [];
  handler = head;
  stream = none;
  released = none;
  hpack = zeroed;
}

abbrev three_chunks : List Bytes
three_chunks = codes "ab" ∷ codes "cd" ∷ codes "e" ∷ []

create_one_example :
    create 7 true 8 (λ k. 0) three_chunks
    ≡ (record { size = 5; type = 1; flags = 5; sid = 7 }, three_chunks) ∷ []
create_one_example = create_one 7 8 true (λ k. 0) three_chunks (omega arith)

create_cleared_example :
    (taken : List Bytes) × (g : FrameHeader × List Bytes) × (fs : List (FrameHeader × List Bytes))
    × (create 7 true 4 (λ k. 0) three_chunks
        ≡ (record { size = 0; type = 0; flags = 0; sid = 0 }, taken) ∷ g ∷ fs)
create_cleared_example = create_cleared 7 4 true (λ k. 0) three_chunks (omega arith)

write_chunks-joined_example :
    (joined (write_chunks three_chunks (codes "xyz")) ≡ codes "abcdexyz")
    × IsSized (write_chunks three_chunks (codes "xyz"))
    × (joined (insert_chunk three_chunks (codes "h")) ≡ codes "habcde")
    × IsSized (insert_chunk three_chunks (codes "h"))
write_chunks-joined_example =
    write_chunks-joined three_chunks (codes "xyz") (codes "h")
      (omega arith, (omega arith, (omega arith, tt))) (omega arith)
