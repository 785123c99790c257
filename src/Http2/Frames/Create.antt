-- ===== src/Http2/Frames/Create.antt =====
-- src/KHttp2WriteBuffer.cpp: a header block that fits in one frame, and one that does not.
use Prim.Native.Nat.{bit_or}
use khttpd.Http2.Windows.{size_of}
use khttpd.Http2.Frames.{FrameHeader, clear_first, create, frames_from}
use khttpd.Base.{
  true, ap, if◌then◌else◌, Bool-cases, inl, inr, ap₂, append_assoc, ◌∙◌, false, ltb, append-nil,
  sym, arith, ◌++◌, length, ◌≡◌, ◌≤◌, ◌+◌, ◌<◌, Bytes, Bool, List, ℕ, refl, [], ◌∷◌,
}

one_frame :
    (max sid : ℕ) (junk : ℕ → ℕ) (k type flags used : ℕ) (taken cs : List Bytes)
    → used + size_of cs ≤ max
    → frames_from max sid junk k type flags used taken cs
      ≡ (
        record { size = used + size_of cs; type = type; flags = bit_or flags 4; sid = sid },
        taken ++ cs,
      )
        ∷ []
unfolding frames_from
one_frame max sid junk k type flags used taken [] h =
    ap₂ (λ n x. (record { size = n; type = type; flags = bit_or flags 4; sid = sid }, x) ∷ [])
      (omega arith) (sym (append-nil taken))
one_frame max sid junk k type flags used taken (c ∷ cs) h =
    let fits : ltb max (used + length c) ≡ false = ground arith in
    let sum : used + length c + size_of cs ≡ used + (length c + size_of cs) = omega arith in
    rw fits (
      one_frame max sid junk k type flags (used + length c) (taken ++ c ∷ []) cs (omega arith)
      ∙ ap₂ (λ n x. (record { size = n; type = type; flags = bit_or flags 4; sid = sid }, x) ∷ [])
          sum (append_assoc taken (c ∷ []) cs))

-- A header block within the size of a frame goes out as one HEADERS frame with END_HEADERS and all
-- of the block, with END_STREAM if there is no body.
pub create_one :
    (sid max : ℕ) (no_body : Bool) (junk : ℕ → ℕ) (cs : List Bytes)
    → size_of cs ≤ max
    → create sid no_body max junk cs
      ≡ (record { size = size_of cs; type = 1; flags = if no_body then 5 else 4; sid = sid }, cs)
        ∷ []
unfolding create clear_first
create_one sid max true junk cs h =
    ap clear_first (one_frame max sid junk 0 1 1 0 [] cs (omega arith))
    ∙ ap (λ n. (record { size = n; type = 1; flags = 5; sid = sid }, cs) ∷ []) (omega arith)
create_one sid max false junk cs h =
    ap clear_first (one_frame max sid junk 0 1 0 0 [] cs (omega arith))
    ∙ ap (λ n. (record { size = n; type = 1; flags = 4; sid = sid }, cs) ∷ []) (omega arith)

some_frame :
    (max sid : ℕ) (junk : ℕ → ℕ) (k type flags used : ℕ) (taken cs : List Bytes)
    → (f : FrameHeader × List Bytes) × (fs : List (FrameHeader × List Bytes)) × (frames_from max sid
          junk k type flags used taken cs
        ≡ f ∷ fs)
unfolding frames_from
some_frame max sid junk k type flags used taken [] = (_, [], refl)
some_frame max sid junk k type flags used taken (c ∷ cs) =
    elim (Bool-cases (ltb max (used + length c))) [
      | inl e ↦ rw e (_, _, refl)
      | inr e ↦ rw e (some_frame max sid junk k type flags (used + length c) (taken ++ c ∷ []) cs)
    ]

two_frames :
    (max sid : ℕ) (junk : ℕ → ℕ) (k type flags used : ℕ) (taken cs : List Bytes)
    → used ≤ max
    → max < used + size_of cs
    → (f : FrameHeader × List Bytes) × (g : FrameHeader × List Bytes) × (fs : List
        (FrameHeader × List Bytes))
      × (frames_from max sid junk k type flags used taken cs ≡ f ∷ g ∷ fs)
unfolding frames_from
two_frames max sid junk k type flags used taken [] u h = absurd (omega arith)
two_frames max sid junk k type flags used taken (c ∷ cs) u h =
    elim (Bool-cases (ltb max (used + length c))) [
      | inl e ↦
          let d = some_frame max sid junk (k + 1) 9 (junk k) (length c) (c ∷ []) cs in
          rw e (
            _,
            d.0,
            d.1,
            ap (◌∷◌ (record { size = used; type = type; flags = flags; sid = sid }, taken)) d.2,
          )
      | inr e ↦ rw e (
          two_frames max sid junk k type flags (used + length c) (taken ++ c ∷ []) cs (ground arith)
            (omega arith))
    ]

-- A header block above the size of a frame goes out in two or more frames, of which the first has a
-- header of zeros: a DATA frame of no bytes on the stream 0.
pub create_cleared :
    (sid max : ℕ) (no_body : Bool) (junk : ℕ → ℕ) (cs : List Bytes)
    → max < size_of cs
    → (taken : List Bytes) × (g : FrameHeader × List Bytes) × (fs : List (FrameHeader × List Bytes))
      × (create sid no_body max junk cs
          ≡ (record { size = 0; type = 0; flags = 0; sid = 0 }, taken) ∷ g ∷ fs)
unfolding create clear_first
create_cleared sid max no_body junk cs h =
    let d =
      two_frames max sid junk 0 1 (if no_body then 1 else 0) 0 [] cs (omega arith) (omega arith) in
    (d.0.1, d.1, d.2, ap clear_first d.3)
