-- ===== src/Http2/Frames/Chunks.antt =====
-- include/KHttp2WriteBuffer.h: the chunks of a `KHttp2HeaderFrame`, `write` and `insert`. The list of
-- chunks is empty where `head` is NULL, and its last chunk is `last`.
use khttpd.Http2.Windows.Payload.{joined}
use khttpd.Base.{
  length-append, ◌≢◌, append_assoc, length-drop, length-take, take-append-drop, arith, ◌<◌, ◌==◌,
  sym, ◌∙◌, ◌≡◌, ◌-◌, append-nil, ◌++◌, drop, ◌≤◌, ap, length, take, All, Bytes, List, ℕ,
  if◌then◌else◌, Bool-cases, inl, inr, refl, [], ◌∷◌, zero, suc,
}

-- `alloc_buffer` and the copy into it: as much of the text as the last chunk, or a new one, takes;
-- and the rest.
unfoldable pub fill : List Bytes → Bytes → List Bytes × Bytes
fill [] text = (take 4096 text ∷ [], drop 4096 text)
fill (c ∷ []) text =
    let left = 4096 - length c in
    if length c == 4096
    then (c ∷ take 4096 text ∷ [], drop 4096 text)
    else ((c ++ take left text) ∷ [], drop left text)
fill (c ∷ d ∷ cs) text = let r = fill (d ∷ cs) text in (c ∷ r.0, r.1)

-- `write`, with one round of fuel for each byte of the text
unfoldable pub write_rounds : ℕ → List Bytes → Bytes → List Bytes
unfolding fill
write_rounds fuel cs [] = cs
write_rounds zero cs (b ∷ bs) = cs
write_rounds (suc fuel) cs (b ∷ bs) = let r = fill cs (b ∷ bs) in write_rounds fuel r.0 r.1

unfoldable pub write_chunks : List Bytes → Bytes → List Bytes
unfolding write_rounds
write_chunks cs text = write_rounds (length text) cs text

unfoldable pub insert_chunk : List Bytes → Bytes → List Bytes
unfolding write_chunks
insert_chunk [] text = write_chunks [] text
insert_chunk (c ∷ cs) text = text ∷ c ∷ cs

-- No chunk is above its size.
abbrev pub IsSized : List Bytes → Type 0
IsSized cs = All (λ c. length c ≤ 4096) cs

-- What `fill` keeps: the bytes, the size of the chunks, and that the rest gets shorter.
record Filled (cs : List Bytes) (text : Bytes) (r : List Bytes × Bytes) : Type 0 where
  bytes : joined r.0 ++ r.1 ≡ joined cs ++ text
  sized : IsSized r.0
  shorter : 0 < length text → length r.1 < length text

Filled-new :
    (c text : Bytes)
    → IsSized (c ∷ [])
    → Filled (c ∷ []) text (c ∷ take 4096 text ∷ [], drop 4096 text)
Filled-new c text h =
    let nil = append-nil (take 4096 text) in
    record {
      bytes =
          append_assoc c (take 4096 text ++ []) (drop 4096 text)
          ∙ ap (λ x. c ++ x) (ap (λ x. x ++ drop 4096 text) nil ∙ take-append-drop 4096 text)
          ∙ ap (λ x. x ++ text) (sym (append-nil c));
      sized = (h.0, (omega (arith, length-take 4096 text), tt));
      shorter = λ p. omega (arith, length-drop 4096 text);
    }

Filled-last :
    (c text : Bytes)
    → IsSized (c ∷ [])
    → length c ≢ 4096
    → Filled (c ∷ []) text ((c ++ take (4096 - length c) text) ∷ [], drop (4096 - length c) text)
Filled-last c text h e =
    let left = 4096 - length c in
    record {
      bytes =
          ap (λ x. x ++ drop left text) (append-nil (c ++ take left text))
          ∙ append_assoc c (take left text) (drop left text)
          ∙ ap (λ x. c ++ x) (take-append-drop left text)
          ∙ ap (λ x. x ++ text) (sym (append-nil c));
      sized = (omega (arith, h.0, length-append c (take left text), length-take left text), tt);
      shorter = λ p. omega (arith, h.0, e, length-drop left text);
    }

fill-Filled : (cs : List Bytes) (text : Bytes) → IsSized cs → Filled cs text (fill cs text)
unfolding fill
fill-Filled [] text h = record {
  bytes = ap (λ x. x ++ drop 4096 text) (append-nil (take 4096 text)) ∙ take-append-drop 4096 text;
  sized = (omega (arith, length-take 4096 text), tt);
  shorter = λ p. omega (arith, length-drop 4096 text);
}
fill-Filled (c ∷ []) text h = elim (Bool-cases (length c == 4096)) [
  | inl e ↦ rw e (Filled-new c text h)
  | inr e ↦ rw e (Filled-last c text h (ground arith))
]
fill-Filled (c ∷ d ∷ cs) text h =
    let f = fill-Filled (d ∷ cs) text h.1 in
    record {
      bytes =
          append_assoc c (joined (fill (d ∷ cs) text).0) (fill (d ∷ cs) text).1
          ∙ ap (λ x. c ++ x) f.bytes
          ∙ sym (append_assoc c (joined (d ∷ cs)) text);
      sized = (h.0, f.sized);
      shorter = f.shorter;
    }

write_rounds-joined :
    (fuel : ℕ) (cs : List Bytes) (text : Bytes)
    → IsSized cs
    → length text ≤ fuel
    → (joined (write_rounds fuel cs text) ≡ joined cs ++ text) × IsSized (write_rounds fuel cs text)
unfolding write_rounds
write_rounds-joined fuel cs [] h l = (sym (append-nil (joined cs)), h)
write_rounds-joined zero cs (b ∷ bs) h l = absurd (omega arith)
write_rounds-joined (suc fuel) cs (b ∷ bs) h l =
    let f = fill-Filled cs (b ∷ bs) h in
    let r = fill cs (b ∷ bs) in
    let w =
      write_rounds-joined fuel r.0 r.1 f.sized
        (let s = f.shorter (omega arith) in omega (arith, s)) in
    (w.0 ∙ f.bytes, w.1)

write_chunks-IsSized :
    (cs : List Bytes) (text : Bytes)
    → IsSized cs
    → (joined (write_chunks cs text) ≡ joined cs ++ text) × IsSized (write_chunks cs text)
unfolding write_chunks
write_chunks-IsSized cs text h = write_rounds-joined (length text) cs text h (omega arith)

insert_chunk-IsSized :
    (cs : List Bytes) (text : Bytes)
    → IsSized cs
    → length text ≤ 4096
    → (joined (insert_chunk cs text) ≡ text ++ joined cs) × IsSized (insert_chunk cs text)
unfolding insert_chunk
insert_chunk-IsSized [] text h l =
    let w = write_chunks-IsSized [] text tt in (w.0 ∙ sym (append-nil text), w.1)
insert_chunk-IsSized (c ∷ cs) text h l = (refl, (l, h))

-- `write` appends the text to the bytes of the chunks, `insert` puts a text of at most 4096 bytes in
-- front of them, and both keep every chunk within 4096 bytes.
pub write_chunks-joined :
    (cs : List Bytes) (text front : Bytes)
    → IsSized cs
    → length front ≤ 4096
    → (joined (write_chunks cs text) ≡ joined cs ++ text)
      × IsSized (write_chunks cs text)
      × (joined (insert_chunk cs front) ≡ front ++ joined cs)
      × IsSized (insert_chunk cs front)
write_chunks-joined cs text front h l =
    let w = write_chunks-IsSized cs text h in
    let i = insert_chunk-IsSized cs front h l in (w.0, w.1, i.0, i.1)
