-- ===== src/Dechunk/Tests.antt =====
-- Runs of the chunked decoder, and its theorems at concrete inputs.
use khttpd.Base.{
  get_or, length, leb, if◌then◌else◌, List, ℕ, ◌≡◌, refl, arith, [], ◌∷◌, ◌++◌, Bytes, codes, take,
  drop, inl, inr, length-take,
}
use khttpd.Dechunk.{
  success, continue, trailer, end, failed, status_read_size, status_read_last, status_is_end,
  dechunk,
}
use khttpd.Dechunk.Words.{IsWord, dechunk-IsWord}
use khttpd.Dechunk.Pieces.{Accounts, dechunk-Accounts}
use khttpd.Dechunk.Resume.{Resumes, dechunk-Resumes}
use khttpd.Dechunk.Sizes.{Reads, done, digit, dechunk-size_line, dechunk-size_wraps}
use khttpd.Dechunk.Trailers.{dechunk-trailer}
use khttpd.Dechunk.Reader.{copy_pieces, read, got}
use khttpd.Dechunk.Reader.Bounds.{Fits, Within, copy_pieces-Fits, read-Within}
use khttpd.Dechunk.Reader.Messages.{Message, last, chunk}
use khttpd.Dechunk.Reader.RoundTrip.{CopiesApart, read-written, read-Message}

first_chunk : dechunk status_read_size 100 (codes "5;x=y\r\nhello\r\n0\r\n\r\n") ≡ record {
  chunk_size = 0xC0000001;
  buf = codes "\r\n0\r\n\r\n";
  result = success (codes "hello");
}
unfolding dechunk
first_chunk = refl

split_size :
    dechunk status_read_size 100 (codes "1a")
    ≡ record { chunk_size = 0x8000001a; buf = []; result = continue }
unfolding dechunk
split_size = refl

-- Nine hexadecimal digits: the size wraps to 0, and the message ends.
wrapped_size :
    dechunk status_read_size 100 (codes "100000000\n\n")
    ≡ record { chunk_size = status_is_end; buf = []; result = end }
unfolding dechunk
wrapped_size = refl

too_large :
    dechunk status_read_size 100 (codes "20000000\n")
    ≡ record { chunk_size = 0xC0000008; buf = codes "0\n"; result = failed }
unfolding dechunk
too_large = refl

dechunk-IsWord_example : IsWord (dechunk 0x8000001a 100 (codes "0;\nabc")).chunk_size
dechunk-IsWord_example =
    dechunk-IsWord 0x8000001a 100 (codes "0;\nabc") (inr (inl (omega arith, omega arith)))

abbrev hello : Bytes
hello = codes "5\r\nhello\r\n0\r\n\r\n"

dechunk-Accounts_example : Accounts 3 hello (dechunk 0 3 hello).buf (dechunk 0 3 hello).result
dechunk-Accounts_example = dechunk-Accounts 0 3 hello (omega arith)

dechunk-Resumes_example :
    Resumes 100
      (codes "\nhello")
      (dechunk 0 100 (codes "5" ++ codes "\nhello"))
      (dechunk 0 100 (codes "5"))
dechunk-Resumes_example = dechunk-Resumes 0 100 (codes "5") (codes "\nhello") (inl (omega arith))

Reads-five : Reads 0 (codes "5") 5
Reads-five = digit (omega arith) refl done

Reads-zero : Reads 0 (codes "00") 0
Reads-zero = digit (omega arith) refl (digit (omega arith) refl done)

Reads-large : Reads 0 (codes "10000000") 0x10000000
Reads-large = digit (omega arith) refl (
    digit (omega arith) refl (
      digit (omega arith) refl (
        digit (omega arith) refl (
          digit (omega arith) refl (
            digit (omega arith) refl (digit (omega arith) refl (digit (omega arith) refl done)))))))

dechunk-size_line_example :
    dechunk status_read_size 100 (codes "5" ++ (codes " ;x" ++ b'\n' ∷ codes "hello"))
    ≡ dechunk 5 100 (codes "hello")
dechunk-size_line_example =
    dechunk-size_line 100 (codes " ;x") (codes "hello") Reads-five (omega arith)
      (omega arith, refl, omega arith, (omega arith, (omega arith, tt)))

dechunk-size_wraps_example :
    dechunk status_read_size 100 (codes "10000000" ++ (b'7' ∷ b'\n' ∷ codes "hello, world"))
    ≡ dechunk 7 100 (codes "hello, world")
dechunk-size_wraps_example =
    dechunk-size_wraps 100 [] (codes "hello, world") Reads-large b'7' 7 (omega arith) (omega arith)
      (omega arith) refl

dechunk-trailer_example :
    dechunk status_read_last 100 (codes " a: b \r\n\r\n")
    ≡ record { chunk_size = status_read_last; buf = codes "\r\n"; result = trailer (codes "a: b") }
dechunk-trailer_example =
    dechunk-trailer 100 (codes " ") (codes "a: ") (codes " \r") (codes "\r\n") b'b'
      ((refl, omega arith), tt) ((refl, omega arith), ((refl, omega arith), tt))
      (omega arith, (omega arith, (omega arith, tt))) refl refl

-- A `kgl_memcpy` that leaves zeros where the places overlap.
abbrev apart_only : ℕ → Bytes → ℕ → ℕ
apart_only gap piece i = if leb (length piece) gap then get_or piece i 0 else 0

apart_only-CopiesApart : CopiesApart apart_only
apart_only-CopiesApart gap piece i h k = ground arith

copy_pieces-Fits_example : Fits 15 (copy_pieces apart_only 16 0 0 hello [])
copy_pieces-Fits_example = copy_pieces-Fits apart_only 16 0 0 hello [] (omega arith)

-- A connection that holds its bytes and gives as many as it is asked for.
abbrev held : Bytes → ℕ → Bytes × Bytes
held s n = (drop n s, take n s)

read-Within_example : Within 3 (read apart_only held 9 hello 0 3)
read-Within_example =
    read-Within apart_only held 9 hello 0 3 (λ s n. omega (arith, length-take n s))

last-Message : (gap : ℕ) → Message gap (codes "0\r\n\r\n") []
last-Message gap =
    last gap (codes "0") (codes "\r") (codes "\r") [] (digit (omega arith) refl done)
      (omega arith, refl, omega arith, tt) ((refl, omega arith), tt)

Message-hello : Message 0 hello ((3, codes "hello") ∷ [])
Message-hello =
    chunk 0 (codes "5") (codes "\r") (codes "hello") (codes "\r") Reads-five (omega arith)
      (omega arith) (omega arith, refl, omega arith, tt) (omega arith, tt) (last-Message 5)

-- The data overlap the place where they go, and this `kgl_memcpy` loses them.
read-written_example :
    read apart_only held 1 hello 0 100 ≡ got [] status_is_end (0 ∷ 0 ∷ 0 ∷ 0 ∷ 0 ∷ [])
read-written_example =
    read-written apart_only held hello [] 0 100 hello ((3, codes "hello") ∷ []) Message-hello
      (omega arith) refl

abbrev apart : Bytes
apart = codes "5;xyz\r\nhello\r\n5\r\nworld\r\n0\r\n\r\n"

abbrev apart_parts : List (ℕ × Bytes)
apart_parts = (7, codes "hello") ∷ (12, codes "world") ∷ []

Message-apart : Message 0 apart apart_parts
Message-apart =
    chunk 0 (codes "5") (codes ";xyz\r") (codes "hello") (codes "\r") Reads-five (omega arith)
      (omega arith)
      (
        omega arith,
        refl,
        omega arith,
        (omega arith, (omega arith, (omega arith, (omega arith, tt)))),
      )
      (omega arith, tt)
      (chunk 9 (codes "5") (codes "\r") (codes "world") (codes "\r") Reads-five (omega arith)
        (omega arith) (omega arith, refl, omega arith, tt) (omega arith, tt) (last-Message 14))

read-Message_example :
    read apart_only held 1 apart 0 100 ≡ got [] status_is_end (codes "helloworld")
read-Message_example =
    read-Message apart_only held apart [] 0 100 apart apart_parts apart_only-CopiesApart
      Message-apart (omega arith, (omega arith, tt)) (omega arith) refl
