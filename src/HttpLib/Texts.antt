-- ===== src/HttpLib/Texts.antt =====
-- src/KHttpLib.cpp: a text with its own length.
use khttpd.Base.{suc, ◌≡◌, refl, ap, arith, false, [], ◌∷◌, ◌==◌, Bytes, length, take-length}
use khttpd.HttpLib.{strlen, text_of}

pub text_of-length : (s : Bytes) → text_of s (length s) ≡ s
unfolding text_of strlen
text_of-length [] = refl
text_of-length (c ∷ cs) =
    let positive : (suc (length cs) == 0) ≡ false = ground arith in
    rw positive (ap (◌∷◌ c) (take-length cs))
