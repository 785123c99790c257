-- ===== src/Http2/Headers/Delivered.antt =====
-- src/KHttp2.cpp: which headers a stream has got behind a header block: all but the cookies in their
-- order, and one header of all cookies.
use khttpd.Http2.Headers.Items.{given}
use khttpd.Http2.Headers.Reader.{Stream}
use khttpd.Http2.Headers.Process.{
  with_fiber, finished, cookie_header, join_cookies, deliver, construct_cookie_header,
}
use khttpd.Http2.Table.Fields.{Field}
use khttpd.Http2.Headers.Loop.{given_all}
use khttpd.Base.{
  ap₂, subst, ap, false, inr, append_assoc, ◌∙◌, inl, true, ◌+◌, Bool-cases, codes, ◌++◌,
  append-nil, same_text, if◌then◌else◌, sym, ◌≡◌, Bool, Bytes, List, refl, [], ◌∷◌,
}

abbrev pub is_cookie : Field → Bool
is_cookie f = same_text f.0 (codes "cookie")

abbrev pub without_cookies : List Field → List Field
without_cookies [] = []
without_cookies (f ∷ fs) = let rest = without_cookies fs in if is_cookie f then rest else f ∷ rest

abbrev pub cookie_values : List Field → List Bytes
cookie_values [] = []
cookie_values (f ∷ fs) = let rest = cookie_values fs in if is_cookie f then f.1 ∷ rest else rest

-- One header for the cookies, joined by "; ".
abbrev pub one_cookie : List Bytes → List Field
one_cookie [] = []
one_cookie (c ∷ cs) = (codes "cookie", join_cookies (c ∷ cs)) ∷ []

given_by :
    (s : Stream) (f : Field) (cookie : Bool)
    → is_cookie f ≡ cookie
    → given s f ≡ (
        if cookie
        then record s { cookies = s.cookies ++ f.1 ∷ [] }
        else record s { headers = s.headers ++ f ∷ [] })
unfolding deliver
given_by s f cookie e = rw e refl

-- The headers and the cookies of a stream, as one block adds to them.
record Got (s s' : Stream) (fs : List Field) : Type 0 where
  headers_are : s'.headers ≡ s.headers ++ without_cookies fs
  cookies_are : s'.cookies ≡ s.cookies ++ cookie_values fs
  same_parsed : s'.parsed_header ≡ s.parsed_header
  same_started : s'.started ≡ s.started

without_cookies_less :
    (f : Field) (fs : List Field)
    → is_cookie f ≡ true
    → (without_cookies (f ∷ fs) ≡ without_cookies fs)
      × (cookie_values (f ∷ fs) ≡ f.1 ∷ cookie_values fs)
without_cookies_less f fs e = rw e (refl, refl)

without_cookies_more :
    (f : Field) (fs : List Field)
    → is_cookie f ≡ false
    → (without_cookies (f ∷ fs) ≡ f ∷ without_cookies fs)
      × (cookie_values (f ∷ fs) ≡ cookie_values fs)
without_cookies_more f fs e = rw e (refl, refl)

Got-cookie :
    (s s' : Stream) (f : Field) (fs : List Field)
    → is_cookie f ≡ true
    → Got (record s { cookies = s.cookies ++ f.1 ∷ [] }) s' fs
    → Got s s' (f ∷ fs)
Got-cookie s s' f fs e g =
    let w = without_cookies_less f fs e in
    record {
      headers_are = g.headers_are ∙ ap (λ x. s.headers ++ x) (sym w.0);
      cookies_are =
          g.cookies_are
          ∙ append_assoc s.cookies (f.1 ∷ []) (cookie_values fs)
          ∙ ap (λ x. s.cookies ++ x) (sym w.1);
      same_parsed = g.same_parsed;
      same_started = g.same_started;
    }

Got-header :
    (s s' : Stream) (f : Field) (fs : List Field)
    → is_cookie f ≡ false
    → Got (record s { headers = s.headers ++ f ∷ [] }) s' fs
    → Got s s' (f ∷ fs)
Got-header s s' f fs e g =
    let w = without_cookies_more f fs e in
    record {
      headers_are =
          g.headers_are
          ∙ append_assoc s.headers (f ∷ []) (without_cookies fs)
          ∙ ap (λ x. s.headers ++ x) (sym w.0);
      cookies_are = g.cookies_are ∙ ap (λ x. s.cookies ++ x) (sym w.1);
      same_parsed = g.same_parsed;
      same_started = g.same_started;
    }

given_all-Got : (s : Stream) (fs : List Field) → Got s (given_all s fs) fs
unfolding given_all
given_all-Got s [] = record {
  headers_are = sym (append-nil s.headers);
  cookies_are = sym (append-nil s.cookies);
  same_parsed = refl;
  same_started = refl;
}
given_all-Got s (f ∷ fs) =
    let g = given_all-Got (given s f) fs in
    let s' = given_all (given s f) fs in
    elim (Bool-cases (is_cookie f)) [
      | inl e ↦ Got-cookie s s' f fs e (subst (λ x. Got x s' fs) (given_by s f true e) g)
      | inr e ↦ Got-header s s' f fs e (subst (λ x. Got x s' fs) (given_by s f false e) g)
    ]

cookie_header-one_cookie :
    (cs : List Bytes) (s : Stream)
    → cookie_header cs s ≡ record s { headers = s.headers ++ one_cookie cs }
unfolding cookie_header
cookie_header-one_cookie [] s = ap (λ h. record s { headers = h }) (sym (append-nil s.headers))
cookie_header-one_cookie (c ∷ cs) s = refl

finished-headers :
    (s : Stream)
    → s.parsed_header ≡ false
    → finished s ≡ record s {
      headers = s.headers ++ one_cookie s.cookies;
      parsed_header = true;
      started = s.started + 1;
    }
unfolding finished construct_cookie_header with_fiber
finished-headers s e =
    ap with_fiber (cookie_header-one_cookie s.cookies s)
    ∙ ap
        (λ b. if b then record s { headers = s.headers ++ one_cookie s.cookies } else record s {
          headers = s.headers ++ one_cookie s.cookies;
          parsed_header = true;
          started = s.started + 1;
        })
        e

-- What the stream of a request has when its fiber starts.
pub record Delivered (s s' : Stream) (fs : List Field) : Type 0 where
  pub headers_are :
      s'.headers ≡ s.headers ++ (without_cookies fs ++ one_cookie (s.cookies ++ cookie_values fs))
  pub one_fiber : s'.started ≡ s.started + 1
  pub is_parsed : s'.parsed_header ≡ true

pub finished-Delivered :
    (s : Stream) (fs : List Field)
    → s.parsed_header ≡ false
    → Delivered s (finished (given_all s fs)) fs
finished-Delivered s fs e =
    let g = given_all-Got s fs in
    let t = given_all s fs in
    let f = finished-headers t (g.same_parsed ∙ e) in
    record {
      headers_are =
          ap (λ x. x.headers) f
          ∙ ap₂ (λ h c. h ++ one_cookie c) g.headers_are g.cookies_are
          ∙ append_assoc s.headers (without_cookies fs)
              (one_cookie (s.cookies ++ cookie_values fs));
      one_fiber = ap (λ x. x.started) f ∙ ap (λ n. n + 1) g.same_started;
      is_parsed = ap (λ x. x.parsed_header) f;
    }
