-- ===== src/Http2/Headers/Names.antt =====
-- src/KHttpHeader.cpp, src/KHttp2Table.cpp, src/KHttp2.cpp: the names of the known headers and their
-- places in the static table. A `kgl_header_type` is a place in the table of names.
use khttpd.Base.{
  Bool, ℕ, suc, ◌+◌, ◌&&◌, leb, ◌==◌, if◌then◌else◌, List, [], ◌∷◌, map, Bytes, get_or, codes,
  same_text,
}
use khttpd.Http2.Table.Static.{static_table}

-- kgl_header_type_string, the names in lower case
abbrev pub header_names : List Bytes
header_names =
    codes "host"
    ∷ codes "accept-encoding"
    ∷ codes "range"
    ∷ codes "server"
    ∷ codes "date"
    ∷ codes "content-length"
    ∷ codes "last-modified"
    ∷ codes "etag"
    ∷ codes "content-range"
    ∷ codes "content-type"
    ∷ codes "set-cookie"
    ∷ codes "pragma"
    ∷ codes "cache-control"
    ∷ codes "vary"
    ∷ codes "age"
    ∷ codes "transfer-encoding"
    ∷ codes "content-encoding"
    ∷ codes "expires"
    ∷ codes "location"
    ∷ codes "keep-alive"
    ∷ codes "alt-svc"
    ∷ codes "connection"
    ∷ codes "upgrade"
    ∷ codes "expect"
    ∷ codes "status"
    ∷ codes "if-range"
    ∷ codes "if-modified-since"
    ∷ codes "if-none-match"
    ∷ codes "if-match"
    ∷ codes "if-unmodified-since"
    ∷ codes "cookie"
    ∷ codes ":scheme"
    ∷ codes "referer"
    ∷ codes "user-agent"
    ∷ codes "unknow"
    ∷ []

abbrev pub header_cookie : ℕ
header_cookie = 30

unfoldable pub low_case : ℕ → Bytes
low_case type = get_or header_names type []

-- tolower in the C locale
unfoldable pub to_lower : ℕ → ℕ
to_lower c = if leb b'A' c && leb c b'Z' then c + 32 else c

-- strcasecmp(a, b) == 0, for texts with no NUL
unfoldable pub same_case : Bytes → Bytes → Bool
unfolding to_lower
same_case a b = same_text (map to_lower a) (map to_lower b)

-- The loop of `kgl_find_http2_static_table` from the entry i on.
unfoldable pub find_from : ℕ → Bytes → List (Bytes × Bytes) → ℕ
unfolding same_case
find_from i name [] = 0
find_from i name ((n, v) ∷ es) =
    let rest = find_from (suc i) name es in if same_case name n then i + 1 else rest

unfoldable pub find_static_table : Bytes → ℕ
unfolding find_from
find_static_table name = find_from 0 name static_table

-- `http2_index`, which `kgl_init_header_string` fills in for all types but the last, which has 0.
unfoldable pub http2_index : ℕ → ℕ
unfolding find_static_table
http2_index type = if type == 34 then 0 else find_static_table (low_case type)
