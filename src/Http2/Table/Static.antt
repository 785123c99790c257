-- ===== src/Http2/Table/Static.antt =====
-- kgl_http_v2_static_table of src/KHttp2Table.cpp.
use khttpd.Base.{List, [], ◌∷◌, Bytes, codes}

abbrev pub static_table : List (Bytes × Bytes)
static_table =
    (codes ":authority", codes "")
    ∷ (codes ":method", codes "GET")
    ∷ (codes ":method", codes "POST")
    ∷ (codes ":path", codes "/")
    ∷ (codes ":path", codes "/index.html")
    ∷ (codes ":scheme", codes "http")
    ∷ (codes ":scheme", codes "https")
    ∷ (codes ":status", codes "200")
    ∷ (codes ":status", codes "204")
    ∷ (codes ":status", codes "206")
    ∷ (codes ":status", codes "304")
    ∷ (codes ":status", codes "400")
    ∷ (codes ":status", codes "404")
    ∷ (codes ":status", codes "500")
    ∷ (codes "accept-charset", codes "")
    ∷ (codes "accept-encoding", codes "gzip, deflate")
    ∷ (codes "accept-language", codes "")
    ∷ (codes "accept-ranges", codes "")
    ∷ (codes "accept", codes "")
    ∷ (codes "access-control-allow-origin", codes "")
    ∷ (codes "age", codes "")
    ∷ (codes "allow", codes "")
    ∷ (codes "authorization", codes "")
    ∷ (codes "cache-control", codes "")
    ∷ (codes "content-disposition", codes "")
    ∷ (codes "content-encoding", codes "")
    ∷ (codes "content-language", codes "")
    ∷ (codes "content-length", codes "")
    ∷ (codes "content-location", codes "")
    ∷ (codes "content-range", codes "")
    ∷ (codes "content-type", codes "")
    ∷ (codes "cookie", codes "")
    ∷ (codes "date", codes "")
    ∷ (codes "etag", codes "")
    ∷ (codes "expect", codes "")
    ∷ (codes "expires", codes "")
    ∷ (codes "from", codes "")
    ∷ (codes "host", codes "")
    ∷ (codes "if-match", codes "")
    ∷ (codes "if-modified-since", codes "")
    ∷ (codes "if-none-match", codes "")
    ∷ (codes "if-range", codes "")
    ∷ (codes "if-unmodified-since", codes "")
    ∷ (codes "last-modified", codes "")
    ∷ (codes "link", codes "")
    ∷ (codes "location", codes "")
    ∷ (codes "max-forwards", codes "")
    ∷ (codes "proxy-authenticate", codes "")
    ∷ (codes "proxy-authorization", codes "")
    ∷ (codes "range", codes "")
    ∷ (codes "referer", codes "")
    ∷ (codes "refresh", codes "")
    ∷ (codes "retry-after", codes "")
    ∷ (codes "server", codes "")
    ∷ (codes "set-cookie", codes "")
    ∷ (codes "strict-transport-security", codes "")
    ∷ (codes "transfer-encoding", codes "")
    ∷ (codes "user-agent", codes "")
    ∷ (codes "vary", codes "")
    ∷ (codes "via", codes "")
    ∷ (codes "www-authenticate", codes "")
    ∷ []
