-- ===== src/Http/Fields.antt =====
-- The request line and the header fields that `parse_headers` of src/http/http_pt.c reads.
use moon_flare.Prelude.{
  ℕ, List, [], ◌∷◌, Bool, true, false, Option, none, some, Bytes, ltb, if◌then◌else◌,
}
use moon_flare.Device.Spec.{text, fit}
use moon_flare.Http.Header.{name_eq, is_identity, has_token, strtoull, before_query, query_of}
use moon_flare.Http.Conn.{body_cap, Conn, reply_or_close, error_reply, bad_request}

-- A field goes on to the next, or a reply ends the request.
abbrev pub length_field : Conn → Option ℕ → Conn × Bool
length_field c none = (bad_request c, false)
length_field c (some n) =
    if ltb body_cap n
    then (
      reply_or_close c (text "Payload Too Large")
          (error_reply 413 (text "{\"error\":\"payload too large\"}")) true,
      false,
    )
    else (record c { content_length = n }, true)

unfoldable pub connection_field : Conn → Bytes → Conn
connection_field c v =
    if has_token v (text "close")
    then record c { req_close = true }
    else if has_token v (text "keep-alive")
    then record c { req_close = false }
    else c

unfoldable pub field : Conn → Bytes × Bytes → Conn × Bool
field c (name, v) =
    if name_eq name (text "transfer-encoding")
    then (if is_identity v then (c, true) else (
      reply_or_close c (text "Bad Request")
          (error_reply 400 (text "{\"error\":\"chunked not supported\"}")) true,
      false,
    ))
    else if name_eq name (text "content-length")
    then length_field c (strtoull (fit 32 v))
    else if name_eq name (text "connection")
    then (connection_field c v, true)
    else if name_eq name (text "if-match")
    then (record c { if_match = fit 64 v }, true)
    else (c, true)

-- The fields in turn, up to one that ends the request.
abbrev pub next_field : Conn × Bool → (Conn → Conn × Bool) → Conn × Bool
next_field (c, true) f = f c
next_field (c, false) f = (c, false)

unfoldable pub fields : Conn → List (Bytes × Bytes) → Conn × Bool
fields c [] = (c, true)
fields c (h ∷ hs) = next_field (field c h) (λ d. fields d hs)

unfoldable pub begin_request : Conn → ℕ → Bytes → Bytes → ℕ → Conn
begin_request c n method path minor = record c {
  header_len = n;
  minor = minor;
  method = fit 16 method;
  path = before_query (fit 128 path);
  query = fit 96 (query_of (fit 128 path));
  content_length = 0;
  req_close = ltb minor 1;
}
