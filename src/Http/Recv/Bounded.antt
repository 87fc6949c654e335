-- ===== src/Http/Recv/Bounded.antt =====
-- The buffers of a connection of src/http/http_pt.c hold what is put into them.
use mathlib.Core.Bool.{false≢true}
use moon_flare.Prelude.{
  ℕ, ◌+◌, ◌≤◌, ◌<◌, ◌≡◌, ◌⊎◌, inl, List, [], ◌∷◌, Bool, true, false, ◌||◌, Option, none, some,
  length, length-append, Bytes, ltb, leb, if_elim, arith,
}
use moon_flare.Device.Spec.{text, fit}
use moon_flare.Http.Header.{name_eq, is_identity, has_token, strtoull}
use moon_flare.Http.Conn.{
  header_cap, body_cap, in_cap, out_cap, Conn, close, Reply, reply_head, reply_or_close,
  bad_request, in_headers,
}
use moon_flare.Http.Fields.{length_field, connection_field, field, next_field, fields}

-- What the buffers hold: `in`, `out`, a header and a body have their limits; while a header is read, no
-- more than a header is there, and never more than that or the request.
abbrev pub IsBounded : Conn → Type 0
IsBounded c =
    (length c.input ≤ in_cap)
    × (length c.output < out_cap)
    × (c.header_len ≤ header_cap)
    × (c.content_length ≤ body_cap)
    × (in_headers c.state ≡ true → length c.input ≤ header_cap)
    × ((length c.input ≤ header_cap) ⊎ (length c.input ≤ c.header_len + c.content_length))

-- The same while a header is parsed.
abbrev pub IsHeader : Conn → Type 0
IsHeader c =
    (length c.input ≤ header_cap)
    × (length c.output < out_cap)
    × (c.header_len ≤ header_cap)
    × (c.content_length ≤ body_cap)

pub IsHeader-IsBounded : (c : Conn) → IsHeader c → IsBounded c
IsHeader-IsBounded c (i, o, h, b) = (omega (arith, i), o, h, b, (λ e. i), inl i)

reply-IsHeader :
    (c : Conn) (why : Bytes) (r : Reply) (force : Bool)
    → IsHeader c
    → IsHeader (reply_or_close c why r force)
unfolding reply_or_close close
reply-IsHeader c why r force (i, o, h, b) =
    if_elim IsHeader
      (leb out_cap
        (length (reply_head c.minor why r (force || c.req_close || ltb c.minor 1)) + length r.body))
      _ _ (λ e. (omega arith, o, h, b))
      (λ e. (
        i,
        ground (
          arith,
          length-append (reply_head c.minor why r (force || c.req_close || ltb c.minor 1)) r.body,
        ),
        h,
        b,
      ))

pub reply-IsBounded :
    (c : Conn) (why : Bytes) (r : Reply) (force : Bool)
    → IsBounded c
    → IsBounded (reply_or_close c why r force)
unfolding reply_or_close close
reply-IsBounded c why r force (i, o, h, b, s, k) =
    if_elim IsBounded
      (leb out_cap
        (length (reply_head c.minor why r (force || c.req_close || ltb c.minor 1)) + length r.body))
      _ _ (λ e. (omega arith, o, h, b, (λ e. omega arith), inl (omega arith)))
      (λ e. (
        i,
        ground (
          arith,
          length-append (reply_head c.minor why r (force || c.req_close || ltb c.minor 1)) r.body,
        ),
        h,
        b,
        (λ e. absurd (false≢true e)),
        k,
      ))

pub bad_request-IsBounded : (c : Conn) → IsBounded c → IsBounded (bad_request c)
unfolding bad_request
bad_request-IsBounded c h = reply-IsBounded c _ _ true h

pub bad_request-IsHeader : (c : Conn) → IsHeader c → IsHeader (bad_request c)
unfolding bad_request
bad_request-IsHeader c h = reply-IsHeader c _ _ true h

length_field-IsHeader : (c : Conn) (o : Option ℕ) → IsHeader c → IsHeader (length_field c o).0
length_field-IsHeader c none h = bad_request-IsHeader c h
length_field-IsHeader c (some n) (i, o, h, b) =
    if_elim (λ (r : Conn × Bool). IsHeader r.0) (ltb body_cap n) _ _
      (λ e. reply-IsHeader c _ _ true (i, o, h, b)) (λ e. (i, o, h, ground arith))

connection_field-IsHeader : (c : Conn) (v : Bytes) → IsHeader c → IsHeader (connection_field c v)
unfolding connection_field
connection_field-IsHeader c v h =
    if_elim IsHeader (has_token v (text "close")) _ _ (λ e. h)
      (λ e. if_elim IsHeader (has_token v (text "keep-alive")) _ _ (λ e. h) (λ e. h))

field-IsHeader : (c : Conn) (f : Bytes × Bytes) → IsHeader c → IsHeader (field c f).0
unfolding field
field-IsHeader c (name, v) h =
    if_elim (λ (r : Conn × Bool). IsHeader r.0) (name_eq name (text "transfer-encoding")) _ _
      (λ e.
        if_elim (λ (r : Conn × Bool). IsHeader r.0) (is_identity v) _ _ (λ e. h)
          (λ e. reply-IsHeader c _ _ true h))
      (λ e.
        if_elim (λ (r : Conn × Bool). IsHeader r.0) (name_eq name (text "content-length")) _ _
          (λ e. length_field-IsHeader c (strtoull (fit 32 v)) h)
          (λ e.
            if_elim (λ (r : Conn × Bool). IsHeader r.0) (name_eq name (text "connection")) _ _
              (λ e. connection_field-IsHeader c v h)
              (λ e.
                if_elim (λ (r : Conn × Bool). IsHeader r.0) (name_eq name (text "if-match")) _ _
                  (λ e. h) (λ e. h))))

next_field-IsHeader :
    (r : Conn × Bool) (f : Conn → Conn × Bool)
    → IsHeader r.0
    → ((c : Conn) → IsHeader c → IsHeader (f c).0)
    → IsHeader (next_field r f).0
next_field-IsHeader (c, true) f h k = k c h
next_field-IsHeader (c, false) f h k = h

pub fields-IsHeader : (hs : List (Bytes × Bytes)) (c : Conn) → IsHeader c → IsHeader (fields c hs).0
unfolding fields
fields-IsHeader [] c h = h
fields-IsHeader (f ∷ hs) c h =
    next_field-IsHeader (field c f) _ (field-IsHeader c f h) (λ d k. fields-IsHeader hs d k)
