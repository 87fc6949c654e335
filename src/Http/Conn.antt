-- ===== src/Http/Conn.antt =====
-- One connection of src/http/http_pt.c: its state and `http_reply`. The time of the last progress is
-- left out, which only the idle timer reads, and `select_mask`, which only the loop of `select` reads.
use moon_flare.Prelude.{
  ℕ, ◌+◌, ◌-◌, List, [], ◌∷◌, ◌++◌, Bool, true, false, ◌||◌, Option, none, some, length, take, drop,
  min, Bytes, ltb, leb, ◌==◌, if◌then◌else◌,
}
use moon_flare.Device.Spec.{text, is_empty, decimal}

abbrev pub header_cap : ℕ
header_cap = 8192

abbrev pub body_cap : ℕ
body_cap = 65536

abbrev pub in_cap : ℕ
in_cap = header_cap + body_cap

abbrev pub out_cap : ℕ
out_cap = 65536

-- `enum mf_http_state`
pub data State : Type 0 where
  recv_headers recv_body sending closed : State

-- `mf_http_conn_t`. `input` is the first `in_len` bytes of `in`, and `output` the first `out_len` of `out`.
pub record Conn : Type 0 where
  pub in_use : Bool
  pub state : State
  pub input : Bytes
  pub last_len : ℕ
  pub header_len : ℕ
  pub content_length : ℕ
  pub output : Bytes
  pub out_off : ℕ
  pub minor : ℕ
  pub close_after : Bool
  pub req_close : Bool
  pub method : Bytes
  pub path : Bytes
  pub query : Bytes
  pub if_match : Bytes

-- `conn_reset_req`
unfoldable pub reset_req : Conn → Conn
reset_req c = record c {
  last_len = 0;
  header_len = 0;
  content_length = 0;
  output = [];
  out_off = 0;
  minor = 1;
  close_after = false;
  req_close = false;
  method = [];
  path = [];
  query = [];
  if_match = [];
  state = State.recv_headers;
}

-- `conn_close`
unfoldable pub close : Conn → Conn
close c = record c { in_use = false; state = State.closed; input = [] }

-- What `phr_parse_request` returns: -2, -1, or the size of the header with what is in it.
pub data Parsed : Type 0 where
  partial bad : Parsed
  request : ℕ → Bytes → Bytes → ℕ → List (Bytes × Bytes) → Parsed

-- What `mf_rest_dispatch` is given and returns; `none` is no answer.
pub record Call : Type 0 where
  pub method : Bytes
  pub path : Bytes
  pub query : Bytes
  pub if_match : Bytes
  pub body : Bytes

pub record Reply : Type 0 where
  pub status : ℕ
  pub body : Bytes
  pub location : Bytes
  pub etag : Bytes

-- `http_reason`
unfoldable pub reason : ℕ → Bytes
reason s =
    if s == 200
    then text "OK"
    else if s == 201
    then text "Created"
    else if s == 202
    then text "Accepted"
    else if s == 400
    then text "Bad Request"
    else if s == 403
    then text "Forbidden"
    else if s == 404
    then text "Not Found"
    else if s == 405
    then text "Method Not Allowed"
    else if s == 409
    then text "Conflict"
    else if s == 413
    then text "Payload Too Large"
    else text "Error"

abbrev pub end_line : Bytes
end_line = 13 ∷ 10 ∷ []

abbrev pub optional_line : Bytes → Bytes → Bytes
optional_line name v = if is_empty v then [] else name ++ (v ++ end_line)

unfoldable pub reply_head : ℕ → Bytes → Reply → Bool → Bytes
reply_head minor why r ends =
    text "HTTP/1."
    ++ (decimal minor
        ++ (b' '
            ∷ (decimal r.status
                ++ (b' '
                    ∷ (why
                        ++ (end_line
                            ++ (text "Content-Type: application/json"
                                ++ (end_line
                                    ++ (text "Content-Length: "
                                        ++ (decimal (length r.body)
                                            ++ (end_line
                                                ++ (text "Connection: "
                                                    ++ ((if ends
                                                          then text "close"
                                                          else text "keep-alive")
                                                        ++ (end_line
                                                            ++ (optional_line (text "Location: ")
                                                            r.location
                                                            ++ (optional_line (text "ETag: ") r.etag
                                                            ++ end_line))))))))))))))))

-- `http_reply`, and `conn_close` when it fails.
unfoldable pub reply_or_close : Conn → Bytes → Reply → Bool → Conn
reply_or_close c why r force =
    let ends = force || c.req_close || ltb c.minor 1 in
    let head = reply_head c.minor why r ends in
    if leb out_cap (length head + length r.body) then close c else record c {
      output = head ++ r.body;
      out_off = 0;
      close_after = ends;
      state = State.sending;
    }

abbrev pub error_reply : ℕ → Bytes → Reply
error_reply status body = record { status = status; body = body; location = []; etag = [] }

unfoldable pub bad_request : Conn → Conn
bad_request c =
    reply_or_close c (text "Bad Request") (error_reply 400 (text "{\"error\":\"bad request\"}"))
      true

unfoldable pub call_of : Conn → Call
call_of c = record {
  method = c.method;
  path = c.path;
  query = c.query;
  if_match = c.if_match;
  body =
      if leb (c.header_len + c.content_length) (length c.input)
      then take c.content_length (drop c.header_len c.input)
      else [];
}

unfoldable pub answer_rest : Conn → Option Reply → Conn
answer_rest c none =
    reply_or_close c (text "Not Found") (error_reply 404 (text "{\"error\":\"not found\"}")) false
answer_rest c (some r) =
    if r.status == 0
    then reply_or_close c (text "Not Found") (error_reply 404 (text "{\"error\":\"not found\"}"))
        false
    else reply_or_close c (reason r.status) r false

-- An answer of `read`. It has as many bytes as there is room for at most.
pub data Answer : Type 0 where
  got : Bytes → Answer
  again failed : Answer

unfoldable pub need : Conn → ℕ
need c = c.header_len + c.content_length

unfoldable pub room : Conn → ℕ
room c = elim c.state [
  | State.recv_headers ↦ header_cap - length c.input
  | _ ↦ min (need c - length c.input) (in_cap - length c.input)
]

abbrev pub in_headers : State → Bool
in_headers State.recv_headers = true
in_headers State.recv_body = false
in_headers State.sending = false
in_headers State.closed = false

abbrev pub is_over : State → Bool
is_over State.recv_headers = false
is_over State.recv_body = false
is_over State.sending = true
is_over State.closed = true

abbrev pub full_headers : Conn × Bool → Conn
full_headers (c, true) = c
full_headers (c, false) = bad_request c

unfoldable pub after_headers : Conn → Conn
after_headers c = record c { last_len = min (length c.input) header_cap }

abbrev pub finish : Conn → Option Conn → Conn
finish c (some d) = d
finish c none = c

abbrev pub go_on : Conn × Bool → (Conn → Conn) → Conn
go_on (c, true) f = f c
go_on (c, false) f = c
