-- ===== src/Http/Tests.antt =====
-- Runs of a connection on small inputs, and each theorem at an input.
use moon_flare.Prelude.{
  drop, ◌++◌, ℕ, ◌≡◌, refl, [], ◌∷◌, true, false, Option, none, some, length, Bytes, leb, arith,
  same_bytes, trim_start, if◌then◌else◌,
}
use moon_flare.Device.Spec.{text, decimal}
use moon_flare.Http.Header.{has_token, token_from, strtoull, digits_value, before_query, query_of}
use moon_flare.Http.Conn.{
  need, is_over, reset_req, State, Conn, Parsed, Call, Reply, reply_or_close, reply_head, call_of,
  answer_rest, Answer, room, after_headers,
}
use moon_flare.Http.Fields.{fields, begin_request}
use moon_flare.Http.Recv.{
  handle_request, keep_alive_reset, Written, finish_headers, parse_result, parse_headers,
  before_read, after_read, take_answer, round, do_recv, write_answer, sent, do_send,
}
use moon_flare.Http.Recv.Pieces.{brought, do_recv-brought, keep_alive_reset-waits}

tokens_found :
    (has_token (text "Upgrade, Close") (text "close") ≡ true)
    × (has_token (text "closed") (text "close") ≡ false)
unfolding token_from
tokens_found = (refl, refl)

numbers :
    (strtoull (text " 42x") ≡ some 42)
    × (strtoull (text "x") ≡ none)
    × (strtoull (text "-1") ≡ some 18446744073709551615)
unfolding strtoull digits_value trim_start
numbers = (refl, refl, refl)

-- A parser of requests that are four bytes long.
abbrev of_four : Bytes → ℕ → Parsed
of_four v l =
    if leb 4 (length v) then Parsed.request 4 (text "GET") (text "/x") 1 [] else Parsed.partial

abbrev no_routes : Call → Option Reply
no_routes call = none

abbrev fresh : Conn
fresh = record {
  in_use = true;
  state = State.recv_headers;
  input = [];
  last_len = 0;
  header_len = 0;
  content_length = 0;
  output = [];
  out_off = 0;
  minor = 1;
  close_after = false;
  req_close = false;
  method = [];
  path = [];
  query = [];
  if_match = [];
}

-- Two requests in one packet: the first is answered, and the second stays in the buffer.
abbrev answered : Conn
answered = do_recv of_four no_routes [] fresh (Answer.got (text "aaaabbbb") ∷ [])

first_answered : (answered.state ≡ State.sending) × (answered.input ≡ text "aaaabbbb")
unfolding do_recv before_read need room round take_answer after_read after_headers parse_headers
    parse_result finish_headers fields begin_request before_query query_of handle_request
    answer_rest call_of reply_or_close reply_head same_bytes decimal
first_answered = (refl, refl)

-- After the reply has been sent, the second one waits for more input, though it is complete.
second_waits :
    (do_send of_four no_routes [] answered (Written.wrote 1000 ∷ []) (Answer.again ∷ [])).state
    ≡ State.recv_headers
unfolding do_send write_answer sent keep_alive_reset reset_req do_recv before_read need room round
    take_answer after_read after_headers parse_headers parse_result finish_headers fields
    begin_request before_query query_of handle_request answer_rest call_of reply_or_close reply_head
    same_bytes decimal
second_waits = refl

-- A connection that has its header and wants three bytes.
abbrev wants_body : Conn
wants_body = record fresh {
  state = State.recv_body;
  input = text "aaaa";
  header_len = 4;
  content_length = 3;
}

do_recv-brought_example :
    (do_recv of_four no_routes [] wants_body (brought ((1, []) ∷ (2, 3 ∷ []) ∷ []) [])
      ≡ handle_request of_four no_routes []
          (record wants_body { input = text "aaaa" ++ (1 ∷ 2 ∷ 3 ∷ []) }))
    × (is_over
          (do_recv of_four no_routes [] wants_body (brought ((1, []) ∷ (2, 3 ∷ []) ∷ []) [])).state
        ≡ true)
unfolding need
do_recv-brought_example =
    do_recv-brought of_four no_routes [] ((1, []) ∷ (2, 3 ∷ []) ∷ []) [] wants_body refl
      (omega arith) (omega arith) refl

-- The reply to the first of two requests of four bytes is out.
abbrev two_requests : Conn
two_requests = record fresh { state = State.sending; input = text "aaaabbbb"; header_len = 4 }

keep_alive_reset-waits_example :
    keep_alive_reset of_four no_routes [] two_requests (Answer.again ∷ [])
    ≡ reset_req (record two_requests { input = drop 4 two_requests.input })
unfolding need
keep_alive_reset-waits_example =
    keep_alive_reset-waits of_four no_routes [] two_requests [] (omega arith) (omega arith)
