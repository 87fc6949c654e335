-- ===== src/Http/Recv.antt =====
-- `parse_headers`, `handle_request`, `conn_do_recv`, `conn_keep_alive_reset` and `conn_do_send`
-- of src/http/http_pt.c.
--
-- picohttpparser, the REST routes and the body of the health report are arguments. What `read` and
-- `write` return is a script: one answer to each call, and the call would block when it ends.
pub mod Bounded
pub mod Reads
pub mod Pieces
pub mod Serve
use moon_flare.Prelude.{
  ℕ, zero, suc, ◌+◌, ◌-◌, List, [], ◌∷◌, ◌++◌, Bool, true, false, ◌&&◌, not, Option, none, some,
  length, take, drop, min, Bytes, ltb, leb, ◌==◌, same_bytes, if◌then◌else◌,
}
use moon_flare.Device.Spec.{text, fit, is_empty, decimal}
use moon_flare.Http.Header.{name_eq, is_identity, has_token, strtoull, before_query, query_of}
use moon_flare.Http.Conn.{
  header_cap, body_cap, in_cap, out_cap, reset_req, close, reason, end_line, optional_line,
  reply_head, reply_or_close, error_reply, bad_request, call_of, answer_rest, need, room,
  in_headers, is_over, full_headers, after_headers, finish, go_on, State, Conn, Parsed, Call, Reply,
  Answer,
}
use moon_flare.Http.Fields.{
  length_field, connection_field, field, next_field, fields, begin_request,
}

-- An answer of `write`: bytes that were taken, none of them, or an error.
pub data Written : Type 0 where
  wrote : ℕ → Written
  write_again write_failed : Written

unfoldable pub write_answer : Conn → Written → Conn × Bool
write_answer c Written.write_again = (c, false)
write_answer c Written.write_failed = (close c, false)
write_answer c (Written.wrote zero) = (close c, false)
write_answer c (Written.wrote (suc n)) =
    (record c { out_off = c.out_off + min (suc n) (length c.output - c.out_off) }, true)

module _ (parse : Bytes → ℕ → Parsed) (dispatch : Call → Option Reply) (health : Bytes) where
  -- `handle_request`
  unfoldable pub handle_request : Conn → Conn
  handle_request c =
      if same_bytes c.path (text "/api/v1/health")
      then if not (same_bytes c.method (text "GET"))
        then reply_or_close c (text "Method Not Allowed")
            (error_reply 405 (text "{\"error\":\"method not allowed\"}")) false
        else reply_or_close c (text "OK") (error_reply 200 (fit 160 health)) false
      else answer_rest c (dispatch (call_of c))

  -- The end of `parse_headers`, which has the whole header.
  unfoldable pub finish_headers : Conn × Bool → Conn
  finish_headers (c, false) = c
  finish_headers (c, true) =
      if c.content_length == 0 then handle_request c else record c { state = State.recv_body }

  unfoldable pub parse_result : Conn → Parsed → Conn × Bool
  parse_result c Parsed.partial =
      if leb header_cap (length c.input) then (bad_request c, true) else (c, false)
  parse_result c Parsed.bad = (bad_request c, true)
  parse_result c (Parsed.request n method path minor headers) =
      (finish_headers (fields (begin_request c n method path minor) headers), true)

  -- `parse_headers`
  unfoldable pub parse_headers : Conn → Conn × Bool
  parse_headers c = parse_result c (parse (take header_cap c.input) c.last_len)

  -- What a round does before it reads; `none` is to read.
  unfoldable pub before_read : Conn → Option Conn
  before_read c =
      if not (in_headers c.state) && leb (need c) (length c.input)
      then some (handle_request c)
      else if room c == 0
      then some (if in_headers c.state then full_headers (parse_headers c) else bad_request c)
      else none

  -- What a round does with what it has read; `true` is to go on.
  unfoldable pub after_read : Conn → Conn × Bool
  after_read c =
      if in_headers c.state
      then (let d = after_headers (parse_headers c).0 in (d, not (is_over d.state)))
      else if leb (need c) (length c.input)
      then (handle_request c, false)
      else (c, true)

  unfoldable pub take_answer : Conn → Answer → Conn × Bool
  take_answer c Answer.again = (c, false)
  take_answer c Answer.failed = (close c, false)
  take_answer c (Answer.got []) = (close c, false)
  take_answer c (Answer.got (b ∷ bs)) =
      after_read (record c { input = c.input ++ take (room c) (b ∷ bs) })

  -- A round: before the read, or with an answer.
  unfoldable pub round : Conn → Answer → Option Conn → Conn × Bool
  round c a (some d) = (d, false)
  round c a none = take_answer c a

  -- `conn_do_recv`
  unfoldable pub do_recv : Conn → List Answer → Conn
  do_recv c [] = finish c (before_read c)
  do_recv c (a ∷ rest) = go_on (round c a (before_read c)) (λ d. do_recv d rest)

  -- `conn_keep_alive_reset`
  unfoldable pub keep_alive_reset : Conn → List Answer → Conn
  keep_alive_reset c answers =
      let used = min (need c) (length c.input) in
      let d = reset_req (record c { input = drop used c.input }) in
      if is_empty d.input then d else do_recv d answers

  unfoldable pub sent : Conn → List Answer → Conn
  sent c reads = if c.close_after then close c else keep_alive_reset c reads

  -- `conn_do_send`
  unfoldable pub do_send : Conn → List Written → List Answer → Conn
  do_send c [] reads = if ltb c.out_off (length c.output) then c else sent c reads
  do_send c (w ∷ ws) reads =
      if ltb c.out_off (length c.output)
      then go_on (write_answer c w) (λ d. do_send d ws reads)
      else sent c reads
