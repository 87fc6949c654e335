-- ===== src/Http/Recv/Pieces.antt =====
-- A body of a request that comes in pieces, and a request that is there already, in
-- src/http/http_pt.c.
use mathlib.Core.Bool.{false≢true}
use moon_flare.Prelude.{
  ℕ, ◌+◌, ◌-◌, ◌≤◌, ◌<◌, ◌≡◌, refl, sym, ◌∙◌, List, [], ◌∷◌, ◌++◌, Bool, true, false, ◌&&◌, ◌||◌,
  not, Option, none, some, append-nil, append_assoc, length, length-append, length-drop, take_all,
  take, drop, min, Bytes, ltb, leb, ◌==◌, if_elim, arith, same_bytes, if◌then◌else◌,
}
use moon_flare.Device.Spec.{text, is_empty}
use moon_flare.Http.Conn.{
  header_cap, in_cap, out_cap, reply_head, State, Conn, reset_req, close, Parsed, Call, Reply,
  reason, reply_or_close, call_of, answer_rest, Answer, need, room, in_headers, is_over, go_on,
}
use moon_flare.Http.Recv.{
  handle_request, before_read, after_read, take_answer, round, do_recv, keep_alive_reset,
}

-- Pieces that are not empty, their bytes, and the reads that bring them.
abbrev pub joined : List (ℕ × Bytes) → Bytes
joined [] = []
joined ((b, bs) ∷ ps) = (b ∷ bs) ++ joined ps

abbrev pub brought : List (ℕ × Bytes) → List Answer → List Answer
brought [] more = more
brought ((b, bs) ∷ ps) more = Answer.got (b ∷ bs) ∷ brought ps more

reply-is_over :
    (c : Conn) (why : Bytes) (r : Reply) (force : Bool)
    → is_over (reply_or_close c why r force).state ≡ true
unfolding reply_or_close close
reply-is_over c why r force =
    let ends = force || c.req_close || ltb c.minor 1 in
    let head = reply_head c.minor why r ends in
    if_elim (λ (d : Conn). is_over d.state ≡ true) (leb out_cap (length head + length r.body))
      (close c)
      (record c { output = head ++ r.body; out_off = 0; close_after = ends; state = State.sending })
      (λ e. refl) (λ e. refl)

answer_rest-is_over : (c : Conn) (o : Option Reply) → is_over (answer_rest c o).state ≡ true
unfolding answer_rest
answer_rest-is_over c none = reply-is_over c _ _ false
answer_rest-is_over c (some r) =
    if_elim (λ (d : Conn). is_over d.state ≡ true) (r.status == 0) _ _
      (λ e. reply-is_over c _ _ false) (λ e. reply-is_over c (reason r.status) r false)

module _ (parse : Bytes → ℕ → Parsed) (dispatch : Call → Option Reply) (health : Bytes) where
  handle_request-is_over :
      (c : Conn) → is_over (handle_request parse dispatch health c).state ≡ true
  unfolding handle_request
  handle_request-is_over c =
      if_elim (λ (d : Conn). is_over d.state ≡ true) (same_bytes c.path (text "/api/v1/health")) _ _
        (λ e.
          if_elim (λ (d : Conn). is_over d.state ≡ true) (not (same_bytes c.method (text "GET"))) _
            _ (λ u. reply-is_over c _ _ false) (λ u. reply-is_over c _ _ false))
        (λ e. answer_rest-is_over c (dispatch (call_of c)))

  -- A body that is not whole yet is read.
  body_reads :
      (c : Conn)
      → c.state ≡ State.recv_body
      → length c.input < need c
      → need c ≤ in_cap
      → (before_read parse dispatch health c ≡ none) × (room c ≡ need c - length c.input)
  unfolding before_read need room
  body_reads c e short fits =
      let r : room c ≡ c.header_len + c.content_length - length c.input = rw e (ground arith) in
      (
        if_elim (λ (o : Option Conn). o ≡ none)
            (not (in_headers c.state) && leb (c.header_len + c.content_length) (length c.input)) _ _
            (λ t. absurd (ground arith))
            (λ t.
              if_elim (λ (o : Option Conn). o ≡ none) (room c == 0) _ _
                (λ u. absurd (ground (arith, r))) (λ u. refl)),
        r,
      )

  body_after_read :
      (c : Conn)
      → c.state ≡ State.recv_body
      → after_read parse dispatch health c ≡ (
          if leb (need c) (length c.input)
          then (handle_request parse dispatch health c, false)
          else (c, true))
  unfolding after_read
  body_after_read c e =
      let body : in_headers c.state ≡ false = rw e refl in
      if_elim
        (λ (r : Conn × Bool). r ≡ (
          if leb (need c) (length c.input)
          then (handle_request parse dispatch health c, false)
          else (c, true)))
        (in_headers c.state) _ _ (λ t. absurd (false≢true (sym body ∙ t))) (λ t. refl)

  -- A read that brings no more than the rest of a body is taken whole, and the body is handled once it
  -- is all there.
  piece_taken :
      (c : Conn) (b : ℕ) (bs : Bytes)
      → c.state ≡ State.recv_body
      → length c.input < need c
      → need c ≤ in_cap
      → length c.input + length (b ∷ bs) ≤ need c
      → round parse dispatch health c (Answer.got (b ∷ bs)) (before_read parse dispatch health c)
        ≡ (let d = record c { input = c.input ++ (b ∷ bs) } in
            if leb (need c) (length d.input)
            then (handle_request parse dispatch health d, false)
            else (d, true))
  unfolding need round take_answer
  piece_taken c b bs e short fits piece =
      let (waits, r) = body_reads c e short fits in
      let whole : take (room c) (b ∷ bs) ≡ b ∷ bs = take_all (room c) (b ∷ bs) (omega (arith, r)) in
      rw (waits, whole) (body_after_read (record c { input = c.input ++ (b ∷ bs) }) e)

  body_answered :
      (ps : List (ℕ × Bytes)) (more : List Answer) (c : Conn)
      → c.state ≡ State.recv_body
      → length c.input < need c
      → need c ≤ in_cap
      → length c.input + length (joined ps) ≡ need c
      → do_recv parse dispatch health c (brought ps more)
        ≡ handle_request parse dispatch health (record c { input = c.input ++ joined ps })
  unfolding do_recv need
  body_answered [] more c e short fits all = absurd (omega arith)
  body_answered ((b, bs) ∷ ps) more c e short fits all =
      let l = length-append (b ∷ bs) (joined ps) in
      let m = length-append c.input (b ∷ bs) in
      let d = record c { input = c.input ++ (b ∷ bs) } in
      rw (piece_taken c b bs e short fits (omega (arith, l))) (
        if_elim
          (λ (r : Conn × Bool).
            go_on r (λ x. do_recv parse dispatch health x (brought ps more))
            ≡ handle_request parse dispatch health
                (record c { input = c.input ++ ((b ∷ bs) ++ joined ps) }))
          (leb (c.header_len + c.content_length) (length d.input)) _ _
          (λ t. rw (nothing (joined ps) (ground (arith, l, m)), append-nil bs) refl)
          (λ t.
            rw⁻¹ (append_assoc c.input (b ∷ bs) (joined ps))
              (body_answered ps more d e (ground (arith, m)) fits (omega (arith, l, m)))))
    where
      nothing : (xs : Bytes) → length xs ≡ 0 → xs ≡ []
      nothing [] e = refl
      nothing (x ∷ xs) e = absurd (omega arith)

  -- The body of a request that `read` brings in pieces, however it is cut, is answered when it is all
  -- there: the request is handled with its body behind its header, a reply is sent or the connection
  -- closed, and no read follows.
  pub do_recv-brought :
      (pieces : List (ℕ × Bytes)) (more : List Answer) (c : Conn)
      → c.state ≡ State.recv_body
      → length c.input < need c
      → need c ≤ in_cap
      → length c.input + length (joined pieces) ≡ need c
      → (do_recv parse dispatch health c (brought pieces more)
          ≡ handle_request parse dispatch health (record c { input = c.input ++ joined pieces }))
        × (is_over (do_recv parse dispatch health c (brought pieces more)).state ≡ true)
  do_recv-brought pieces more c e short fits all =
      let same = body_answered pieces more c e short fits all in
      (same, rw same (handle_request-is_over (record c { input = c.input ++ joined pieces })))

  header_reads :
      (c : Conn)
      → c.state ≡ State.recv_headers
      → length c.input < header_cap
      → before_read parse dispatch health c ≡ none
  unfolding before_read room
  header_reads c e short =
      let r : room c ≡ header_cap - length c.input = rw e refl in
      let h : in_headers c.state ≡ true = rw e refl in
      if_elim (λ (o : Option Conn). o ≡ none)
        (not (in_headers c.state) && leb (need c) (length c.input)) _ _
        (λ t. absurd (ground (arith, h)))
        (λ t.
          if_elim (λ (o : Option Conn). o ≡ none) (room c == 0) _ _
            (λ u. absurd (ground (arith, r))) (λ u. refl))

  reset_blocks :
      (c : Conn) (more : List Answer)
      → length c.input < header_cap
      → do_recv parse dispatch health (reset_req c) (Answer.again ∷ more) ≡ reset_req c
  unfolding do_recv round take_answer reset_req
  reset_blocks c more short = rw (header_reads (reset_req c) refl short) refl

  -- A pipelined request that has arrived with the one before is not parsed when the reply to that is
  -- sent, even if it is whole: if `read` has nothing more, the connection waits for a first header with
  -- the bytes in its buffer, whatever the parser would say to them.
  pub keep_alive_reset-waits :
      (c : Conn) (more : List Answer)
      → need c < length c.input
      → length c.input < need c + header_cap
      → keep_alive_reset parse dispatch health c (Answer.again ∷ more)
        ≡ reset_req (record c { input = drop (need c) c.input })
  unfolding keep_alive_reset
  keep_alive_reset-waits c more some_left small =
      let used : min (need c) (length c.input) ≡ need c = ground arith in
      let d = reset_req (record c { input = drop (need c) c.input }) in
      rw used (
        if_elim (λ (e : Conn). e ≡ d) (is_empty d.input) _ _ (λ t. refl)
          (λ t.
            reset_blocks (record c { input = drop (need c) c.input }) more
              (omega (arith, length-drop (need c) c.input))))
