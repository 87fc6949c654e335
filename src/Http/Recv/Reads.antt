-- ===== src/Http/Recv/Reads.antt =====
-- What is read into a connection of src/http/http_pt.c fits.
use mathlib.Core.Bool.{false≢true}
use moon_flare.Prelude.{
  ℕ, ◌+◌, ◌-◌, ◌≤◌, ◌≡◌, inl, refl, ◌++◌, Bool, true, false, Option, none, some, length,
  length-append, length-take, take, min, Bytes, ◌==◌, if_elim, arith,
}
use moon_flare.Http.Conn.{
  header_cap, in_cap, State, Conn, close, Reply, reason, answer_rest, need, room, in_headers,
  full_headers, after_headers, finish,
}
use moon_flare.Http.Recv.Bounded.{IsBounded, reply-IsBounded, bad_request-IsBounded}

-- There is no room beyond the buffer.
pub room_lem : (c : Conn) → IsBounded c → length c.input + room c ≤ in_cap
unfolding room need
room_lem c (i, o, h, b, s, k) = in_state c.state s
  where
    in_state :
        (t : State)
        → (in_headers t ≡ true → length c.input ≤ header_cap)
        → length c.input + elim t [
          | State.recv_headers ↦ header_cap - length c.input
          | _ ↦ min (c.header_len + c.content_length - length c.input) (in_cap - length c.input)
        ]
          ≤ in_cap
    in_state State.recv_headers s = omega (arith, s refl)
    in_state State.recv_body s = omega arith
    in_state State.sending s = omega arith
    in_state State.closed s = omega arith

pub answer_rest-IsBounded :
    (c : Conn) (o : Option Reply) → IsBounded c → IsBounded (answer_rest c o)
unfolding answer_rest
answer_rest-IsBounded c none h = reply-IsBounded c _ _ false h
answer_rest-IsBounded c (some r) h =
    if_elim IsBounded (r.status == 0) _ _ (λ e. reply-IsBounded c _ _ false h)
      (λ e. reply-IsBounded c (reason r.status) r false h)

pub full_headers-IsBounded : (r : Conn × Bool) → IsBounded r.0 → IsBounded (full_headers r)
full_headers-IsBounded (c, true) h = h
full_headers-IsBounded (c, false) h = bad_request-IsBounded c h

pub finish-IsBounded :
    (c : Conn) (o : Option Conn)
    → IsBounded c
    → ((d : Conn) → o ≡ some d → IsBounded d)
    → IsBounded (finish c o)
finish-IsBounded c none h k = h
finish-IsBounded c (some d) h k = k d refl

pub after_headers-IsBounded : (c : Conn) → IsBounded c → IsBounded (after_headers c)
unfolding after_headers
after_headers-IsBounded c h = h

pub close-IsBounded : (c : Conn) → IsBounded c → IsBounded (close c)
unfolding close
close-IsBounded c (i, o, h, b, s, k) = (omega arith, o, h, b, (λ e. omega arith), inl (omega arith))

-- What has been read fits.
pub read-IsBounded :
    (c : Conn) (bs : Bytes)
    → IsBounded c
    → IsBounded (record c { input = c.input ++ take (room c) bs })
unfolding room need
read-IsBounded c bs (i, o, h, b, s, k) = in_state c.state s
  where
    room_in : State → ℕ
    room_in t = elim t [
      | State.recv_headers ↦ header_cap - length c.input
      | _ ↦ min (c.header_len + c.content_length - length c.input) (in_cap - length c.input)
    ]

    in_state :
        (t : State)
        → (in_headers t ≡ true → length c.input ≤ header_cap)
        → IsBounded (record c { state = t; input = c.input ++ take (room_in t) bs })
    in_state State.recv_headers s =
        let l = length-append c.input (take (header_cap - length c.input) bs) in
        let m = length-take (header_cap - length c.input) bs in
        (
          omega (arith, l, m, s refl),
          o,
          h,
          b,
          (λ e. omega (arith, l, m, s refl)),
          inl (omega (arith, l, m, s refl)),
        )
    in_state State.recv_body s =
        let n = min (c.header_len + c.content_length - length c.input) (in_cap - length c.input) in
        let l = length-append c.input (take n bs) in
        let m = length-take n bs in
        (omega (arith, l, m), o, h, b, (λ e. absurd (false≢true e)), ground (arith, l, m))
    in_state State.sending s =
        let n = min (c.header_len + c.content_length - length c.input) (in_cap - length c.input) in
        let l = length-append c.input (take n bs) in
        let m = length-take n bs in
        (omega (arith, l, m), o, h, b, (λ e. absurd (false≢true e)), ground (arith, l, m))
    in_state State.closed s =
        let n = min (c.header_len + c.content_length - length c.input) (in_cap - length c.input) in
        let l = length-append c.input (take n bs) in
        let m = length-take n bs in
        (omega (arith, l, m), o, h, b, (λ e. absurd (false≢true e)), ground (arith, l, m))
