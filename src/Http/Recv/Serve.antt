-- ===== src/Http/Recv/Serve.antt =====
-- No buffer of a connection of src/http/http_pt.c overflows.
use moon_flare.Prelude.{ℕ, ◌≤◌, ◌≡◌, List, length, Bytes}
use moon_flare.Http.Conn.{Conn, Parsed}

-- What picohttpparser promises: a header is not longer than what it was read from.
abbrev pub StaysInside : (Bytes → ℕ → Parsed) → Type 0
StaysInside parse =
    (v : Bytes) (l n minor : ℕ) (method path : Bytes) (headers : List (Bytes × Bytes))
    → parse v l ≡ Parsed.request n method path minor headers
    → n ≤ length v
