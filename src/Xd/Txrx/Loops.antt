-- ===== src/Xd/Txrx/Loops.antt =====
-- What the two loops of system calls do with the script that they are given.
use moon_flare.Xd.Txrx.{
  ReadEvent, bytes, interrupted, would_block, fails, full, blocked, failed, read_loop,
}
use moon_flare.Prelude.{
  ℕ, suc, ◌+◌, ◌-◌, ◌≤◌, ◌<◌, ◌≡◌, ◌≢◌, refl, List, [], ◌∷◌, ◌++◌, arith, length, take, drop,
  take-append-drop, length-append, length-take, length-drop, append_assoc, Bytes,
}

-- The bytes that the line will still give.
abbrev pub pending : List ReadEvent → Bytes
pending [] = []
pending (bytes bs ∷ evs) = bs ++ pending evs
pending (interrupted ∷ evs) = pending evs
pending (would_block ∷ evs) = pending evs
pending (fails ∷ evs) = pending evs

-- How often a read will find nothing.
abbrev pub waits : List ReadEvent → ℕ
waits [] = 0
waits (bytes [] ∷ evs) = suc (waits evs)
waits (bytes (b ∷ bs) ∷ evs) = waits evs
waits (interrupted ∷ evs) = waits evs
waits (would_block ∷ evs) = suc (waits evs)
waits (fails ∷ evs) = waits evs

waits_of_bytes :
    (bs : Bytes) (evs : List ReadEvent) → 0 < length bs → waits (bytes bs ∷ evs) ≡ waits evs
waits_of_bytes [] evs h = absurd (omega arith)
waits_of_bytes (b ∷ bs) evs h = refl

-- No read fails.
abbrev pub IsSteady : List ReadEvent → Type 0
IsSteady [] = Unit
IsSteady (bytes bs ∷ evs) = IsSteady evs
IsSteady (interrupted ∷ evs) = IsSteady evs
IsSteady (would_block ∷ evs) = IsSteady evs
IsSteady (fails ∷ evs) = ⊥

-- No byte is lost, invented or put out of order.
pub read_loop-pending :
    (need : ℕ) (got : Bytes) (evs : List ReadEvent)
    → (read_loop need got evs).1 ++ pending (read_loop need got evs).2 ≡ got ++ pending evs
unfolding read_loop
read_loop-pending need got [] = ground arith
read_loop-pending need got (bytes [] ∷ evs) = ground arith
read_loop-pending need got (bytes (b ∷ bs) ∷ evs) = ground (
  arith,
  read_loop-pending need (got ++ (b ∷ bs)) evs,
  append_assoc got (b ∷ bs) (pending evs),
  append_assoc got (take (need - length got) (b ∷ bs))
      (drop (need - length got) (b ∷ bs) ++ pending evs),
  append_assoc (take (need - length got) (b ∷ bs)) (drop (need - length got) (b ∷ bs))
      (pending evs),
  take-append-drop (need - length got) (b ∷ bs),
)
read_loop-pending need got (interrupted ∷ evs) = ground (arith, read_loop-pending need got evs)
read_loop-pending need got (would_block ∷ evs) = ground arith
read_loop-pending need got (fails ∷ evs) = ground arith

-- The buffer is never filled past `need`, and is full exactly when the loop says so.
pub read_loop_fits :
    (need : ℕ) (got : Bytes) (evs : List ReadEvent)
    → length got ≤ need
    → (length (read_loop need got evs).1 ≤ need)
      × ((read_loop need got evs).0 ≡ full → length (read_loop need got evs).1 ≡ need)
      × ((read_loop need got evs).0 ≢ full → length (read_loop need got evs).1 < need)
unfolding read_loop
read_loop_fits need got [] h = ground arith
read_loop_fits need got (bytes [] ∷ evs) h = ground arith
read_loop_fits need got (bytes (b ∷ bs) ∷ evs) h = ground (
  arith,
  read_loop_fits need (got ++ (b ∷ bs)) evs,
  length-append got (b ∷ bs),
  length-append got (take (need - length got) (b ∷ bs)),
  length-take (need - length got) (b ∷ bs),
)
read_loop_fits need got (interrupted ∷ evs) h = ground (arith, read_loop_fits need got evs)
read_loop_fits need got (would_block ∷ evs) h = ground arith
read_loop_fits need got (fails ∷ evs) h = ground arith

-- A loop over a steady line fails never, and blocks only at a wait, or when the line has run dry.
pub read_loop-IsSteady :
    (need : ℕ) (got : Bytes) (evs : List ReadEvent)
    → IsSteady evs
    → ((read_loop need got evs).0 ≢ failed)
      × IsSteady (read_loop need got evs).2
      × (waits (read_loop need got evs).2 ≤ waits evs)
      × ((read_loop need got evs).0 ≡ blocked
          → need ≤ length got + length (pending evs)
          → waits (read_loop need got evs).2 < waits evs)
unfolding read_loop
read_loop-IsSteady need got [] h = ground arith
read_loop-IsSteady need got (bytes [] ∷ evs) h = ground arith
read_loop-IsSteady need got (bytes (b ∷ bs) ∷ evs) h = ground (
  arith,
  read_loop-IsSteady need (got ++ (b ∷ bs)) evs,
  length-append got (b ∷ bs),
  length-append bs (pending evs),
  length-drop (need - length got) (b ∷ bs),
  waits_of_bytes (drop (need - length got) (b ∷ bs)) evs,
)
read_loop-IsSteady need got (interrupted ∷ evs) h = ground (arith, read_loop-IsSteady need got evs)
read_loop-IsSteady need got (would_block ∷ evs) h = ground arith
read_loop-IsSteady need got (fails ∷ evs) h = elim h [ ]
