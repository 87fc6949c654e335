-- ===== src/Jk/Decode/Accept.antt =====
-- The assembler and the decoders agree on what a frame is.
use moon_flare.Jk.Frame.{
  frame_size, header_rsp, crc_offset, frame_settings, frame_device_info, crc8,
}
use moon_flare.Jk.Assembler.Rounds.{IsFrame, IsKnown, IsChecked}
use moon_flare.Jk.Decode.{ok, bad_hdr, bad_type, bad_crc, accept}
use moon_flare.Prelude.{
  ℕ, ◌-◌, ◌≡◌, ◌⊎◌, ◌↔◌, refl, sym, ◌∙◌, ==_iff, Bool, true, false, not, some, length, take, get_or,
  same_bytes, same_bytes_iff, ltb, ◌==◌, arith, if◌then◌else◌, Bytes,
}

-- The four tests, on a frame of the right size, as one decision.
accept-tests :
    (f : Bytes) (type : ℕ)
    → length f ≡ frame_size
    → accept type (some f) ≡ (
        if not (same_bytes (take 4 f) header_rsp)
        then bad_hdr
        else if not (get_or f 4 0 == type)
        then bad_type
        else if not (crc8 (take (frame_size - 1) f) == get_or f crc_offset 0)
        then bad_crc
        else ok f)
unfolding accept
accept-tests f type l = let long : ltb (length f) frame_size ≡ false = rw l in rw long

-- A decoder's first tests accept a frame of the assembler if it has the decoder's type, and refuse
-- it for its type else: they find no fault with its length, header or checksum.
accept-IsFrame :
    (f : Bytes) (type : ℕ)
    → IsFrame f
    → accept type (some f) ≡ (if get_or f 4 0 == type then ok f else bad_type)
unfolding IsChecked
accept-IsFrame f type h =
    let header = (same_bytes_iff (take 4 f) header_rsp).1 h.header in
    let crc = (==_iff (crc8 (take (frame_size - 1) f)) (get_or f crc_offset 0)).1 h.checked.0 in
    accept-tests f type h.whole ∙ rw (header, crc) (type_test (get_or f 4 0 == type) f)
  where
    type_test :
        (b : Bool) (f : Bytes) → (if not b then bad_type else ok f) ≡ (if b then ok f else bad_type)
    type_test true f = refl
    type_test false f = refl

ok_tests :
    (header type crc : Bool) (f : Bytes)
    → (if not header
        then bad_hdr
        else if not type
        then bad_type
        else if not crc
        then bad_crc
        else ok f)
      ≡ ok f
    → (header ≡ true) × (type ≡ true) × (crc ≡ true)
ok_tests true true true f e = (refl, refl, refl)
ok_tests true true false f e = cc
ok_tests true false crc f e = cc
ok_tests false type crc f e = cc

IsKnown-type :
    (t type : ℕ)
    → (t == type) ≡ true
    → (type ≡ frame_settings) ⊎ (type ≡ frame_device_info)
    → IsKnown t
IsKnown-type t type e h = ground arith

-- A decoder for settings or device information takes a list of 300 bytes exactly if it is a frame
-- that the assembler hands out and has the decoder's type.
pub accept_iff :
    (f : Bytes) (type : ℕ)
    → length f ≡ frame_size
    → (type ≡ frame_settings) ⊎ (type ≡ frame_device_info)
    → (accept type (some f) ≡ ok f) ↔ (IsFrame f × (get_or f 4 0 ≡ type))
unfolding IsChecked
accept_iff f type l t = (
  λ e.
      let r = ok_tests _ _ _ f (sym (accept-tests f type l) ∙ e) in
      (
        record {
          whole = l;
          header = (same_bytes_iff (take 4 f) header_rsp).0 r.0;
          checked = (
            (==_iff (crc8 (take (frame_size - 1) f)) (get_or f crc_offset 0)).0 r.2,
            IsKnown-type (get_or f 4 0) type r.1 t,
          );
        },
        (==_iff (get_or f 4 0) type).0 r.1,
      ),
  λ (h, e). accept-IsFrame f type h ∙ rw ((==_iff (get_or f 4 0) type).1 e),
)
