-- ===== src/Magnum/Packet.antt =====
-- What a packet of the bus is: the packet types of src/magnum/mag_frame.h, and the tests on single
-- packets of src/magnum/mag_frame.c.
--
-- A pointer into the buffer is the list of the bytes from there on.
use moon_flare.Magnum.Tables.{model_known, stackmode_known, multiplier}
use moon_flare.Prelude.{
  ℕ, ◌+◌, ◌-◌, ◌*◌, Bool, true, false, ◌&&◌, ◌||◌, get_or, Bytes, ltb, leb, ◌==◌, if◌then◌else◌,
}
use moon_flare.Prelude.Int.{ℤ, pos, negsuc}

-- `mag_pkt_t`
pub data Kind : Type 0 where
  unknown inverter remote ags_a1 ags_a2 bmk_81 rtr_91 pt_c1 pt_c2 pt_c3 acld_d1 : Kind

-- The number that the enumeration gives a type.
abbrev pub kind_code : Kind → ℕ
kind_code unknown = 0
kind_code inverter = 1
kind_code remote = 2
kind_code ags_a1 = 3
kind_code ags_a2 = 4
kind_code bmk_81 = 5
kind_code rtr_91 = 6
kind_code pt_c1 = 7
kind_code pt_c2 = 8
kind_code pt_c3 = 9
kind_code acld_d1 = 10

abbrev pub is_unknown : Kind → Bool
is_unknown k = kind_code k == 0

-- `MAG_PKT_COUNT`
abbrev pub kind_count : ℕ
kind_count = 11

-- `MAG_INV_LEN`
abbrev pub inv_len : ℕ
inv_len = 21

-- `MAG_REMOTE_LEN`
abbrev pub remote_len : ℕ
remote_len = 21

-- `be16s`
unfoldable pub be16s : Bytes → ℕ → ℤ
be16s p i =
    let v = get_or p i 0 * 256 + get_or p (i + 1) 0 in
    if ltb v 0x8000 then pos v else negsuc (0xffff - v)

-- `mag_reply_len`
unfoldable pub reply_len : ℕ → ℕ
reply_len b =
    if b == 0x91
    then 2
    else if b == 0xa1
    then 6
    else if b == 0xa2
    then 6
    else if b == 0xd1
    then 8
    else if b == 0xc2
    then 13
    else if b == 0xc3
    then 14
    else if b == 0xc1
    then 16
    else if b == 0x81
    then 18
    else 0

unfoldable pub reply_type : ℕ → Kind
reply_type b =
    if b == 0x91
    then rtr_91
    else if b == 0xa1
    then ags_a1
    else if b == 0xa2
    then ags_a2
    else if b == 0xd1
    then acld_d1
    else if b == 0xc2
    then pt_c2
    else if b == 0xc3
    then pt_c3
    else if b == 0xc1
    then pt_c1
    else if b == 0x81
    then bmk_81
    else unknown

unfoldable pub remote_type_ok : ℕ → Bool
remote_type_ok b =
    b == 0x00
    || b == 0x11
    || b == 0x80
    || (leb 0xa0 b && leb b 0xa4)
    || (leb 0xc0 b && leb b 0xc3)
    || b == 0xd0

-- What the framer has learned of its inverter: `have_id`, `inv_model` and `inv_revision`.
pub record Identity : Type 0 where
  pub have_id : Bool
  pub inv_model : ℕ
  pub inv_revision : ℕ

unfoldable pub id_ok : Identity → Bytes → Bool
id_ok f p =
    if f.have_id
    then get_or p 14 0 == f.inv_model && get_or p 10 0 == f.inv_revision
    else model_known (get_or p 14 0) && stackmode_known (get_or p 15 0)

-- 40 to 70 Hz, or nothing.
unfoldable pub freq_ok : ℤ → Bool
freq_ok (pos n) = n == 0 || (leb 400 n && leb n 700)
freq_ok (negsuc n) = false

-- From 0 to twice the nominal voltage, in tenths of a volt.
unfoldable pub vdc_ok : ℕ → ℤ → Bool
vdc_ok mult (pos n) = leb n (120 * mult * 2)
vdc_ok mult (negsuc n) = false

-- `mag_frame_is_inverter`
unfoldable pub is_inverter : Identity → Bytes → Bool
is_inverter f p =
    get_or p 20 0 == 0x00
    && id_ok f p
    && freq_ok (be16s p 18)
    && leb (get_or p 11 0) 150
    && leb (get_or p 12 0) 150
    && leb (get_or p 13 0) 150
    && vdc_ok (multiplier (get_or p 14 0)) (be16s p 2)

-- `(int8_t)b >= 0 && (int8_t)b <= most`, where `most` is below 128.
unfoldable pub s8_within : ℕ → ℕ → Bool
s8_within b most = ltb b 128 && leb b most

unfoldable pub reply_ok : Bytes → Bool
reply_ok p =
    if get_or p 0 0 == 0xa1
    then s8_within (get_or p 1 0) 27
    else if get_or p 0 0 == 0x81
    then s8_within (get_or p 1 0) 100
    else true

-- What a receiver makes of the inverter letting go of the line.
unfoldable pub turnaround_byte : ℕ → Bool
turnaround_byte b = b == 0xff || b == 0xfe || b == 0xfc || b == 0xf8 || b == 0xf0
