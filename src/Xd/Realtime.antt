-- ===== src/Xd/Realtime.antt =====
-- `bms_parse_realtime` and `bms_flag_set` of src/xd/bms_proto.c.
--
-- Every read of the payload goes through `byte`, so that a read past the buffer shows. A double is
-- the whole number that the code divides: volts are millivolts or hundredths, a capacity, a
-- percentage or a current is in hundredths, and `remaining_capacity_ah` in millionths.
pub mod Safety
pub mod Overrun
use moon_flare.Prelude.Int.{ℤ, sub_ℕ}
use moon_flare.Prelude.{
  ℕ, zero, suc, ◌+◌, ◌-◌, ◌*◌, ◌%◌, ◌^◌, List, [], ◌∷◌, ◌++◌, Bool, not, ◌||◌, bit_and, bit_or,
  none, some, get_elem?, ltb, leb, ◌==◌, if◌then◌else◌, Bytes,
}

-- The return value 0 with what is in `*r` then, the return value -1, or a read past the buffer.
pub data Parse {ℓ} (A : Type ℓ) : Type ℓ where
  ok : A → Parse A
  rejected : Parse A
  overrun : Parse A

infixl 5 ◌>>=◌ ◌>>◌
abbrev pub ◌>>=◌ {ℓ κ} : {A : Type ℓ} {B : Type κ} → Parse A → (A → Parse B) → Parse B
ok a >>= f = f a
rejected >>= f = rejected
overrun >>= f = overrun

abbrev pub ◌>>◌ {ℓ} : {B : Type ℓ} → Parse (Unit {0}) → Parse B → Parse B
m >> k = m >>= λ _. k

abbrev pub reject_if : Bool → Parse (Unit {0})
reject_if bad = if bad then rejected else ok tt

pub record Cell : Type 0 where
  pub millivolts : ℕ
  pub balancing : Bool

-- `bms_realtime_t`
pub record Realtime : Type 0 where
  pub cell_count : ℕ
  pub temp_count : ℕ
  pub cells : List Cell
  pub temperatures : List ℤ
  pub current : ℤ
  pub soc : ℕ
  pub soh : ℕ
  pub full_capacity : ℕ
  pub remaining_capacity : ℕ
  pub pack_voltage : ℕ
  pub cycles : ℕ
  pub raw_status : Bytes

pub byte : Bytes → ℕ → Parse ℕ
byte b i = elim (get_elem? b i) [ none ↦ overrun | some x ↦ ok x ]

-- `(b[i] << 8) | b[i + 1]`
pub word : Bytes → ℕ → Parse ℕ
unfolding byte
word b i = do hi ← byte b i; lo ← byte b (i + 1); ok (bit_or (hi * 2 ^ 8) lo)

-- The sensors that a count stands for: an implausible one is 5, and there is room for 8.
pub clamp_temps : ℕ → ℕ
clamp_temps t = let t' = if ltb t 2 || ltb 6 t then 5 else t in if ltb 8 t' then 8 else t'

-- The counts of cells and of sensors, up to the first writes to `*r`.
pub counts : Bytes → ℕ → Parse (ℕ × ℕ)
unfolding byte clamp_temps
counts b len = do
  reject_if (ltb len 2)
  n ← byte b 1
  reject_if (n == 0 || ltb 32 n)
  reject_if (leb len (15 + 2 * n))
  t ← byte b (15 + 2 * n)
  ok (n, clamp_temps t)

pub cell_of : ℕ → ℕ → Cell
cell_of hi lo = record {
  millivolts = bit_or (bit_and hi 0x1f * 2 ^ 8) lo;
  balancing = not (bit_and hi 0x80 == 0);
}

-- The cells from index `i` on.
pub read_cells : Bytes → ℕ → ℕ → Parse (List Cell)
unfolding byte cell_of
read_cells b zero i = ok []
read_cells b (suc n) i = do
  hi ← byte b (2 * i + 2)
  lo ← byte b (2 * i + 3)
  cells ← read_cells b n (i + 1)
  ok (cell_of hi lo ∷ cells)

-- The sensors from index `i` on, of a pack of `n` cells.
pub read_temps : Bytes → ℕ → ℕ → ℕ → Parse (List ℤ)
unfolding byte
read_temps b n zero i = ok []
read_temps b n (suc t) i = do
  x ← byte b (17 + 2 * n + 2 * i)
  temps ← read_temps b n t (i + 1)
  ok (sub_ℕ x 50 ∷ temps)

-- memcpy of `count` bytes from `i` on
pub copy : Bytes → ℕ → ℕ → Parse Bytes
unfolding byte
copy b zero i = ok []
copy b (suc count) i = do x ← byte b i; xs ← copy b count (i + 1); ok (x ∷ xs)

-- A status byte that older packs do not send.
pub late_status : Bytes → ℕ → ℕ → Parse ℕ
unfolding byte
late_status b len i = let x = byte b i in if ltb i len then x else ok 0

-- The fields of the whole pack, behind `base` bytes of cells and sensors.
pub pack_fields : Bytes → ℕ → ℕ → Parse (ℕ × ℕ × ℕ × Bytes)
unfolding word copy late_status
pack_fields b len base = do
  reject_if (leb len (39 + base))
  cycles ← word b (30 + base)
  volts ← word b (34 + base)
  soh ← word b (38 + base)
  status ← copy b 10 (18 + base)
  s10 ← late_status b len (42 + base)
  s11 ← late_status b len (43 + base)
  ok (cycles % 2 ^ 16, volts, soh, status ++ (s10 ∷ s11 ∷ []))

unfoldable pub parse_realtime : Bytes → ℕ → Parse Realtime
unfolding counts read_cells read_temps word pack_fields
parse_realtime b len = do
  (n, t) ← counts b len
  cells ← read_cells b n 0
  raw ← word b (4 + 2 * n)
  soc ← word b (8 + 2 * n)
  full ← word b (12 + 2 * n)
  temps ← read_temps b n t 0
  (cycles, volts, soh, status) ← pack_fields b len (2 * n + 2 * t)
  ok (record {
    cell_count = n;
    temp_count = t;
    cells = cells;
    temperatures = temps;
    current = sub_ℕ 30000 (raw % 2 ^ 16);
    soc = soc;
    soh = soh;
    full_capacity = full;
    remaining_capacity = full * soc;
    pack_voltage = volts;
    cycles = cycles;
    raw_status = status;
  })
