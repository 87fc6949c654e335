-- ===== src/Classic/Codec/Laws.antt =====
-- When `classic_decode` accepts the registers, and what its reading tells of them.
use moon_flare.Classic.Codec.{
  ok, type_mismatch, missing_reg, Reading, read, to_i16, high_byte, low_byte, pair, fields,
  decode_regs, decode, reg_classic_name, expected_name, reg_batt_voltage, reg_ibatt, reg_kwh_today,
  reg_watts, reg_charge_stage, reg_ah_today, reg_lifetime_kwh_lo, reg_lifetime_kwh_hi,
  reg_unit_mac_lo, reg_unit_mac_mid, reg_unit_mac_hi, reg_device_id_lo, reg_device_id_hi, stage,
  Stage, resting, absorb, bulk_mppt, float, float_mppt, equalize, hypervoc, eqmppt, other,
}
use moon_flare.Prelude.{
  ℕ, zero, suc, ◌+◌, ◌-◌, ◌*◌, ◌/◌, ◌≤◌, ◌<◌, ◌≡◌, ◌≢◌, ◌↔◌, refl, ◌∙◌, List, [], ◌∷◌, some, length,
  get_or, All, arith, ltb, ◌==◌, dec_le, ℕ_discrete, if_elim,
}
use moon_flare.Prelude.Int.{ℤ, pos, negsuc}
use moon_flare.Prelude.Bits.{and_mask, or_low}

read_in : (regs : List ℕ) (addr : ℕ) → addr < length regs → read regs addr ≡ ok (get_or regs addr 0)
unfolding read
read_in [] addr h = absurd (omega arith)
read_in (r ∷ rs) zero h = refl
read_in (r ∷ rs) (suc addr) h = read_in rs addr (omega arith)

abbrev AreWords : List ℕ → Type 0
AreWords = All (λ r. r < 65536)

-- Every register is a 16-bit number.
unfoldable pub IsImage : List ℕ → Type 0
IsImage = AreWords

word : (regs : List ℕ) (i : ℕ) → AreWords regs → get_or regs i 0 < 65536
word [] i h = omega arith
word (r ∷ rs) zero (h, t) = h
word (r ∷ rs) (suc i) (h, t) = word rs i t

-- The word that a signed number is in two's complement.
abbrev pub word_of : ℤ → ℕ
word_of (pos n) = n
word_of (negsuc n) = 0xffff - n

word_of-to_i16 : (v : ℕ) → v < 65536 → word_of (to_i16 v) ≡ v
unfolding to_i16
word_of-to_i16 v h =
    if_elim (λ z. word_of z ≡ v) (ltb v 0x8000) (pos v) (negsuc (0xffff - v)) (λ k. refl)
      (λ k. omega arith)

pair-sum : (hi lo : ℕ) → lo < 65536 → pair hi lo ≡ hi * 65536 + lo
unfolding pair
pair-sum hi lo h = or_low 16 hi lo h

bytes-sum : (v : ℕ) → v < 65536 → high_byte v * 256 + low_byte v ≡ v
unfolding high_byte low_byte
bytes-sum v h = omega (arith, and_mask 8 (v / 256), and_mask 8 v)

-- The code of a charge stage.
abbrev pub code_of : Stage → ℕ
code_of resting = 0
code_of absorb = 3
code_of bulk_mppt = 4
code_of float = 5
code_of float_mppt = 6
code_of equalize = 7
code_of hypervoc = 10
code_of eqmppt = 18
code_of (other n) = n

-- A stage without a name has none of the codes that have one.
abbrev pub IsNamed : Stage → Type 0
IsNamed (other n) =
    All (λ s. n ≢ code_of s)
      (resting ∷ absorb ∷ bulk_mppt ∷ float ∷ float_mppt ∷ equalize ∷ hypervoc ∷ eqmppt ∷ [])
IsNamed resting = Unit
IsNamed absorb = Unit
IsNamed bulk_mppt = Unit
IsNamed float = Unit
IsNamed float_mppt = Unit
IsNamed equalize = Unit
IsNamed hypervoc = Unit
IsNamed eqmppt = Unit

stage_lem : (n : ℕ) → (code_of (stage n) ≡ n) × IsNamed (stage n)
unfolding stage
stage_lem n =
    let P : Stage → Type 0 = λ s. (code_of s ≡ n) × IsNamed s in
    if_elim P (n == 0) _ _ (λ t. (ground arith, tt))
      (λ e0.
        if_elim P (n == 3) _ _ (λ t. (ground arith, tt))
          (λ e1.
            if_elim P (n == 4) _ _ (λ t. (ground arith, tt))
              (λ e2.
                if_elim P (n == 5) _ _ (λ t. (ground arith, tt))
                  (λ e3.
                    if_elim P (n == 6) _ _ (λ t. (ground arith, tt))
                      (λ e4.
                        if_elim P (n == 7) _ _ (λ t. (ground arith, tt))
                          (λ e5.
                            if_elim P (n == 10) _ _ (λ t. (ground arith, tt))
                              (λ e6.
                                if_elim P (n == 18) _ _ (λ t. (ground arith, tt))
                                  (λ e7. (
                                    refl,
                                    (
                                      ground arith,
                                      (
                                        ground arith,
                                        (
                                          ground arith,
                                          (
                                            ground arith,
                                            (
                                              ground arith,
                                              (ground arith, (ground arith, (ground arith, tt))),
                                            ),
                                          ),
                                        ),
                                      ),
                                    ),
                                  )))))))))

-- What a reading tells of the registers.
pub record Reads (regs : List ℕ) (r : Reading) : Type 0 where
  pub name : r.classic_name ≡ expected_name
  pub volts : r.battery_voltage ≡ get_or regs reg_batt_voltage 0
  pub current : word_of r.ibatt_raw ≡ get_or regs reg_ibatt 0
  pub today : r.kwh_today ≡ get_or regs reg_kwh_today 0
  pub power : r.watts ≡ get_or regs reg_watts 0
  pub charge : r.ah_today ≡ get_or regs reg_ah_today 0
  pub lifetime :
      r.lifetime_kwh ≡ get_or regs reg_lifetime_kwh_hi 0 * 65536 + get_or regs reg_lifetime_kwh_lo 0
  pub device : r.device_id ≡ get_or regs reg_device_id_hi 0 * 65536 + get_or regs reg_device_id_lo 0
  pub mac_hi : get_or r.unit_mac 0 0 * 256 + get_or r.unit_mac 1 0 ≡ get_or regs reg_unit_mac_hi 0
  pub mac_mid : get_or r.unit_mac 2 0 * 256 + get_or r.unit_mac 3 0 ≡ get_or regs reg_unit_mac_mid 0
  pub mac_lo : get_or r.unit_mac 4 0 * 256 + get_or r.unit_mac 5 0 ≡ get_or regs reg_unit_mac_lo 0
  pub stage_code : r.charge_stage_msb ≡ get_or regs reg_charge_stage 0 / 256
  pub staged : code_of r.charge_stage ≡ get_or regs reg_charge_stage 0 / 256
  pub named : IsNamed r.charge_stage

high_byte-div : (v : ℕ) → v < 65536 → high_byte v ≡ v / 256
unfolding high_byte
high_byte-div v h = omega (arith, and_mask 8 (v / 256))

-- The reading of registers that are all there.
abbrev reading : List ℕ → ℕ → Reading
reading regs name =
    let at : ℕ → ℕ = λ i. get_or regs i 0 in
    record {
      battery_voltage = at reg_batt_voltage;
      ibatt_raw = to_i16 (at reg_ibatt);
      kwh_today = at reg_kwh_today;
      watts = at reg_watts;
      ah_today = at reg_ah_today;
      lifetime_kwh = pair (at reg_lifetime_kwh_hi) (at reg_lifetime_kwh_lo);
      charge_stage = stage (high_byte (at reg_charge_stage));
      charge_stage_msb = high_byte (at reg_charge_stage);
      unit_mac =
          high_byte (at reg_unit_mac_hi)
          ∷ low_byte (at reg_unit_mac_hi)
          ∷ high_byte (at reg_unit_mac_mid)
          ∷ low_byte (at reg_unit_mac_mid)
          ∷ high_byte (at reg_unit_mac_lo)
          ∷ low_byte (at reg_unit_mac_lo)
          ∷ [];
      device_id = pair (at reg_device_id_hi) (at reg_device_id_lo);
      classic_name = name;
    }

fields_whole :
    (regs : List ℕ) (name : ℕ)
    → reg_classic_name < length regs
    → fields regs name ≡ ok (reading regs name)
unfolding fields
fields_whole regs name h =
    let volts = read_in regs reg_batt_voltage (omega arith) in
    let ibatt = read_in regs reg_ibatt (omega arith) in
    let kwh = read_in regs reg_kwh_today (omega arith) in
    let watts = read_in regs reg_watts (omega arith) in
    let st = read_in regs reg_charge_stage (omega arith) in
    let ah = read_in regs reg_ah_today (omega arith) in
    let low = read_in regs reg_lifetime_kwh_lo (omega arith) in
    let high = read_in regs reg_lifetime_kwh_hi (omega arith) in
    let mac_a = read_in regs reg_unit_mac_lo (omega arith) in
    let mac_b = read_in regs reg_unit_mac_mid (omega arith) in
    let mac_c = read_in regs reg_unit_mac_hi (omega arith) in
    let id_lo = read_in regs reg_device_id_lo (omega arith) in
    let id_hi = read_in regs reg_device_id_hi (omega arith) in
    rw (volts, ibatt, kwh, watts, st, ah, low, high, mac_a, mac_b, mac_c, id_lo, id_hi) refl

reading-Reads : (regs : List ℕ) → AreWords regs → Reads regs (reading regs expected_name)
reading-Reads regs h = record {
  name = refl;
  volts = refl;
  current = word_of-to_i16 (get_or regs reg_ibatt 0) (word regs reg_ibatt h);
  today = refl;
  power = refl;
  charge = refl;
  lifetime =
      pair-sum (get_or regs reg_lifetime_kwh_hi 0) (get_or regs reg_lifetime_kwh_lo 0)
        (word regs reg_lifetime_kwh_lo h);
  device =
      pair-sum (get_or regs reg_device_id_hi 0) (get_or regs reg_device_id_lo 0)
        (word regs reg_device_id_lo h);
  mac_hi = bytes-sum (get_or regs reg_unit_mac_hi 0) (word regs reg_unit_mac_hi h);
  mac_mid = bytes-sum (get_or regs reg_unit_mac_mid 0) (word regs reg_unit_mac_mid h);
  mac_lo = bytes-sum (get_or regs reg_unit_mac_lo 0) (word regs reg_unit_mac_lo h);
  stage_code = high_byte-div (get_or regs reg_charge_stage 0) (word regs reg_charge_stage h);
  staged =
      (stage_lem (high_byte (get_or regs reg_charge_stage 0))).0
      ∙ high_byte-div (get_or regs reg_charge_stage 0) (word regs reg_charge_stage h);
  named = (stage_lem (high_byte (get_or regs reg_charge_stage 0))).1;
}

read_out : (regs : List ℕ) (addr : ℕ) → length regs ≤ addr → read regs addr ≡ missing_reg
unfolding read
read_out [] addr h = refl
read_out (r ∷ rs) zero h = absurd (omega arith)
read_out (r ∷ rs) (suc addr) h = read_out rs addr (omega arith)

decode-short : (regs : List ℕ) → length regs ≤ reg_classic_name → decode (some regs) ≡ missing_reg
unfolding decode decode_regs
decode-short regs l = rw (read_out regs reg_classic_name l) refl

decode-foreign :
    (regs : List ℕ)
    → reg_classic_name < length regs
    → get_or regs reg_classic_name 0 ≢ expected_name
    → decode (some regs) ≡ type_mismatch
unfolding decode decode_regs
decode-foreign regs l n = rw (read_in regs reg_classic_name l) (
    if_elim (λ q. q ≡ type_mismatch) (get_or regs reg_classic_name 0 == expected_name) _ _
      (λ e. absurd (n (ground arith))) (λ e. refl))

decode-whole :
    (regs : List ℕ)
    → reg_classic_name < length regs
    → get_or regs reg_classic_name 0 ≡ expected_name
    → decode (some regs) ≡ ok (reading regs expected_name)
unfolding decode decode_regs
decode-whole regs l e =
    rw (read_in regs reg_classic_name l, e, fields_whole regs expected_name l) refl

-- `classic_decode` on an array of 16-bit registers that reaches register 4209, where "LC" stands,
-- succeeds, and the reading gives back every register it was made from, the signed current and the
-- two 32-bit numbers included, but of register 4119, the charge stage, only the high byte. The stage
-- is the one with that code, and nameless only if no stage has it.
pub decode-Reads :
    (regs : List ℕ)
    → IsImage regs
    → reg_classic_name < length regs
    → get_or regs reg_classic_name 0 ≡ expected_name
    → (r : Reading) × (decode (some regs) ≡ ok r) × Reads regs r
unfolding IsImage
decode-Reads regs h l e = (reading regs expected_name, decode-whole regs l e, reading-Reads regs h)

-- `classic_decode` on any array reports a missing register exactly if the array ends before register
-- 4209, and a wrong type exactly if it does not, and "LC" is not in that register.
pub decode_iff :
    (regs : List ℕ)
    → ((decode (some regs) ≡ missing_reg) ↔ (length regs ≤ reg_classic_name))
      × ((decode (some regs) ≡ type_mismatch)
          ↔ ((reg_classic_name < length regs) × (get_or regs reg_classic_name 0 ≢ expected_name)))
decode_iff regs = elim (dec_le (length regs) reg_classic_name) [
  | yes l ↦ (let d = decode-short regs l in rw d (ground arith))
  | no l ↦ elim (ℕ_discrete (get_or regs reg_classic_name 0) expected_name) [
    | yes e ↦ (let d = decode-whole regs (omega arith) e in rw d (ground arith))
    | no n ↦ (let d = decode-foreign regs (omega arith) n in rw d (ground arith))
  ]
]
