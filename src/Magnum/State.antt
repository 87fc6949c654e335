-- ===== src/Magnum/State.antt =====
-- The state that the packets build: the records of src/magnum/mag_decode.h.
--
-- A double of the code is a number of tenths, or of hundredths for the voltages of the battery
-- monitor; `nominal_voltage` is in volts. Times are in microseconds.
use moon_flare.Prelude.Int.{ℤ, pos}
use moon_flare.Prelude.{ℕ, Bool, false}

-- `mag_inverter_t`
pub record Inverter : Type 0 where
  pub seen : Bool
  pub t : ℕ
  pub mode : ℕ
  pub fault : ℕ
  pub dc_voltage : ℤ
  pub dc_current : ℤ
  pub ac_out_v : ℕ
  pub ac_in_v : ℕ
  pub ac_in_a : ℕ
  pub ac_out_a : ℕ
  pub invled : Bool
  pub chgled : Bool
  pub revision : ℕ
  pub bat_temp : ℕ
  pub tfmr_temp : ℕ
  pub fet_temp : ℕ
  pub model : ℕ
  pub stackmode : ℕ
  pub freq : ℤ

-- `mag_remote_t`, first what every packet has, then what each type has.
pub record Remote : Type 0 where
  pub seen : Bool
  pub t : ℕ
  pub revision : ℕ
  pub search_w : ℕ
  pub battery_type : ℕ
  pub absorb_v : ℕ
  pub charge_rate : ℕ
  pub ac_input_a : ℤ
  pub parallel : ℕ
  pub lbco_v : ℕ
  pub ac_cutout_v : ℕ
  pub float_v : ℕ
  pub eq_v : ℕ
  pub absorb_time : ℕ
  pub have_80 : Bool
  pub battery_size : ℕ
  pub battery_efficiency : ℤ
  pub have_clock : Bool
  pub clock_min : ℤ
  pub have_a0 : Bool
  pub gen_run_time : ℕ
  pub gen_start_temp : ℤ
  pub gen_start_v : ℕ
  pub quiet_time : ℕ
  pub have_a1 : Bool
  pub gen_start_time_min : ℕ
  pub gen_stop_time_min : ℕ
  pub gen_stop_v : ℕ
  pub gen_volt_start_delay_s : ℕ
  pub gen_volt_stop_delay_s : ℕ
  pub gen_max_run : ℕ
  pub have_a2 : Bool
  pub gen_soc_start : ℤ
  pub gen_soc_stop : ℤ
  pub gen_amp_start_a : ℕ
  pub gen_amp_start_delay_s : ℕ
  pub gen_amp_stop_a : ℕ
  pub gen_amp_stop_delay_s : ℕ
  pub have_a3 : Bool
  pub quiet_begin_min : ℕ
  pub quiet_end_min : ℕ
  pub exercise_start_min : ℕ
  pub exercise_run_time : ℕ
  pub gen_topoff : ℕ
  pub have_a4 : Bool
  pub gen_warmup_s : ℕ
  pub gen_cooldown_s : ℕ

-- `mag_ags_t`
pub record Ags : Type 0 where
  pub seen : Bool
  pub t : ℕ
  pub have_a1 : Bool
  pub have_a2 : Bool
  pub revision : ℕ
  pub status : ℤ
  pub running : Bool
  pub temp_valid : Bool
  pub temp : ℤ
  pub run_time : ℕ
  pub battery_voltage : ℕ
  pub last_run : ℕ
  pub last_full_soc : ℕ
  pub total_run : ℕ

-- `mag_bmk_t`
pub record Bmk : Type 0 where
  pub seen : Bool
  pub t : ℕ
  pub revision : ℕ
  pub soc : ℤ
  pub battery_voltage : ℕ
  pub battery_current : ℤ
  pub battery_voltage_min : ℕ
  pub battery_voltage_max : ℕ
  pub net_ah : ℤ
  pub trip_ah : ℕ
  pub lifetime_ah : ℕ
  pub fault : ℕ

-- `mag_rtr_t`
pub record Router : Type 0 where
  pub seen : Bool
  pub t : ℕ
  pub revision : ℕ

-- `mag_pt100_t`
pub record Pt100 : Type 0 where
  pub seen : Bool
  pub t : ℕ
  pub have_c1 : Bool
  pub have_c2 : Bool
  pub address : ℕ
  pub mode : ℕ
  pub regulation : ℕ
  pub fault : ℕ
  pub battery_voltage : ℕ
  pub battery_current : ℤ
  pub pv_voltage : ℕ
  pub charge_time : ℕ
  pub target_voltage : ℕ
  pub relay_on : ℕ
  pub alarm_on : ℕ
  pub fan_on : ℕ
  pub is_day : ℕ
  pub bat_temp_valid : Bool
  pub bat_temp : ℕ
  pub inductor_temp : ℕ
  pub fet_temp : ℕ
  pub lifetime_kwh : ℕ
  pub resettable_kwh : ℕ
  pub ground_fault_current : ℕ
  pub stacker_info : ℕ
  pub nominal_voltage : ℕ
  pub dip_switches : ℕ
  pub revision : ℕ
  pub output_current_rating : ℕ
  pub input_voltage_rating : ℕ

-- `mag_acld_t`
pub record Acld : Type 0 where
  pub seen : Bool
  pub t : ℕ

-- `mag_state_t`
pub record Tap : Type 0 where
  pub inv : Inverter
  pub rem : Remote
  pub ags : Ags
  pub bmk : Bmk
  pub rtr : Router
  pub pt : Pt100
  pub acld : Acld
  pub mult : ℕ
  pub stack_locked : Bool
  pub stack_lock : ℕ
  pub other_inverter_packets : ℕ

-- All of them after memset.
abbrev pub no_inverter : Inverter
no_inverter = record {
  seen = false;
  t = 0;
  mode = 0;
  fault = 0;
  dc_voltage = pos 0;
  dc_current = pos 0;
  ac_out_v = 0;
  ac_in_v = 0;
  ac_in_a = 0;
  ac_out_a = 0;
  invled = false;
  chgled = false;
  revision = 0;
  bat_temp = 0;
  tfmr_temp = 0;
  fet_temp = 0;
  model = 0;
  stackmode = 0;
  freq = pos 0;
}

abbrev pub no_remote : Remote
no_remote = record {
  seen = false;
  t = 0;
  revision = 0;
  search_w = 0;
  battery_type = 0;
  absorb_v = 0;
  charge_rate = 0;
  ac_input_a = pos 0;
  parallel = 0;
  lbco_v = 0;
  ac_cutout_v = 0;
  float_v = 0;
  eq_v = 0;
  absorb_time = 0;
  have_80 = false;
  battery_size = 0;
  battery_efficiency = pos 0;
  have_clock = false;
  clock_min = pos 0;
  have_a0 = false;
  gen_run_time = 0;
  gen_start_temp = pos 0;
  gen_start_v = 0;
  quiet_time = 0;
  have_a1 = false;
  gen_start_time_min = 0;
  gen_stop_time_min = 0;
  gen_stop_v = 0;
  gen_volt_start_delay_s = 0;
  gen_volt_stop_delay_s = 0;
  gen_max_run = 0;
  have_a2 = false;
  gen_soc_start = pos 0;
  gen_soc_stop = pos 0;
  gen_amp_start_a = 0;
  gen_amp_start_delay_s = 0;
  gen_amp_stop_a = 0;
  gen_amp_stop_delay_s = 0;
  have_a3 = false;
  quiet_begin_min = 0;
  quiet_end_min = 0;
  exercise_start_min = 0;
  exercise_run_time = 0;
  gen_topoff = 0;
  have_a4 = false;
  gen_warmup_s = 0;
  gen_cooldown_s = 0;
}

abbrev pub no_ags : Ags
no_ags = record {
  seen = false;
  t = 0;
  have_a1 = false;
  have_a2 = false;
  revision = 0;
  status = pos 0;
  running = false;
  temp_valid = false;
  temp = pos 0;
  run_time = 0;
  battery_voltage = 0;
  last_run = 0;
  last_full_soc = 0;
  total_run = 0;
}

abbrev pub no_bmk : Bmk
no_bmk = record {
  seen = false;
  t = 0;
  revision = 0;
  soc = pos 0;
  battery_voltage = 0;
  battery_current = pos 0;
  battery_voltage_min = 0;
  battery_voltage_max = 0;
  net_ah = pos 0;
  trip_ah = 0;
  lifetime_ah = 0;
  fault = 0;
}

abbrev pub no_router : Router
no_router = record { seen = false; t = 0; revision = 0 }

abbrev pub no_pt100 : Pt100
no_pt100 = record {
  seen = false;
  t = 0;
  have_c1 = false;
  have_c2 = false;
  address = 0;
  mode = 0;
  regulation = 0;
  fault = 0;
  battery_voltage = 0;
  battery_current = pos 0;
  pv_voltage = 0;
  charge_time = 0;
  target_voltage = 0;
  relay_on = 0;
  alarm_on = 0;
  fan_on = 0;
  is_day = 0;
  bat_temp_valid = false;
  bat_temp = 0;
  inductor_temp = 0;
  fet_temp = 0;
  lifetime_kwh = 0;
  resettable_kwh = 0;
  ground_fault_current = 0;
  stacker_info = 0;
  nominal_voltage = 0;
  dip_switches = 0;
  revision = 0;
  output_current_rating = 0;
  input_voltage_rating = 0;
}

abbrev pub no_acld : Acld
no_acld = record { seen = false; t = 0 }

-- `mag_state_init`
unfoldable pub start : Tap
start = record {
  inv = no_inverter;
  rem = no_remote;
  ags = no_ags;
  bmk = no_bmk;
  rtr = no_router;
  pt = no_pt100;
  acld = no_acld;
  mult = 1;
  stack_locked = false;
  stack_lock = 0;
  other_inverter_packets = 0;
}
