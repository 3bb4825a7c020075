-- ===== src/Drivers.antt =====
-- guest/hypercall/hvc_drivers.c: the state that the guests' virtual drivers leave with the
-- hypervisor, and the hypercalls that write and read it. The log of a context switch is not
-- modelled.
pub mod Update
pub mod Obd
pub mod DmaXfer
mod Tests
use hypervisor_base.Common.{
  ℕ, ◌+◌, ◌-◌, ◌*◌, ◌/◌, ◌%◌, Bool, true, false, List, [], ◌∷◌, some, none, Option, ◌==◌, ltb, leb,
  if◌then◌else◌, get_or, set, u32, u64, bit_or, shl16, shl32, shl48, Err, e_ok, e_inval, e_denied,
}

-- `hyp_fuel_state_t`
pub record Fuel : Type 0 where
  pub rpm : ℕ
  pub injection_us : ℕ
  pub coolant_c : ℕ
  pub throttle_pct : ℕ
  pub map_kpa : ℕ
  pub lambda_x100 : ℕ
  pub cyl_status : ℕ
  pub inj_count : ℕ
  pub fault_code : ℕ
  pub seq : ℕ
  pub valid : Bool

-- `hyp_audio_state_t`
pub record Audio : Type 0 where
  pub frames_played : ℕ
  pub frames_dropped : ℕ
  pub latency_ms : ℕ
  pub playing : Bool
  pub valid : Bool

-- `obd_shmem_t`: the words at `OBD_SHMEM_PA`, which Linux reads
pub record ObdShmem : Type 0 where
  pub magic : ℕ
  pub rpm : ℕ
  pub speed_kmh : ℕ
  pub coolant_c : ℕ
  pub throttle_pct : ℕ
  pub map_kpa : ℕ
  pub dtc_count : ℕ
  pub dtc_code : ℕ
  pub seq : ℕ
  pub cyl_status : ℕ
  pub inj_count : ℕ

-- `g_fuel`, `g_audio` and the shared words
pub record Drivers : Type 0 where
  pub fuel : Fuel
  pub audio : Audio
  pub obd : ObdShmem

-- `x[1]` to `x[4]` as the fields of `g_fuel`
pub unpack_fuel : ℕ → ℕ → ℕ → ℕ → Fuel
unpack_fuel x1 x2 x3 x4 = record {
  rpm = x1 % 65536;
  injection_us = x1 / 65536 % 65536;
  coolant_c = x1 / 4294967296 % 65536;
  throttle_pct = x1 / 281474976710656 % 65536;
  map_kpa = x4 % 65536;
  lambda_x100 = x3 / 4294967296 % 65536;
  cyl_status = x2 % 16;
  inj_count = x2 / 256 % 16777216;
  fault_code = x2 / 4294967296 % 65536;
  seq = x3 % 4294967296;
  valid = true;
}

pub export_obd : Fuel → ObdShmem
export_obd f = record {
  magic = 0x4f424400;
  rpm = f.rpm;
  speed_kmh = f.rpm / 37;
  coolant_c = f.coolant_c;
  throttle_pct = f.throttle_pct;
  map_kpa = f.map_kpa;
  dtc_count = if f.fault_code == 0 then 0 else 1;
  dtc_code = f.fault_code;
  seq = f.seq;
  cyl_status = f.cyl_status;
  inj_count = f.inj_count;
}

unfoldable pub hvc_fuel_update : Drivers → List ℕ → Drivers × List ℕ
unfolding unpack_fuel export_obd
hvc_fuel_update d x =
    let f = unpack_fuel (get_or x 1 0) (get_or x 2 0) (get_or x 3 0) (get_or x 4 0) in
    (record d { fuel = f; obd = export_obd f }, set x 0 0)

pub speed_of : ℕ → ℕ
speed_of rpm = if ltb 250 (rpm / 37) then 250 else rpm / 37

-- on u32: below a lambda of 0.10 the difference wraps around
pub o2_mv_of : ℕ → ℕ
o2_mv_of l =
    if leb 100 l then u32 (450 + u32 ((l - 100) * 3)) else u32 (450 + (4294967296 - (100 - l) * 5))

pub obd_word1 : Fuel → ℕ
unfolding speed_of
obd_word1 f =
    bit_or (bit_or (bit_or f.rpm (shl16 (speed_of f.rpm))) (shl32 f.coolant_c))
      (shl48 f.throttle_pct)

pub obd_word2 : Fuel → ℕ
unfolding o2_mv_of
obd_word2 f =
    bit_or
      (bit_or (bit_or f.map_kpa (shl16 (o2_mv_of f.lambda_x100)))
        (shl32 (if f.fault_code == 0 then 0 else 1)))
      (shl48 f.fault_code)

unfoldable pub hvc_obd_read_all : Drivers → List ℕ → List ℕ
unfolding obd_word1 obd_word2
hvc_obd_read_all d x =
    if d.fuel.valid
    then set (set (set (set x 1 (obd_word1 d.fuel)) 2 (obd_word2 d.fuel)) 3 d.fuel.seq) 0 0
    else set (set (set (set x 0 0) 3 0) 2 0) 1 0

pub pid_value : Fuel → ℕ → ℕ
pid_value f pid =
    if pid == 0x0c
    then f.rpm
    else if pid == 0x0d
    then f.rpm / 37
    else if pid == 0x05
    then f.coolant_c
    else if pid == 0x11
    then f.throttle_pct
    else if pid == 0x0b
    then f.map_kpa
    else if pid == 0x01
    then (if f.fault_code == 0 then 0 else 1)
    else 0xffffffff

unfoldable pub hvc_obd_read_pid : Drivers → List ℕ → List ℕ
unfolding pid_value
hvc_obd_read_pid d x =
    set x 0 (if d.fuel.valid then pid_value d.fuel (u32 (get_or x 1 0)) else 0xffffffff)

unfoldable pub hvc_audio_status : Drivers → List ℕ → Drivers × List ℕ
hvc_audio_status d x = (
  record d {
    audio = record {
      frames_played = u32 (get_or x 1 0);
      frames_dropped = u32 (get_or x 2 0);
      latency_ms = u32 (get_or x 3 0);
      playing = true;
      valid = true;
    };
  },
  set x 0 0,
)

unfoldable pub hvc_audio_play : Drivers → List ℕ → Drivers × List ℕ
hvc_audio_play d x =
    (record d { audio = record d.audio { playing = true; valid = true } }, set x 0 0)

unfoldable pub hvc_audio_stop : Drivers → List ℕ → Drivers × List ℕ
hvc_audio_stop d x = (record d { audio = record d.audio { playing = false } }, set x 0 0)
