-- ===== src/Rtos.antt =====
-- guests/rtos/rtos.c: the engine controller that runs as a guest, and the words in which it sends
-- its state to the hypervisor. The UART, the delays and `wfi` are not modelled.
pub mod Bounds
pub mod Words
mod Tests
use hypervisor_base.Common.{
  ℕ, zero, suc, ◌+◌, ◌-◌, ◌*◌, ◌/◌, ◌%◌, List, [], ◌∷◌, drop, Option, none, some, ◌==◌, ltb, ◌&&◌,
  if◌then◌else◌, get_or, set, u8, u32, u64, bit_or, shl16, shl32, shl48,
}

-- `drive_state_t`
pub data Drive : Type 0 where
  idle accel cruise decel : Drive

-- the globals `g_rpm` to `g_drive_tick`
pub record Engine : Type 0 where
  pub rpm : ℕ
  pub target_rpm : ℕ
  pub coolant_c : ℕ
  pub throttle : ℕ
  pub inj_count : ℕ
  pub seq : ℕ
  pub cyl_ok : List ℕ
  pub drive : Drive
  pub drive_tick : ℕ

pub boot : Engine
boot = record {
  rpm = 800;
  target_rpm = 800;
  coolant_c = 20;
  throttle = 5;
  inj_count = 0;
  seq = 0;
  cyl_ok = 1 ∷ 1 ∷ 1 ∷ 1 ∷ [];
  drive = idle;
  drive_tick = 0;
}

-- the switch of `update_drive_cycle`
pub next_drive : Engine → Drive → Engine
next_drive e idle = record e { drive = accel; target_rpm = 3200; throttle = 45 }
next_drive e accel = record e { drive = cruise; target_rpm = 2800; throttle = 30 }
next_drive e cruise = record e { drive = decel; target_rpm = 1200; throttle = 10 }
next_drive e decel = record e { drive = idle; target_rpm = 800; throttle = 5 }

pub update_drive_cycle : Engine → Engine
unfolding next_drive
update_drive_cycle e =
    let tick = u32 (e.drive_tick + 1) in
    if ltb tick 5
    then record e { drive_tick = tick }
    else next_drive (record e { drive_tick = 0 }) e.drive

-- "RPM ramping"; `- 200` wraps around
pub ramp : ℕ → ℕ → ℕ
ramp rpm target =
    if ltb rpm target
    then (if ltb target (u32 (rpm + 200)) then target else u32 (rpm + 200))
    else if ltb target rpm
    then (if ltb (u32 (rpm + 4294967096)) target then target else u32 (rpm + 4294967096))
    else rpm

pub update_engine : Engine → Engine
unfolding ramp
update_engine e =
    let rpm' = ramp e.rpm e.target_rpm in
    let coolant = if ltb e.coolant_c 95 then u32 (e.coolant_c + 2) else e.coolant_c in
    record e {
      rpm = rpm';
      coolant_c = coolant;
      inj_count = u32 (e.inj_count + u32 (rpm' * 8) / 600);
      cyl_ok = set e.cyl_ok 2 (if ltb coolant 40 && ltb 2000 rpm' then 0 else 1);
    }

pub calc_injection_us : Engine → ℕ
calc_injection_us e =
    let base = u32 (800 + u32 (e.throttle * 68)) in
    if ltb e.coolant_c 60 then u32 (base * 120) / 100 else base

-- `hvc_call`: the registers at the hypercall
unfoldable pub hvc_call : List ℕ → ℕ → ℕ → ℕ → ℕ → ℕ → List ℕ
hvc_call x id a1 a2 a3 a4 = id ∷ a1 ∷ a2 ∷ a3 ∷ a4 ∷ drop 5 x

abbrev pub hvc_fuel_update_id : ℕ
hvc_fuel_update_id = 0x60

pub cyl_bits : List ℕ → ℕ
cyl_bits c =
    bit_or (bit_or (bit_or (get_or c 0 0) (get_or c 1 0 * 2)) (get_or c 2 0 * 4)) (get_or c 3 0 * 8)

-- the argument registers x1 to x4, after `g_seq++`
pub word1 : Engine → ℕ → ℕ
word1 e inj_us =
    bit_or (bit_or (bit_or e.rpm (shl16 inj_us)) (shl32 e.coolant_c)) (shl48 e.throttle)

pub word2 : Engine → ℕ
unfolding cyl_bits
word2 e =
    bit_or (bit_or (cyl_bits e.cyl_ok) (u64 (e.inj_count * 256)))
      (if get_or e.cyl_ok 2 0 == 0 then 0x300 * 4294967296 else 0)

pub word3 : Engine → ℕ
word3 e = bit_or e.seq (shl32 (98 + e.rpm % 6))

unfoldable pub fuel_hvc_update : Engine → List ℕ → ℕ → Engine × List ℕ
unfolding word1 word2 word3 hvc_call
fuel_hvc_update e x inj_us =
    let e' = record e { seq = u32 (e.seq + 1) } in
    (
      e',
      hvc_call x hvc_fuel_update_id (word1 e inj_us) (word2 e) (word3 e')
          (35 + u32 (e.throttle * 65) / 100),
    )

-- One round of the loop of `rtos_main` with the registers `x`: the registers of the hypercall, if
-- the round makes one.
pub rtos_round : Engine → ℕ → List ℕ → Engine × Option (List ℕ)
unfolding update_engine update_drive_cycle calc_injection_us fuel_hvc_update
rtos_round e iter x =
    let e1 = update_engine e in
    let e2 = update_drive_cycle e1 in
    let (e3, x') = fuel_hvc_update e2 x (calc_injection_us e2) in
    if iter % 5 == 0 then (e3, some x') else (e1, none)

-- The engine after `n` rounds, which are numbered from 1.
pub rtos_main : ℕ → List ℕ → Engine
unfolding rtos_round boot
rtos_main zero x = boot
rtos_main (suc n) x = (rtos_round (rtos_main n x) (u64 (suc n)) x).0
