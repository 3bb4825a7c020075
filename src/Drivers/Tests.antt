-- ===== src/Drivers/Tests.antt =====
-- The engine's data seen by a reader.
use hypervisor_base.Common.{ℕ, ◌/◌, ◌<◌, ◌≡◌, refl, [], ◌∷◌, replicate, arith}
use hypervisor_base.Rtos.{Engine, accel, calc_injection_us, fuel_hvc_update}
use hypervisor_base.Rtos.Bounds.{IsSound, AreFlags}
use hypervisor_base.Drivers.{hvc_fuel_update, hvc_obd_read_all}
use hypervisor_base.Drivers.Update.{fault_code_overrun}
use hypervisor_base.Drivers.Obd.{data_of, engine_word, trouble_word, obd_words}
use hypervisor_base.Hvc.Samples.{drivers}

-- after a phase of acceleration
abbrev fast : Engine
fast = record {
  rpm = 3200;
  target_rpm = 3200;
  coolant_c = 90;
  throttle = 45;
  inj_count = 5000;
  seq = 41;
  cyl_ok = 1 ∷ 1 ∷ 1 ∷ 1 ∷ [];
  drive = accel;
  drive_tick = 2;
}

sound : (n : ℕ) → n < 4294967296 → IsSound (record fast { inj_count = n })
unfolding IsSound AreFlags
sound n h = (
  omega arith,
  omega arith,
  omega arith,
  omega arith,
  omega arith,
  omega arith,
  omega arith,
  h,
  omega arith,
  (omega arith, refl),
)

obd_words_example :
    data_of (
      hvc_obd_read_all
        (hvc_fuel_update drivers
          (fuel_hvc_update fast (replicate 31 0) (calc_injection_us fast)).1).0
        (replicate 31 7))
    ≡ (engine_word fast, trouble_word fast, 42)
obd_words_example =
    obd_words fast drivers (replicate 31 0) (replicate 31 7) (sound 5000 (omega arith))
      (omega arith) (omega arith)

-- half a day of running
abbrev worn : Engine
worn = record fast { inj_count = 20000000 }

fault_code_overrun_example :
    (hvc_fuel_update drivers (fuel_hvc_update worn [] (calc_injection_us worn)).1).0.fuel.fault_code
    ≡ 20000000 / 16777216
fault_code_overrun_example = fault_code_overrun worn drivers [] (sound 20000000 (omega arith)) refl
