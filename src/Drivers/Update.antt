-- ===== src/Drivers/Update.antt =====
-- What guest/hypercall/hvc_drivers.c keeps of the words that the engine controller sends.
use hypervisor_base.Common.{
  ℕ, ◌+◌, ◌*◌, ◌/◌, ◌%◌, ◌<◌, ◌≡◌, refl, List, true, get_or, u32, ◌∙◌, ap, arith,
}
use hypervisor_base.Rtos.{Engine, calc_injection_us, hvc_call, fuel_hvc_update}
use hypervisor_base.Rtos.Bounds.{IsSound, set_seq}
use hypervisor_base.Rtos.Words.{
  calc_injection_us_range, word1_eq, word2_eq, word2_healthy, word3_eq, fault_of,
}
use hypervisor_base.Drivers.{Fuel, Drivers, unpack_fuel, hvc_fuel_update}

-- what the engine controller means to send: the state `e` and the width of the pulse
unfoldable pub fuel_of : Engine → ℕ → Fuel
fuel_of e inj_us = record {
  rpm = e.rpm;
  injection_us = inj_us;
  coolant_c = e.coolant_c;
  throttle_pct = e.throttle;
  map_kpa = 35 + e.throttle * 65 / 100;
  lambda_x100 = 98 + e.rpm % 6;
  cyl_status = 11 + get_or e.cyl_ok 2 0 * 4;
  inj_count = e.inj_count;
  fault_code = fault_of e;
  seq = u32 (e.seq + 1);
  valid = true;
}

unpack_words :
    (e : Engine) (inj_us s : ℕ)
    → IsSound e
    → e.inj_count < 16777216
    → inj_us < 65536
    → s ≡ u32 (e.seq + 1)
    → unpack_fuel
        (e.rpm + inj_us * 65536 + e.coolant_c * 4294967296 + e.throttle * 281474976710656)
        (11 + get_or e.cyl_ok 2 0 * 4 + e.inj_count * 256 + fault_of e * 4294967296)
        (s + (98 + e.rpm % 6) * 4294967296)
        (35 + u32 (e.throttle * 65) / 100)
      ≡ fuel_of e inj_us
unfolding unpack_fuel fuel_of IsSound
unpack_words e inj_us s h k l m = let small = h.9.0 in ground (arith, h)

-- An engine controller in a sound state that has fired fewer than 2^24 times, and that makes its
-- hypercall, leaves exactly its state with the hypervisor.
pub fuel_update_roundtrip :
    (e : Engine) (d : Drivers) (x : List ℕ)
    → IsSound e
    → e.inj_count < 16777216
    → (hvc_fuel_update d (fuel_hvc_update e x (calc_injection_us e)).1).0.fuel
      ≡ fuel_of e (calc_injection_us e)
unfolding hvc_call fuel_hvc_update hvc_fuel_update
fuel_update_roundtrip e d x h k =
    rw
      (
        word1_eq e (calc_injection_us e) h (calc_injection_us_range e h),
        word2_eq e h k,
        word3_eq (record e { seq = u32 (e.seq + 1) }) (set_seq e (u32 (e.seq + 1)) (omega arith) h),
      )
      (unpack_words e (calc_injection_us e) (u32 (e.seq + 1)) h k (calc_injection_us_range e h)
        refl)

-- With all cylinders in order, the fault code that the hypervisor keeps is the number of
-- injections divided by 2^24: not zero once the engine has fired 2^24 times.
pub fault_code_overrun :
    (e : Engine) (d : Drivers) (x : List ℕ)
    → IsSound e
    → get_or e.cyl_ok 2 0 ≡ 1
    → (hvc_fuel_update d (fuel_hvc_update e x (calc_injection_us e)).1).0.fuel.fault_code
      ≡ e.inj_count / 16777216
unfolding hvc_call fuel_hvc_update hvc_fuel_update unpack_fuel IsSound
fault_code_overrun e d x h c =
    ap (λ w. w / 4294967296 % 65536) (word2_healthy e h c) ∙ omega (arith, h)
