-- ===== src/Drivers/Obd.antt =====
-- The engine data on its way from the engine controller through guest/hypercall/hvc_drivers.c to
-- the registers of the guest that makes the OBD hypercall. No code of the guests takes these apart:
-- guests/linux_app/obd_app.c reads shared memory.
use hypervisor_base.Common.{
  ℕ, ◌+◌, ◌-◌, ◌*◌, ◌/◌, ◌%◌, ◌≤◌, ◌<◌, ◌≡◌, refl, List, [], ◌∷◌, ◌==◌, leb, true, length,
  if◌then◌else◌, get_or, u32, join4, ◌∙◌, ap, subst, arith,
}
use hypervisor_base.Rtos.{Engine, calc_injection_us, fuel_hvc_update}
use hypervisor_base.Rtos.Bounds.{IsSound}
use hypervisor_base.Rtos.Words.{fault_of}
use hypervisor_base.Drivers.{
  Fuel, Drivers, hvc_fuel_update, hvc_obd_read_all, obd_word1, obd_word2, speed_of, o2_mv_of,
}
use hypervisor_base.Drivers.Update.{fuel_of, fuel_update_roundtrip}

-- what x1 holds for an engine: the speed of the engine, the road speed, the temperature and the
-- throttle, in fields of 16 bits from the lowest on
pub engine_word : Engine → ℕ
engine_word e = e.rpm + e.rpm / 37 * 65536 + e.coolant_c * 4294967296 + e.throttle * 281474976710656

-- what x2 holds: the pressure, the sensor's voltage, and the number of trouble codes and the code
pub trouble_word : Engine → ℕ
trouble_word e =
    35
    + e.throttle * 65 / 100
    + (if leb 2 (e.rpm % 6) then 450 + (e.rpm % 6 - 2) * 3 else 450 - (2 - e.rpm % 6) * 5) * 65536
    + (if get_or e.cyl_ok 2 0 == 0 then 1 else 0) * 4294967296
    + fault_of e * 281474976710656

abbrev dtc_bit : ℕ → ℕ
dtc_bit code = if code == 0 then 0 else 1

word1_fields : (e : Engine) (inj_us : ℕ) → IsSound e → obd_word1 (fuel_of e inj_us) ≡ engine_word e
unfolding obd_word1 speed_of fuel_of engine_word IsSound
word1_fields e inj_us h =
    join4 e.rpm (speed_of e.rpm) e.coolant_c e.throttle (omega (arith, h)) (ground (arith, h))
      (omega (arith, h)) (omega (arith, h))
    ∙ ground (arith, h)

word2_fields : (e : Engine) (inj_us : ℕ) → IsSound e → obd_word2 (fuel_of e inj_us) ≡ trouble_word e
unfolding obd_word2 o2_mv_of fuel_of trouble_word IsSound
word2_fields e inj_us h =
    join4 (35 + e.throttle * 65 / 100) (o2_mv_of (98 + e.rpm % 6)) (dtc_bit (fault_of e))
      (fault_of e) (omega (arith, h)) (ground arith) (ground arith) (ground arith)
    ∙ ground (arith, h)

-- the registers x1 to x3
abbrev pub data_of : List ℕ → ℕ × ℕ × ℕ
data_of x = (get_or x 1 0, get_or x 2 0, get_or x 3 0)

read_regs :
    (d : Drivers) (y : List ℕ)
    → d.fuel.valid ≡ true
    → 4 ≤ length y
    → data_of (hvc_obd_read_all d y) ≡ (obd_word1 d.fuel, obd_word2 d.fuel, d.fuel.seq)
unfolding hvc_obd_read_all
read_regs d [] v l = absurd (omega arith)
read_regs d (a ∷ []) v l = absurd (omega arith)
read_regs d (a ∷ b ∷ []) v l = absurd (omega arith)
read_regs d (a ∷ b ∷ c ∷ []) v l = absurd (omega arith)
read_regs d (a ∷ b ∷ c ∷ e ∷ y) v l = rw (v) refl

read_fuel :
    (d : Drivers) (y : List ℕ) (f : Fuel)
    → d.fuel ≡ f
    → f.valid ≡ true
    → 4 ≤ length y
    → data_of (hvc_obd_read_all d y) ≡ (obd_word1 f, obd_word2 f, f.seq)
read_fuel d y f e v l =
    subst (λ g. data_of (hvc_obd_read_all d y) ≡ (obd_word1 g, obd_word2 g, g.seq)) {x = d.fuel}
      {y = f} e (read_regs d y (ap (λ (g : Fuel). g.valid) e ∙ v) l)

-- After the hypercall of an engine controller in a sound state that has fired fewer than 2^24
-- times, a guest that reads the OBD data finds the words of the engine in x1 and x2: its speed, the
-- road speed, its temperature and throttle; the pressure, the sensor's voltage and the trouble code;
-- and in x3 the number of the update.
pub obd_words :
    (e : Engine) (d : Drivers) (x y : List ℕ)
    → IsSound e
    → e.inj_count < 16777216
    → 4 ≤ length y
    → data_of
        (hvc_obd_read_all (hvc_fuel_update d (fuel_hvc_update e x (calc_injection_us e)).1).0 y)
      ≡ (engine_word e, trouble_word e, u32 (e.seq + 1))
unfolding fuel_of
obd_words e d x y h k l =
    let us : ℕ = calc_injection_us e in
    read_fuel (hvc_fuel_update d (fuel_hvc_update e x us).1).0 y (fuel_of e us)
      (fuel_update_roundtrip e d x h k) refl l
    ∙ ap (λ w. (w, obd_word2 (fuel_of e us), u32 (e.seq + 1))) (word1_fields e us h)
    ∙ ap (λ w. (engine_word e, w, u32 (e.seq + 1))) (word2_fields e us h)
