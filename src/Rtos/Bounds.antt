-- ===== src/Rtos/Bounds.antt =====
-- The ranges of the engine state of guests/rtos/rtos.c.
use hypervisor_base.Common.{
  ℕ, zero, suc, ◌+◌, ◌%◌, ◌≤◌, ◌<◌, ◌≡◌, refl, List, [], ◌∷◌, Option, true, false, Bool, ◌==◌, ltb,
  if◌then◌else◌, get_or, set, u32, if_split, u64, arith,
}
use hypervisor_base.Rtos.{
  Engine, Drive, idle, accel, cruise, decel, boot, ramp, next_drive, update_drive_cycle,
  update_engine, fuel_hvc_update, rtos_round, rtos_main,
}

-- the flags of the cylinders: only that of the third changes
unfoldable pub AreFlags : List ℕ → Type 0
AreFlags c = (get_or c 2 0 ≤ 1) × (c ≡ 1 ∷ 1 ∷ get_or c 2 0 ∷ 1 ∷ [])

-- between idle speed and the highest target; coolant and throttle as far as they are ever driven
unfoldable pub IsSound : Engine → Type 0
unfolding AreFlags
IsSound e =
    (800 ≤ e.rpm)
    × (e.rpm ≤ 3200)
    × (800 ≤ e.target_rpm)
    × (e.target_rpm ≤ 3200)
    × (e.coolant_c ≤ 96)
    × (e.throttle ≤ 45)
    × (e.seq < 4294967296)
    × (e.inj_count < 4294967296)
    × (e.drive_tick < 5)
    × AreFlags e.cyl_ok

ramp_range :
    (r t : ℕ) → 800 ≤ r → r ≤ 3200 → 800 ≤ t → t ≤ 3200 → (800 ≤ ramp r t) × (ramp r t ≤ 3200)
unfolding ramp
ramp_range r t h h' k k' = ground arith

next_drive-IsSound : (e : Engine) (d : Drive) → IsSound e → IsSound (next_drive e d)
unfolding IsSound AreFlags next_drive
next_drive-IsSound e idle h = ground (arith, h)
next_drive-IsSound e accel h = ground (arith, h)
next_drive-IsSound e cruise h = ground (arith, h)
next_drive-IsSound e decel h = ground (arith, h)

set_tick : (e : Engine) (n : ℕ) → n < 5 → IsSound e → IsSound (record e { drive_tick = n })
unfolding IsSound
set_tick e n p (a, b, c, d, f, g, i, j, k, l) = (a, b, c, d, f, g, i, j, p, l)

update_drive_cycle-IsSound : (e : Engine) → IsSound e → IsSound (update_drive_cycle e)
unfolding update_drive_cycle
update_drive_cycle-IsSound e h =
    if_split IsSound (ltb (u32 (e.drive_tick + 1)) 5)
      (λ p. set_tick e (u32 (e.drive_tick + 1)) (ground arith) h)
      λ _. next_drive-IsSound (record e { drive_tick = 0 }) e.drive (set_tick e 0 (omega arith) h)

set_flag : (c : List ℕ) (b : Bool) → AreFlags c → AreFlags (set c 2 (if b then 0 else 1))
unfolding AreFlags
set_flag c true h = rw (h.1) (omega arith, refl)
set_flag c false h = rw (h.1) (omega arith, refl)

update_engine-IsSound : (e : Engine) → IsSound e → IsSound (update_engine e)
unfolding IsSound update_engine
update_engine-IsSound e (a, b, c, d, f, g, i, j, k, l) =
    let r = ramp_range e.rpm e.target_rpm a b c d in
    (r.0, r.1, c, d, ground arith, g, i, omega arith, k, set_flag e.cyl_ok _ l)

pub set_seq : (e : Engine) (n : ℕ) → n < 4294967296 → IsSound e → IsSound (record e { seq = n })
unfolding IsSound
set_seq e n p (a, b, c, d, f, g, i, j, k, l) = (a, b, c, d, f, g, p, j, k, l)

rtos_round-IsSound :
    (e : Engine) (iter : ℕ) (x : List ℕ) → IsSound e → IsSound (rtos_round e iter x).0
unfolding rtos_round fuel_hvc_update
rtos_round-IsSound e iter x h =
    let h1 = update_engine-IsSound e h in
    let h2 = update_drive_cycle-IsSound (update_engine e) h1 in
    if_split (λ (r : Engine × Option (List ℕ)). IsSound r.0) (iter % 5 == 0)
      (λ _. set_seq (update_drive_cycle (update_engine e)) _ (omega arith) h2) (λ _. h1)

boot-IsSound : IsSound boot
unfolding IsSound AreFlags boot
boot-IsSound = (
  omega arith,
  omega arith,
  omega arith,
  omega arith,
  omega arith,
  omega arith,
  omega arith,
  omega arith,
  omega arith,
  (omega arith, refl),
)

-- After any number of rounds from boot the engine turns between idle speed and the highest target,
-- its coolant and throttle are in range, its counters are words, the phase counter is below 5 and
-- the only cylinder that can be marked as misfiring is the third.
pub rtos_main-IsSound : (n : ℕ) (x : List ℕ) → IsSound (rtos_main n x)
unfolding rtos_main
rtos_main-IsSound zero x = boot-IsSound
rtos_main-IsSound (suc n) x =
    rtos_round-IsSound (rtos_main n x) (u64 (suc n)) x (rtos_main-IsSound n x)
