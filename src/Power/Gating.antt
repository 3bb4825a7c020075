-- ===== src/Power/Gating.antt =====
-- What gating and ungating a VM's devices in vre/power/power.c does to the interrupt lines and to
-- the table of gated devices.
use hypervisor_base.Common.{
  ℕ, ◌+◌, ◌≤◌, ◌<◌, ◌≡◌, ◌≢◌, refl, ◌⊎◌, inl, inr, true, false, ◌||◌, List, [], ◌∷◌, ◌++◌, arith,
  ◌==◌, ltb, length, length-append, Bool-cases, if◌then◌else◌,
}
use hypervisor_base.State.{Core, Vm, DevAssign, GatedDev}
use hypervisor_base.Power.{
  set_irq, gate_dev, gate_devs, clear_gated, ungate_dev, ungate_devs, any_gated,
  power_is_device_gated, bad_id, power_gate_vm, power_ungate_vm,
}

-- Some device of the list uses this interrupt.
abbrev pub Uses : ℕ → List DevAssign → Type 0
Uses irq [] = ⊥
Uses irq (d ∷ ds) = (d.irq ≡ irq) ⊎ Uses irq ds

-- Some device of the list stands at this address.
abbrev pub StandsAt : ℕ → List DevAssign → Type 0
StandsAt base [] = ⊥
StandsAt base (d ∷ ds) = (d.mmio_base ≡ base) ⊎ StandsAt base ds

-- The devices' interrupts and no others are switched.
gate_devs-irq :
    (c : Core) (ds : List DevAssign) (irq : ℕ)
    → ((gate_devs c ds).irq_on irq ≡ c.irq_on irq) ⊎ ((gate_devs c ds).irq_on irq ≡ false)
unfolding gate_devs gate_dev set_irq
gate_devs-irq c [] irq = inl refl
gate_devs-irq c (d ∷ ds) irq = ground (arith, gate_devs-irq (gate_dev c d) ds irq)

gate_devs-off :
    (c : Core) (ds : List DevAssign) (irq : ℕ)
    → irq ≢ 0
    → Uses irq ds ⊎ (c.irq_on irq ≡ false)
    → (gate_devs c ds).irq_on irq ≡ false
unfolding gate_devs gate_dev set_irq
gate_devs-off c [] irq h (inl u) = absurd u
gate_devs-off c [] irq h (inr e) = e
gate_devs-off c (d ∷ ds) irq h (inl (inl e)) =
    gate_devs-off (gate_dev c d) ds irq h (inr (ground arith))
gate_devs-off c (d ∷ ds) irq h (inl (inr u)) = gate_devs-off (gate_dev c d) ds irq h (inl u)
gate_devs-off c (d ∷ ds) irq h (inr e) = gate_devs-off (gate_dev c d) ds irq h (inr (ground arith))

-- `power_gate_vm` of a VM of the table switches off every interrupt line that one of its devices
-- uses.
pub power_gate_vm-off :
    (c : Core) (vm : Vm) (irq : ℕ)
    → 1 ≤ vm.id
    → vm.id ≤ 4
    → irq ≢ 0
    → Uses irq vm.dev
    → (power_gate_vm c vm).1.irq_on irq ≡ false
unfolding power_gate_vm
power_gate_vm-off c vm irq h1 h2 h u =
    let good : (bad_id vm.id ≡ false) = ground arith in
    rw good (gate_devs-off c vm.dev irq h (inl u))

ungate_devs-on :
    (c : Core) (ds : List DevAssign) (irq : ℕ)
    → irq ≢ 0
    → Uses irq ds ⊎ (c.irq_on irq ≡ true)
    → (ungate_devs c ds).irq_on irq ≡ true
unfolding ungate_devs ungate_dev set_irq
ungate_devs-on c [] irq h (inl u) = absurd u
ungate_devs-on c [] irq h (inr e) = e
ungate_devs-on c (d ∷ ds) irq h (inl (inl e)) =
    ungate_devs-on (ungate_dev c d) ds irq h (inr (ground arith))
ungate_devs-on c (d ∷ ds) irq h (inl (inr u)) = ungate_devs-on (ungate_dev c d) ds irq h (inl u)
ungate_devs-on c (d ∷ ds) irq h (inr e) =
    ungate_devs-on (ungate_dev c d) ds irq h (inr (ground arith))

any_gated-append :
    (base : ℕ) (xs ys : List GatedDev)
    → any_gated base (xs ++ ys) ≡ (any_gated base xs || any_gated base ys)
unfolding any_gated
any_gated-append base [] ys = refl
any_gated-append base (x ∷ xs) ys = ground (arith, any_gated-append base xs ys)

-- A device that the table records as gated stays recorded while others are gated.
gate_devs-keeps :
    (c : Core) (ds : List DevAssign) (base : ℕ)
    → any_gated base c.gated_devs ≡ true
    → any_gated base (gate_devs c ds).gated_devs ≡ true
unfolding gate_devs gate_dev
gate_devs-keeps c [] base h = h
gate_devs-keeps c (d ∷ ds) base h = gate_devs-keeps (gate_dev c d) ds base (
    ground (
      arith,
      any_gated-append base c.gated_devs (record { mmio_base = d.mmio_base; gated = true } ∷ []),
    ))

gate_dev-records :
    (c : Core) (d : DevAssign)
    → length c.gated_devs < 64
    → any_gated d.mmio_base (gate_dev c d).gated_devs ≡ true
unfolding gate_dev any_gated
gate_dev-records c d h = ground (
  arith,
  any_gated-append d.mmio_base c.gated_devs (record { mmio_base = d.mmio_base; gated = true } ∷ []),
)

pub length-gate_dev :
    (c : Core) (d : DevAssign)
    → ((length c.gated_devs < 64) × (length (gate_dev c d).gated_devs ≡ length c.gated_devs + 1))
      ⊎ ((64 ≤ length c.gated_devs) × ((gate_dev c d).gated_devs ≡ c.gated_devs))
unfolding gate_dev
length-gate_dev c d = elim (Bool-cases (ltb (length c.gated_devs) 64)) [
  | inl e ↦ rw e (inl (ground arith, length-append c.gated_devs _))
  | inr e ↦ rw e (inr (ground arith, refl))
]

gate_devs-records :
    (c : Core) (ds : List DevAssign) (base : ℕ)
    → length c.gated_devs + length ds ≤ 64
    → StandsAt base ds
    → any_gated base (gate_devs c ds).gated_devs ≡ true
unfolding gate_devs
gate_devs-records c [] base h u = absurd u
gate_devs-records c (d ∷ ds) base h (inl e) =
    gate_devs-keeps (gate_dev c d) ds base (rw (← e) (gate_dev-records c d (omega arith)))
gate_devs-records c (d ∷ ds) base h (inr u) =
    gate_devs-records (gate_dev c d) ds base (omega (arith, length-gate_dev c d)) u

any_gated-clear_gated :
    (b base : ℕ) (gs : List GatedDev)
    → any_gated base (clear_gated b gs) ≡ (if b == base then false else any_gated base gs)
unfolding any_gated clear_gated
any_gated-clear_gated b base [] = ground arith
any_gated-clear_gated b base (g ∷ gs) = ground (arith, any_gated-clear_gated b base gs)

pub ungate_devs-clears :
    (c : Core) (ds : List DevAssign) (base : ℕ)
    → StandsAt base ds ⊎ (any_gated base c.gated_devs ≡ false)
    → any_gated base (ungate_devs c ds).gated_devs ≡ false
unfolding ungate_devs ungate_dev
ungate_devs-clears c [] base (inl u) = absurd u
ungate_devs-clears c [] base (inr e) = e
ungate_devs-clears c (d ∷ ds) base (inl (inl e)) =
    ungate_devs-clears (ungate_dev c d) ds base
      (inr (ground (arith, any_gated-clear_gated d.mmio_base base c.gated_devs)))
ungate_devs-clears c (d ∷ ds) base (inl (inr u)) =
    ungate_devs-clears (ungate_dev c d) ds base (inl u)
ungate_devs-clears c (d ∷ ds) base (inr e) =
    ungate_devs-clears (ungate_dev c d) ds base
      (inr (ground (arith, any_gated-clear_gated d.mmio_base base c.gated_devs)))

-- While the table of gated devices has room for them, gating a VM of the table makes
-- `power_is_device_gated` true of each of its devices.
pub power_gate_vm-records :
    (c : Core) (vm : Vm) (base : ℕ)
    → 1 ≤ vm.id
    → vm.id ≤ 4
    → length c.gated_devs + length vm.dev ≤ 64
    → StandsAt base vm.dev
    → power_is_device_gated (power_gate_vm c vm).1 base ≡ true
unfolding power_gate_vm power_is_device_gated
power_gate_vm-records c vm base h1 h2 room u =
    let good : (bad_id vm.id ≡ false) = ground arith in
    rw good (gate_devs-records c vm.dev base room u)

-- `power_ungate_vm` of a VM of the table switches on every interrupt line that one of its devices
-- uses.
pub power_ungate_vm-on :
    (c : Core) (vm : Vm) (irq : ℕ)
    → 1 ≤ vm.id
    → vm.id ≤ 4
    → irq ≢ 0
    → Uses irq vm.dev
    → (power_ungate_vm c vm).1.irq_on irq ≡ true
unfolding power_ungate_vm
power_ungate_vm-on c vm irq h1 h2 h u =
    let good : (bad_id vm.id ≡ false) = ground arith in
    rw good (ungate_devs-on c vm.dev irq h (inl u))

-- After `power_ungate_vm` of a VM of the table, `power_is_device_gated` is false of each of its
-- devices.
pub power_ungate_vm-clears :
    (c : Core) (vm : Vm) (base : ℕ)
    → 1 ≤ vm.id
    → vm.id ≤ 4
    → StandsAt base vm.dev
    → power_is_device_gated (power_ungate_vm c vm).1 base ≡ false
unfolding power_ungate_vm power_is_device_gated
power_ungate_vm-clears c vm base h1 h2 u =
    let good : (bad_id vm.id ≡ false) = ground arith in
    rw good (ungate_devs-clears c vm.dev base (inl u))
