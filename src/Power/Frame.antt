-- ===== src/Power/Frame.antt =====
-- Which parts of the machine vre/power/power.c writes.
use hypervisor_base.Common.{◌-◌, set, ◌≡◌, refl, ap, List, [], ◌∷◌, Bool-cases, inl, inr}
use hypervisor_base.State.{on, gated, Core, Vm, DevAssign}
use hypervisor_base.Power.{
  gate_dev, gate_devs, ungate_dev, ungate_devs, bad_id, power_gate_vm, power_ungate_vm,
}

gate_devs-frame :
    (c : Core) (ds : List DevAssign)
    → gate_devs c ds
      ≡ record c { irq_on = (gate_devs c ds).irq_on; gated_devs = (gate_devs c ds).gated_devs }
unfolding gate_devs gate_dev
gate_devs-frame c [] = refl
gate_devs-frame c (d ∷ ds) = gate_devs-frame (gate_dev c d) ds

ungate_devs-frame :
    (c : Core) (ds : List DevAssign)
    → ungate_devs c ds
      ≡ record c { irq_on = (ungate_devs c ds).irq_on; gated_devs = (ungate_devs c ds).gated_devs }
unfolding ungate_devs ungate_dev
ungate_devs-frame c [] = refl
ungate_devs-frame c (d ∷ ds) = ungate_devs-frame (ungate_dev c d) ds

pub power_gate_vm-frame :
    (c : Core) (vm : Vm)
    → let c' = (power_gate_vm c vm).1 in
      c' ≡ record c { irq_on = c'.irq_on; gated_devs = c'.gated_devs; power = c'.power }
unfolding power_gate_vm
power_gate_vm-frame c vm = elim (Bool-cases (bad_id vm.id)) [
  | inl e ↦ rw e
  | inr e ↦ rw e (
      ap (λ (r : Core). record r { power = set c.power (vm.id - 1) gated })
        (gate_devs-frame c vm.dev))
]

pub power_ungate_vm-frame :
    (c : Core) (vm : Vm)
    → let c' = (power_ungate_vm c vm).1 in
      c' ≡ record c { irq_on = c'.irq_on; gated_devs = c'.gated_devs; power = c'.power }
unfolding power_ungate_vm
power_ungate_vm-frame c vm = elim (Bool-cases (bad_id vm.id)) [
  | inl e ↦ rw e
  | inr e ↦ rw e (
      ap (λ (r : Core). record r { power = set c.power (vm.id - 1) on })
        (ungate_devs-frame c vm.dev))
]
