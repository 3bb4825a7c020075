-- ===== src/Power/Leak.antt =====
-- The table of gated devices of vre/power/power.c under repeated suspending and resuming.
use hypervisor_base.Common.{
  ℕ, zero, suc, ◌+◌, ◌≤◌, ◌≡◌, refl, ap, ◌∙◌, inl, inr, false, List, [], ◌∷◌, arith, length, min,
}
use hypervisor_base.State.{Core, Vm, DevAssign, GatedDev}
use hypervisor_base.Power.{
  gate_dev, gate_devs, clear_gated, ungate_dev, ungate_devs, any_gated, power_is_device_gated,
  bad_id, power_gate_vm, power_ungate_vm,
}
use hypervisor_base.Power.Gating.{StandsAt, length-gate_dev, ungate_devs-clears}

-- one suspend and resume, as far as the devices go
pub cycle : Core → Vm → Core
cycle c vm = (power_ungate_vm (power_gate_vm c vm).1 vm).1

pub cycles : ℕ → Core → Vm → Core
cycles zero c vm = c
cycles (suc n) c vm = cycle (cycles n c vm) vm

length-gate_devs :
    (c : Core) (ds : List DevAssign)
    → min 64 (length c.gated_devs + length ds) ≤ length (gate_devs c ds).gated_devs
unfolding gate_devs
length-gate_devs c [] = omega arith
length-gate_devs c (d ∷ ds) = elim (length-gate_dev c d) [
  | inl h ↦ omega (arith, length-gate_devs (gate_dev c d) ds)
  | inr h ↦ omega (arith, length-gate_devs (gate_dev c d) ds, ap length h.1)
]

gate_devs-full :
    (c : Core) (ds : List DevAssign)
    → 64 ≤ length c.gated_devs
    → (gate_devs c ds).gated_devs ≡ c.gated_devs
unfolding gate_devs
gate_devs-full c [] h = refl
gate_devs-full c (d ∷ ds) h = elim (length-gate_dev c d) [
  | inl k ↦ absurd (omega arith)
  | inr k ↦ gate_devs-full (gate_dev c d) ds (omega (arith, ap length k.1)) ∙ k.1
]

length-clear_gated : (b : ℕ) (gs : List GatedDev) → length (clear_gated b gs) ≡ length gs
unfolding clear_gated
length-clear_gated b [] = refl
length-clear_gated b (g ∷ gs) = ap suc (length-clear_gated b gs)

length-ungate_devs :
    (c : Core) (ds : List DevAssign) → length (ungate_devs c ds).gated_devs ≡ length c.gated_devs
unfolding ungate_devs ungate_dev
length-ungate_devs c [] = refl
length-ungate_devs c (d ∷ ds) =
    length-ungate_devs (ungate_dev c d) ds ∙ length-clear_gated d.mmio_base c.gated_devs

-- what the table of gated devices becomes, for a VM of the table
module _ (c : Core) (vm : Vm) (h1 : 1 ≤ vm.id) (h2 : vm.id ≤ 4) where
  good : bad_id vm.id ≡ false
  good = ground arith

  power_gate_vm-devs : (power_gate_vm c vm).1.gated_devs ≡ (gate_devs c vm.dev).gated_devs
  unfolding power_gate_vm
  power_gate_vm-devs = rw good

  power_ungate_vm-devs : (power_ungate_vm c vm).1.gated_devs ≡ (ungate_devs c vm.dev).gated_devs
  unfolding power_ungate_vm
  power_ungate_vm-devs = rw good

module _ (c : Core) (vm : Vm) (h1 : 1 ≤ vm.id) (h2 : vm.id ≤ 4) where
  length-cycle : min 64 (length c.gated_devs + length vm.dev) ≤ length (cycle c vm).gated_devs
  unfolding cycle
  length-cycle =
      let c' : Core = (power_gate_vm c vm).1 in
      omega (
        arith,
        length-gate_devs c vm.dev,
        length-ungate_devs c' vm.dev,
        ap length (power_gate_vm-devs c vm h1 h2),
        ap length (power_ungate_vm-devs c' vm h1 h2),
      )

module _ (c : Core) (vm : Vm) (h1 : 1 ≤ vm.id) (h2 : vm.id ≤ 4) where
  length-cycles : (n : ℕ) → 1 ≤ length vm.dev → min 64 n ≤ length (cycles n c vm).gated_devs
  unfolding cycles
  length-cycles zero h = omega arith
  length-cycles (suc n) h = omega (arith, length-cycles n h, length-cycle (cycles n c vm) vm h1 h2)

  cycles-clears :
      (n : ℕ) (base : ℕ)
      → 1 ≤ n
      → StandsAt base vm.dev
      → any_gated base (cycles n c vm).gated_devs ≡ false
  unfolding cycles cycle
  cycles-clears zero base h u = elim h [ ]
  cycles-clears (suc n) base h u =
      let c' : Core = (power_gate_vm (cycles n c vm) vm).1 in
      ap (any_gated base) (power_ungate_vm-devs c' vm h1 h2)
      ∙ ungate_devs-clears c' vm.dev base (inl u)

StandsAt-nonempty : (base : ℕ) (ds : List DevAssign) → StandsAt base ds → 1 ≤ length ds
StandsAt-nonempty base [] u = absurd u
StandsAt-nonempty base (d ∷ ds) u = omega arith

-- Once a VM of the table was suspended and resumed 64 times or more, suspending it again leaves
-- `power_is_device_gated` false of each of its devices, however many it has.
pub gating_lost :
    (c : Core) (vm : Vm) (base n : ℕ)
    → 1 ≤ vm.id
    → vm.id ≤ 4
    → 64 ≤ n
    → StandsAt base vm.dev
    → power_is_device_gated (power_gate_vm (cycles n c vm) vm).1 base ≡ false
unfolding power_is_device_gated
gating_lost c vm base n h1 h2 h u =
    let full = length-cycles c vm h1 h2 n (StandsAt-nonempty base vm.dev u) in
    ap (any_gated base) (
      power_gate_vm-devs (cycles n c vm) vm h1 h2
      ∙ gate_devs-full (cycles n c vm) vm.dev (omega (arith, full)))
    ∙ cycles-clears c vm h1 h2 n base (omega arith) u
