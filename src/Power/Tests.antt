-- ===== src/Power/Tests.antt =====
-- Runs of vre/power/power.c on a machine with two VMs.
use hypervisor_base.Common.{◌≡◌, refl, inl, true, false, arith}
use hypervisor_base.Samples.{core, linux_vm}
use hypervisor_base.Power.{power_gate_vm, power_ungate_vm, power_is_device_gated}
use hypervisor_base.Power.Gating.{
  power_gate_vm-off, power_gate_vm-records, power_ungate_vm-on, power_ungate_vm-clears,
}
use hypervisor_base.Power.Leak.{cycles, gating_lost}

power_gate_vm-off_example : (power_gate_vm core linux_vm).1.irq_on 33 ≡ false
power_gate_vm-off_example =
    power_gate_vm-off core linux_vm 33 (omega arith) (omega arith) (omega arith) (inl refl)

power_gate_vm-records_example :
    power_is_device_gated (power_gate_vm core linux_vm).1 0x9000000 ≡ true
power_gate_vm-records_example =
    power_gate_vm-records core linux_vm 0x9000000 (omega arith) (omega arith) (omega arith)
      (inl refl)

power_ungate_vm-on_example :
    (power_ungate_vm (power_gate_vm core linux_vm).1 linux_vm).1.irq_on 33 ≡ true
power_ungate_vm-on_example =
    power_ungate_vm-on (power_gate_vm core linux_vm).1 linux_vm 33 (omega arith) (omega arith)
      (omega arith) (inl refl)

power_ungate_vm-clears_example :
    power_is_device_gated (power_ungate_vm (power_gate_vm core linux_vm).1 linux_vm).1 0x9000000
    ≡ false
power_ungate_vm-clears_example =
    power_ungate_vm-clears (power_gate_vm core linux_vm).1 linux_vm 0x9000000 (omega arith)
      (omega arith) (inl refl)

gating_lost_example :
    power_is_device_gated (power_gate_vm (cycles 64 core linux_vm) linux_vm).1 0x9000000 ≡ false
gating_lost_example =
    gating_lost core linux_vm 0x9000000 64 (omega arith) (omega arith) (omega arith) (inl refl)
