-- ===== src/Mmio/Tests.antt =====
-- Accesses to emulated devices.
use hypervisor_base.Common.{ℕ, Bool, true, [], ◌∷◌, some, ◌≡◌, Err, e_ok, if◌then◌else◌, ◌⊎◌}
use hypervisor_base.State.{Core}
use hypervisor_base.Samples.{core, rtos_vcpu, linux_vcpu}
use hypervisor_base.Mmio.{Mmio, Region, mmio_handle}
use hypervisor_base.Mmio.Ownership.{SomeServes, mmio_handle-SomeServes, write_lost}

-- a device that keeps the last value written, and how often it was read
abbrev latch : ℕ → ℕ × ℕ → ℕ → Bool → ℕ → Err × ℕ × (ℕ × ℕ)
latch f d fa w v = (e_ok, d.0, if w then (v, d.1) else (d.0, d.1))

abbrev of_rtos : Region
of_rtos = record {
  base = 0x8100000;
  sz = 0x1000;
  fn = some 0;
  active = true;
  owner_vm_id = 2;
  violation_cnt = 0;
}

abbrev mmio : Mmio
mmio = record { regs = of_rtos ∷ []; current_vm_id = 1 }

abbrev owned : Mmio
owned = record { regs = of_rtos ∷ []; current_vm_id = 2 }

-- a load by VM 1 from a device of VM 2
mmio_handle-SomeServes_example :
    ((mmio_handle latch mmio core (7, 0) 0x8100010 0).1 ≡ (7, 0))
    ⊎ SomeServes latch mmio.regs 1
        (7, 0)
        0x8100010
        0
        (mmio_handle latch mmio core (7, 0) 0x8100010 0).1
mmio_handle-SomeServes_example = mmio_handle-SomeServes latch mmio core (7, 0) 0x8100010 0

-- a store of x0, by machines that hold different values there
abbrev with_x0 : ℕ → Core
with_x0 v = record core { pool = record linux_vcpu { x = v ∷ [] } ∷ rtos_vcpu ∷ [] }

write_lost_example :
    (mmio_handle latch owned (with_x0 1) (7, 0) 0x8100010 0x40).1
    ≡ (mmio_handle latch owned (with_x0 2) (7, 0) 0x8100010 0x40).1
write_lost_example = write_lost latch owned (with_x0 1) (with_x0 2) (7, 0) 0x8100010 0x40
