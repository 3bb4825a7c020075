-- ===== src/Fault/Tests.antt =====
-- Aborts of the guests.
use hypervisor_base.Common.{ℕ, Bool, [], refl, Err, e_ok, arith}
use hypervisor_base.Vse.Samples.{machine}
use hypervisor_base.Mmio.{Mmio}
use hypervisor_base.Fault.{is_mmio, fault_dabt}
use hypervisor_base.Fault.Routes.{StaysAt, LeavesDevices, mmio_repeats, ecam_not_emulated}

-- a device without state that reads as ones
abbrev ones : ℕ → ℕ → ℕ → Bool → ℕ → Err × ℕ × ℕ
ones f d fa w v = (e_ok, 0xffffffff, d)

abbrev empty : Mmio
empty = record { regs = []; current_vm_id = 0 }

mmio_repeats_example : StaysAt ones machine (fault_dabt ones machine empty 0 0x8000010 0x4000 0 0)
unfolding is_mmio
mmio_repeats_example = mmio_repeats ones machine empty 0 0x8000010 0x4000 0 0 refl

ecam_not_emulated_example :
    LeavesDevices ones empty 0 (fault_dabt ones machine empty 0 0x3f000010 0x4000 0 0)
ecam_not_emulated_example =
    ecam_not_emulated ones machine empty 0 0x3f000010 0x4000 0 0 (omega arith) (omega arith)
