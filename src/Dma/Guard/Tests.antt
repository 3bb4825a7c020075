-- ===== src/Dma/Guard/Tests.antt =====
-- A check of vre/dma/dma_guard.c.
use hypervisor_base.Common.{◌+◌, ◌<◌, ◌≡◌, [], e_ok, refl, arith}
use hypervisor_base.Stage2.{PageTables, page_is_mapped}
use hypervisor_base.State.{MemRegion}
use hypervisor_base.Samples.{linux_vm, region}
use hypervisor_base.Dma.Guard.{dma_guard_check}
use hypervisor_base.Dma.Guard.Wraps.{guard_wraps}

-- every descriptor is a valid table
abbrev mapped : PageTables
mapped = record { base = 0x100000; used = 2; next_vmid = 3; cell = λ p i. 0x100003 }

-- a transfer from the middle of the VM's page
abbrev ram : MemRegion
ram = region 0x41000000 0x1000

guard_wraps_example :
    (dma_guard_check mapped linux_vm 0x41000800 18446744073709547520 ≡ e_ok)
    × (ram.pa_base + ram.size < 0x41000800 + 18446744073709547520)
unfolding page_is_mapped
guard_wraps_example =
    guard_wraps mapped linux_vm ram [] 0x41000800 refl (omega arith) (omega arith) (omega arith)
      (omega arith) refl
