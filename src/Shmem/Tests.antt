-- ===== src/Shmem/Tests.antt =====
-- Runs of guest/shmem/shmem.c.
use hypervisor_base.Common.{ℕ, refl, [], ◌∷◌, Option, none, some, Err, e_ok, true, arith}
use hypervisor_base.Samples.{core}
use hypervisor_base.Stage2.{s2_map, map_pages, map_page, descend, pt_alloc}
use hypervisor_base.Vm.{vm_by_id, find_vm}
use hypervisor_base.Shmem.{Shm, Shmem, shmem_map, map_both, map_second, shmem_unmap}
use hypervisor_base.Shmem.Disjoint.{IsLaidOut, shmem_map-IsLaidOut, shmem_unmap-IsLaidOut}

abbrev shared_at : ℕ → ℕ → Shm
shared_at pa ipa = record { pa = pa; sz = 0x1000; src = 1; dst = 2; ipa = ipa; active = true }

-- two pages shared
abbrev two_pages : Shmem
two_pages = record {
  regions = shared_at 0xa0000000 0x80000000 ∷ shared_at 0xa0001000 0x80001000 ∷ [];
  cursor = 0xa0002000;
  core = core;
}

two_pages-IsLaidOut : IsLaidOut two_pages
two_pages-IsLaidOut = ((omega arith, (omega arith, omega arith)), omega arith, omega arith)

-- what a call leaves, the state before it when it does not come back
abbrev left : Option (Err × Shmem) → Shmem
left none = two_pages
left (some (e, s)) = s

-- a third page shared
abbrev three_pages : Shmem
three_pages = left (shmem_map two_pages 1 2 0x80002000 0x1000)

shmem_map-IsLaidOut_example : IsLaidOut three_pages
unfolding shmem_map map_both map_second s2_map map_pages map_page descend pt_alloc vm_by_id find_vm
shmem_map-IsLaidOut_example =
    shmem_map-IsLaidOut two_pages three_pages 1 2 0x80002000 0x1000 e_ok two_pages-IsLaidOut
      (omega arith) refl

shmem_unmap-IsLaidOut_example : IsLaidOut (shmem_unmap two_pages 0x80000000 0x1000).1
shmem_unmap-IsLaidOut_example =
    shmem_unmap-IsLaidOut two_pages 0x80000000 0x1000 two_pages-IsLaidOut
