-- ===== src/Dma/Guard.antt =====
-- vre/dma/dma_guard.c: is the range of a DMA transfer inside the VM's memory?
pub mod Ranges
pub mod Wraps
pub mod Tests
use hypervisor_base.Common.{
  ℕ, ◌+◌, ◌-◌, ◌*◌, ◌/◌, ◌%◌, Bool, true, false, ◌&&◌, List, [], ◌∷◌, Option, none, some, ◌==◌, ltb,
  leb, if◌then◌else◌, u64, sub_u64, Err, e_ok, e_inval,
}
use hypervisor_base.Stage2.{PageTables, s2_ipa_is_mapped}
use hypervisor_base.State.{MemRegion, Vm}
use hypervisor_base.Vse.State.{Machine}
use hypervisor_base.Vse.FaultDetect.{fdetect_dma_violation}

-- "Round up to page boundary", on u64
abbrev pub round_up : ℕ → ℕ
round_up size = if size % 4096 == 0 then size else u64 (size + 4095) - u64 (size + 4095) % 4096

-- `pa >= r->pa_base && pa < r->pa_base + r->size`
abbrev pub holds : MemRegion → ℕ → Bool
holds r pa = leb r.pa_base pa && ltb pa (u64 (r.pa_base + r.size))

-- the tests of the region that holds the address
pub check_region : PageTables → ℕ → MemRegion → ℕ → ℕ → Err
check_region t pgd r pa size =
    if ltb (u64 (r.pa_base + r.size)) (u64 (pa + size))
    then e_inval
    else if s2_ipa_is_mapped t pgd (u64 (r.ipa_base + (pa - r.pa_base))) size
    then e_ok
    else e_inval

-- the loop over `vm->mem`
pub check_regions : PageTables → ℕ → List MemRegion → ℕ → ℕ → Err
unfolding check_region
check_regions t pgd [] pa size = e_inval
check_regions t pgd (r ∷ rs) pa size =
    let rest = check_regions t pgd rs pa size in
    if holds r pa then check_region t pgd r pa size else rest

pub dma_guard_check : PageTables → Vm → ℕ → ℕ → Err
unfolding check_regions
dma_guard_check t vm pa size =
    if size == 0 then e_inval else check_regions t vm.s2_pgd vm.mem pa (round_up size)

unfoldable pub dma_guard_check_ipa : PageTables → Vm → ℕ → ℕ → Err
dma_guard_check_ipa t vm ipa size =
    if size == 0
    then e_inval
    else if s2_ipa_is_mapped t vm.s2_pgd ipa (round_up size)
    then e_ok
    else e_inval

unfoldable pub dma_guard_log_violation : Machine → ℕ → ℕ → Option Machine
dma_guard_log_violation m id fault_pa = fdetect_dma_violation m id fault_pa
