-- ===== src/Dma/Guard/Wraps.antt =====
-- A hole of `dma_guard_check` in vre/dma/dma_guard.c: a size that wraps around.
use hypervisor_base.Common.{
  ℕ, ◌+◌, ◌-◌, ◌<◌, ◌≤◌, ◌≡◌, refl, true, false, List, ◌∷◌, u64, e_ok, ltb, arith,
}
use hypervisor_base.Stage2.{PageTables, page_is_mapped, s2_ipa_is_mapped}
use hypervisor_base.Stage2.Pages.{first_page}
use hypervisor_base.State.{MemRegion, Vm}
use hypervisor_base.Dma.Guard.{round_up, holds, check_region, check_regions, dma_guard_check}

region_wraps :
    (t : PageTables) (pgd : ℕ) (r : MemRegion) (pa size : ℕ)
    → r.pa_base + r.size < 18446744073709551616
    → 4096 ≤ pa
    → r.pa_base ≤ pa
    → pa < r.pa_base + r.size
    → size ≡ 18446744073709547520
    → page_is_mapped t pgd (u64 (r.ipa_base + (pa - r.pa_base))) ≡ true
    → check_region t pgd r pa size ≡ e_ok
unfolding check_region
region_wraps t pgd r pa size b low from to z h =
    let f : ltb (u64 (r.pa_base + r.size)) (u64 (pa + size)) ≡ false = ground arith in
    let m : s2_ipa_is_mapped t pgd (u64 (r.ipa_base + (pa - r.pa_base))) size ≡ true =
      first_page t pgd (u64 (r.ipa_base + (pa - r.pa_base))) size (omega arith) (omega (arith, z))
        h in
    rw (check_region, f, m) refl

-- A transfer of 2^64 - 4096 bytes from an address of the first region of a VM, which ends below 2^64,
-- is granted once the page of that address is mapped and the address is not in the first page of
-- the memory, although the transfer runs far over the end of the region.
pub guard_wraps :
    (t : PageTables) (vm : Vm) (r : MemRegion) (rs : List MemRegion) (pa : ℕ)
    → vm.mem ≡ r ∷ rs
    → r.pa_base + r.size < 18446744073709551616
    → 4096 ≤ pa
    → r.pa_base ≤ pa
    → pa < r.pa_base + r.size
    → page_is_mapped t vm.s2_pgd (u64 (r.ipa_base + (pa - r.pa_base))) ≡ true
    → (dma_guard_check t vm pa 18446744073709547520 ≡ e_ok)
      × (r.pa_base + r.size < pa + 18446744073709547520)
unfolding dma_guard_check check_regions
guard_wraps t vm r rs pa e b low from to h =
    let k : holds r pa ≡ true = ground arith in
    let c : check_region t vm.s2_pgd r pa (round_up 18446744073709547520) ≡ e_ok =
      region_wraps t vm.s2_pgd r pa (round_up 18446744073709547520) b low from to refl h in
    (rw (e, dma_guard_check, check_regions, k) c, omega arith)
