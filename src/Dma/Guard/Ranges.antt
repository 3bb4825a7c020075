-- ===== src/Dma/Guard/Ranges.antt =====
-- What `dma_guard_check` of vre/dma/dma_guard.c grants.
use hypervisor_base.Common.{ℕ, ◌+◌, ◌-◌, ◌<◌, ◌≤◌, ◌≡◌, true, List, [], ◌∷◌, u64}
use hypervisor_base.Stage2.{PageTables, s2_ipa_is_mapped}
use hypervisor_base.State.{MemRegion}

-- The region ends below 2^64, as the physical memory does.
abbrev pub IsBounded : MemRegion → Type 0
IsBounded r = r.pa_base + r.size < 18446744073709551616

abbrev pub AllBounded : List MemRegion → Type 0
AllBounded [] = Unit
AllBounded (r ∷ rs) = IsBounded r × AllBounded rs

-- Some region has all of the range, and maps a page of it.
pub data IsCovered (t : PageTables) (pgd pa size : ℕ) : List MemRegion → Type 0 where
  here :
      (r : MemRegion) (rs : List MemRegion)
      → r.pa_base ≤ pa
      → pa + size ≤ r.pa_base + r.size
      → s2_ipa_is_mapped t pgd (u64 (r.ipa_base + (pa - r.pa_base))) size ≡ true
      → IsCovered t pgd pa size (r ∷ rs)
  there :
      (r : MemRegion) (rs : List MemRegion)
      → IsCovered t pgd pa size rs
      → IsCovered t pgd pa size (r ∷ rs)
