-- ===== src/Pmu/Tests.antt =====
-- Runs of the performance monitor.
use hypervisor_base.Common.{
  ℕ, ◌+◌, ◌/◌, ◌%◌, [], ◌∷◌, true, some, ◌==◌, if◌then◌else◌, ◌≡◌, refl, replicate, get_or, u64,
  arith,
}
use hypervisor_base.Pmu.{
  PmuCtx, PmuReg, pmcr, pmccntr, evcntr, evtyper, pmcntenset, pmovsclr, pmu_vcpu_init,
  pmu_handle_trap, pmu_query, pmu_restore,
}
use hypervisor_base.Pmu.Traps.{handle_trap_other}
use hypervisor_base.Pmu.Exchange.{run_all, counted, query-cycles, restore_loses_events}

-- a hardware that is its cycle counter and its event counters
abbrev read : ℕ × (ℕ → ℕ) → PmuReg → ℕ
read h pmccntr = h.0
read h (evcntr i) = h.1 i
read h _ = 0

abbrev write : ℕ × (ℕ → ℕ) → PmuReg → ℕ → ℕ × (ℕ → ℕ)
write h pmcr v = (if v / 4 % 2 == 1 then 0 else h.0, if v / 2 % 2 == 1 then (λ i. 0) else h.1)
write h (evcntr i) v = (h.0, λ j. if j == i then v else h.1 j)
write h pmccntr v = (v, h.1)
write h (evtyper i) v = h
write h pmcntenset v = h
write h pmovsclr v = h

abbrev ran : ℕ → ℕ × (ℕ → ℕ)
ran n = (n, λ i. 5)

abbrev count : ℕ × (ℕ → ℕ) → ℕ → ℕ × (ℕ → ℕ)
count h n = (u64 (h.0 + n), h.1)

-- other vCPUs leave 900 and 800 on the counter
query-cycles_example :
    let now = run_all read write count pmu_vcpu_init ((ran 900, 100) ∷ (ran 800, 40) ∷ []) in
    (pmu_query read write (some now) (count (pmu_restore read write now (ran 0)) 7)).0
    ≡ u64 (pmu_vcpu_init.pmccntr_el0 + counted read write ((ran 900, 100) ∷ (ran 800, 40) ∷ []) + 7)
query-cycles_example =
    query-cycles read write (λ h v e. ground (arith, e)) (λ h v e. ground (arith, e)) (λ h v. refl)
      (λ h v. refl) count (λ h n e. omega (arith, e)) pmu_vcpu_init
      ((ran 900, 100) ∷ (ran 800, 40) ∷ []) (ran 0) 7

abbrev counting : PmuCtx
counting = record pmu_vcpu_init { pmevcntr = 9 ∷ 8 ∷ 7 ∷ 6 ∷ []; enabled = true; pmcr_el0 = 1 }

restore_loses_events_example : read (pmu_restore read write counting (ran 0)) (evcntr 2) ≡ 0
restore_loses_events_example =
    restore_loses_events read write (λ h v i e. ground (arith, e)) (λ h v i e. ground (arith, e))
      (λ h v i. refl) (λ h v i. refl) counting (ran 0) 2

-- a read of PMCCNTR_EL0, which the code takes for one into x8
handle_trap_other_example :
    get_or (pmu_handle_trap (some counting) (replicate 31 3) 0x379d01).1 5 0 ≡ 3
handle_trap_other_example =
    handle_trap_other (some counting) (replicate 31 3) 0x379d01 5 (λ e. absurd (omega arith))
