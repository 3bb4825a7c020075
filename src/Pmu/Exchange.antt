-- ===== src/Pmu/Exchange.antt =====
-- The exchange of core/vcpu/pmu.c between the context of a vCPU and the hardware.
use hypervisor_base.Common.{
  ℕ, ◌+◌, ◌/◌, ◌%◌, some, List, [], ◌∷◌, ◌==◌, u64, ◌≡◌, inl, inr, refl, ◌∙◌, if_split, Bool-cases,
  arith,
}
use hypervisor_base.Pmu.{
  PmuCtx, PmuReg, pmcr, pmccntr, pmcntenset, pmovsclr, evcntr, pmu_save, pmu_restore, pmu_query,
}

module _ {H : Type 0} (read : H → PmuReg → ℕ) (write : H → PmuReg → ℕ → H) where
  -- The cycle counter reads 0 after a context is restored, where a write to PMCR with bit 2 resets
  -- it, one without bit 2 leaves it, and the writes of PMOVSCLR and PMCNTENSET leave it too.
  restored_zero :
      ((h : H) (v : ℕ) → v / 4 % 2 ≡ 1 → read (write h pmcr v) pmccntr ≡ 0)
      → ((h : H) (v : ℕ) → v / 4 % 2 ≡ 0 → read (write h pmcr v) pmccntr ≡ read h pmccntr)
      → ((h : H) (v : ℕ) → read (write h pmovsclr v) pmccntr ≡ read h pmccntr)
      → ((h : H) (v : ℕ) → read (write h pmcntenset v) pmccntr ≡ read h pmccntr)
      → (ctx : PmuCtx) (h : H) → read (pmu_restore read write ctx h) pmccntr ≡ 0
  unfolding pmu_restore
  restored_zero reset keep ovs en ctx h =
      let zeroed : (k : H) (a b : ℕ)
          → read (write (write (write k pmcr 6) pmovsclr a) pmcntenset b) pmccntr ≡ 0 =
        λ k a b. en _ b ∙ ovs _ a ∙ reset k 6 refl in
      let last : (k : H) (v : ℕ) → read k pmccntr ≡ 0 → read (write k pmcr v) pmccntr ≡ 0 = λ k v z.
        elim (Bool-cases (v / 4 % 2 == 1)) [
          | inl e ↦ reset k v (ground arith)
          | inr e ↦ keep k v (ground arith) ∙ z
        ] in
      if_split (λ (k : H). read k pmccntr ≡ 0) ctx.enabled (λ _. last _ _ (zeroed _ _ _))
        λ _. zeroed _ _ _

  -- The context of a vCPU after the intervals in which it ran: each begins on some hardware, whose
  -- state others have left, restores the context, counts a number of cycles, and saves.
  pub run_all : (H → ℕ → H) → PmuCtx → List (H × ℕ) → PmuCtx
  run_all count ctx [] = ctx
  run_all count ctx ((h, n) ∷ is) =
      run_all count (pmu_save read write ctx (count (pmu_restore read write ctx h) n)).0 is

  -- the cycles counted in the intervals
  pub counted : List (H × ℕ) → ℕ
  counted [] = 0
  counted ((h, n) ∷ is) = n + counted is

  save_adds :
      (ctx : PmuCtx) (h : H)
      → (pmu_save read write ctx h).0.pmccntr_el0 ≡ u64 (ctx.pmccntr_el0 + read h pmccntr)
  unfolding pmu_save
  save_adds ctx h = refl

  run_all-counted :
      (count : H → ℕ → H)
      → ((h : H) (n : ℕ) → read h pmccntr ≡ 0 → read (count h n) pmccntr ≡ u64 n)
      → ((ctx : PmuCtx) (h : H) → read (pmu_restore read write ctx h) pmccntr ≡ 0)
      → (ctx : PmuCtx) (is : List (H × ℕ))
      → u64 (run_all count ctx is).pmccntr_el0 ≡ u64 (ctx.pmccntr_el0 + counted is)
  unfolding run_all counted
  run_all-counted count adds zeroed ctx [] = omega arith
  run_all-counted count adds zeroed ctx ((h, n) ∷ is) =
      let k : H = count (pmu_restore read write ctx h) n in
      let r : read k pmccntr ≡ u64 n = adds _ n (zeroed ctx h) in
      run_all-counted count adds zeroed (pmu_save read write ctx k).0 is
      ∙ omega (arith, save_adds ctx k, r)

  -- On a hardware where a write to PMCR with bit 2 resets the cycle counter, one without bit 2 leaves
  -- it, the writes of PMOVSCLR and PMCNTENSET leave it, and counting adds to a counter at 0 on 64
  -- bits: when a vCPU is queried while it runs, after any number of earlier intervals with other
  -- vCPUs in between, the cycles told are those that its context began with, those counted in all
  -- its earlier intervals, and those of the present one, each once.
  pub query-cycles :
      ((h : H) (v : ℕ) → v / 4 % 2 ≡ 1 → read (write h pmcr v) pmccntr ≡ 0)
      → ((h : H) (v : ℕ) → v / 4 % 2 ≡ 0 → read (write h pmcr v) pmccntr ≡ read h pmccntr)
      → ((h : H) (v : ℕ) → read (write h pmovsclr v) pmccntr ≡ read h pmccntr)
      → ((h : H) (v : ℕ) → read (write h pmcntenset v) pmccntr ≡ read h pmccntr)
      → (count : H → ℕ → H)
      → ((h : H) (n : ℕ) → read h pmccntr ≡ 0 → read (count h n) pmccntr ≡ u64 n)
      → (ctx : PmuCtx) (is : List (H × ℕ)) (h : H) (n : ℕ)
      → let now = run_all count ctx is in
        (pmu_query read write (some now) (count (pmu_restore read write now h) n)).0
        ≡ u64 (ctx.pmccntr_el0 + counted is + n)
  unfolding pmu_query
  query-cycles reset keep ovs en count adds ctx is h n =
      let zeroed = restored_zero reset keep ovs en in
      let now : PmuCtx = run_all count ctx is in
      omega (
        arith,
        run_all-counted count adds zeroed ctx is,
        adds (pmu_restore read write now h) n (zeroed now h),
      )

  -- Where a write to PMCR with bit 1 resets the event counters, one without bit 1 leaves them, and
  -- the writes of PMOVSCLR and PMCNTENSET leave them too, every event counter reads 0 after a
  -- context is restored, whatever it held.
  pub restore_loses_events :
      ((h : H) (v i : ℕ) → v / 2 % 2 ≡ 1 → read (write h pmcr v) (evcntr i) ≡ 0)
      → ((h : H) (v i : ℕ) → v / 2 % 2 ≡ 0 → read (write h pmcr v) (evcntr i) ≡ read h (evcntr i))
      → ((h : H) (v i : ℕ) → read (write h pmovsclr v) (evcntr i) ≡ read h (evcntr i))
      → ((h : H) (v i : ℕ) → read (write h pmcntenset v) (evcntr i) ≡ read h (evcntr i))
      → (ctx : PmuCtx) (h : H) (i : ℕ) → read (pmu_restore read write ctx h) (evcntr i) ≡ 0
  unfolding pmu_restore
  restore_loses_events reset keep ovs en ctx h i =
      let zeroed : (k : H) (a b : ℕ)
          → read (write (write (write k pmcr 6) pmovsclr a) pmcntenset b) (evcntr i) ≡ 0 =
        λ k a b. en _ b i ∙ ovs _ a i ∙ reset k 6 i refl in
      let last : (k : H) (v : ℕ) → read k (evcntr i) ≡ 0 → read (write k pmcr v) (evcntr i) ≡ 0 =
        λ k v z. elim (Bool-cases (v / 2 % 2 == 1)) [
          | inl e ↦ reset k v i (ground arith)
          | inr e ↦ keep k v i (ground arith) ∙ z
        ] in
      if_split (λ (k : H). read k (evcntr i) ≡ 0) ctx.enabled (λ _. last _ _ (zeroed _ _ _))
        λ _. zeroed _ _ _
