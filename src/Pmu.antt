-- ===== src/Pmu.antt =====
-- core/vcpu/pmu.c: the performance monitor of a vCPU, its emulation and its exchange with the
-- hardware, whose registers are parameters. The trapping bits of MDCR_EL2 are not modelled.
pub mod Traps
pub mod Exchange
mod Tests
use hypervisor_base.Common.{
  ℕ, zero, suc, ◌+◌, ◌-◌, ◌*◌, ◌/◌, ◌%◌, Bool, true, false, List, [], ◌∷◌, Option, none, some, ◌==◌,
  if◌then◌else◌, get_or, set, replicate, u64, bit_and, bit_or,
}
use hypervisor_base.Irq.Vgic.{rt_of, enc_of, set_reg, reg_value}

-- `pmu_ctx_t`
pub record PmuCtx : Type 0 where
  pub pmcr_el0 : ℕ
  pub pmcntenset_el0 : ℕ
  pub pmovsr_el0 : ℕ
  pub pmccntr_el0 : ℕ
  pub pmccfiltr_el0 : ℕ
  pub pmintenset_el1 : ℕ
  pub pmevcntr : List ℕ
  pub pmevtyper : List ℕ
  pub enabled : Bool

pub pmu_vcpu_init : PmuCtx
pmu_vcpu_init = record {
  pmcr_el0 = 0;
  pmcntenset_el0 = 0;
  pmovsr_el0 = 0;
  pmccntr_el0 = 0;
  pmccfiltr_el0 = 0;
  pmintenset_el1 = 0;
  pmevcntr = replicate 4 0;
  pmevtyper = replicate 4 0;
  enabled = false;
}

-- the registers of the hardware that the code touches
pub data PmuReg : Type 0 where
  pmcr pmccntr pmcntenset pmovsclr : PmuReg
  evcntr evtyper : ℕ → PmuReg

-- `val & ~mask` on u64
pub clear_bits : ℕ → ℕ → ℕ
clear_bits v mask = bit_and v (18446744073709551615 - mask)

module _ {H : Type 0} (read : H → PmuReg → ℕ) (write : H → PmuReg → ℕ → H) where
  pub pmu_save : PmuCtx → H → PmuCtx × H
  unfolding clear_bits
  pmu_save ctx h =
      let off = clear_bits (read h pmcr) 1 in
      (
        record ctx {
          pmccntr_el0 = u64 (ctx.pmccntr_el0 + read h pmccntr);
          pmcr_el0 = read h pmcr;
          pmcntenset_el0 = read h pmcntenset;
          pmovsr_el0 = read h pmovsclr;
          pmevcntr =
              read h (evcntr 0) ∷ read h (evcntr 1) ∷ read h (evcntr 2) ∷ read h (evcntr 3) ∷ [];
          pmevtyper =
              read h (evtyper 0)
              ∷ read h (evtyper 1)
              ∷ read h (evtyper 2)
              ∷ read h (evtyper 3)
              ∷ [];
        },
        write (write h pmcr off) pmcr (bit_or (bit_or off 4) 2),
      )

  -- the four registers of a family: those left, and the number of the next
  pub write_from : (ℕ → PmuReg) → List ℕ → H → ℕ → H
  write_from reg [] h i = h
  write_from reg (v ∷ vs) h i = write_from reg vs (write h (reg i) v) (i + 1)

  pub pmu_restore : PmuCtx → H → H
  unfolding write_from
  pmu_restore ctx h =
      let h1 = write_from evtyper ctx.pmevtyper h 0 in
      let h2 = write_from evcntr ctx.pmevcntr h1 0 in
      let h3 = write h2 pmcr 6 in
      let h4 = write h3 pmovsclr ctx.pmovsr_el0 in
      let h5 = write h4 pmcntenset ctx.pmcntenset_el0 in
      if ctx.enabled then write h5 pmcr (bit_or ctx.pmcr_el0 1) else h5

  -- the sum of the counters that count `event`, in the loop of `pmu_query`
  pub count_of : ℕ → List ℕ → List ℕ → ℕ
  count_of event [] cs = 0
  count_of event (t ∷ ts) [] = 0
  count_of event (t ∷ ts) (c ∷ cs) =
      let rest = count_of event ts cs in if t % 65536 == event then u64 (c + rest) else rest

  -- `*cycles`, `*instrs` and `*cache_misses`, for the context of the current vCPU
  pub pmu_query : Option PmuCtx → H → ℕ × ℕ × ℕ
  unfolding count_of
  pmu_query none h = (0, 0, 0)
  pmu_query (some ctx) h = (
    u64 (ctx.pmccntr_el0 + read h pmccntr),
    count_of 8 ctx.pmevtyper ctx.pmevcntr,
    count_of 3 ctx.pmevtyper ctx.pmevcntr,
  )

-- `sys_reg_enc`
pub sys_reg_enc : ℕ → ℕ → ℕ → ℕ → ℕ → ℕ
sys_reg_enc op0 op1 crn crm op2 = op0 * 16384 + op1 * 2048 + crn * 128 + crm * 8 + op2

-- the case of PMCR_EL0
pub write_pmcr : PmuCtx → ℕ → PmuCtx
write_pmcr ctx val = record ctx {
  pmcr_el0 = val;
  enabled = if val % 2 == 1 then true else ctx.enabled;
  pmccntr_el0 = if val / 2 % 2 == 1 then 0 else ctx.pmccntr_el0;
  pmevcntr = if val / 4 % 2 == 1 then 0 ∷ 0 ∷ 0 ∷ 0 ∷ [] else ctx.pmevcntr;
}

-- the loop over the event counters: the rounds left, and the number of the next
pub trap_event : ℕ → PmuCtx → List ℕ → ℕ → ℕ → Bool → ℕ → ℕ → PmuCtx × List ℕ
trap_event zero ctx x enc rt is_read val i = (ctx, if is_read then set_reg x rt 0 else x)
trap_event (suc n) ctx x enc rt is_read val i =
    let rest = trap_event n ctx x enc rt is_read val (i + 1) in
    if enc == 0xdf40 + i
    then if is_read
      then (ctx, set_reg x rt (get_or ctx.pmevcntr i 0))
      else (record ctx { pmevcntr = set ctx.pmevcntr i val }, x)
    else if enc == 0xdf60 + i
    then if is_read
      then (ctx, set_reg x rt (get_or ctx.pmevtyper i 0))
      else (record ctx { pmevtyper = set ctx.pmevtyper i val }, x)
    else rest

-- an access to a register `get`, which a write makes `put`
abbrev pub access_reg : PmuCtx → List ℕ → ℕ → Bool → ℕ → PmuCtx → PmuCtx × List ℕ
access_reg ctx x rt is_read get put = if is_read then (ctx, set_reg x rt get) else (put, x)

pub trap_with : PmuCtx → List ℕ → ℕ → ℕ → Bool → ℕ → PmuCtx × List ℕ
unfolding sys_reg_enc write_pmcr trap_event clear_bits
trap_with ctx x enc rt r val =
    if enc == sys_reg_enc 3 3 9 12 0
    then access_reg ctx x rt r ctx.pmcr_el0 (write_pmcr ctx val)
    else if enc == sys_reg_enc 3 3 9 12 1
    then access_reg ctx x rt r ctx.pmcntenset_el0
        (record ctx { pmcntenset_el0 = bit_or ctx.pmcntenset_el0 val })
    else if enc == sys_reg_enc 3 3 9 12 2
    then access_reg ctx x rt r ctx.pmcntenset_el0
        (record ctx { pmcntenset_el0 = clear_bits ctx.pmcntenset_el0 val })
    else if enc == sys_reg_enc 3 3 9 12 3
    then access_reg ctx x rt r ctx.pmovsr_el0
        (record ctx { pmovsr_el0 = clear_bits ctx.pmovsr_el0 val })
    else if enc == sys_reg_enc 3 3 9 13 0
    then access_reg ctx x rt r ctx.pmccntr_el0 (record ctx { pmccntr_el0 = val })
    else if enc == sys_reg_enc 3 3 14 15 7
    then access_reg ctx x rt r ctx.pmccfiltr_el0 (record ctx { pmccfiltr_el0 = val })
    else if enc == sys_reg_enc 3 0 9 14 1
    then access_reg ctx x rt r ctx.pmintenset_el1
        (record ctx { pmintenset_el1 = bit_or ctx.pmintenset_el1 val })
    else if enc == sys_reg_enc 3 0 9 14 2
    then access_reg ctx x rt r ctx.pmintenset_el1
        (record ctx { pmintenset_el1 = clear_bits ctx.pmintenset_el1 val })
    else trap_event 4 ctx x enc rt r val 0

-- The context of the current vCPU, if there is one, and the registers. The result is `E_OK`.
pub pmu_handle_trap : Option PmuCtx → List ℕ → ℕ → Option PmuCtx × List ℕ
unfolding trap_with
pmu_handle_trap none x esr =
    let iss = esr % 33554432 in (none, if iss % 2 == 1 then set_reg x (rt_of iss) 0 else x)
pmu_handle_trap (some ctx) x esr =
    let iss = esr % 33554432 in
    let (ctx', x') =
      trap_with ctx x (enc_of iss) (rt_of iss) (iss % 2 == 1) (reg_value x (rt_of iss)) in
    (some ctx', x')
