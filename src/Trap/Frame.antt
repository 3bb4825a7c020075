-- ===== src/Trap/Frame.antt =====
-- What an exception of one vCPU does to the vCPUs, in boot/main.c.
use hypervisor_base.Common.{
  ℕ, Bool, List, Option, none, some, get_or, ◌≡◌, ◌≢◌, ◌∙◌, if_split, get_or-set_ne, Err, failed,
}
use hypervisor_base.State.{Core, Vcpu, vcpu_at, set_vcpu, zero_vcpu}
use hypervisor_base.Irq.Vgic.{vgic_icc_trap}
use hypervisor_base.Irq.Inject.{zero_cpu}
use hypervisor_base.Psci.{psci_handler}
use hypervisor_base.Hvc.{Hyp, core_of, with_core}
use hypervisor_base.Mmio.Registers.{elr_at, set_x-elr}
use hypervisor_base.Trap.{
  Trap, FaultRegs, ec_of, regs_of, set_regs, step_over, called, on_smc, on_pmu, on_sysreg, sync_of,
  hyp_sync_handler,
}

-- a write to vCPU `k`
other_vcpu_kept : (c : Core) (k j : ℕ) (v : Vcpu) → k ≢ j → vcpu_at (set_vcpu c k v) j ≡ vcpu_at c j
other_vcpu_kept c k j v h = get_or-set_ne c.pool k j v zero_vcpu h

step_kept :
    (h : Hyp) (k j : ℕ) (x : List ℕ)
    → k ≢ j
    → vcpu_at (core_of (step_over (set_regs h k x) k)) j ≡ vcpu_at (core_of h) j
unfolding step_over set_regs with_core
step_kept h k j x n =
    other_vcpu_kept (core_of (set_regs h k x)) k j _ n ∙ other_vcpu_kept (core_of h) k j _ n

module _ {D : Type 0} (device : ℕ → D → ℕ → Bool → ℕ → Err × ℕ × D) where
  -- An access of a vCPU to a system register leaves every other vCPU.
  pub sysreg_isolated :
      (t : Trap D) (k j esr : ℕ)
      → k ≢ j
      → vcpu_at (core_of (on_sysreg device t k esr).hyp) j ≡ vcpu_at (core_of t.hyp) j
  unfolding on_sysreg on_pmu
  sysreg_isolated t k j esr n =
      if_split (λ (t' : Trap D). vcpu_at (core_of t'.hyp) j ≡ vcpu_at (core_of t.hyp) j)
        (failed (vgic_icc_trap (get_or t.hyp.cpus k zero_cpu) (regs_of (core_of t.hyp) k) esr).0)
        (λ _. step_kept t.hyp k j _ n) λ _. step_kept _ k j _ n

  -- where vCPU `k` goes on after an exception that returns
  abbrev pub GoesOnAt : Trap D → ℕ → Option (Trap D) → Type 0
  GoesOnAt t k none = Unit
  GoesOnAt t k (some t') = elr_at (core_of t'.hyp) k ≡ elr_at (core_of t.hyp) k

  answered :
      (t : Trap D) (k : ℕ) (o : Option (List ℕ))
      → GoesOnAt t k (
          called device t k
            (elim o as (λ _. Option (Hyp × List ℕ)) [ none ↦ none | some x ↦ some (t.hyp, x) ]))
  unfolding called set_regs with_core
  answered t k none = tt
  answered t k (some x) = set_x-elr (core_of t.hyp) k k x

  -- An SMC of a guest is answered without moving the guest on: it goes on at the address that it
  -- had, which for a trapped SMC is the instruction itself.
  pub smc_repeats :
      (t : Trap D) (k : ℕ) (f : FaultRegs) (esr : ℕ)
      → (core_of t.hyp).current ≡ some k
      → ec_of esr ≡ 0x17
      → GoesOnAt t k (hyp_sync_handler device t f esr)
  unfolding hyp_sync_handler sync_of on_smc
  smc_repeats t k f esr e p =
      rw (e, p, hyp_sync_handler) (answered t k (psci_handler (regs_of (core_of t.hyp) k)))
