-- ===== src/Trap.antt =====
-- boot/main.c, `hyp_sync_handler`: the exceptions of the guests. By arch/arm64/entry.S the handler
-- is given the saved registers of the current vCPU, and is reached only when there is one. The
-- devices and the fault registers are parameters; `none` is a handler that never returns.
pub mod Frame
mod Tests
use hypervisor_base.Common.{
  ℕ, ◌+◌, ◌*◌, ◌/◌, ◌%◌, Bool, true, false, List, [], ◌∷◌, Option, none, some, ◌==◌, if◌then◌else◌,
  get_or, set, u64, Err, failed,
}
use hypervisor_base.State.{Core, vcpu_at, set_vcpu}
use hypervisor_base.Vse.State.{Machine}
use hypervisor_base.Sched.Switch.{sched_on_wfi, set_core}
use hypervisor_base.Irq.Vgic.{vgic_icc_trap}
use hypervisor_base.Irq.Inject.{zero_cpu}
use hypervisor_base.Psci.{psci_handler}
use hypervisor_base.Hvc.{Hyp, core_of, with_core, hvc_dispatch}
use hypervisor_base.Mmio.{Mmio}
use hypervisor_base.Fault.{fault_dabt, fault_iabt}
use hypervisor_base.Pmu.{PmuCtx, pmu_vcpu_init, pmu_handle_trap}

-- `far_el2`, `elr_el2` and `hpfar_el2`
pub record FaultRegs : Type 0 where
  pub far : ℕ
  pub elr : ℕ
  pub hpfar : ℕ

pub record Trap (D : Type 0) : Type 0 where
  pub hyp : Hyp
  pub mmio : Mmio
  pub devices : D
  pub pmus : List PmuCtx  -- the `pmu` of the vCPUs of the pool

-- `ESR_EC(esr)`
abbrev pub ec_of : ℕ → ℕ
ec_of esr = esr / 67108864 % 64

-- the saved registers of vCPU `k`
abbrev pub regs_of : Core → ℕ → List ℕ
regs_of c k = (vcpu_at c k).x

pub set_regs : Hyp → ℕ → List ℕ → Hyp
set_regs h k x = with_core h (set_vcpu (core_of h) k (record (vcpu_at (core_of h) k) { x = x }))

-- "regs.elr_el2 += 4"
pub step_over : Hyp → ℕ → Hyp
step_over h k = with_core h (
    set_vcpu (core_of h) k
      (record (vcpu_at (core_of h) k) { elr_el2 = u64 ((vcpu_at (core_of h) k).elr_el2 + 4) }))

module _ {D : Type 0} (device : ℕ → D → ℕ → Bool → ℕ → Err × ℕ × D) where
  -- the state and the registers that a call leaves, for vCPU `k`
  pub called : Trap D → ℕ → Option (Hyp × List ℕ) → Option (Trap D)
  called t k none = none
  called t k (some (h, x)) = some (record t { hyp = set_regs h k x })

  pub on_smc : Trap D → ℕ → Option (Trap D)
  unfolding called
  on_smc t k =
      called t k
        (elim (psci_handler (regs_of (core_of t.hyp) k)) [ none ↦ none | some x ↦ some (t.hyp, x) ])

  pub on_dabt : Trap D → FaultRegs → ℕ → Option (Trap D)
  on_dabt t f esr =
      elim (fault_dabt device t.hyp.sched.machine t.mmio t.devices f.far f.elr f.hpfar esr) [
        | none ↦ none
        | some (m, mmio, d) ↦ some (record t {
          hyp = record t.hyp { sched = record t.hyp.sched { machine = m } };
          mmio = mmio;
          devices = d;
        })
      ]

  -- a system register: those of the interrupt controller first, then the monitor's
  pub on_pmu : Trap D → ℕ → ℕ → Trap D
  on_pmu t k esr =
      let (c, x) =
        pmu_handle_trap (some (get_or t.pmus k pmu_vcpu_init)) (regs_of (core_of t.hyp) k) esr in
      record t {
        hyp = step_over (set_regs t.hyp k x) k;
        pmus = elim c [ none ↦ t.pmus | some ctx ↦ set t.pmus k ctx ];
      }

  pub on_sysreg : Trap D → ℕ → ℕ → Trap D
  unfolding on_pmu
  on_sysreg t k esr =
      let (e, (cpu, x)) =
        vgic_icc_trap (get_or t.hyp.cpus k zero_cpu) (regs_of (core_of t.hyp) k) esr in
      if failed e then on_pmu t k esr else record t {
        hyp = step_over (set_regs (record t.hyp { cpus = set t.hyp.cpus k cpu }) k x) k;
      }

  -- the exception of vCPU `k`
  pub sync_of : Trap D → ℕ → FaultRegs → ℕ → Option (Trap D)
  unfolding called on_smc on_dabt on_sysreg
  sync_of t k f esr =
      if ec_of esr == 0x16
      then called t k (hvc_dispatch t.hyp (regs_of (core_of t.hyp) k))
      else if ec_of esr == 0x17
      then on_smc t k
      else if ec_of esr == 0x24
      then on_dabt t f esr
      else if ec_of esr == 0x20
      then some (record t { hyp = with_core t.hyp (fault_iabt (core_of t.hyp)) })
      else if ec_of esr == 0x01
      then some (record t { hyp = record t.hyp { sched = sched_on_wfi t.hyp.sched } })
      else if ec_of esr == 0x18
      then some (on_sysreg t k esr)
      else some t

  pub hyp_sync_handler : Trap D → FaultRegs → ℕ → Option (Trap D)
  unfolding sync_of
  hyp_sync_handler t f esr = elim (core_of t.hyp).current [
    | none ↦ none
    | some k ↦ sync_of t k f esr
  ]
