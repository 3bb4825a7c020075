-- ===== src/Sched/Switch/Registers.antt =====
-- The registers of a vCPU over switches (`vcpu_do_switch` of core/vcpu/vcpu.c).
use hypervisor_base.Common.{
  ℕ, ◌<◌, ◌≡◌, ◌≢◌, sym, ap, ◌∙◌, some, List, length, get_or, set, get_or-set_self, get_or-set_ne,
}
use hypervisor_base.State.{Vcpu, vcpu_at, zero_vcpu}
use hypervisor_base.Sched.Switch.{
  Sched, Cpu, vcpu_do_switch, save_vcpu, load_vcpu, vcpu_save_sysregs, vcpu_restore_sysregs,
}

still_there :
    (xs : List Vcpu) (j k : ℕ) (a b c : Vcpu)
    → j ≢ k
    → j < length xs
    → get_or (set (set (set xs j a) k b) k c) j zero_vcpu ≡ a
still_there xs j k a b c h l =
    get_or-set_ne (set (set xs j a) k b) k j c zero_vcpu (λ e. h (sym e))
    ∙ get_or-set_ne (set xs j a) k j b zero_vcpu (λ e. h (sym e))
    ∙ get_or-set_self xs j a zero_vcpu l

-- the registers that a vCPU brings to a CPU
abbrev registers_of : Cpu → Vcpu → Cpu
registers_of c v = record {
  sysregs = vcpu_restore_sysregs c.sysregs v.sysregs;
  vttbr_el2 = v.vttbr_el2;
}

-- A switch from vCPU `j` to vCPU `k`, then any change of the registers by the guest of `k`, then a
-- switch back to `j` gives the CPU the stage-2 tables and the system registers of EL1 that it had,
-- when it ran with the stage-2 tables of `j` before. Three registers are not given back:
-- ESR_EL1, FAR_EL1 and PAR_EL1 are as the guest of `k` left them.
pub registers_return :
    (s : Sched) (j k : ℕ) (c : Cpu)
    → j ≢ k
    → j < length s.machine.core.pool
    → s.cpu.vttbr_el2 ≡ (vcpu_at s.machine.core j).vttbr_el2
    → (vcpu_do_switch (record (vcpu_do_switch s (some j) k) { cpu = c }) (some k) j).cpu
      ≡ record s.cpu {
        sysregs = record s.cpu.sysregs {
          esr_el1 = c.sysregs.esr_el1;
          far_el1 = c.sysregs.far_el1;
          par_el1 = c.sysregs.par_el1;
        };
      }
unfolding vcpu_do_switch save_vcpu load_vcpu vcpu_save_sysregs vcpu_restore_sysregs
registers_return s j k c h hj v =
    ap (registers_of c) (still_there s.machine.core.pool j k _ _ _ h hj)
    ∙ ap (λ t. record { sysregs = vcpu_restore_sysregs c.sysregs s.cpu.sysregs; vttbr_el2 = t })
        (sym v)
