-- ===== src/State.antt =====
-- The state that the VM layer keeps: core/vm/vm.h, core/vcpu/vcpu.h, vre/power/power.c and the
-- distributor's enable bits. Pointers to a VM or a vCPU are indices into the tables that the code
-- points into; NULL is `none`. An array with a count is the list of its first entries, except for
-- the VM table, whose entries are all there, `nvm` of them in use.
use hypervisor_base.Common.{ℕ, Bool, false, List, [], Option, none, get_or, set, replicate}
use hypervisor_base.Memory.{Ram}
use hypervisor_base.Stage2.{PageTables}

pub data VmState : Type 0 where
  vm_none created ready running suspended stopped : VmState

pub data VmType : Type 0 where
  linux rtos android : VmType

pub record MemRegion : Type 0 where
  pub pa_base : ℕ
  pub ipa_base : ℕ
  pub size : ℕ
  pub flags : ℕ

pub record DevAssign : Type 0 where
  pub mmio_base : ℕ
  pub mmio_size : ℕ
  pub irq : ℕ
  pub passthru : Bool

pub record SchedCfg : Type 0 where
  pub time_slice_us : ℕ
  pub priority : ℕ
  pub realtime : Bool

pub record Vm : Type 0 where
  pub id : ℕ
  pub name : List ℕ
  pub state : VmState
  pub type : VmType
  pub vcpus : List ℕ  -- indices into the vCPU pool
  pub mem : List MemRegion
  pub dev : List DevAssign
  pub s2_pgd : ℕ
  pub vttbr : ℕ
  pub entry_ipa : ℕ
  pub dtb_ipa : ℕ
  pub sched : SchedCfg

abbrev pub zero_region : MemRegion
zero_region = record { pa_base = 0; ipa_base = 0; size = 0; flags = 0 }

abbrev pub zero_sched : SchedCfg
zero_sched = record { time_slice_us = 0; priority = 0; realtime = false }

-- an entry that `memset` has cleared
abbrev pub zero_vm : Vm
zero_vm = record {
  id = 0;
  name = [];
  state = vm_none;
  type = linux;
  vcpus = [];
  mem = [];
  dev = [];
  s2_pgd = 0;
  vttbr = 0;
  entry_ipa = 0;
  dtb_ipa = 0;
  sched = zero_sched;
}

pub data VcpuState : Type 0 where
  idle vcpu_ready vcpu_running blocked vcpu_stopped : VcpuState

-- `el1_sysregs_t`
pub record El1 : Type 0 where
  pub sctlr_el1 : ℕ
  pub ttbr0_el1 : ℕ
  pub ttbr1_el1 : ℕ
  pub tcr_el1 : ℕ
  pub mair_el1 : ℕ
  pub amair_el1 : ℕ
  pub vbar_el1 : ℕ
  pub sp_el1 : ℕ
  pub elr_el1 : ℕ
  pub spsr_el1 : ℕ
  pub esr_el1 : ℕ
  pub far_el1 : ℕ
  pub tpidr_el0 : ℕ
  pub tpidr_el1 : ℕ
  pub tpidrro_el0 : ℕ
  pub cpacr_el1 : ℕ
  pub cntkctl_el1 : ℕ
  pub contextidr_el1 : ℕ
  pub par_el1 : ℕ
  pub cntv_ctl_el0 : ℕ
  pub cntv_cval_el0 : ℕ
  pub ich_lr0 : ℕ

abbrev pub zero_el1 : El1
zero_el1 = record {
  sctlr_el1 = 0;
  ttbr0_el1 = 0;
  ttbr1_el1 = 0;
  tcr_el1 = 0;
  mair_el1 = 0;
  amair_el1 = 0;
  vbar_el1 = 0;
  sp_el1 = 0;
  elr_el1 = 0;
  spsr_el1 = 0;
  esr_el1 = 0;
  far_el1 = 0;
  tpidr_el0 = 0;
  tpidr_el1 = 0;
  tpidrro_el0 = 0;
  cpacr_el1 = 0;
  cntkctl_el1 = 0;
  contextidr_el1 = 0;
  par_el1 = 0;
  cntv_ctl_el0 = 0;
  cntv_cval_el0 = 0;
  ich_lr0 = 0;
}

-- `vcpu_t`: of the registers of the guest those that C code writes, x0 to x30, ELR and SPSR, and the
-- system registers.
pub record Vcpu : Type 0 where
  pub vcpu_id : ℕ
  pub vm : Option ℕ
  pub state : VcpuState
  pub vttbr_el2 : ℕ
  pub reset_pc : ℕ
  pub reset_x0 : ℕ
  pub elr_el2 : ℕ
  pub spsr_el2 : ℕ
  pub x : List ℕ
  pub sysregs : El1

abbrev pub zero_vcpu : Vcpu
zero_vcpu = record {
  vcpu_id = 0;
  vm = none;
  state = idle;
  vttbr_el2 = 0;
  reset_pc = 0;
  reset_x0 = 0;
  elr_el2 = 0;
  spsr_el2 = 0;
  x = replicate 31 0;
  sysregs = zero_el1;
}

pub data PowerState : Type 0 where
  on gated : PowerState

pub record GatedDev : Type 0 where
  pub mmio_base : ℕ
  pub gated : Bool

pub record Core : Type 0 where
  pub ram : Ram
  pub tables : PageTables
  pub vms : List Vm  -- _vms, all of its entries
  pub nvm : ℕ  -- _nvm
  pub pool : List Vcpu  -- _vcpu_pool, its first _vcpu_idx entries
  pub current : Option ℕ  -- g_current_vcpu[0]
  pub power : List PowerState  -- _state
  pub gated_devs : List GatedDev  -- _gated_devs, its first _ngated entries
  pub irq_on : ℕ → Bool  -- GICD_ISENABLER

-- `_vms[i]` and `_vcpu_pool[i]`
abbrev pub vm_at : Core → ℕ → Vm
vm_at c i = get_or c.vms i zero_vm

abbrev pub set_vm : Core → ℕ → Vm → Core
set_vm c i v = record c { vms = set c.vms i v }

abbrev pub vcpu_at : Core → ℕ → Vcpu
vcpu_at c i = get_or c.pool i zero_vcpu

abbrev pub set_vcpu : Core → ℕ → Vcpu → Core
set_vcpu c i v = record c { pool = set c.pool i v }
