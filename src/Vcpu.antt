-- ===== src/Vcpu.antt =====
-- core/vcpu/vcpu.c: the vCPUs of the pool. A vCPU pointer is an index into the pool.
pub mod Stop
use hypervisor_base.Common.{ℕ, List, [], ◌∷◌, some, set}
use hypervisor_base.State.{
  Core, Vm, Vcpu, vcpu_ready, vcpu_stopped, zero_vcpu, zero_el1, vcpu_at, set_vcpu,
}

abbrev pub spsr_el1h : ℕ
spsr_el1h = 0x3c5

-- `vcpu_init` of a fresh entry for the VM at index `vm`: what it leaves in the entry.
-- The PMU context and the write of `cntvoff_el2` are not modelled.
pub vcpu_init : Vm → ℕ → ℕ → Vcpu
vcpu_init v vm id = record zero_vcpu {
  vcpu_id = id;
  vm = some vm;
  state = vcpu_ready;
  vttbr_el2 = v.vttbr;
  sysregs = record zero_el1 { cpacr_el1 = 0x300000; mair_el1 = 0xff };
  elr_el2 = v.entry_ipa;
  spsr_el2 = spsr_el1h;
  x = set zero_vcpu.x 0 v.dtb_ipa;
}

pub vcpu_set_entry : Core → ℕ → ℕ → ℕ → Core
vcpu_set_entry c k entry arg0 = set_vcpu c k (record (vcpu_at c k) {
  reset_pc = entry;
  reset_x0 = arg0;
  elr_el2 = entry;
  spsr_el2 = spsr_el1h;
  x = set (vcpu_at c k).x 0 arg0;
})

pub vcpu_stop : Core → ℕ → Core
vcpu_stop c k = set_vcpu c k (record (vcpu_at c k) { state = vcpu_stopped })

-- the loop of `vm_stop` over `vm->vcpus`
pub stop_all : Core → List ℕ → Core
stop_all c [] = c
stop_all c (k ∷ ks) = stop_all (vcpu_stop c k) ks
