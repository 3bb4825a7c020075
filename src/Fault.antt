-- ===== src/Fault.antt =====
-- core/fault/fault.c: data and instruction aborts of the guests. The fault registers are arguments;
-- the walk of the tables is a log only. `none` is a halt below.
pub mod Routes
mod Tests
use hypervisor_base.Common.{
  ℕ, ◌+◌, ◌-◌, ◌*◌, ◌/◌, ◌%◌, Bool, true, false, ◌&&◌, Option, none, some, ◌==◌, ltb, leb,
  if◌then◌else◌, u64, Err,
}
use hypervisor_base.State.{Core, vcpu_at, set_vcpu}
use hypervisor_base.Ipc.{current_id}
use hypervisor_base.Vse.State.{Machine}
use hypervisor_base.Vse.FaultDetect.{fdetect_mem_fault}
use hypervisor_base.Mmio.{Mmio, mmio_handle, is_write}

-- `(far & 0xFF000000) == 0x08000000`
pub is_mmio : ℕ → Bool
is_mmio far = far / 16777216 % 256 == 8

-- `((hpfar & ~0xF) << 8) | (far & 0xFFF)`, of disjoint fields
pub fault_ipa : ℕ → ℕ → ℕ
fault_ipa hpfar far = u64 (hpfar / 16 * 4096) + far % 4096

-- `dfsc >= 0x10 && dfsc <= 0x13`
pub is_translation : ℕ → Bool
is_translation esr = leb 0x10 (esr % 64) && leb (esr % 64) 0x13

-- `g_current_vcpu[0]->regs.elr_el2 = elr`
pub set_elr : Core → ℕ → Core
set_elr c elr = elim c.current [
  | none ↦ c
  | some k ↦ set_vcpu c k (record (vcpu_at c k) { elr_el2 = elr })
]

-- the two reports to the trust engine
pub report_dabt : Machine → ℕ → ℕ → ℕ → ℕ → Option Machine
unfolding is_translation fault_ipa set_elr
report_dabt m far elr hpfar esr =
    if is_translation esr
    then fdetect_mem_fault m (current_id m.core) (fault_ipa hpfar far) (is_write esr)
    else elim (fdetect_mem_fault m (current_id m.core) far (is_write esr)) [
      | none ↦ none
      | some m' ↦ some (record m' { core = set_elr m'.core (u64 (elr + 4)) })
    ]

module _ {D : Type 0} (device : ℕ → D → ℕ → Bool → ℕ → Err × ℕ × D) where
  pub fault_dabt : Machine → Mmio → D → ℕ → ℕ → ℕ → ℕ → Option (Machine × Mmio × D)
  unfolding is_mmio report_dabt
  fault_dabt m mmio d far elr hpfar esr =
      let (mmio', d', c) = mmio_handle device mmio m.core d far esr in
      if is_mmio far
      then some (record m { core = c }, mmio', d')
      else elim (report_dabt m far elr hpfar esr) [ none ↦ none | some m' ↦ some (m', mmio, d) ]

pub fault_iabt : Core → Core
fault_iabt c = elim c.current [
  | none ↦ c
  | some k ↦ set_vcpu c k (record (vcpu_at c k) { elr_el2 = u64 ((vcpu_at c k).elr_el2 + 4) })
]
