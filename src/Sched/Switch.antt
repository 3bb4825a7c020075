-- ===== src/Sched/Switch.antt =====
-- core/sched/sched.c, and `vcpu_do_switch` of core/vcpu/vcpu.c with the two routines of
-- arch/arm64/context.S that it calls: choosing a vCPU and switching to it. ICH_LR0 is a register of
-- the CPU here, apart from the list registers of Irq; the PMU context that the switch exchanges too
-- is in Pmu. `none` is the halt of `pt_alloc`.
pub mod Timer
pub mod Registers
use hypervisor_base.Common.{
  ℕ, zero, suc, ◌+◌, ◌%◌, Bool, true, false, not, List, [], ◌∷◌, Option, none, some, ◌==◌, ltb,
  if◌then◌else◌, get_elem?, get_or, set, replicate, length, u32, u64,
}
use hypervisor_base.State.{
  Core, El1, Vm, Vcpu, VcpuState, idle, vcpu_ready, vcpu_running, blocked, vcpu_stopped, vm_at,
  vcpu_at, set_vcpu,
}
use hypervisor_base.Power.{set_irq}
use hypervisor_base.Vm.{vm_by_id, is_running}
use hypervisor_base.Vse.State.{Machine}
use hypervisor_base.Vse.Ids.{ids_poll}
use hypervisor_base.Sched.Stats.{
  VmStats, sched_stats_on_switch, sched_stats_on_wfi, sched_stats_set_slice,
}
use hypervisor_base.Sched.Scan.{scan_around}

abbrev pub major_frame_us : ℕ
major_frame_us = 10000

-- `sched_slot_t`
pub record Slot : Type 0 where
  pub vm_id : ℕ
  pub vcpu_id : ℕ
  pub duration_us : ℕ

abbrev pub zero_slot : Slot
zero_slot = record { vm_id = 0; vcpu_id = 0; duration_us = 0 }

-- the registers of the physical CPU
pub record Cpu : Type 0 where
  pub sysregs : El1
  pub vttbr_el2 : ℕ

pub record Sched : Type 0 where
  pub machine : Machine
  pub slots : List Slot  -- _slots, its first _nslots entries
  pub cur : ℕ  -- _cur
  pub stats : List VmStats  -- _stats
  pub switches : ℕ  -- g_switch_count
  pub poll_ctr : ℕ  -- ids_poll_ctr
  pub timer_us : ℕ  -- what `timer_set_us` set last
  pub cpu : Cpu

abbrev pub slot_at : Sched → ℕ → Slot
slot_at s i = get_or s.slots i zero_slot

abbrev pub set_core : Sched → Core → Sched
set_core s c = record s { machine = record s.machine { core = c } }

abbrev pub is_off : VcpuState → Bool
is_off vcpu_stopped = true
is_off _ = false

-- `slot_vcpu`, the index of a vCPU of the pool
pub slot_vcpu : Sched → ℕ → Option ℕ
slot_vcpu s idx = elim (vm_by_id s.machine.core (slot_at s idx).vm_id) [
  | none ↦ none
  | some i ↦
      if is_running (vm_at s.machine.core i).state
      then elim (get_elem? (vm_at s.machine.core i).vcpus (slot_at s idx).vcpu_id) [
        | none ↦ none
        | some k ↦ if is_off (vcpu_at s.machine.core k).state then none else some k
      ]
      else none
]

-- `find_next_rr`; the duration is that of the slot at the new `_cur`
pub find_next_rr : Sched → Option ℕ × Sched
unfolding slot_vcpu
find_next_rr s =
    let (r, cur) = scan_around (slot_vcpu s) (length s.slots) s.cur in (r, record s { cur = cur })

-- `prev && prev->vm ? prev->vm->id : 0`
pub vm_id_of : Core → Option ℕ → ℕ
vm_id_of c none = 0
vm_id_of c (some k) = elim (vcpu_at c k).vm [ none ↦ 0 | some i ↦ (vm_at c i).id ]

-- `gate_uart`
pub gate_uart : Core → ℕ → Core
unfolding vm_id_of
gate_uart c next = record c { irq_on = set_irq c.irq_on 33 (vm_id_of c (some next) == 1) }

-- `vcpu_save_sysregs`: what the CPU has and what the save area holds; PAR_EL1 is not saved
pub vcpu_save_sysregs : El1 → El1 → El1
vcpu_save_sysregs cpu area = record cpu { par_el1 = area.par_el1 }

-- `vcpu_restore_sysregs`: ESR_EL1, FAR_EL1 and PAR_EL1 are left as they are
unfoldable pub vcpu_restore_sysregs : El1 → El1 → El1
vcpu_restore_sysregs cpu area = record area {
  esr_el1 = cpu.esr_el1;
  far_el1 = cpu.far_el1;
  par_el1 = cpu.par_el1;
}

-- the system registers and the state of `prev`
pub save_vcpu : Sched → ℕ → Sched
unfolding vcpu_save_sysregs
save_vcpu s k = set_core s (
    set_vcpu s.machine.core k (record (vcpu_at s.machine.core k) {
      sysregs = vcpu_save_sysregs s.cpu.sysregs (vcpu_at s.machine.core k).sysregs;
      state = vcpu_ready;
    }))

-- the registers of `next` on the CPU, and its state
pub load_vcpu : Sched → ℕ → Sched
unfolding vcpu_restore_sysregs
load_vcpu s k =
    let v : Vcpu = vcpu_at s.machine.core k in
    record (set_core s (record (set_vcpu s.machine.core k (record v { state = vcpu_running })) {
      current = some k;
    })) {
      cpu = record {
        sysregs = vcpu_restore_sysregs s.cpu.sysregs v.sysregs;
        vttbr_el2 = v.vttbr_el2;
      };
    }

pub vcpu_do_switch : Sched → Option ℕ → ℕ → Sched
unfolding save_vcpu load_vcpu
vcpu_do_switch s none next = load_vcpu s next
vcpu_do_switch s (some k) next = load_vcpu (save_vcpu s k) next

-- the log of a change of VM: every eighth one polls the monitor
pub poll_monitor : Sched → Sched
poll_monitor s =
    let ctr = u32 (s.poll_ctr + 1) in
    let m : Machine = (ids_poll s.machine).1 in
    if ctr % 8 == 0 then record s { poll_ctr = ctr; machine = m } else record s { poll_ctr = ctr }

abbrev pub is_same : Option ℕ → ℕ → Bool
is_same none k = false
is_same (some j) k = j == k

-- the accounting of a switch
pub account : Sched → ℕ → ℕ → ℕ → Bool → Sched
account s prev next dur is_preempt = record s {
  stats = sched_stats_on_switch s.stats prev next dur is_preempt;
  switches = u64 (s.switches + 1);
}

pub do_switch : Sched → Option ℕ → ℕ → ℕ → Bool → Sched
unfolding poll_monitor account vcpu_do_switch vm_id_of
do_switch s prev next dur is_preempt =
    let p = vm_id_of s.machine.core prev in
    let q = vm_id_of s.machine.core (some next) in
    let s' : Sched = account (if p == q then s else poll_monitor s) p q dur is_preempt in
    if is_same prev next then s' else vcpu_do_switch s' prev next

-- the switch to the vCPU found, the UART's interrupt and the timer
pub switch_to : Sched → Option ℕ → ℕ → Bool → Sched
unfolding do_switch gate_uart
switch_to s prev next is_preempt =
    let dur = (slot_at s s.cur).duration_us in
    let s' : Sched = do_switch s prev next dur is_preempt in
    record (set_core s' (gate_uart s'.machine.core next)) { timer_us = dur }

pub sched_on_timer : Sched → Sched
unfolding find_next_rr switch_to
sched_on_timer s =
    if length s.slots == 0
    then record s { timer_us = major_frame_us }
    else let (r, s') = find_next_rr s in
      elim r [
        | none ↦ record s' { timer_us = major_frame_us }
        | some next ↦ switch_to s' s.machine.core.current next true
      ]

-- the step over the WFI instruction, and its count
pub note_wfi : Sched → Sched
unfolding vm_id_of
note_wfi s = elim s.machine.core.current [
  | none ↦ s
  | some k ↦
      let v : Vcpu = vcpu_at s.machine.core k in
      record (set_core s (set_vcpu s.machine.core k (record v { elr_el2 = u64 (v.elr_el2 + 4) }))) {
        stats = sched_stats_on_wfi s.stats (vm_id_of s.machine.core (some k));
      }
]

-- "Skip the VM that just WFI'd"
pub other_vcpu : Sched → ℕ → ℕ → Option ℕ
unfolding slot_vcpu
other_vcpu s prev_vm idx = if (slot_at s idx).vm_id == prev_vm then none else slot_vcpu s idx

-- the two searches of `sched_on_wfi`
pub find_for_wfi : Sched → ℕ → Option ℕ × Sched
unfolding other_vcpu find_next_rr
find_for_wfi s prev_vm =
    let (r, cur) = scan_around (other_vcpu s prev_vm) (length s.slots) s.cur in
    elim r [
      | none ↦ find_next_rr (record s { cur = cur })
      | some k ↦ (some k, record s { cur = cur })
    ]

pub sched_on_wfi : Sched → Sched
unfolding note_wfi find_for_wfi switch_to vm_id_of
sched_on_wfi s =
    let s₁ : Sched = note_wfi s in
    let prev = s.machine.core.current in
    let (r, s₂) = find_for_wfi s₁ (vm_id_of s₁.machine.core prev) in
    elim r [
      | none ↦ record s₂ { timer_us = major_frame_us }
      | some next ↦ switch_to s₂ prev next false
    ]
