-- ===== src/Sched/Run.antt =====
-- core/sched/sched.c: building the table of slots, slices, and the launch of the first guest.
pub mod Slices
pub mod Tests
use hypervisor_base.Common.{
  ℕ, zero, suc, ◌+◌, ◌-◌, Bool, true, false, ◌&&◌, ◌||◌, List, [], ◌∷◌, ◌++◌, map, Option, none,
  some, ◌==◌, ltb, leb, if◌then◌else◌, get_elem?, length, take, Err, e_ok, e_notfound,
}
use hypervisor_base.State.{Core, Vm, vm_at, vcpu_at, set_vcpu, vcpu_running}
use hypervisor_base.Vm.{vm_by_id, vm_start, is_running, is_ready}
use hypervisor_base.Sched.Stats.{VmStats, sched_stats_init, sched_stats_set_slice, sched_stats_get}
use hypervisor_base.Sched.Switch.{vcpu_restore_sysregs, Sched, Slot, Cpu, slot_at, set_core}

abbrev pub max_slots : ℕ
max_slots = 16

pub sched_add_slot : Sched → ℕ → ℕ → ℕ → Sched
sched_add_slot s id vcpu dur_us =
    let dur = if dur_us == 0 then 1000 else dur_us in
    if leb max_slots (length s.slots) then s else record s {
      slots = s.slots ++ record { vm_id = id; vcpu_id = vcpu; duration_us = dur } ∷ [];
      stats = sched_stats_set_slice s.stats id dur;
    }

-- the loops of `sched_init`: the vCPUs of a VM that are left, and the number of the next
pub add_vcpus : Sched → Vm → ℕ → ℕ → Sched
unfolding sched_add_slot
add_vcpus s v zero i = s
add_vcpus s v (suc n) i = add_vcpus (sched_add_slot s v.id i v.sched.time_slice_us) v n (i + 1)

pub add_vms : Sched → List Vm → Sched
unfolding add_vcpus
add_vms s [] = s
add_vms s (v ∷ vs) = add_vms (add_vcpus s v (length v.vcpus) 0) vs

pub sched_init : Sched → Sched
unfolding add_vms
sched_init s =
    add_vms (record s { slots = []; cur = 0; stats = sched_stats_init; switches = 0 })
      (take s.machine.core.nvm s.machine.core.vms)

-- the bounds on a slice
abbrev pub clamp_slice : ℕ → ℕ
clamp_slice dur = let d = if ltb dur 100 then 100 else dur in if ltb 1000000 d then 1000000 else d

abbrev pub has_vm : ℕ → List Slot → Bool
has_vm id [] = false
has_vm id (x ∷ xs) = if x.vm_id == id then true else has_vm id xs

pub set_slice : ℕ → ℕ → Slot → Slot
set_slice id dur x = if x.vm_id == id then record x { duration_us = dur } else x

pub sched_set_slice : Sched → ℕ → ℕ → Err × Sched
sched_set_slice s id dur_us =
    if has_vm id s.slots
    then (
      e_ok,
      record s {
        slots = map (set_slice id (clamp_slice dur_us)) s.slots;
        stats = sched_stats_set_slice s.stats id (clamp_slice dur_us);
      },
    )
    else (e_notfound, s)

unfoldable pub sched_get_stats : Sched → ℕ → Option VmStats
sched_get_stats s id = sched_stats_get s.stats id

-- the loop of `sched_run` that starts the VMs: the VMs left, and the index of the next
pub start_vms : ℕ → Core → ℕ → Core
start_vms zero c i = c
start_vms (suc n) c i =
    start_vms n (if is_ready (vm_at c i).state then (vm_start c i).1 else c) (i + 1)

-- the vCPU of slot `i`, if its VM runs
pub first_vcpu : Sched → Bool → ℕ → Option ℕ
first_vcpu s rt_only i = elim (vm_by_id s.machine.core (slot_at s i).vm_id) [
  | none ↦ none
  | some v ↦
      if is_running (vm_at s.machine.core v).state
        && (if rt_only then (vm_at s.machine.core v).sched.realtime else true)
      then get_elem? (vm_at s.machine.core v).vcpus (slot_at s i).vcpu_id
      else none
]

-- a loop over the slots: those left, and the index of the next; the vCPU and its slot
pub find_first : Sched → Bool → ℕ → ℕ → Option (ℕ × ℕ)
unfolding first_vcpu
find_first s rt_only zero i = none
find_first s rt_only (suc n) i =
    let rest = find_first s rt_only n (i + 1) in
    elim (first_vcpu s rt_only i) [ none ↦ rest | some k ↦ some (k, i) ]

-- the machine as the first guest is entered
pub launch : Sched → ℕ → ℕ → Sched
unfolding vcpu_restore_sysregs
launch s k i =
    record (set_core s
      (record (set_vcpu s.machine.core k
        (record (vcpu_at s.machine.core k) { state = vcpu_running })) { current = some k })) {
          cur = i;
          timer_us = (slot_at s i).duration_us;
          cpu = record {
            sysregs = vcpu_restore_sysregs s.cpu.sysregs (vcpu_at s.machine.core k).sysregs;
            vttbr_el2 = (vcpu_at s.machine.core k).vttbr_el2;
          };
        }

-- `sched_run` up to the entry of the first guest; `none` is the idle loop and `hyp_panic`
pub sched_run : Sched → Option Sched
unfolding start_vms find_first launch
sched_run s =
    let n = length s.slots in
    let s' : Sched = set_core s (start_vms s.machine.core.nvm s.machine.core 0) in
    if n == 0 || s.machine.core.nvm == 0 then none else elim (find_first s' true n 0) [
      | some (k, i) ↦ some (launch s' k i)
      | none ↦ elim (find_first s' false n 0) [ none ↦ none | some (k, i) ↦ some (launch s' k i) ]
    ]
