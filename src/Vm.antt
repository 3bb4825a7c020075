-- ===== src/Vm.antt =====
-- core/vm/vm.c: the VM table and the life cycle of a VM. A `vm_t *` is an index into the table.
-- A result `none` is the halt of `pt_alloc` (Stage2). `g_hyp.vms` holds the table's entries in
-- order, so `g_hyp` needs no state of its own.
pub mod Tests
pub mod Table
pub mod Lifecycle
use hypervisor_base.Common.{
  ℕ, zero, suc, ◌+◌, ◌/◌, ◌%◌, Bool, true, false, ◌&&◌, not, List, [], ◌∷◌, ◌++◌, Option, none,
  some, ◌==◌, leb, if◌then◌else◌, length, get_or, set, take, max_vms, max_mem_regions,
  max_dev_per_vm, Err, e_ok, e_nomem, e_inval, e_busy, failed, u64,
}
use hypervisor_base.Stage2.{PageTables, s2_create, s2_map, s2_unmap, s2_ipa_is_mapped}
use hypervisor_base.State.{
  Core, Vm, VmState, vm_none, created, ready, running, suspended, stopped, VmType, linux, rtos,
  android, MemRegion, DevAssign, zero_vm, zero_region, vm_at, set_vm,
}
use hypervisor_base.Power.{power_gate_vm, power_ungate_vm}
use hypervisor_base.Vcpu.{vcpu_init, stop_all}

-- comparisons of `state` and `type`
abbrev pub is_none : VmState → Bool
is_none vm_none = true
is_none _ = false

abbrev pub is_ready : VmState → Bool
is_ready ready = true
is_ready _ = false

abbrev pub is_running : VmState → Bool
is_running running = true
is_running _ = false

abbrev pub is_suspended : VmState → Bool
is_suspended suspended = true
is_suspended _ = false

abbrev pub is_stopped : VmState → Bool
is_stopped stopped = true
is_stopped _ = false

abbrev pub is_linux : VmType → Bool
is_linux linux = true
is_linux _ = false

abbrev pub is_rtos : VmType → Bool
is_rtos rtos = true
is_rtos _ = false

abbrev pub is_android : VmType → Bool
is_android android = true
is_android _ = false

-- the loop of `vm_by_id`: the entries left to look at, and the index of the first of them
unfoldable pub find_vm : ℕ → List Vm → ℕ → Option ℕ
find_vm id [] i = none
find_vm id (v ∷ vs) i =
    if v.id == id && not (is_none v.state) then some i else find_vm id vs (i + 1)

unfoldable pub vm_by_id : Core → ℕ → Option ℕ
unfolding find_vm
vm_by_id c id = find_vm id (take c.nvm c.vms) 0

-- the entry that `vm_create` fills, before its page tables
pub new_vm : List ℕ → VmType → ℕ → Vm
new_vm name type n = record zero_vm {
  id = n + 1;
  type = type;
  state = created;
  name = take 31 name;
  sched = record {
    time_slice_us = if is_rtos type then 500000 else 2000000;
    realtime = is_rtos type;
    priority = if is_rtos type then 0 else 2;
  };
}

-- `*out` is the index in the result, when there is one.
pub vm_create : Core → List ℕ → VmType → Option (Err × Option ℕ × Core)
unfolding new_vm
vm_create c name type =
    if leb max_vms c.nvm then some (e_nomem, none, c) else elim (s2_create c.tables) [
      | none ↦ none
      | some ((pgd, vttbr), t) ↦ some (
        e_ok,
        some c.nvm,
        record c {
          tables = t;
          vms = set c.vms c.nvm (record (new_vm name type c.nvm) { s2_pgd = pgd; vttbr = vttbr });
          nvm = c.nvm + 1;
        },
      )
    ]

pub vm_add_mem : Core → ℕ → ℕ → ℕ → ℕ → ℕ → Err × Core
vm_add_mem c i pa ipa sz flags =
    if sz == 0
    then (e_inval, c)
    else if leb max_mem_regions (length vm.mem)
    then (e_nomem, c)
    else if not (vm.s2_pgd == 0) && s2_ipa_is_mapped c.tables vm.s2_pgd ipa sz
    then (e_busy, c)
    else (e_ok, set_vm c i (record vm { mem = vm.mem ++ region ∷ [] }))
  where
    vm : Vm
    vm = vm_at c i

    region : MemRegion
    region = record { pa_base = pa; ipa_base = ipa; size = sz; flags = flags }

pub vm_add_dev : Core → ℕ → DevAssign → Err × Core
vm_add_dev c i d =
    if leb max_dev_per_vm (length (vm_at c i).dev)
    then (e_nomem, c)
    else (e_ok, set_vm c i (record (vm_at c i) { dev = (vm_at c i).dev ++ d ∷ [] }))

-- `r->flags & MEM_X` and `r->flags & MEM_IO`
abbrev pub mem_x : ℕ → Bool
mem_x flags = flags / 4 % 2 == 1

abbrev pub mem_io : ℕ → Bool
mem_io flags = flags / 8 % 2 == 1

-- S2_AF | S2_SH_INNER | S2_S2AP_RW, then the memory attribute, then S2_XN: their bits are distinct.
pub s2_flags : ℕ → ℕ
s2_flags flags =
    1984 + (if mem_io flags then 4 else 60) + (if mem_x flags then 0 else 18014398509481984)

-- the loop of `vm_finalize` over the memory regions
pub map_regions : PageTables → ℕ → List MemRegion → Option (Err × PageTables)
map_regions t pgd [] = some (e_ok, t)
map_regions t pgd (r ∷ rs) = elim (s2_map t pgd r.ipa_base r.pa_base r.size (s2_flags r.flags)) [
  | none ↦ none
  | some (e, t') ↦ let rest = map_regions t' pgd rs in if failed e then some (e, t') else rest
]

-- the extra page of a Linux VM; the result of this `s2_map` is not looked at
pub map_linux_page : PageTables → Vm → Option PageTables
map_linux_page t vm =
    if is_linux vm.type
    then elim (s2_map t vm.s2_pgd 0x2bf000 (u64 ((get_or vm.mem 0 zero_region).pa_base + 0x2bf000))
        0x1000 2044) [ none ↦ none | some (e, t') ↦ some t' ]
    else some t

abbrev pub vcpu_pool_size : ℕ
vcpu_pool_size = 16

-- the loop of `vm_finalize` over the vCPUs: how many are left, and the number of the next
pub init_vcpus : ℕ → ℕ → Core → ℕ → Err × Core
init_vcpus zero v c i = (e_ok, c)
init_vcpus (suc n) v c i =
    let vm = vm_at c i in
    let k = length c.pool in
    let rest =
      init_vcpus n (v + 1)
        (set_vm (record c { pool = c.pool ++ vcpu_init vm i v ∷ [] }) i
          (record vm { vcpus = vm.vcpus ++ k ∷ [] }))
        i in
    if leb vcpu_pool_size k then (e_nomem, c) else rest

abbrev pub vcpus_of : VmType → ℕ
vcpus_of t = if is_android t then 2 else 1

-- what follows the mapping: `num_vcpus = 0`, the vCPUs, and `state = VM_READY`
pub finish_finalize : Core → ℕ → Err × Core
finish_finalize c i =
    let (e, c') =
      init_vcpus (vcpus_of (vm_at c i).type) 0 (set_vm c i (record (vm_at c i) { vcpus = [] })) i in
    if failed e then (e, c') else (e_ok, set_vm c' i (record (vm_at c' i) { state = ready }))

pub vm_finalize : Core → ℕ → Option (Err × Core)
vm_finalize c i = elim (map_regions c.tables (vm_at c i).s2_pgd (vm_at c i).mem) [
  | none ↦ none
  | some (e, t) ↦
      if failed e then some (e, record c { tables = t }) else elim (map_linux_page t (vm_at c i)) [
        | none ↦ none
        | some t' ↦ some (finish_finalize (record c { tables = t' }) i)
      ]
]

pub vm_start : Core → ℕ → Err × Core
vm_start c i =
    if is_ready (vm_at c i).state
    then (e_ok, set_vm c i (record (vm_at c i) { state = running }))
    else (e_inval, c)

-- the loop of `vm_stop` over the memory regions; a failure is only logged
pub unmap_regions : PageTables → ℕ → List MemRegion → PageTables
unmap_regions t pgd [] = t
unmap_regions t pgd (r ∷ rs) = unmap_regions (s2_unmap t pgd r.ipa_base r.size).1 pgd rs

pub vm_stop : Core → ℕ → Err × Core
vm_stop c i = if is_stopped vm.state then (e_ok, c) else (
  e_ok,
  set_vm (record (stop_all c vm.vcpus) { tables = unmap_regions c.tables vm.s2_pgd vm.mem }) i
      (record vm { state = stopped }),
)
  where
    vm : Vm
    vm = vm_at c i

-- a failure of `power_gate_vm` is only logged
pub vm_suspend : Core → ℕ → Err × Core
vm_suspend c i =
    if is_running (vm_at c i).state
    then (e_ok, set_vm (power_gate_vm c (vm_at c i)).1 i (record (vm_at c i) { state = suspended }))
    else (e_inval, c)

pub vm_resume : Core → ℕ → Err × Core
vm_resume c i =
    if is_suspended (vm_at c i).state
    then (e_ok, set_vm (power_ungate_vm c (vm_at c i)).1 i (record (vm_at c i) { state = running }))
    else (e_inval, c)
