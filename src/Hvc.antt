-- ===== src/Hvc.antt =====
-- guest/hypercall/hvc_handler.c: the dispatch of a hypercall to the components. The registers `x`
-- are the saved ones of the caller. `none` is a call that never returns.
pub mod Id
pub mod Routing
pub mod Transfers
pub mod Share
pub mod Messages
pub mod Frame
pub mod Samples
pub mod Tests
use hypervisor_base.Common.{
  ℕ, zero, suc, ◌+◌, ◌*◌, ◌/◌, ◌%◌, Bool, ◌&&◌, ◌||◌, List, Option, none, some, ◌==◌, ltb, leb,
  if◌then◌else◌, get_or, set, u32, u64, Err, e_inval, e_notfound, e_unsupported, err_word, failed,
  max_vms,
}
use hypervisor_base.State.{
  Core, VmState, vm_none, created, ready, running, suspended, stopped, vm_at,
}
use hypervisor_base.Vm.{vm_by_id, vm_stop, vm_suspend, vm_resume}
use hypervisor_base.Shmem.{Shm, Shmem, shmem_map, shmem_unmap}
use hypervisor_base.Ipc.{Queues, current_id, ipc_send, ipc_recv, ipc_notify}
use hypervisor_base.Sched.Stats.{VmStats}
use hypervisor_base.Sched.Switch.{Sched, set_core}
use hypervisor_base.Sched.Run.{sched_set_slice, sched_get_stats}
use hypervisor_base.Irq.Vgic.{Dist, CpuIf}
use hypervisor_base.Irq.Inject.{Gic, gic_inject_virq_lr}
use hypervisor_base.Psci.{psci_handler}
use hypervisor_base.Drivers.{
  Drivers, hvc_fuel_update, hvc_obd_read_all, hvc_obd_read_pid, hvc_audio_status, hvc_audio_play,
  hvc_audio_stop,
}
use hypervisor_base.Drivers.DmaXfer.{hvc_dma_xfer}
use hypervisor_base.Hvc.Id

-- the state of the components below
pub record Hyp : Type 0 where
  pub sched : Sched
  pub queues : Queues
  pub regions : List Shm  -- of guest/shmem/shmem.c
  pub cursor : ℕ
  pub drivers : Drivers
  pub dists : List Dist
  pub cpus : List CpuIf
  pub lrs : List ℕ  -- the list registers

abbrev pub core_of : Hyp → Core
core_of h = h.sched.machine.core

unfoldable pub with_core : Hyp → Core → Hyp
with_core h c = record h { sched = set_core h.sched c }

-- what a case leaves: the state, and the registers with the value for `x[0]`
abbrev pub Outcome : Type 0
Outcome = Option (Hyp × List ℕ)

abbrev pub ret : Hyp → List ℕ → ℕ → Outcome
ret h x v = some (h, set x 0 v)

-- `(u64)vm->state`
pub state_word : VmState → ℕ
state_word vm_none = 0
state_word created = 1
state_word ready = 2
state_word running = 3
state_word suspended = 4
state_word stopped = 5

pub query_state : Hyp → List ℕ → Outcome
unfolding state_word
query_state h x = elim (vm_by_id (core_of h) (u32 (get_or x 1 0))) [
  | none ↦ ret h x (err_word e_notfound)
  | some i ↦ ret h x (state_word (vm_at (core_of h) i).state)
]

-- the cases of `vm_stop`, `vm_suspend` and `vm_resume`, by the operation
pub on_vm : (Core → ℕ → Err × Core) → Hyp → List ℕ → Outcome
unfolding with_core
on_vm op h x = elim (vm_by_id (core_of h) (u32 (get_or x 1 0))) [
  | none ↦ ret h x (err_word e_notfound)
  | some i ↦ let (e, c) = op (core_of h) i in ret (with_core h c) x (err_word e)
]

abbrev pub shmem_of : Hyp → Shmem
shmem_of h = record { regions = h.regions; cursor = h.cursor; core = core_of h }

pub with_shmem : Hyp → Shmem → Hyp
unfolding with_core
with_shmem h s = record (with_core h s.core) { regions = s.regions; cursor = s.cursor }

pub on_shmem_map : Hyp → List ℕ → Outcome
unfolding with_shmem
on_shmem_map h x =
    elim (shmem_map (shmem_of h) (u32 (get_or x 1 0)) (u32 (get_or x 2 0)) (get_or x 3 0)
      (get_or x 4 0)) [ none ↦ none | some (e, s) ↦ ret (with_shmem h s) x (err_word e) ]

pub on_shmem_unmap : Hyp → List ℕ → Outcome
unfolding with_shmem
on_shmem_unmap h x =
    let (e, s) = shmem_unmap (shmem_of h) (get_or x 1 0) (get_or x 2 0) in
    ret (with_shmem h s) x (err_word e)

pub on_ipc_send : Hyp → List ℕ → Outcome
on_ipc_send h x =
    let (e, qs) =
      ipc_send (core_of h) h.queues (u32 (get_or x 1 0)) (get_or x 2 0) (get_or x 3 0) in
    ret (record h { queues = qs }) x (err_word e)

pub on_ipc_recv : Hyp → List ℕ → Outcome
unfolding with_core
on_ipc_recv h x =
    let (e, len, qs, ram) = ipc_recv (core_of h) h.queues (get_or x 1 0) (get_or x 2 0) in
    ret (record (with_core h (record (core_of h) { ram = ram })) { queues = qs }) x
      (if failed e then err_word e else len)

abbrev pub gic_of : Hyp → Gic
gic_of h = record { machine = h.sched.machine; dists = h.dists; cpus = h.cpus; lrs = h.lrs }

-- the doorbell of `ipc_notify`
pub doorbell : Hyp → Option ℕ → Hyp
doorbell h none = h
doorbell h (some virq) = record h { lrs = (gic_inject_virq_lr (gic_of h) virq 0xa0).lrs }

pub on_ipc_notify : Hyp → List ℕ → Outcome
unfolding doorbell
on_ipc_notify h x =
    let (e, virq) = ipc_notify (core_of h) (u32 (get_or x 1 0)) in
    ret (doorbell h virq) x (err_word e)

pub on_set_slice : Hyp → List ℕ → Outcome
on_set_slice h x =
    let (e, s) = sched_set_slice h.sched (u32 (get_or x 1 0)) (u32 (get_or x 2 0)) in
    ret (record h { sched = s }) x (err_word e)

-- the six registers of the statistics
pub stats_regs : List ℕ → VmStats → List ℕ
stats_regs x st =
    let x0 = set x 0 (st.total_us % 4294967296) in
    let x1 = set x0 1 (st.total_us / 4294967296) in
    let x2 = set x1 2 st.slice_count in
    let x3 = set x2 3 st.preempt_count in set (set x3 4 st.wfi_count) 5 st.slice_dur_us

pub on_get_stats : Hyp → List ℕ → Outcome
unfolding stats_regs
on_get_stats h x =
    let id = if u32 (get_or x 1 0) == 0 then current_id (core_of h) else u32 (get_or x 1 0) in
    elim (sched_get_stats h.sched id) [
      | none ↦ ret h x (err_word e_inval)
      | some st ↦ some (h, stats_regs x st)
    ]

-- the loop that adds up the times of all VMs: the rounds left, and the id of the next
pub total_time : Sched → ℕ → ℕ → ℕ
total_time s zero i = 0
total_time s (suc n) i =
    u64 (elim (sched_get_stats s i) [ none ↦ 0 | some st ↦ st.total_us ] + total_time s n (i + 1))

-- the share of the caller in permille
pub permille : Sched → ℕ → ℕ
unfolding total_time
permille s id = elim (sched_get_stats s id) [
  | none ↦ 0
  | some st ↦
      if st.total_us == 0 || total_time s max_vms 1 == 0
      then 0
      else u32 (u64 (st.total_us * 1000) / total_time s max_vms 1)
]

pub on_dma_xfer : Hyp → List ℕ → Outcome
on_dma_xfer h x = elim (hvc_dma_xfer h.sched.machine x) [
  | none ↦ none
  | some (m, x') ↦ some (record h { sched = record h.sched { machine = m } }, x')
]

abbrev pub on_driver : Hyp → Drivers × List ℕ → Outcome
on_driver h r = some (record h { drivers = r.0 }, r.1)

-- `(func & 0x80000000) && owner <= 0x06`
pub is_psci : ℕ → Bool
is_psci func = func / 2147483648 % 2 == 1 && leb (func / 16777216 % 64) 6

-- the cases of the drivers
pub on_driver_call : Hyp → ℕ → List ℕ → Outcome
unfolding on_dma_xfer
on_driver_call h id x =
    if id == Id.obd_read_pid_id
    then some (h, hvc_obd_read_pid h.drivers x)
    else if id == Id.obd_read_all_id
    then some (h, hvc_obd_read_all h.drivers x)
    else if id == Id.dma_xfer_id
    then on_dma_xfer h x
    else if id == Id.fuel_update_id
    then on_driver h (hvc_fuel_update h.drivers x)
    else if id == Id.fuel_get_state_id
    then some (h, hvc_obd_read_all h.drivers x)
    else if id == Id.audio_status_id
    then on_driver h (hvc_audio_status h.drivers x)
    else if id == Id.audio_play_id
    then on_driver h (hvc_audio_play h.drivers x)
    else if id == Id.audio_stop_id
    then on_driver h (hvc_audio_stop h.drivers x)
    else if id == Id.log_write_id
    then ret h x 0
    else ret h x (err_word e_unsupported)

-- the switch over the hypercalls
pub on_call : Hyp → ℕ → List ℕ → Outcome
unfolding query_state on_vm on_shmem_map on_shmem_unmap on_ipc_send on_ipc_recv on_ipc_notify
    on_set_slice on_get_stats permille on_driver_call
on_call h id x =
    if id == Id.vm_get_id_id
    then ret h x (current_id (core_of h))
    else if id == Id.vm_query_state_id
    then query_state h x
    else if id == Id.vm_stop_id
    then on_vm vm_stop h x
    else if id == Id.vm_suspend_id
    then on_vm vm_suspend h x
    else if id == Id.vm_resume_id
    then on_vm vm_resume h x
    else if id == Id.shmem_map_id
    then on_shmem_map h x
    else if id == Id.shmem_unmap_id
    then on_shmem_unmap h x
    else if id == Id.ipc_send_id
    then on_ipc_send h x
    else if id == Id.ipc_recv_id
    then on_ipc_recv h x
    else if id == Id.ipc_notify_id
    then on_ipc_notify h x
    else if id == Id.sched_set_slice_id
    then on_set_slice h x
    else if id == Id.sched_get_stats_id
    then on_get_stats h x
    else if id == Id.sched_yield_id
    then ret (record h { sched = record h.sched { timer_us = 1 } }) x 0
    else if id == Id.perf_query_id
    then ret h x (permille h.sched (current_id (core_of h)))
    else on_driver_call h id x

pub hvc_dispatch : Hyp → List ℕ → Outcome
unfolding is_psci on_call
hvc_dispatch h x =
    if is_psci (get_or x 0 0)
    then elim (psci_handler x) [ none ↦ none | some x' ↦ some (h, x') ]
    else on_call h (u32 (get_or x 0 0)) x
