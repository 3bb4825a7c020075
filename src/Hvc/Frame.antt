-- ===== src/Hvc/Frame.antt =====
-- What every hypercall of guest/hypercall/hvc_handler.c leaves alone.
use hypervisor_base.Common.{
  ℕ, ◌≤◌, Bool, List, Option, none, some, ◌==◌, if◌then◌else◌, get_or, set, u32, get_or-set_ne, ◌∙◌,
  ◌≡◌, refl, Err, if_split, arith,
}
use hypervisor_base.State.{Core, vm_at}
use hypervisor_base.Vm.{vm_by_id, vm_stop, vm_suspend, vm_resume}
use hypervisor_base.Drivers.{
  Drivers, hvc_obd_read_all, hvc_obd_read_pid, hvc_fuel_update, hvc_audio_status, hvc_audio_play,
  hvc_audio_stop,
}
use hypervisor_base.Drivers.DmaXfer.{hvc_dma_xfer, xfer_as, current_vm}
use hypervisor_base.Dma.Guard.{dma_guard_log_violation}
use hypervisor_base.Vse.State.{Machine}
use hypervisor_base.Psci.{psci_handler, psci_result}
use hypervisor_base.Hvc.Id
use hypervisor_base.Hvc.{
  Hyp, Outcome, core_of, query_state, on_vm, on_shmem_map, on_shmem_unmap, on_ipc_send, on_ipc_recv,
  on_ipc_notify, on_set_slice, on_get_stats, stats_regs, on_dma_xfer, on_driver_call, on_call,
  is_psci, hvc_dispatch,
}

-- the registers from x6 on
pub AreKept : List ℕ → List ℕ → Type 0
AreKept x x' = (k : ℕ) → 6 ≤ k → get_or x' k 0 ≡ get_or x k 0

pub Keeps : {S : Type 0} → List ℕ → Option (S × List ℕ) → Type 0
unfolding AreKept
Keeps x none = Unit
Keeps x (some (h, x')) = AreKept x x'

set-AreKept : (x y : List ℕ) (i v : ℕ) → i ≤ 5 → AreKept x y → AreKept x (set y i v)
unfolding AreKept
set-AreKept x y i v h a k l = get_or-set_ne y i k v 0 (λ e. omega arith) ∙ a k l

AreKept-refl : (x : List ℕ) → AreKept x x
unfolding AreKept
AreKept-refl x k l = refl

some-Keeps : {S : Type 0} (h : S) (x x' : List ℕ) → AreKept x x' → Keeps x (some (h, x'))
unfolding Keeps
some-Keeps h x x' k = k

none-Keeps : (S : Type 0) (x : List ℕ) → Keeps {S = S} x none
unfolding Keeps
none-Keeps S x = tt

ret-Keeps : {S : Type 0} (h : S) (x : List ℕ) (v : ℕ) → Keeps x (some (h, set x 0 v))
ret-Keeps h x v = some-Keeps h x (set x 0 v) (set-AreKept x x 0 v (omega arith) (AreKept-refl x))

if_Keeps :
    {S : Type 0} (x : List ℕ) (b : Bool) (y z : Option (S × List ℕ))
    → Keeps x y
    → Keeps x z
    → Keeps x (if b then y else z)
if_Keeps x b y z p q = if_split (Keeps x) b (λ _. p) λ _. q

option-Keeps {ℓ} :
    {A : Type ℓ} {S : Type 0} (x : List ℕ) (o : Option A) (y : Option (S × List ℕ))
    (f : A → Option (S × List ℕ))
    → Keeps x y
    → ((a : A) → Keeps x (f a))
    → Keeps x (elim o [ none ↦ y | some a ↦ f a ])
option-Keeps x none y f p q = p
option-Keeps x (some a) y f p q = q a

map-Keeps :
    {S T : Type 0} (x : List ℕ) (f : S → T) (o : Option (S × List ℕ))
    → Keeps x o
    → Keeps x (elim o as (λ _. Option (T × List ℕ)) [ none ↦ none | some (m, x') ↦ some (f m, x') ])
unfolding Keeps
map-Keeps x f none k = tt
map-Keeps x f (some (m, x')) k = k

query_state-Keeps : (h : Hyp) (x : List ℕ) → Keeps x (query_state h x)
unfolding query_state
query_state-Keeps h x =
    option-Keeps x (vm_by_id (core_of h) (u32 (get_or x 1 0))) _ _ (ret-Keeps h x _)
      λ i. ret-Keeps h x _

on_vm-Keeps : (op : Core → ℕ → Err × Core) (h : Hyp) (x : List ℕ) → Keeps x (on_vm op h x)
unfolding on_vm
on_vm-Keeps op h x =
    option-Keeps x (vm_by_id (core_of h) (u32 (get_or x 1 0))) _ _ (ret-Keeps h x _)
      λ i. ret-Keeps _ x _

on_shmem_map-Keeps : (h : Hyp) (x : List ℕ) → Keeps x (on_shmem_map h x)
unfolding on_shmem_map
on_shmem_map-Keeps h x = option-Keeps x _ _ _ (none-Keeps Hyp x) λ r. ret-Keeps _ x _

on_get_stats-Keeps : (h : Hyp) (x : List ℕ) → Keeps x (on_get_stats h x)
unfolding on_get_stats stats_regs
on_get_stats-Keeps h x = option-Keeps x _ _ _ (ret-Keeps h x _) λ st.
    some-Keeps h x (stats_regs x st) (
      set-AreKept x _ 5 _ (omega arith) (
        set-AreKept x _ 4 _ (omega arith) (
          set-AreKept x _ 3 _ (omega arith) (
            set-AreKept x _ 2 _ (omega arith) (
              set-AreKept x _ 1 _ (omega arith)
                (set-AreKept x x 0 _ (omega arith) (AreKept-refl x)))))))

xfer_as-Keeps : (m : Machine) (i : ℕ) (x : List ℕ) (ipa size : ℕ) → Keeps x (xfer_as m i x ipa size)
unfolding xfer_as
xfer_as-Keeps m i x ipa size =
    if_Keeps x _ _ _
      (option-Keeps x (dma_guard_log_violation m (vm_at m.core i).id ipa) _ _ (none-Keeps Machine x)
        λ m'. ret-Keeps m' x _)
      (ret-Keeps m x _)

hvc_dma_xfer-Keeps : (m : Machine) (x : List ℕ) → Keeps x (hvc_dma_xfer m x)
unfolding hvc_dma_xfer
hvc_dma_xfer-Keeps m x =
    option-Keeps x (current_vm m.core) _ _ (ret-Keeps m x _) λ i. xfer_as-Keeps m i x _ _

on_dma_xfer-Keeps : (h : Hyp) (x : List ℕ) → Keeps x (on_dma_xfer h x)
unfolding on_dma_xfer
on_dma_xfer-Keeps h x = map-Keeps x _ _ (hvc_dma_xfer-Keeps h.sched.machine x)

set4 :
    (x : List ℕ) (i j k n a b c d : ℕ)
    → i ≤ 5
    → j ≤ 5
    → k ≤ 5
    → n ≤ 5
    → AreKept x (set (set (set (set x i a) j b) k c) n d)
set4 x i j k n a b c d p q r s =
    set-AreKept x _ n d s
      (set-AreKept x _ k c r (set-AreKept x _ j b q (set-AreKept x x i a p (AreKept-refl x))))

hvc_obd_read_all-AreKept : (d : Drivers) (x : List ℕ) → AreKept x (hvc_obd_read_all d x)
unfolding hvc_obd_read_all
hvc_obd_read_all-AreKept d x =
    if_split (AreKept x) d.fuel.valid
      (λ _. set4 x 1 2 3 0 _ _ _ _ (omega arith) (omega arith) (omega arith) (omega arith))
      λ _. set4 x 0 3 2 1 _ _ _ _ (omega arith) (omega arith) (omega arith) (omega arith)

on_driver_call-Keeps : (h : Hyp) (id : ℕ) (x : List ℕ) → Keeps x (on_driver_call h id x)
unfolding on_driver_call hvc_obd_read_pid hvc_fuel_update hvc_audio_status hvc_audio_play
    hvc_audio_stop
on_driver_call-Keeps h id x = if_Keeps x (id == Id.obd_read_pid_id) _ _ (ret-Keeps h x _) (
    if_Keeps x (id == Id.obd_read_all_id) _ _
      (some-Keeps h x _ (hvc_obd_read_all-AreKept h.drivers x))
      (if_Keeps x (id == Id.dma_xfer_id) _ _ (on_dma_xfer-Keeps h x) (
        if_Keeps x (id == Id.fuel_update_id) _ _ (ret-Keeps _ x _) (
          if_Keeps x (id == Id.fuel_get_state_id) _ _
            (some-Keeps h x _ (hvc_obd_read_all-AreKept h.drivers x))
            (if_Keeps x (id == Id.audio_status_id) _ _ (ret-Keeps _ x _) (
              if_Keeps x (id == Id.audio_play_id) _ _ (ret-Keeps _ x _) (
                if_Keeps x (id == Id.audio_stop_id) _ _ (ret-Keeps _ x _) (
                  if_Keeps x (id == Id.log_write_id) _ _ (ret-Keeps h x _) (ret-Keeps h x _)))))))))

on_call-Keeps : (h : Hyp) (id : ℕ) (x : List ℕ) → Keeps x (on_call h id x)
unfolding on_call on_shmem_unmap on_ipc_send on_ipc_recv on_ipc_notify on_set_slice
on_call-Keeps h id x = if_Keeps x (id == Id.vm_get_id_id) _ _ (ret-Keeps h x _) (
    if_Keeps x (id == Id.vm_query_state_id) _ _ (query_state-Keeps h x) (
      if_Keeps x (id == Id.vm_stop_id) _ _ (on_vm-Keeps vm_stop h x) (
        if_Keeps x (id == Id.vm_suspend_id) _ _ (on_vm-Keeps vm_suspend h x) (
          if_Keeps x (id == Id.vm_resume_id) _ _ (on_vm-Keeps vm_resume h x) (
            if_Keeps x (id == Id.shmem_map_id) _ _ (on_shmem_map-Keeps h x) (
              if_Keeps x (id == Id.shmem_unmap_id) _ _ (ret-Keeps _ x _) (
                if_Keeps x (id == Id.ipc_send_id) _ _ (ret-Keeps _ x _) (
                  if_Keeps x (id == Id.ipc_recv_id) _ _ (ret-Keeps _ x _) (
                    if_Keeps x (id == Id.ipc_notify_id) _ _ (ret-Keeps _ x _) (
                      if_Keeps x (id == Id.sched_set_slice_id) _ _ (ret-Keeps _ x _) (
                        if_Keeps x (id == Id.sched_get_stats_id) _ _ (on_get_stats-Keeps h x) (
                          if_Keeps x (id == Id.sched_yield_id) _ _ (ret-Keeps _ x _) (
                            if_Keeps x (id == Id.perf_query_id) _ _ (ret-Keeps h x _)
                              (on_driver_call-Keeps h id x))))))))))))))

psci-Keeps :
    (h : Hyp) (x : List ℕ) (o : Option ℕ)
    → Keeps x
        (elim (elim o as (λ _. Option (List ℕ)) [ none ↦ none | some v ↦ some (set x 0 v) ])
          as (λ _. Outcome) [ none ↦ none | some x' ↦ some (h, x') ])
psci-Keeps h x none = none-Keeps Hyp x
psci-Keeps h x (some v) = ret-Keeps h x v

dispatch-Keeps : (h : Hyp) (x : List ℕ) → Keeps x (hvc_dispatch h x)
unfolding hvc_dispatch psci_handler
dispatch-Keeps h x =
    if_Keeps x (is_psci (get_or x 0 0)) _ _
      (psci-Keeps h x (psci_result (get_or x 0 0) (get_or x 1 0)))
      (on_call-Keeps h (u32 (get_or x 0 0)) x)

-- register `k` of the caller after a call that returns
pub KeepsAt : List ℕ → ℕ → Outcome → Type 0
KeepsAt x k none = Unit
KeepsAt x k (some (h, x')) = get_or x' k 0 ≡ get_or x k 0

at_register : (x : List ℕ) (k : ℕ) (o : Outcome) → 6 ≤ k → Keeps x o → KeepsAt x k o
unfolding Keeps AreKept KeepsAt
at_register x k none p h = tt
at_register x k (some (h', x')) p h = h k p

-- Whatever the hypercall, its arguments and the state, a hypercall that returns leaves the
-- caller's registers from x6 on.
pub hvc_dispatch_keeps : (h : Hyp) (x : List ℕ) (k : ℕ) → 6 ≤ k → KeepsAt x k (hvc_dispatch h x)
hvc_dispatch_keeps h x k p = at_register x k (hvc_dispatch h x) p (dispatch-Keeps h x)
