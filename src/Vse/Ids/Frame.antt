-- ===== src/Vse/Ids/Frame.antt =====
-- Which parts of the machine a poll of vse/ids.c writes.
use hypervisor_base.Common.{ℕ, zero, suc, ◌+◌, ◌≡◌, refl, ◌∙◌, ◌&&◌, not, ◌==◌, ltb, if_split}
use hypervisor_base.Vse.State.{Machine, TrustLevel, rank, info, ev_poll, tick, now}
use hypervisor_base.Vse.Level.{trust_get}
use hypervisor_base.Vse.Trust.{trust_auto_promote_tick}
use hypervisor_base.Vse.Trust.VmLayer.{trust_auto_promote_tick-core}
use hypervisor_base.Vse.Ids.{log_event, poll_level, poll_vm, poll_vms, ids_poll, monitor_at}

log_event-core :
    (m : Machine) (id : ℕ) (fault_type detail : ℕ)
    → (log_event m id ev_poll info fault_type detail).core ≡ m.core
unfolding log_event
log_event-core m id fault_type detail = refl

poll_level-core :
    (m : Machine) (ix : ℕ) (cur prev : TrustLevel) → (poll_level m ix cur prev).1.core ≡ m.core
unfolding poll_level log_event
poll_level-core m ix cur prev =
    if_split (λ (r : ℕ × Machine). r.1.core ≡ m.core)
      (ltb (rank prev) (rank cur) && not (rank prev == 0)) (λ _. refl) λ _. refl

poll_vms-core : (n : ℕ) (m : Machine) (ix : ℕ) → (poll_vms n m ix).1.core ≡ m.core
unfolding poll_vms poll_vm
poll_vms-core zero m ix = refl
poll_vms-core (suc n) m ix =
    poll_vms-core n (poll_vm m ix).1 (ix + 1)
    ∙ poll_level-core m ix (trust_get m (ix + 1)) (monitor_at m ix).last_seen_level

pub ids_poll-core : (m : Machine) → (ids_poll m).1.core ≡ m.core
unfolding ids_poll
ids_poll-core m =
    let m' : Machine = (poll_vms 4 (tick m) 0).1 in
    let m'' : Machine = (trust_auto_promote_tick m' (now m)).1 in
    if_split (λ (r : ℕ × Machine). r.1.core ≡ m.core) m.ids.initialized
      (λ _.
        log_event-core m'' 0 0 m''.trust.total_faults
        ∙ trust_auto_promote_tick-core m' (now m)
        ∙ poll_vms-core 4 (tick m) 0)
      λ _. refl
