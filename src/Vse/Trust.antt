-- ===== src/Vse/Trust.antt =====
-- vse/trust.c: quarantine, restoring, fault escalation and automatic promotion of VMs. A result
-- `none` is the halt of `pt_alloc` (Stage2) inside a failover.
pub mod Isolation
pub mod Tests
pub mod Quarantine
pub mod Promote
pub mod Boot
pub mod VmLayer
pub mod Revoked
use hypervisor_base.Common.{
  ℕ, zero, suc, ◌+◌, ◌-◌, Bool, true, false, ◌||◌, ◌&&◌, not, List, [], ◌∷◌, Option, none, some,
  ◌==◌, ltb, leb, if◌then◌else◌, get_or, set, take, replicate, u32, max_vms, Err, e_ok, e_inval,
  e_notfound,
}
use hypervisor_base.State.{Core, Vm, vm_at}
use hypervisor_base.Vm.{vm_by_id, vm_suspend, vm_resume, is_ready, is_running, is_suspended}
use hypervisor_base.Vse.State.{
  TrustLevel, unknown, trusted, degraded, quarantine, revoked, rank, TrustRecord, TrustState,
  zero_trust, Machine, now, tick,
}
use hypervisor_base.Vse.Level.{index_of, record_at, set_record, set_level, trust_set}
use hypervisor_base.Vse.Failover.{failover_on_quarantine}

abbrev pub thresh_degraded : ℕ
thresh_degraded = 5

abbrev pub thresh_quarantine : ℕ
thresh_quarantine = 15

abbrev pub clean_period_us : ℕ
clean_period_us = 30000000

-- what `guest_measure_vm` answers
pub data Measured : Type 0 where
  matches mismatch learn skip : Measured

abbrev pub is_mismatch : Measured → Bool
is_mismatch mismatch = true
is_mismatch _ = false

-- the loop of `trust_init` over `g_hyp.vms`; `measure` is `guest_measure_vm`
pub mark_vms : (ℕ → List ℕ → Measured) → List Vm → List TrustRecord → List TrustRecord
mark_vms measure [] rs = rs
mark_vms measure (v ∷ vs) rs = mark_vms measure vs (elim (index_of v.id) [
  | none ↦ rs
  | some ix ↦ set rs ix (record (get_or rs ix zero_trust) {
    level = if is_mismatch (measure v.id v.name) then quarantine else trusted;
  })
])

pub trust_init : (ℕ → List ℕ → Measured) → Machine → Machine
unfolding mark_vms
trust_init measure m = record m {
  trust = record {
    initialized = true;
    per_vm = mark_vms measure (take m.core.nvm m.core.vms) (replicate max_vms zero_trust);
    total_faults = 0;
    quarantine_count = 0;
  };
}

-- `g_trust.quarantine_count++`
pub count_quarantine : Machine → Machine
count_quarantine m = record m {
  trust = record m.trust { quarantine_count = u32 (m.trust.quarantine_count + 1) };
}

-- "Suspend the VM if it is currently runnable"; a failure of `vm_suspend` is only logged
pub suspend_runnable : Machine → ℕ → Machine
suspend_runnable m i =
    if is_running (vm_at m.core i).state || is_ready (vm_at m.core i).state
    then record m { core = (vm_suspend m.core i).1 }
    else m

-- `trust_quarantine` of the VM at index `i`; the result of `failover_on_quarantine` is not looked at
pub quarantine_vm : Machine → ℕ → ℕ → Option (Err × Machine)
quarantine_vm m id i =
    elim (failover_on_quarantine
      (suspend_runnable (count_quarantine (trust_set m id quarantine).1) i) id) [
        | none ↦ none
        | some (e, m') ↦ some (e_ok, m')
      ]

pub trust_quarantine : Machine → ℕ → Option (Err × Machine)
trust_quarantine m id = elim (index_of id) [
  | none ↦ some (e_inval, m)
  | some ix ↦ elim (vm_by_id m.core id) [
    | none ↦ some (e_notfound, m)
    | some i ↦
        if leb (rank quarantine) (rank (record_at m ix).level)
        then some (e_ok, m)
        else quarantine_vm m id i
  ]
]

-- `trust_restore` of the VM at index `i`; a failure of `vm_resume` is only logged
pub restore_vm : Machine → ℕ → ℕ → ℕ → Err × Machine
restore_vm m id ix i =
    let m₁ =
      (trust_set (set_record m ix (record (record_at m ix) { fault_count = 0 })) id degraded).1 in
    if is_suspended (vm_at m₁.core i).state
    then (e_ok, record m₁ { core = (vm_resume m₁.core i).1 })
    else (e_ok, m₁)

pub trust_restore : Machine → ℕ → Err × Machine
trust_restore m id = elim (index_of id) [
  | none ↦ (e_inval, m)
  | some ix ↦ elim (vm_by_id m.core id) [
    | none ↦ (e_notfound, m)
    | some i ↦
        if rank (record_at m ix).level == rank quarantine
        then restore_vm m id ix i
        else (e_inval, m)
  ]
]

-- the record of a fault, before the escalation
pub note_fault : Machine → ℕ → ℕ → ℕ → Machine
note_fault m ix fault_type detail =
    let m' : Machine = set_record (tick m) ix (record (record_at m ix) {
      fault_count = u32 ((record_at m ix).fault_count + 1);
      last_fault_type = fault_type;
      last_fault_detail = detail;
      last_fault_us = now m;
    }) in
    record m' { trust = record m'.trust { total_faults = u32 (m'.trust.total_faults + 1) } }

-- "Escalate based on cumulative count"; the results of the calls are not looked at
pub escalate : Machine → ℕ → ℕ → Option (Err × Machine)
escalate m id ix =
    if leb thresh_quarantine (record_at m ix).fault_count
    then if ltb (rank (record_at m ix).level) (rank quarantine)
      then elim (trust_quarantine m id) [ none ↦ none | some (e, m') ↦ some (e_ok, m') ]
      else some (e_ok, m)
    else if leb thresh_degraded (record_at m ix).fault_count
        && rank (record_at m ix).level == rank trusted
    then some (e_ok, (trust_set m id degraded).1)
    else some (e_ok, m)

pub trust_report_fault : Machine → ℕ → ℕ → ℕ → Option (Err × Machine)
trust_report_fault m id fault_type detail = elim (index_of id) [
  | none ↦ some (e_inval, m)
  | some ix ↦
      if not m.trust.initialized
      then some (e_inval, m)
      else if rank (record_at m ix).level == rank revoked
      then some (e_ok, m)
      else escalate (note_fault m ix fault_type detail) id ix
]

-- Is the VM's record promoted at time `now_us`?
abbrev pub is_clean : TrustRecord → ℕ → Bool
is_clean r now_us =
    rank r.level == rank degraded
    && leb r.last_fault_us now_us
    && leb clean_period_us (now_us - r.last_fault_us)

-- one round of `trust_auto_promote_tick`
pub promote : Machine → ℕ → ℕ → ℕ × Machine
promote m now_us ix =
    if is_clean (record_at m ix) now_us
    then (
      1,
      (trust_set (set_record m ix (record (record_at m ix) { fault_count = 0 })) (ix + 1)
          trusted).1,
    )
    else (0, m)

-- the loop: the rounds left, and the index of the next
pub promote_from : ℕ → Machine → ℕ → ℕ → ℕ × Machine
promote_from zero m now_us ix = (0, m)
promote_from (suc n) m now_us ix =
    let (a, m') = promote m now_us ix in
    let (b, m'') = promote_from n m' now_us (ix + 1) in (a + b, m'')

pub trust_auto_promote_tick : Machine → ℕ → ℕ × Machine
trust_auto_promote_tick m now_us =
    if m.trust.initialized then promote_from max_vms m now_us 0 else (0, m)
