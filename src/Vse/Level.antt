-- ===== src/Vse/Level.antt =====
-- vse/trust.c, the part that vse/failover.c calls too: the level of a VM, and its revocation.
pub mod Frame
pub mod Standing
use hypervisor_base.Common.{
  ℕ, ◌-◌, Bool, true, false, ◌||◌, not, Option, none, some, ◌==◌, ltb, if◌then◌else◌, get_or, set,
  max_vms, Err, e_ok, e_inval, e_notfound,
}
use hypervisor_base.State.{vm_at}
use hypervisor_base.Vm.{vm_by_id, vm_stop, is_stopped}
use hypervisor_base.Vse.State.{
  TrustLevel, unknown, trusted, degraded, quarantine, revoked, rank, TrustRecord, zero_trust,
  Machine, now, tick,
}

-- `_idx`; `none` is -1
abbrev pub index_of : ℕ → Option ℕ
index_of id = if id == 0 || ltb max_vms id then none else some (id - 1)

abbrev pub record_at : Machine → ℕ → TrustRecord
record_at m ix = get_or m.trust.per_vm ix zero_trust

abbrev pub set_record : Machine → ℕ → TrustRecord → Machine
set_record m ix r = record m { trust = record m.trust { per_vm = set m.trust.per_vm ix r } }

pub trust_get : Machine → ℕ → TrustLevel
trust_get m id = elim (index_of id) [
  | none ↦ unknown
  | some ix ↦ if m.trust.initialized then (record_at m ix).level else unknown
]

pub trust_is_ok : Machine → ℕ → Bool
unfolding trust_get
trust_is_ok m id = rank (trust_get m id) == 1 || rank (trust_get m id) == 2

pub trust_is_blocked : Machine → ℕ → Bool
unfolding trust_get
trust_is_blocked m id = rank (trust_get m id) == 3 || rank (trust_get m id) == 4

-- `trust_set` once the id is checked
pub set_level : Machine → ℕ → TrustLevel → Err × Machine
set_level m ix level =
    if not m.trust.initialized
    then (e_inval, m)
    else if rank (record_at m ix).level == rank level
    then (e_ok, m)
    else (
      e_ok,
      set_record (tick m) ix (record (record_at m ix) { level = level; downgrade_time = now m }),
    )

pub trust_set : Machine → ℕ → TrustLevel → Err × Machine
unfolding set_level
trust_set m id level = elim (index_of id) [ none ↦ (e_inval, m) | some ix ↦ set_level m ix level ]

-- `trust_revoke` of the VM at index `i`; a failure of `vm_stop` is only logged
pub revoke_vm : Machine → ℕ → ℕ → Err × Machine
revoke_vm m id i =
    let m' = (trust_set m id revoked).1 in
    if is_stopped (vm_at m'.core i).state
    then (e_ok, m')
    else (e_ok, record m' { core = (vm_stop m'.core i).1 })

pub trust_revoke : Machine → ℕ → Err × Machine
unfolding revoke_vm
trust_revoke m id = elim (index_of id) [
  | none ↦ (e_inval, m)
  | some ix ↦ elim (vm_by_id m.core id) [ none ↦ (e_notfound, m) | some i ↦ revoke_vm m id i ]
]
