-- ===== src/Vse/Level/Standing.antt =====
-- The level and the count of faults of a VM after a change of level (vse/trust.c).
use hypervisor_base.Common.{
  ℕ, ◌+◌, ◌<◌, ◌≡◌, refl, ap, true, false, none, ◌==◌, length, get_or-set_self, if_split,
  Option-cases, inl, inr, ◌∙◌, Err, e_ok, arith, Bool-cases, some, get_or, subst, sym,
}
use hypervisor_base.State.{
  Core, VmState, vm_none, created, ready, running, suspended, stopped, vm_at,
}
use hypervisor_base.Vm.{vm_by_id, is_stopped}
use hypervisor_base.Vm.Lifecycle.{state_at, vm_stop-state}
use hypervisor_base.Vse.State.{
  Machine, TrustState, TrustRecord, TrustLevel, rank, unknown, trusted, degraded, quarantine,
  zero_trust, now, revoked,
}
use hypervisor_base.Vse.Level.{index_of, record_at, set_level, trust_set, revoke_vm, trust_revoke}
use hypervisor_base.Vse.Level.Frame.{IsIndex, trust_set-core}

pub IsIndex-suc : (ix : ℕ) → ix < 4 → IsIndex (ix + 1) ix
IsIndex-suc ix h = ground arith

-- the level and the count of faults
abbrev pub standing : TrustRecord → TrustLevel × ℕ
standing r = (r.level, r.fault_count)

pub set_level-standing :
    (m : Machine) (ix : ℕ) (l : TrustLevel)
    → m.trust.initialized ≡ true
    → ix < length m.trust.per_vm
    → rank (record_at m ix).level == rank l ≡ false
    → ◌≡◌ {A = TrustLevel × ℕ}
        (standing (record_at (set_level m ix l).1 ix))
        (l, (record_at m ix).fault_count)
unfolding set_level
set_level-standing m ix l i h e =
    rw (i, e)
      (ap standing (
        get_or-set_self m.trust.per_vm ix
          (record (record_at m ix) { level = l; downgrade_time = now m }) zero_trust h))

pub trust_set-standing :
    (m : Machine) (id ix : ℕ) (l : TrustLevel)
    → IsIndex id ix
    → m.trust.initialized ≡ true
    → ix < length m.trust.per_vm
    → rank (record_at m ix).level == rank l ≡ false
    → ◌≡◌ {A = TrustLevel × ℕ}
        (standing (record_at (trust_set m id l).1 ix))
        (l, (record_at m ix).fault_count)
unfolding trust_set
trust_set-standing m id ix l k i h e = rw (k, trust_set) (set_level-standing m ix l i h e)

-- a VM that is revoked already
set_level_same :
    (m : Machine) (ix : ℕ) (l : TrustLevel)
    → m.trust.initialized ≡ true
    → (record_at m ix).level ≡ l
    → ◌≡◌ {A = Err × Machine} (set_level m ix l) (e_ok, m)
unfolding set_level
set_level_same m ix l i h = ground arith

trust_set-same :
    (m : Machine) (id ix : ℕ) (l : TrustLevel)
    → IsIndex id ix
    → m.trust.initialized ≡ true
    → (record_at m ix).level ≡ l
    → (trust_set m id l).1.trust ≡ m.trust
unfolding trust_set
trust_set-same m id ix l k i h =
    rw (k, trust_set) (ap (λ (r : Err × Machine). r.1.trust) (set_level_same m ix l i h))

revoke_vm-trust :
    (m : Machine) (id i : ℕ) → (revoke_vm m id i).1.trust ≡ (trust_set m id revoked).1.trust
unfolding revoke_vm
revoke_vm-trust m id i =
    let m' : Machine = (trust_set m id revoked).1 in
    if_split (λ (r : Err × Machine). r.1.trust ≡ m'.trust) (is_stopped (vm_at m'.core i).state)
      (λ _. refl) λ _. refl

pub trust_revoke-same :
    (m : Machine) (id ix : ℕ)
    → IsIndex id ix
    → m.trust.initialized ≡ true
    → (record_at m ix).level ≡ revoked
    → (trust_revoke m id).1.trust ≡ m.trust
unfolding trust_revoke
trust_revoke-same m id ix k i h = elim (Option-cases (vm_by_id m.core id)) [
  | inl e ↦ rw (k, e, trust_revoke) refl
  | inr (v, e) ↦
      rw (k, e, trust_revoke) (revoke_vm-trust m id v ∙ trust_set-same m id ix revoked k i h)
]

pub trust_revoke-bad : (m : Machine) (id : ℕ) → index_of id ≡ none → (trust_revoke m id).1 ≡ m
unfolding trust_revoke
trust_revoke-bad m id e = rw (e, trust_revoke) refl

rank_revoked : (l : TrustLevel) → rank l == 4 ≡ true → l ≡ revoked
rank_revoked unknown h = ground arith
rank_revoked trusted h = ground arith
rank_revoked degraded h = ground arith
rank_revoked quarantine h = ground arith
rank_revoked revoked h = refl

level_revoked :
    (m : Machine) (id ix : ℕ)
    → IsIndex id ix
    → m.trust.initialized ≡ true
    → ix < length m.trust.per_vm
    → (record_at (trust_set m id revoked).1 ix).level ≡ revoked
level_revoked m id ix k i h = elim (Bool-cases (rank (record_at m ix).level == 4)) [
  | inl e ↦
      let r = rank_revoked (record_at m ix).level e in
      ap (λ (t : TrustState). (get_or t.per_vm ix zero_trust).level)
        (trust_set-same m id ix revoked k i r)
      ∙ r
  | inr e ↦ ap (λ (x : TrustLevel × ℕ). x.0) (trust_set-standing m id ix revoked k i h e)
]

is_stopped-eq : (s : VmState) → is_stopped s ≡ true → s ≡ stopped
is_stopped-eq vm_none h = ground arith
is_stopped-eq created h = ground arith
is_stopped-eq ready h = ground arith
is_stopped-eq running h = ground arith
is_stopped-eq suspended h = ground arith
is_stopped-eq stopped h = refl

-- `m` has the VM of record `ix` and entry `i` revoked and stopped.
abbrev pub IsOut : ℕ → ℕ → Machine → Type 0
IsOut ix i m = ((record_at m ix).level ≡ revoked) × (state_at m.core i ≡ stopped)

-- A revocation revokes the VM and stops it.
pub trust_revoke-IsOut :
    (m : Machine) (id ix i : ℕ)
    → IsIndex id ix
    → vm_by_id m.core id ≡ some i
    → m.trust.initialized ≡ true
    → ix < length m.trust.per_vm
    → i < length m.core.vms
    → IsOut ix i (trust_revoke m id).1
unfolding trust_revoke revoke_vm
trust_revoke-IsOut m id ix i k e t h v =
    let m' : Machine = (trust_set m id revoked).1 in
    let l = level_revoked m id ix k t h in
    rw (k, e, trust_revoke)
      (if_split (λ (r : Err × Machine). IsOut ix i r.1) (is_stopped (state_at m'.core i))
        (λ s. (l, is_stopped-eq (state_at m'.core i) s))
        λ _. (
          l,
          vm_stop-state m'.core i
              (subst (λ (c : Core). i < length c.vms) (sym (trust_set-core m id revoked)) v),
        ))
