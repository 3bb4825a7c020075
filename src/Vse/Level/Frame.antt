-- ===== src/Vse/Level/Frame.antt =====
-- Which records of the security engine the level calls of vse/trust.c write.
use hypervisor_base.Common.{
  if_split, sym, ℕ, ◌≡◌, refl, not, some, ◌==◌, Option-cases, inl, inr, length-set, get_or-set_ne,
  Err,
}
use hypervisor_base.State.{Core, vm_at}
use hypervisor_base.Vm.{vm_by_id, vm_stop, is_stopped}
use hypervisor_base.Vse.State.{Machine, TrustRecord, TrustLevel, rank, zero_trust, revoked, tick}
use hypervisor_base.Vse.Level.{
  index_of, record_at, set_record, set_level, trust_set, revoke_vm, trust_revoke,
}
use hypervisor_base.Vse.Only.{OnlyAt, OnlyAt-refl, OnlyAt-trans}

pub set_record-OnlyAt : (m : Machine) (ix : ℕ) (r : TrustRecord) → OnlyAt ix m (set_record m ix r)
set_record-OnlyAt m ix r = record {
  initialized = refl;
  records = length-set m.trust.per_vm ix r;
  trust = λ j h. get_or-set_ne m.trust.per_vm ix j r zero_trust (λ e. h (sym e));
  backups = λ j h. refl;
}

pub tick-OnlyAt : (m : Machine) (ix : ℕ) → OnlyAt ix m (tick m)
tick-OnlyAt m ix = record {
  initialized = refl;
  records = refl;
  trust = λ j h. refl;
  backups = λ j h. refl;
}

pub set_level-OnlyAt : (m : Machine) (ix : ℕ) (l : TrustLevel) → OnlyAt ix m (set_level m ix l).1
unfolding set_level
set_level-OnlyAt m ix l =
    if_split (λ (r : Err × Machine). OnlyAt ix m r.1) (not m.trust.initialized)
      (λ _. OnlyAt-refl ix m)
      λ _.
        if_split (λ (r : Err × Machine). OnlyAt ix m r.1) (rank (record_at m ix).level == rank l)
          (λ _. OnlyAt-refl ix m)
          λ _. OnlyAt-trans ix m (tick m) _ (tick-OnlyAt m ix) (set_record-OnlyAt (tick m) ix _)

-- a change of the VM layer's state alone
pub core-OnlyAt : (m : Machine) (ix : ℕ) (c : Core) → OnlyAt ix m (record m { core = c })
core-OnlyAt m ix c = record {
  initialized = refl;
  records = refl;
  trust = λ j h. refl;
  backups = λ j h. refl;
}

-- The id that goes with an index.
abbrev pub IsIndex : ℕ → ℕ → Type 0
IsIndex id ix = index_of id ≡ some ix

pub trust_set-OnlyAt :
    (m : Machine) (id ix : ℕ) (l : TrustLevel) → IsIndex id ix → OnlyAt ix m (trust_set m id l).1
unfolding trust_set
trust_set-OnlyAt m id ix l e = rw (e, trust_set) (set_level-OnlyAt m ix l)

pub revoke_vm-OnlyAt :
    (m : Machine) (id ix i : ℕ) → IsIndex id ix → OnlyAt ix m (revoke_vm m id i).1
unfolding revoke_vm
revoke_vm-OnlyAt m id ix i e =
    let m' : Machine = (trust_set m id revoked).1 in
    let f : OnlyAt ix m m' = trust_set-OnlyAt m id ix revoked e in
    if_split (λ (r : Err × Machine). OnlyAt ix m r.1) (is_stopped (vm_at m'.core i).state) (λ _. f)
      λ _. OnlyAt-trans ix m m' _ f (core-OnlyAt m' ix (vm_stop m'.core i).1)

pub trust_revoke-OnlyAt :
    (m : Machine) (id ix : ℕ) → IsIndex id ix → OnlyAt ix m (trust_revoke m id).1
unfolding trust_revoke
trust_revoke-OnlyAt m id ix e = elim (Option-cases (vm_by_id m.core id)) [
  | inl e' ↦ rw (e, e', trust_revoke) (OnlyAt-refl ix m)
  | inr (i, e') ↦ rw (e, e', trust_revoke) (revoke_vm-OnlyAt m id ix i e)
]

-- A change of level does not touch the VMs.
set_level-core : (m : Machine) (ix : ℕ) (l : TrustLevel) → (set_level m ix l).1.core ≡ m.core
unfolding set_level
set_level-core m ix l =
    if_split (λ (r : Err × Machine). r.1.core ≡ m.core) (not m.trust.initialized) (λ _. refl)
      λ _.
        if_split (λ (r : Err × Machine). r.1.core ≡ m.core) (rank (record_at m ix).level == rank l)
          (λ _. refl) λ _. refl

pub trust_set-core : (m : Machine) (id : ℕ) (l : TrustLevel) → (trust_set m id l).1.core ≡ m.core
unfolding trust_set
trust_set-core m id l = elim (Option-cases (index_of id)) [
  | inl e ↦ rw (e, trust_set) refl
  | inr (ix, e) ↦ rw (e, trust_set) (set_level-core m ix l)
]

set_level-backups :
    (m : Machine) (ix : ℕ) (l : TrustLevel) → (set_level m ix l).1.backups ≡ m.backups
unfolding set_level
set_level-backups m ix l =
    if_split (λ (r : Err × Machine). r.1.backups ≡ m.backups) (not m.trust.initialized) (λ _. refl)
      λ _.
        if_split (λ (r : Err × Machine). r.1.backups ≡ m.backups)
          (rank (record_at m ix).level == rank l) (λ _. refl) λ _. refl

pub trust_set-backups :
    (m : Machine) (id : ℕ) (l : TrustLevel) → (trust_set m id l).1.backups ≡ m.backups
unfolding trust_set
trust_set-backups m id l = elim (Option-cases (index_of id)) [
  | inl e ↦ rw (e, trust_set) refl
  | inr (ix, e) ↦ rw (e, trust_set) (set_level-backups m ix l)
]
