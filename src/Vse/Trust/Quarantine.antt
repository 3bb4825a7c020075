-- ===== src/Vse/Trust/Quarantine.antt =====
-- The way from a reported fault to the quarantine (vse/trust.c).
use hypervisor_base.Common.{
  ℕ, ◌+◌, ◌<◌, ◌≤◌, ◌≡◌, refl, sym, ◌∙◌, ap, Bool, true, false, ◌||◌, not, Option, none, some, ltb,
  leb, if◌then◌else◌, if_split, length, get_or, get_or-set_self, length-set, u32, Err, e_ok,
  e_inval, arith, subst,
}
use hypervisor_base.State.{Core, VmState, vm_at, suspended}
use hypervisor_base.Vm.{vm_by_id, is_running, is_ready}
use hypervisor_base.Vm.Lifecycle.{state_at, vm_suspend-state}
use hypervisor_base.Vse.State.{
  Machine, TrustState, TrustLevel, rank, quarantine, zero_trust, zero_backup, now,
}
use hypervisor_base.Vse.Level.{index_of, record_at, trust_set}
use hypervisor_base.Vse.Level.Frame.{IsIndex, trust_set-core, trust_set-backups}
use hypervisor_base.Vse.Level.Standing.{standing, trust_set-standing}
use hypervisor_base.Vse.Failover.{backup_at}
use hypervisor_base.Vse.Failover.Frame.{failover_on_quarantine-lone}
use hypervisor_base.Vse.Trust.{
  count_quarantine, suspend_runnable, quarantine_vm, trust_quarantine, note_fault, escalate,
  trust_report_fault,
}

-- The call comes back with E_OK, and leaves a machine with the property.
abbrev pub Succeeds : (Machine → Type 0) → Option (Err × Machine) → Type 0
Succeeds P none = ⊥
Succeeds P (some (e, m)) = (e ≡ e_ok) × P m

-- `m'` has the VM of record `ix` and entry `i` in quarantine, with `n` faults: a VM that ran is
-- suspended, another one is as it was.
abbrev pub IsQuarantined : ℕ → ℕ → ℕ → Core → Machine → Type 0
IsQuarantined ix i n c m' =
    (standing (record_at m' ix) ≡ (quarantine, n))
    × ((vm_at m'.core i).state
        ≡ (if is_running (vm_at c i).state then suspended else (vm_at c i).state))

suspend_runnable-trust : (m : Machine) (i : ℕ) → (suspend_runnable m i).trust ≡ m.trust
unfolding suspend_runnable
suspend_runnable-trust m i =
    if_split (λ (r : Machine). r.trust ≡ m.trust)
      (is_running (vm_at m.core i).state || is_ready (vm_at m.core i).state) (λ _. refl) λ _. refl

suspend_runnable-backups : (m : Machine) (i : ℕ) → (suspend_runnable m i).backups ≡ m.backups
unfolding suspend_runnable
suspend_runnable-backups m i =
    if_split (λ (r : Machine). r.backups ≡ m.backups)
      (is_running (vm_at m.core i).state || is_ready (vm_at m.core i).state) (λ _. refl) λ _. refl

not_runnable : (s : VmState) → is_running s || is_ready s ≡ false → is_running s ≡ false
not_runnable s h = ground arith

suspend_runnable-state :
    (m : Machine) (i : ℕ)
    → i < length m.core.vms
    → state_at (suspend_runnable m i).core i
      ≡ (if is_running (state_at m.core i) then suspended else state_at m.core i)
unfolding suspend_runnable
suspend_runnable-state m i h =
    if_split
      (λ (r : Machine).
        state_at r.core i
        ≡ (if is_running (state_at m.core i) then suspended else state_at m.core i))
      (is_running (state_at m.core i) || is_ready (state_at m.core i))
      (λ _. vm_suspend-state m.core i h) λ e. kept _ _ (not_runnable (state_at m.core i) e)
  where
    kept : (b : Bool) (s : VmState) → b ≡ false → s ≡ (if b then suspended else s)
    kept b s e = rw (e) refl

module _ (m : Machine) (id ix i : ℕ) (e : IsIndex id ix)
    (lone : (backup_at m ix).registered ≡ false) where
  abbrev at_rest : Machine
  at_rest = suspend_runnable (count_quarantine (trust_set m id quarantine).1) i

  lone_at_rest : (backup_at at_rest ix).registered ≡ false
  unfolding count_quarantine
  lone_at_rest =
      ap (λ bs. (get_or bs ix zero_backup).registered)
        (suspend_runnable-backups (count_quarantine (trust_set m id quarantine).1) i
          ∙ trust_set-backups m id quarantine)
      ∙ lone

  quarantine_vm-lone :
      ◌≡◌ {A = Option (Err × Machine)} (quarantine_vm m id i) (some (e_ok, at_rest))
  unfolding quarantine_vm
  quarantine_vm-lone =
      rw (failover_on_quarantine-lone at_rest id ix e lone_at_rest, quarantine_vm) refl

  trust_quarantine-lone :
      vm_by_id m.core id ≡ some i
      → rank (record_at m ix).level < 3
      → ◌≡◌ {A = Option (Err × Machine)} (trust_quarantine m id) (some (e_ok, at_rest))
  unfolding trust_quarantine
  trust_quarantine-lone f h =
      rw (e, f, trust_quarantine) (below _ (ground arith) ∙ quarantine_vm-lone)
    where
      below :
          (b : Bool)
          → b ≡ false
          → ◌≡◌ {A = Option (Err × Machine)}
              (if b then some (e_ok, m) else quarantine_vm m id i)
              (quarantine_vm m id i)
      below b p = rw (p) refl

  at_rest-IsQuarantined :
      m.trust.initialized ≡ true
      → ix < length m.trust.per_vm
      → i < length m.core.vms
      → rank (record_at m ix).level < 3
      → IsQuarantined ix i (record_at m ix).fault_count m.core at_rest
  unfolding count_quarantine
  at_rest-IsQuarantined k l v h =
      let m₁ : Machine = (trust_set m id quarantine).1 in
      let c : m₁.core ≡ m.core = trust_set-core m id quarantine in
      (
        ap (λ (t : TrustState). standing (get_or t.per_vm ix zero_trust))
              (suspend_runnable-trust (count_quarantine m₁) i)
            ∙ trust_set-standing m id ix quarantine e k l (ground arith),
        suspend_runnable-state (count_quarantine m₁) i
              (subst (λ (x : Core). i < length x.vms) (sym c) v)
            ∙ ap (λ x. if is_running (state_at x i) then suspended else state_at x i) c,
      )

note_fault-record :
    (m : Machine) (ix t d : ℕ)
    → ix < length m.trust.per_vm
    → (record_at m ix).fault_count < 4294967295
    → ◌≡◌ {A = TrustLevel × ℕ}
        (standing (record_at (note_fault m ix t d) ix))
        ((record_at m ix).level, (record_at m ix).fault_count + 1)
unfolding note_fault
note_fault-record m ix t d l h =
    ap standing (
      get_or-set_self m.trust.per_vm ix
        (record (record_at m ix) {
          fault_count = u32 ((record_at m ix).fault_count + 1);
          last_fault_type = t;
          last_fault_detail = d;
          last_fault_us = now m;
        })
        zero_trust l)
    ∙ ap (λ (n : ℕ). ((record_at m ix).level, n)) (omega arith)

escalate-lone :
    (m : Machine) (id ix i : ℕ)
    → IsIndex id ix
    → (backup_at m ix).registered ≡ false
    → vm_by_id m.core id ≡ some i
    → m.trust.initialized ≡ true
    → ix < length m.trust.per_vm
    → i < length m.core.vms
    → rank (record_at m ix).level < 3
    → 15 ≤ (record_at m ix).fault_count
    → Succeeds (IsQuarantined ix i (record_at m ix).fault_count m.core) (escalate m id ix)
unfolding escalate
escalate-lone m id ix i e b f k l v h n =
    many (leb 15 (record_at m ix).fault_count) (ltb (rank (record_at m ix).level) 3) _ _ _
      (ground arith) (ground arith)
      (rw (trust_quarantine-lone m id ix i e b f h)
        (refl, at_rest-IsQuarantined m id ix i e b k l v h))
  where
    many :
        (p q : Bool) (x y z : Option (Err × Machine))
        → p ≡ true
        → q ≡ true
        → Succeeds (IsQuarantined ix i (record_at m ix).fault_count m.core) x
        → Succeeds
            (IsQuarantined ix i (record_at m ix).fault_count m.core)
            (if p then if q then x else y else z)
    many p q x y z a c w = rw (a, c) w

-- A reported fault that brings the count of an initialised VM below quarantine, without a backup
-- image, to 15 or more succeeds: the VM is then at the quarantine level with the count raised by one
-- and, if it ran, suspended. The entry of the VM is in the table, and the count below 2^32 - 1.
pub fault_quarantines :
    (m : Machine) (id ix i fault_type detail : ℕ)
    → index_of id ≡ some ix
    → vm_by_id m.core id ≡ some i
    → (backup_at m ix).registered ≡ false
    → m.trust.initialized ≡ true
    → ix < length m.trust.per_vm
    → i < length m.core.vms
    → rank (record_at m ix).level < 3
    → 14 ≤ (record_at m ix).fault_count
    → (record_at m ix).fault_count < 4294967295
    → Succeeds
        (IsQuarantined ix i ((record_at m ix).fault_count + 1) m.core)
        (trust_report_fault m id fault_type detail)
unfolding trust_report_fault note_fault
fault_quarantines m id ix i t d e f b k l v h n w =
    let s = note_fault-record m ix t d l w in
    let m' : Machine = note_fault m ix t d in
    rw (e, trust_report_fault)
      (active _ _ _ k (ground arith) (
        subst (λ (x : ℕ). Succeeds (IsQuarantined ix i x m.core) (escalate m' id ix))
          (ap (λ (x : TrustLevel × ℕ). x.1) s)
          (escalate-lone m' id ix i e b f k
            (subst (λ (x : ℕ). ix < x) (sym (length-set m.trust.per_vm ix _)) l) v
            (subst (λ (x : TrustLevel × ℕ). rank x.0 < 3) (sym s) h)
            (subst (λ (x : TrustLevel × ℕ). 15 ≤ x.1) (sym s) (omega arith)))))
  where
    active :
        (p q : Bool) (x : Option (Err × Machine))
        → p ≡ true
        → q ≡ false
        → Succeeds (IsQuarantined ix i ((record_at m ix).fault_count + 1) m.core) x
        → Succeeds
            (IsQuarantined ix i ((record_at m ix).fault_count + 1) m.core)
            (if not p then some (e_inval, m) else if q then some (e_ok, m) else x)
    active p q x a c w' = rw (a, c) w'
