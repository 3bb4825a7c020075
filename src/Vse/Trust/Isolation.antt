-- ===== src/Vse/Trust/Isolation.antt =====
-- Which records of the security engine a fault changes (vse/trust.c).
use hypervisor_base.Common.{
  ℕ, ◌+◌, ◌≡◌, ◌≢◌, refl, ◌&&◌, ◌||◌, not, Option, none, some, leb, ltb, ◌==◌, if_split,
  if◌then◌else◌, Option-cases, inl, inr, Err, e_ok, e_inval, subst, u32,
}
use hypervisor_base.State.{vm_at}
use hypervisor_base.Vm.{vm_by_id, is_running, is_ready, is_suspended, vm_suspend, vm_resume}
use hypervisor_base.Vse.State.{Machine, rank, quarantine, revoked, trusted, degraded, now, tick}
use hypervisor_base.Vse.Level.{index_of, record_at, set_record, trust_set}
use hypervisor_base.Vse.Level.Frame.{
  IsIndex, set_record-OnlyAt, tick-OnlyAt, trust_set-OnlyAt, core-OnlyAt,
}
use hypervisor_base.Vse.Failover.{failover_on_quarantine, backup_at}
use hypervisor_base.Vse.Failover.Frame.{failover_on_quarantine-OnlyAt}
use hypervisor_base.Vse.Only.{OnlyAt, OnlyAt-refl, OnlyAt-trans, Leaves}
use hypervisor_base.Vse.Trust.{
  quarantine_vm, trust_quarantine, note_fault, escalate, trust_report_fault, suspend_runnable,
  count_quarantine, restore_vm, trust_restore,
}

module _ (id ix : ℕ) (e : IsIndex id ix) where
  count_quarantine-OnlyAt : (m : Machine) → OnlyAt ix m (count_quarantine m)
  unfolding count_quarantine
  count_quarantine-OnlyAt m = record {
    initialized = refl;
    records = refl;
    trust = λ j h. refl;
    backups = λ j h. refl;
  }

  suspend_runnable-OnlyAt : (m : Machine) (i : ℕ) → OnlyAt ix m (suspend_runnable m i)
  unfolding suspend_runnable
  suspend_runnable-OnlyAt m i =
      if_split (OnlyAt ix m) (is_running (vm_at m.core i).state || is_ready (vm_at m.core i).state)
        {x = record m { core = (vm_suspend m.core i).1 }}
        (λ _. core-OnlyAt m ix (vm_suspend m.core i).1) (λ _. OnlyAt-refl ix m)

  -- the result code of a call replaced
  Leaves-ok :
      (m : Machine) (r : Option (Err × Machine))
      → Leaves (OnlyAt ix m) r
      → Leaves (OnlyAt ix m) (elim r [ none ↦ none | some (x, m') ↦ some (e_ok, m') ])
  Leaves-ok m none p = tt
  Leaves-ok m (some (x, m')) p = p

  after_step :
      (m m' : Machine) (r : Option (Err × Machine))
      → OnlyAt ix m m'
      → Leaves (OnlyAt ix m') r
      → Leaves (OnlyAt ix m) r
  after_step m m' none p q = tt
  after_step m m' (some (x, m'')) p q = OnlyAt-trans ix m m' m'' p q

  quarantine_vm-OnlyAt : (m : Machine) (i : ℕ) → Leaves (OnlyAt ix m) (quarantine_vm m id i)
  unfolding quarantine_vm
  quarantine_vm-OnlyAt m i =
      let m₁ : Machine = (trust_set m id quarantine).1 in
      let m₂ : Machine = count_quarantine m₁ in
      let m₃ : Machine = suspend_runnable m₂ i in
      Leaves-ok m (failover_on_quarantine m₃ id) (
        after_step m m₁ _ (trust_set-OnlyAt m id ix quarantine e) (
          after_step m₁ m₂ _ (count_quarantine-OnlyAt m₁) (
            after_step m₂ m₃ _ (suspend_runnable-OnlyAt m₂ i)
              (failover_on_quarantine-OnlyAt id ix e m₃))))

  pub trust_quarantine-OnlyAt : (m : Machine) → Leaves (OnlyAt ix m) (trust_quarantine m id)
  unfolding trust_quarantine
  trust_quarantine-OnlyAt m = elim (Option-cases (vm_by_id m.core id)) [
    | inl f ↦ rw (e, f, trust_quarantine) (OnlyAt-refl ix m)
    | inr (i, f) ↦
        rw (e, f, trust_quarantine)
          (if_split (Leaves (OnlyAt ix m)) (leb 3 (rank (record_at m ix).level))
            {x = some (e_ok, m)} (λ _. OnlyAt-refl ix m) (λ _. quarantine_vm-OnlyAt m i))
  ]

  escalate-OnlyAt : (m : Machine) → Leaves (OnlyAt ix m) (escalate m id ix)
  unfolding escalate
  escalate-OnlyAt m =
      let r = record_at m ix in
      if_split (Leaves (OnlyAt ix m)) (leb 15 r.fault_count)
        {x = if ltb (rank r.level) (rank quarantine)
          then elim (trust_quarantine m id) [ none ↦ none | some (x, m') ↦ some (e_ok, m') ]
          else some (e_ok, m)}
        (λ _.
          if_split (Leaves (OnlyAt ix m)) (ltb (rank r.level) (rank quarantine))
            {x = elim (trust_quarantine m id) [ none ↦ none | some (x, m') ↦ some (e_ok, m') ]}
            (λ _. Leaves-ok m (trust_quarantine m id) (trust_quarantine-OnlyAt m))
            λ _. OnlyAt-refl ix m)
        λ _.
          if_split (Leaves (OnlyAt ix m)) (leb 5 r.fault_count && rank r.level == rank trusted)
            {x = some (e_ok, (trust_set m id degraded).1)}
            (λ _. trust_set-OnlyAt m id ix degraded e) λ _. OnlyAt-refl ix m

  note_fault-OnlyAt : (m : Machine) (t d : ℕ) → OnlyAt ix m (note_fault m ix t d)
  unfolding note_fault
  note_fault-OnlyAt m t d =
      let r = record (record_at m ix) {
        fault_count = u32 ((record_at m ix).fault_count + 1);
        last_fault_type = t;
        last_fault_detail = d;
        last_fault_us = now m;
      } in
      let p =
        OnlyAt-trans ix m (tick m) (set_record (tick m) ix r) (tick-OnlyAt m ix)
          (set_record-OnlyAt (tick m) ix r) in
      record {
        initialized = p.initialized;
        records = p.records;
        trust = p.trust;
        backups = p.backups;
      }

  report-rest-OnlyAt :
      (m : Machine) (t d : ℕ) → Leaves (OnlyAt ix m) (escalate (note_fault m ix t d) id ix)
  report-rest-OnlyAt m t d =
      after_step m (note_fault m ix t d) (escalate (note_fault m ix t d) id ix)
        (note_fault-OnlyAt m t d) (escalate-OnlyAt (note_fault m ix t d))

  pub trust_report_fault-OnlyAt :
      (m : Machine) (t d : ℕ) → Leaves (OnlyAt ix m) (trust_report_fault m id t d)
  unfolding trust_report_fault
  trust_report_fault-OnlyAt m t d =
      rw (e, trust_report_fault)
        (if_split (Leaves (OnlyAt ix m)) (not m.trust.initialized) {x = some (e_inval, m)}
          (λ _. OnlyAt-refl ix m)
          λ _.
            if_split (Leaves (OnlyAt ix m)) (rank (record_at m ix).level == rank revoked)
              {x = some (e_ok, m)} (λ _. OnlyAt-refl ix m) λ _. report-rest-OnlyAt m t d)

  restore_vm-OnlyAt : (m : Machine) (i : ℕ) → OnlyAt ix m (restore_vm m id ix i).1
  unfolding restore_vm
  restore_vm-OnlyAt m i =
      let m' : Machine = set_record m ix (record (record_at m ix) { fault_count = 0 }) in
      let m₁ : Machine = (trust_set m' id degraded).1 in
      let p : OnlyAt ix m m₁ =
        OnlyAt-trans ix m m' m₁ (set_record-OnlyAt m ix _) (trust_set-OnlyAt m' id ix degraded e) in
      if_split (λ (r : Err × Machine). OnlyAt ix m r.1) (is_suspended (vm_at m₁.core i).state)
        (λ _. OnlyAt-trans ix m m₁ _ p (core-OnlyAt m₁ ix (vm_resume m₁.core i).1)) λ _. p

  pub trust_restore-OnlyAt : (m : Machine) → OnlyAt ix m (trust_restore m id).1
  unfolding trust_restore
  trust_restore-OnlyAt m = elim (Option-cases (vm_by_id m.core id)) [
    | inl f ↦ rw (e, f, trust_restore) (OnlyAt-refl ix m)
    | inr (i, f) ↦
        rw (e, f, trust_restore)
          (if_split (λ (r : Err × Machine). OnlyAt ix m r.1)
            (rank (record_at m ix).level == rank quarantine) (λ _. restore_vm-OnlyAt m i)
            λ _. OnlyAt-refl ix m)
  ]

-- A fault reported of one VM changes the trust records and the backup descriptors of no other VM,
-- whatever the escalation, the quarantine and the failover do.
pub fault_isolated :
    (m m' : Machine) (id ix j fault_type detail : ℕ) (e : Err)
    → index_of id ≡ some ix
    → j ≢ ix
    → trust_report_fault m id fault_type detail ≡ some (e, m')
    → (record_at m' j ≡ record_at m j) × (backup_at m' j ≡ backup_at m j)
fault_isolated m m' id ix j t d e k h r =
    let q : OnlyAt ix m m' =
      subst (Leaves (OnlyAt ix m)) r (trust_report_fault-OnlyAt id ix k m t d) in
    (q.trust j h, q.backups j h)
