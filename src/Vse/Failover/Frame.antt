-- ===== src/Vse/Failover/Frame.antt =====
-- Which records of the security engine vse/failover.c writes.
use hypervisor_base.Common.{
  e_notfound, false, ℕ, ◌≡◌, refl, sym, Bool, not, ◌||◌, Option, none, some, leb, if◌then◌else◌,
  if_split, Option-cases, inl, inr, set, get_or-set_ne, Err, failed,
}
use hypervisor_base.State.{Core}
use hypervisor_base.Vm.{vm_by_id, vm_stop, vm_finalize, vm_start}
use hypervisor_base.Vse.State.{Machine, BackupDesc, zero_backup, degraded}
use hypervisor_base.Vse.Level.Frame.{core-OnlyAt, IsIndex, trust_set-OnlyAt, trust_revoke-OnlyAt}
use hypervisor_base.Vse.Only.{OnlyAt, OnlyAt-refl, OnlyAt-trans, Leaves}
use hypervisor_base.Vse.Failover.{
  backup_at, restart, rebuild, reset_entry, recover, restore_image, do_failover,
  failover_on_quarantine,
}

module _ (id ix : ℕ) (e : IsIndex id ix) where
  restart-OnlyAt : (m : Machine) (i : ℕ) → OnlyAt ix m (restart m id i).1
  unfolding restart
  restart-OnlyAt m i =
      let c : Core = (vm_start m.core i).1 in
      if_split (λ (r : Err × Machine). OnlyAt ix m r.1) (failed (vm_start m.core i).0)
        (λ _. core-OnlyAt m ix c)
        λ _.
          OnlyAt-trans ix m (record m { core = c }) _ (core-OnlyAt m ix c)
            (trust_set-OnlyAt (record m { core = c }) id ix degraded e)

  rebuild-OnlyAt : (m : Machine) (i : ℕ) (b : BackupDesc) → Leaves (OnlyAt ix m) (rebuild m id i b)
  unfolding rebuild
  rebuild-OnlyAt m i b = elim (Option-cases (vm_finalize m.core i)) [
    | inl f ↦ rw (f, rebuild) tt
    | inr ((r, c), f) ↦
        rw (f, rebuild)
          (if_split (Leaves (OnlyAt ix m)) (failed r) (λ _. core-OnlyAt m ix c)
            λ _.
              OnlyAt-trans ix m (record m { core = reset_entry c i b.entry_ipa }) _
                (core-OnlyAt m ix _)
                (restart-OnlyAt (record m { core = reset_entry c i b.entry_ipa }) i))
  ]

  after_step :
      (m m' : Machine) (r : Option (Err × Machine))
      → OnlyAt ix m m'
      → Leaves (OnlyAt ix m') r
      → Leaves (OnlyAt ix m) r
  after_step m m' none p q = tt
  after_step m m' (some (x, m'')) p q = OnlyAt-trans ix m m' m'' p q

  recover-OnlyAt : (m : Machine) (i : ℕ) (b : BackupDesc) → Leaves (OnlyAt ix m) (recover m id i b)
  unfolding recover
  recover-OnlyAt m i b =
      let c : Core = (vm_stop m.core i).1 in
      if_split (Leaves (OnlyAt ix m)) (failed (vm_stop m.core i).0) (λ _. core-OnlyAt m ix c)
        λ _.
          after_step m _ _ (core-OnlyAt m ix (record c { ram = restore_image b c.ram }))
            (rebuild-OnlyAt _ i b)

  set_backup-OnlyAt :
      (m : Machine) (b : BackupDesc) → OnlyAt ix m (record m { backups = set m.backups ix b })
  set_backup-OnlyAt m b = record {
    initialized = refl;
    records = refl;
    trust = λ j h. refl;
    backups = λ j h. get_or-set_ne m.backups ix j b zero_backup (λ f. h (sym f));
  }

  pub do_failover-OnlyAt : (m : Machine) → Leaves (OnlyAt ix m) (do_failover m id ix)
  unfolding do_failover
  do_failover-OnlyAt m = elim (Option-cases (vm_by_id m.core id)) [
    | inl f ↦ rw (f, do_failover) (OnlyAt-refl ix m)
    | inr (i, f) ↦
        rw (f, do_failover)
          (if_split (Leaves (OnlyAt ix m)) (leb 3 (backup_at m ix).failover_count)
            (λ _. trust_revoke-OnlyAt m id ix e)
            λ _. after_step m _ _ (set_backup-OnlyAt m _) (recover-OnlyAt _ i _))
  ]

  -- The automatic failover.
  pub failover_on_quarantine-OnlyAt :
      (m : Machine) → Leaves (OnlyAt ix m) (failover_on_quarantine m id)
  unfolding failover_on_quarantine
  failover_on_quarantine-OnlyAt m =
      rw (e, failover_on_quarantine)
        (if_split (Leaves (OnlyAt ix m)) (not m.failover_ready) (λ _. OnlyAt-refl ix m)
          λ _.
            if_split (Leaves (OnlyAt ix m))
              (not (backup_at m ix).registered || not (backup_at m ix).critical)
              {x = some (e_notfound, m)} (λ _. OnlyAt-refl ix m) λ _. do_failover-OnlyAt m)

-- A VM without a backup image is left alone.
pub failover_on_quarantine-lone :
    (m : Machine) (id ix : ℕ)
    → IsIndex id ix
    → (backup_at m ix).registered ≡ false
    → failover_on_quarantine m id ≡ some (e_notfound, m)
unfolding failover_on_quarantine
failover_on_quarantine-lone m id ix e h = rw (e, failover_on_quarantine) (lone _ h)
  where
    lone :
        (x : Option (Err × Machine)) {b : Bool}
        → b ≡ false
        → ◌≡◌ {A = Option (Err × Machine)}
            (if not m.failover_ready
              then some (e_notfound, m)
              else if not b || not (backup_at m ix).critical
              then some (e_notfound, m)
              else x)
            (some (e_notfound, m))
    lone x p = rw (p) (
        if_split (λ r. ◌≡◌ {A = Option (Err × Machine)} r (some (e_notfound, m)))
          (not m.failover_ready) {x = some (e_notfound, m)} (λ _. refl) λ _. refl)
