-- ===== src/Vse/Trust/Revoked.antt =====
-- Revoked VMs under the reports, requests and ticks that vse/trust.c handles.
use hypervisor_base.Common.{
  ℕ, ◌<◌, ◌≡◌, ◌≢◌, ◌⊎◌, inl, inr, refl, sym, ◌∙◌, ap, Bool, true, false, ◌&&◌, not, List, [], ◌∷◌,
  Option, none, some, Option-cases, ◌==◌, leb, if◌then◌else◌, length, Err, e_ok, e_inval, arith,
  subst, get_or,
}
use hypervisor_base.Vm.{vm_by_id}
use hypervisor_base.Vse.State.{
  Machine, TrustState, TrustRecord, TrustLevel, rank, revoked, quarantine, degraded, zero_trust,
}
use hypervisor_base.Vse.Level.{index_of, record_at, trust_revoke}
use hypervisor_base.Vse.Level.Frame.{trust_revoke-OnlyAt}
use hypervisor_base.Vse.Level.Standing.{trust_revoke-same, trust_revoke-bad}
use hypervisor_base.Vse.Only.{OnlyAt, Leaves}
use hypervisor_base.Vse.Trust.{
  trust_report_fault, trust_quarantine, trust_restore, trust_auto_promote_tick, is_clean,
}
use hypervisor_base.Vse.Trust.Isolation.{
  trust_report_fault-OnlyAt, trust_quarantine-OnlyAt, trust_restore-OnlyAt,
}
use hypervisor_base.Vse.Trust.Promote.{tick-promoted, tick_keeps, promoted}

trust_report_fault-bad :
    (m : Machine) (id t d : ℕ)
    → index_of id ≡ none
    → ◌≡◌ {A = Option (Err × Machine)} (trust_report_fault m id t d) (some (e_inval, m))
unfolding trust_report_fault
trust_report_fault-bad m id t d e = rw (e, trust_report_fault) refl

-- A fault of a revoked VM changes nothing.
trust_report_fault-revoked :
    (m : Machine) (id ix t d : ℕ)
    → index_of id ≡ some ix
    → m.trust.initialized ≡ true
    → (record_at m ix).level ≡ revoked
    → ◌≡◌ {A = Option (Err × Machine)} (trust_report_fault m id t d) (some (e_ok, m))
unfolding trust_report_fault
trust_report_fault-revoked m id ix t d e i r =
    rw (e, trust_report_fault) (ignored _ i (ap (λ l. rank l == rank revoked) r))
  where
    ignored :
        (x : Option (Err × Machine)) {b c : Bool}
        → b ≡ true
        → c ≡ true
        → ◌≡◌ {A = Option (Err × Machine)}
            (if not b then some (e_inval, m) else if c then some (e_ok, m) else x)
            (some (e_ok, m))
    ignored x p q = rw (p, q) refl

trust_quarantine-bad :
    (m : Machine) (id : ℕ)
    → index_of id ≡ none
    → ◌≡◌ {A = Option (Err × Machine)} (trust_quarantine m id) (some (e_inval, m))
unfolding trust_quarantine
trust_quarantine-bad m id e = rw (e, trust_quarantine) refl

-- A revoked VM is not quarantined.
trust_quarantine-revoked :
    (m : Machine) (id ix : ℕ)
    → index_of id ≡ some ix
    → (record_at m ix).level ≡ revoked
    → (P : Machine → Type 0) → P m
    → Leaves P (trust_quarantine m id)
unfolding trust_quarantine
trust_quarantine-revoked m id ix e r P p = elim (Option-cases (vm_by_id m.core id)) [
  | inl f ↦ rw (e, f, trust_quarantine) p
  | inr (i, f) ↦ rw (e, f, trust_quarantine) (ignored _ (ap (λ l. leb 3 (rank l)) r))
]
  where
    ignored :
        (x : Option (Err × Machine)) {b : Bool}
        → b ≡ true
        → Leaves P (if b then some (e_ok, m) else x)
    ignored x q = rw (q) p

trust_restore-bad : (m : Machine) (id : ℕ) → index_of id ≡ none → (trust_restore m id).1 ≡ m
unfolding trust_restore
trust_restore-bad m id e = rw (e, trust_restore) refl

-- A revoked VM is not restored.
trust_restore-revoked :
    (m : Machine) (id ix : ℕ)
    → index_of id ≡ some ix
    → (record_at m ix).level ≡ revoked
    → (trust_restore m id).1 ≡ m
unfolding trust_restore
trust_restore-revoked m id ix e r = elim (Option-cases (vm_by_id m.core id)) [
  | inl f ↦ rw (e, f, trust_restore) refl
  | inr (i, f) ↦ rw (e, f, trust_restore) (ignored _ (ap (λ l. rank l == rank quarantine) r))
]
  where
    ignored : (x : Err × Machine) {b : Bool} → b ≡ false → (if b then x else (e_inval, m)).1 ≡ m
    ignored x q = rw (q) refl

-- the calls that report a fault, request a level by its rules, or pass the time
pub data Call : Type 0 where
  call_fault : ℕ → ℕ → ℕ → Call
  call_quarantine call_restore call_revoke call_tick : ℕ → Call

-- the machine that a call leaves, if it comes back
abbrev outcome : Option (Err × Machine) → Option Machine
outcome none = none
outcome (some (e, m)) = some m

abbrev pub perform : Machine → Call → Option Machine
perform m (call_fault id fault_type detail) = outcome (trust_report_fault m id fault_type detail)
perform m (call_quarantine id) = outcome (trust_quarantine m id)
perform m (call_restore id) = some (trust_restore m id).1
perform m (call_revoke id) = some (trust_revoke m id).1
perform m (call_tick time) = some (trust_auto_promote_tick m time).1

abbrev pub performs : Machine → List Call → Option Machine
performs m [] = some m
performs m (c ∷ cs) = elim (perform m c) [ none ↦ none | some m' ↦ performs m' cs ]

-- The engine is initialised with its four records, and the VM at `ix` is revoked.
abbrev pub IsRevoked : ℕ → Machine → Type 0
IsRevoked ix m =
    (m.trust.initialized ≡ true) × (length m.trust.per_vm ≡ 4) × ((record_at m ix).level ≡ revoked)

abbrev Keeps : ℕ → Option Machine → Type 0
Keeps ix none = Unit
Keeps ix (some m) = IsRevoked ix m

kept_by : (ix : ℕ) (r : Option (Err × Machine)) → Leaves (IsRevoked ix) r → Keeps ix (outcome r)
kept_by ix none p = tt
kept_by ix (some (e, m)) p = p

others : (ix j : ℕ) (m m' : Machine) → j ≢ ix → OnlyAt j m m' → IsRevoked ix m → IsRevoked ix m'
others ix j m m' h p (i, l, r) =
    (p.initialized ∙ i, p.records ∙ l, ap (λ x. x.level) (p.trust ix (λ e. h (sym e))) ∙ r)

Leaves-others :
    (ix j : ℕ) (m : Machine) (r : Option (Err × Machine))
    → j ≢ ix
    → Leaves (OnlyAt j m) r
    → IsRevoked ix m
    → Leaves (IsRevoked ix) r
Leaves-others ix j m none h p q = tt
Leaves-others ix j m (some (e, m')) h p q = others ix j m m' h p q

same_or_not : (j ix : ℕ) → (j ≡ ix) ⊎ (j ≢ ix)
same_or_not j ix = omega arith

fault_keeps :
    (ix id t d : ℕ) (m : Machine)
    → IsRevoked ix m
    → Leaves (IsRevoked ix) (trust_report_fault m id t d)
fault_keeps ix id t d m h = elim (Option-cases (index_of id)) [
  | inl e ↦ subst (Leaves (IsRevoked ix)) (sym (trust_report_fault-bad m id t d e)) h
  | inr (j, e) ↦ elim (same_or_not j ix) [
    | inr n ↦ Leaves-others ix j m _ n (trust_report_fault-OnlyAt id j e m t d) h
    | inl q ↦
        subst (Leaves (IsRevoked ix))
          (sym (trust_report_fault-revoked m id ix t d (e ∙ ap some q) h.0 h.2)) h
  ]
]

quarantine_keeps :
    (ix id : ℕ) (m : Machine) → IsRevoked ix m → Leaves (IsRevoked ix) (trust_quarantine m id)
quarantine_keeps ix id m h = elim (Option-cases (index_of id)) [
  | inl e ↦ subst (Leaves (IsRevoked ix)) (sym (trust_quarantine-bad m id e)) h
  | inr (j, e) ↦ elim (same_or_not j ix) [
    | inr n ↦ Leaves-others ix j m _ n (trust_quarantine-OnlyAt id j e m) h
    | inl q ↦ trust_quarantine-revoked m id ix (e ∙ ap some q) h.2 (IsRevoked ix) h
  ]
]

restore_keeps : (ix id : ℕ) (m : Machine) → IsRevoked ix m → IsRevoked ix (trust_restore m id).1
restore_keeps ix id m h = elim (Option-cases (index_of id)) [
  | inl e ↦ subst (IsRevoked ix) (sym (trust_restore-bad m id e)) h
  | inr (j, e) ↦ elim (same_or_not j ix) [
    | inr n ↦ others ix j m _ n (trust_restore-OnlyAt id j e m) h
    | inl q ↦ subst (IsRevoked ix) (sym (trust_restore-revoked m id ix (e ∙ ap some q) h.2)) h
  ]
]

revoke_keeps : (ix id : ℕ) (m : Machine) → IsRevoked ix m → IsRevoked ix (trust_revoke m id).1
revoke_keeps ix id m h = elim (Option-cases (index_of id)) [
  | inl e ↦ subst (IsRevoked ix) (sym (trust_revoke-bad m id e)) h
  | inr (j, e) ↦ elim (same_or_not j ix) [
    | inr n ↦ others ix j m _ n (trust_revoke-OnlyAt m id j e) h
    | inl q ↦
        subst
          (λ (t : TrustState).
            (t.initialized ≡ true)
            × (length t.per_vm ≡ 4)
            × ((get_or t.per_vm ix zero_trust).level ≡ revoked))
          (sym (trust_revoke-same m id ix (e ∙ ap some q) h.0 h.2)) h
  ]
]

unclean : (r : TrustRecord) (time : ℕ) → r.level ≡ revoked → is_clean r time ≡ false
unclean r time h = first _ (leb r.last_fault_us time) _ (ap (λ l. rank l == rank degraded) h)
  where
    first : (a b c : Bool) → a ≡ false → (a && b && c) ≡ false
    first a b c p = rw (p) refl

not_clean : (r : TrustRecord) (time : ℕ) → r.level ≡ revoked → (promoted r time).0 ≡ revoked
not_clean r time h = rw (unclean r time h) h

tick_keeps_IsRevoked :
    (ix time : ℕ) (m : Machine)
    → ix < 4
    → IsRevoked ix m
    → IsRevoked ix (trust_auto_promote_tick m time).1
tick_keeps_IsRevoked ix time m k h =
    let (i, l) = tick_keeps m time in
    (
      i ∙ h.0,
      l ∙ h.1,
      ap (λ (x : TrustLevel × ℕ). x.0) (tick-promoted m time ix h.0 h.1 k)
          ∙ not_clean (record_at m ix) time h.2,
    )

call-Keeps : (ix : ℕ) (m : Machine) (c : Call) → ix < 4 → IsRevoked ix m → Keeps ix (perform m c)
call-Keeps ix m (call_fault id t d) k h = kept_by ix _ (fault_keeps ix id t d m h)
call-Keeps ix m (call_quarantine id) k h = kept_by ix _ (quarantine_keeps ix id m h)
call-Keeps ix m (call_restore id) k h = restore_keeps ix id m h
call-Keeps ix m (call_revoke id) k h = revoke_keeps ix id m h
call-Keeps ix m (call_tick time) k h = tick_keeps_IsRevoked ix time m k h

then-Keeps :
    (ix : ℕ) (f : Machine → Option Machine) (o : Option Machine)
    → Keeps ix o
    → ((m : Machine) → IsRevoked ix m → Keeps ix (f m))
    → Keeps ix (elim o [ none ↦ none | some m' ↦ f m' ])
then-Keeps ix f none p g = tt
then-Keeps ix f (some m) p g = g m p

calls_keep :
    (ix : ℕ) (m : Machine) (cs : List Call) → ix < 4 → IsRevoked ix m → Keeps ix (performs m cs)
calls_keep ix m [] k h = h
calls_keep ix m (c ∷ cs) k h =
    then-Keeps ix (λ m'. performs m' cs) (perform m c) (call-Keeps ix m c k h)
      λ m' h'. calls_keep ix m' cs k h'

-- Once a VM is revoked, it stays revoked under every sequence of reported faults, quarantines,
-- restorings, revocations and automatic promotions of any VMs that comes back, with the suspensions
-- and restarts that these calls start. Setting a level by hand and triggering a restart by hand,
-- trust_set and failover_trigger, are not among the calls.
pub revoked_stays :
    (m m' : Machine) (cs : List Call) (ix : ℕ)
    → ix < 4
    → IsRevoked ix m
    → performs m cs ≡ some m'
    → (record_at m' ix).level ≡ revoked
revoked_stays m m' cs ix k h e =
    let p : IsRevoked ix m' = subst (Keeps ix) e (calls_keep ix m cs k h) in p.2
