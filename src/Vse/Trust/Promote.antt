-- ===== src/Vse/Trust/Promote.antt =====
-- The automatic promotion of VMs (`trust_auto_promote_tick` of vse/trust.c).
use hypervisor_base.Common.{
  ℕ, zero, suc, ◌+◌, ◌<◌, ◌≤◌, ◌≡◌, ◌⊎◌, inl, inr, refl, ◌∙◌, ap, Bool, true, false, ◌==◌,
  if◌then◌else◌, if_split, Bool-cases, length, get_or-set_self, length-set, arith,
}
use hypervisor_base.Vse.State.{
  Machine, TrustRecord, TrustLevel, rank, unknown, trusted, degraded, quarantine, revoked,
  zero_trust,
}
use hypervisor_base.Vse.Level.{record_at, set_record, trust_set}
use hypervisor_base.Vse.Level.Frame.{set_record-OnlyAt, trust_set-OnlyAt}
use hypervisor_base.Vse.Level.Standing.{standing, IsIndex-suc, trust_set-standing}
use hypervisor_base.Vse.Only.{OnlyAt, OnlyAt-refl, OnlyAt-trans}
use hypervisor_base.Vse.Trust.{promote, promote_from, trust_auto_promote_tick, is_clean}

-- what a tick makes of a record
abbrev pub promoted : TrustRecord → ℕ → TrustLevel × ℕ
promoted r time = if is_clean r time then (trusted, 0) else standing r

promote-OnlyAt : (m : Machine) (time ix : ℕ) → ix < 4 → OnlyAt ix m (promote m time ix).1
unfolding promote
promote-OnlyAt m time ix h =
    let m' : Machine = set_record m ix (record (record_at m ix) { fault_count = 0 }) in
    if_split (λ (r : ℕ × Machine). OnlyAt ix m r.1) (is_clean (record_at m ix) time)
      (λ _.
        OnlyAt-trans ix m m' _ (set_record-OnlyAt m ix _)
          (trust_set-OnlyAt m' (ix + 1) ix trusted (IsIndex-suc ix h)))
      λ _. OnlyAt-refl ix m

clean_level : (r : TrustRecord) (time : ℕ) → is_clean r time ≡ true → rank r.level ≡ 2
clean_level r time e = ground arith

-- the promotion of a clean record
clean_promoted :
    (m : Machine) (ix : ℕ)
    → ix < 4
    → m.trust.initialized ≡ true
    → ix < length m.trust.per_vm
    → rank (record_at m ix).level ≡ 2
    → ◌≡◌ {A = TrustLevel × ℕ}
        (standing (
          record_at
            (trust_set
              (set_record m ix (record (record_at m ix) { fault_count = 0 }))
              (ix + 1)
              trusted).1
            ix))
        (trusted, 0)
clean_promoted m ix h i l e =
    let r : TrustRecord = record (record_at m ix) { fault_count = 0 } in
    let m' : Machine = set_record m ix r in
    let f : record_at m' ix ≡ r = get_or-set_self m.trust.per_vm ix r zero_trust l in
    trust_set-standing m' (ix + 1) ix trusted (IsIndex-suc ix h) i
      (omega (arith, length-set m.trust.per_vm ix r))
      (ap (λ (x : TrustRecord). rank x.level == 1) f ∙ rw (e) refl)
    ∙ ap (λ (x : TrustRecord). (trusted, x.fault_count)) f

promote_self :
    (m : Machine) (time ix : ℕ)
    → ix < 4
    → m.trust.initialized ≡ true
    → ix < length m.trust.per_vm
    → standing (record_at (promote m time ix).1 ix) ≡ promoted (record_at m ix) time
unfolding promote
promote_self m time ix h i l = elim (Bool-cases (is_clean (record_at m ix) time)) [
  | inl e ↦
      let g = clean_promoted m ix h i l (clean_level (record_at m ix) time e) in
      if_true (is_clean (record_at m ix) time) _ _ _ _ e g
  | inr e ↦ if_false (is_clean (record_at m ix) time) _ _ _ _ e refl
]
  where
    if_true :
        (b : Bool) (x y : ℕ × Machine) (u v : TrustLevel × ℕ)
        → b ≡ true
        → standing (record_at x.1 ix) ≡ u
        → standing (record_at (if b then x else y).1 ix) ≡ (if b then u else v)
    if_true b x y u v e g = rw (e) g

    if_false :
        (b : Bool) (x y : ℕ × Machine) (u v : TrustLevel × ℕ)
        → b ≡ false
        → standing (record_at y.1 ix) ≡ v
        → standing (record_at (if b then x else y).1 ix) ≡ (if b then u else v)
    if_false b x y u v e g = rw (e) g

promote_from-before :
    (n : ℕ) (m : Machine) (time ix j : ℕ)
    → ix + n ≤ 4
    → j < ix
    → record_at (promote_from n m time ix).1 j ≡ record_at m j
unfolding promote_from
promote_from-before zero m time ix j h k = refl
promote_from-before (suc n) m time ix j h k =
    promote_from-before n (promote m time ix).1 time (ix + 1) j (omega arith) (omega arith)
    ∙ (promote-OnlyAt m time ix (omega arith)).trust j (λ e. omega (arith, e))

promote_from_lem :
    (n : ℕ) (m : Machine) (time ix j : ℕ)
    → ix + n ≤ 4
    → m.trust.initialized ≡ true
    → length m.trust.per_vm ≡ 4
    → ix ≤ j
    → j < ix + n
    → standing (record_at (promote_from n m time ix).1 j) ≡ promoted (record_at m j) time
unfolding promote_from
promote_from_lem zero m time ix j h i l a b = absurd (omega arith)
promote_from_lem (suc n) m time ix j h i l a b =
    let f = promote-OnlyAt m time ix (omega arith) in
    let m' : Machine = (promote m time ix).1 in
    elim (first ix j a) [
      | inl e ↦ rw (e) (
          ap standing (promote_from-before n m' time (ix + 1) ix (omega arith) (omega arith))
          ∙ promote_self m time ix (omega arith) i (omega (arith, l)))
      | inr e ↦
          promote_from_lem n m' time (ix + 1) j (omega arith) (f.initialized ∙ i) (f.records ∙ l) e
            (omega arith)
          ∙ ap (λ r. promoted r time) (f.trust j (λ k. omega (arith, k)))
    ]
  where
    first : (ix j : ℕ) → ix ≤ j → (j ≡ ix) ⊎ (ix + 1 ≤ j)
    first ix j a = omega arith

pub tick-promoted :
    (m : Machine) (time ix : ℕ)
    → m.trust.initialized ≡ true
    → length m.trust.per_vm ≡ 4
    → ix < 4
    → standing (record_at (trust_auto_promote_tick m time).1 ix) ≡ promoted (record_at m ix) time
unfolding trust_auto_promote_tick
tick-promoted m time ix i l h =
    if_split (λ (r : ℕ × Machine). standing (record_at r.1 ix) ≡ promoted (record_at m ix) time)
      m.trust.initialized
      (λ _. promote_from_lem 4 m time 0 ix (omega arith) i l (omega arith) (omega arith))
      λ e. absurd (ground arith)

-- The VM is degraded, and its last fault is 30 seconds old.
abbrev pub IsDue : TrustRecord → ℕ → Type 0
IsDue r time = (r.level ≡ degraded) × (r.last_fault_us + 30000000 ≤ time)

level_of_rank : (l : TrustLevel) → rank l ≡ 2 → l ≡ degraded
level_of_rank unknown h = absurd (omega (arith, h))
level_of_rank trusted h = absurd (omega (arith, h))
level_of_rank degraded h = refl
level_of_rank quarantine h = absurd (omega (arith, h))
level_of_rank revoked h = absurd (omega (arith, h))

clean-IsDue : (r : TrustRecord) (time : ℕ) → is_clean r time ≡ true → IsDue r time
clean-IsDue r time e = (level_of_rank r.level (ground arith), ground arith)

due_clean : (r : TrustRecord) (time : ℕ) → IsDue r time → is_clean r time ≡ true
due_clean r time (d, t) = let k : rank r.level ≡ 2 = ap rank d in ground arith

-- Once the engine is initialised with its four records, a tick promotes exactly the VMs that are
-- degraded and have had no fault for 30 seconds: their level is then trusted and their count of
-- faults 0; every other VM keeps its level and its count.
pub tick_promotes :
    (m : Machine) (time ix : ℕ)
    → m.trust.initialized ≡ true
    → length m.trust.per_vm ≡ 4
    → ix < 4
    → (IsDue (record_at m ix) time
        × (standing (record_at (trust_auto_promote_tick m time).1 ix) ≡ (trusted, 0)))
      ⊎ ((¬ IsDue (record_at m ix) time)
          × (standing (record_at (trust_auto_promote_tick m time).1 ix)
              ≡ standing (record_at m ix)))
tick_promotes m time ix i l h = elim (Bool-cases (is_clean (record_at m ix) time)) [
  | inl e ↦ inl (clean-IsDue (record_at m ix) time e, tick-promoted m time ix i l h ∙ rw (e) refl)
  | inr e ↦ inr (
    λ d. let c : is_clean (record_at m ix) time ≡ true = due_clean (record_at m ix) time d in cc,
    tick-promoted m time ix i l h ∙ rw (e) refl,
  )
]

promote_from-keeps :
    (n : ℕ) (m : Machine) (time ix : ℕ)
    → ix + n ≤ 4
    → ((promote_from n m time ix).1.trust.initialized ≡ m.trust.initialized)
      × (length (promote_from n m time ix).1.trust.per_vm ≡ length m.trust.per_vm)
unfolding promote_from
promote_from-keeps zero m time ix h = (refl, refl)
promote_from-keeps (suc n) m time ix h =
    let f = promote-OnlyAt m time ix (omega arith) in
    let (i, l) = promote_from-keeps n (promote m time ix).1 time (ix + 1) (omega arith) in
    (i ∙ f.initialized, l ∙ f.records)

-- A tick changes neither the number of records nor whether the engine is initialised.
pub tick_keeps :
    (m : Machine) (time : ℕ)
    → ((trust_auto_promote_tick m time).1.trust.initialized ≡ m.trust.initialized)
      × (length (trust_auto_promote_tick m time).1.trust.per_vm ≡ length m.trust.per_vm)
unfolding trust_auto_promote_tick
tick_keeps m time =
    if_split
      (λ (r : ℕ × Machine).
        (r.1.trust.initialized ≡ m.trust.initialized)
        × (length r.1.trust.per_vm ≡ length m.trust.per_vm))
      m.trust.initialized (λ _. promote_from-keeps 4 m time 0 (omega arith)) λ _. (refl, refl)
