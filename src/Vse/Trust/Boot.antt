-- ===== src/Vse/Trust/Boot.antt =====
-- Which VMs trust_init of vse/trust.c trusts.
use hypervisor_base.Common.{
  ℕ, zero, suc, ◌≡◌, ◌≢◌, ◌⊎◌, inl, inr, refl, sym, ap, subst, ◌∙◌, if◌then◌else◌, List, [], ◌∷◌,
  none, some, Option-cases, Bool-cases, get_or, get_or-set_cases, get_or-set_ne, set, take,
  replicate, max_vms, ◌==◌, ==_iff, arith,
}
use hypervisor_base.State.{Vm}
use hypervisor_base.Vse.State.{Machine, TrustRecord, trusted, quarantine, zero_trust}
use hypervisor_base.Vse.Level.{index_of, record_at}
use hypervisor_base.Vse.Trust.{Measured, mismatch, is_mismatch, mark_vms, trust_init}

-- one round of the loop
mark_one : (ℕ → List ℕ → Measured) → Vm → List TrustRecord → List TrustRecord
mark_one measure v rs = elim (index_of v.id) [
  | none ↦ rs
  | some ix ↦ set rs ix (record (get_or rs ix zero_trust) {
    level = if is_mismatch (measure v.id v.name) then quarantine else trusted;
  })
]

-- a VM whose record has an index, and whose image is not refused
Passes : (ℕ → List ℕ → Measured) → ℕ → Vm → Type 0
Passes measure ix v = (index_of v.id ≡ some ix) × (measure v.id v.name ≢ mismatch)

pub SomePasses : (ℕ → List ℕ → Measured) → ℕ → List Vm → Type 0
unfolding Passes
SomePasses measure ix [] = ⊥
SomePasses measure ix (v ∷ vs) = Passes measure ix v ⊎ SomePasses measure ix vs

not_refused :
    (x : Measured) → (if is_mismatch x then quarantine else trusted) ≡ trusted → x ≢ mismatch
not_refused x e q =
    let f : quarantine ≡ trusted =
      subst (λ y. (if is_mismatch y then quarantine else trusted) ≡ trusted) {x = x} {y = mismatch}
        q e in
    cc

one-Passes :
    (measure : ℕ → List ℕ → Measured) (v : Vm) (rs : List TrustRecord) (ix : ℕ)
    → (get_or (mark_one measure v rs) ix zero_trust).level ≡ trusted
    → Passes measure ix v ⊎ ((get_or rs ix zero_trust).level ≡ trusted)
unfolding Passes mark_one
one-Passes measure v rs ix e = elim (Option-cases (index_of v.id)) [
  | inl n ↦
      let a : mark_one measure v rs ≡ rs = rw (mark_one, n) refl in
      inr (
        subst (λ xs. (get_or xs ix zero_trust).level ≡ trusted) {x = mark_one measure v rs} {y = rs}
          a e)
  | inr (j, i) ↦
      let w : TrustRecord = record (get_or rs j zero_trust) {
        level = if is_mismatch (measure v.id v.name) then quarantine else trusted;
      } in
      let a : mark_one measure v rs ≡ set rs j w = rw (mark_one, i) refl in
      let b : (get_or (set rs j w) ix zero_trust).level ≡ trusted =
        subst (λ xs. (get_or xs ix zero_trust).level ≡ trusted) {x = mark_one measure v rs}
          {y = set rs j w} a e in
      elim (Bool-cases (j == ix)) [
        | inr n ↦ inr (
            sym (
              ap (λ (r : TrustRecord). r.level) (get_or-set_ne rs j ix w zero_trust (ground arith)))
            ∙ b)
        | inl y ↦
            let q : j ≡ ix = (==_iff j ix).0 y in
            elim (get_or-set_cases rs j ix w zero_trust) [
              | inl new ↦ inl (
                i ∙ ap some q,
                not_refused (measure v.id v.name) (sym (ap (λ (r : TrustRecord). r.level) new) ∙ b),
              )
              | inr old ↦ inr (sym (ap (λ (r : TrustRecord). r.level) old) ∙ b)
            ]
      ]
]

loop-Passes :
    (measure : ℕ → List ℕ → Measured) (vs : List Vm) (rs : List TrustRecord) (ix : ℕ)
    → (get_or (mark_vms measure vs rs) ix zero_trust).level ≡ trusted
    → SomePasses measure ix vs ⊎ ((get_or rs ix zero_trust).level ≡ trusted)
unfolding mark_vms SomePasses mark_one
loop-Passes measure [] rs ix e = inr e
loop-Passes measure (v ∷ vs) rs ix e = elim (loop-Passes measure vs (mark_one measure v rs) ix e) [
  | inl p ↦ inl (inr p)
  | inr old ↦ elim (one-Passes measure v rs ix old) [ inl p ↦ inl (inl p) | inr o ↦ inr o ]
]

blank_record : (n ix : ℕ) → get_or (replicate n zero_trust) ix zero_trust ≡ zero_trust
blank_record zero ix = refl
blank_record (suc n) zero = refl
blank_record (suc n) (suc ix) = blank_record n ix

-- After trust_init a record says that a VM is trusted only if a VM of the table has that record, and
-- the measurement of its image was no mismatch.
pub trust_init-SomePasses :
    (measure : ℕ → List ℕ → Measured) (m : Machine) (ix : ℕ)
    → (record_at (trust_init measure m) ix).level ≡ trusted
    → SomePasses measure ix (take m.core.nvm m.core.vms)
unfolding trust_init
trust_init-SomePasses measure m ix e =
    elim (loop-Passes measure (take m.core.nvm m.core.vms) (replicate max_vms zero_trust) ix e) [
      | inl p ↦ p
      | inr old ↦
          let u : zero_trust.level ≡ trusted =
            sym (ap (λ (r : TrustRecord). r.level) (blank_record max_vms ix)) ∙ old in
          cc
    ]
