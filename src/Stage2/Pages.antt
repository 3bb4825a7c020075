-- ===== src/Stage2/Pages.antt =====
-- What `s2_ipa_is_mapped` of vre/mmu/stage2.c finds.
use hypervisor_base.Common.{
  ℕ, zero, suc, ◌+◌, ◌*◌, ◌/◌, ◌<◌, ◌≤◌, ◌≡◌, ◌↔◌, refl, sym, subst, ◌∙◌, true, Bool-cases, inl,
  inr, u64, arith,
}
use hypervisor_base.Stage2.{PageTables, page_is_mapped, any_mapped, s2_ipa_is_mapped}

-- One of the first `n` pages from the address on is mapped.
pub SomeMapped : PageTables → ℕ → ℕ → ℕ → Type 0
SomeMapped t pgd ipa n = (k : ℕ) × (k < n) × (page_is_mapped t pgd (u64 (ipa + k * 4096)) ≡ true)

any_mapped_found :
    (n : ℕ) (t : PageTables) (pgd ipa : ℕ)
    → ipa < 18446744073709551616
    → any_mapped n t pgd ipa ≡ true
    → SomeMapped t pgd ipa n
unfolding any_mapped SomeMapped
any_mapped_found zero t pgd ipa w h = cc
any_mapped_found (suc n) t pgd ipa w h = elim (Bool-cases (page_is_mapped t pgd ipa)) [
  | inl y ↦ (
    0,
    omega arith,
    subst (λ a. page_is_mapped t pgd a ≡ true) {x = ipa} {y = u64 (ipa + 0 * 4096)} (omega arith) y,
  )
  | inr f ↦
      let r : any_mapped (suc n) t pgd ipa ≡ any_mapped n t pgd (u64 (ipa + 4096)) =
        rw (any_mapped, f) refl in
      let (k, p, q) = any_mapped_found n t pgd (u64 (ipa + 4096)) (omega arith) (sym r ∙ h) in
      (
        k + 1,
        omega (arith, p),
        subst (λ a. page_is_mapped t pgd a ≡ true) {x = u64 (u64 (ipa + 4096) + k * 4096)}
            {y = u64 (ipa + (k + 1) * 4096)} (omega arith) q,
      )
]

mapped_at :
    (n : ℕ) (t : PageTables) (pgd ipa k : ℕ)
    → ipa < 18446744073709551616
    → k < n
    → page_is_mapped t pgd (u64 (ipa + k * 4096)) ≡ true
    → any_mapped n t pgd ipa ≡ true
unfolding any_mapped
mapped_at zero t pgd ipa k w p q = absurd (omega arith)
mapped_at (suc n) t pgd ipa zero w p q =
    let y : page_is_mapped t pgd ipa ≡ true =
      subst (λ a. page_is_mapped t pgd a ≡ true) {x = u64 (ipa + 0 * 4096)} {y = ipa} (omega arith)
        q in
    rw (any_mapped, y) refl
mapped_at (suc n) t pgd ipa (suc k) w p q = elim (Bool-cases (page_is_mapped t pgd ipa)) [
  | inl y ↦ rw (any_mapped, y) refl
  | inr f ↦
      let r : any_mapped (suc n) t pgd ipa ≡ any_mapped n t pgd (u64 (ipa + 4096)) =
        rw (any_mapped, f) refl in
      let g : any_mapped n t pgd (u64 (ipa + 4096)) ≡ true =
        mapped_at n t pgd (u64 (ipa + 4096)) k (omega arith) (omega (arith, p)) (
          subst (λ a. page_is_mapped t pgd a ≡ true) {x = u64 (ipa + suc k * 4096)}
            {y = u64 (u64 (ipa + 4096) + k * 4096)} (omega arith) q) in
      r ∙ g
]

-- A range of addresses counts as mapped exactly when one of its pages is.
pub ipa_mapped_iff :
    (t : PageTables) (pgd ipa sz : ℕ)
    → ipa < 18446744073709551616
    → (s2_ipa_is_mapped t pgd ipa sz ≡ true) ↔ SomeMapped t pgd ipa ((sz + 4095) / 4096)
unfolding s2_ipa_is_mapped SomeMapped
ipa_mapped_iff t pgd ipa sz w = (
  λ h. any_mapped_found ((sz + 4095) / 4096) t pgd ipa w h,
  λ (k, p, q). mapped_at ((sz + 4095) / 4096) t pgd ipa k w p q,
)

-- A range whose first page is mapped counts as mapped.
pub first_page :
    (t : PageTables) (pgd ipa size : ℕ)
    → ipa < 18446744073709551616
    → 1 ≤ size
    → page_is_mapped t pgd ipa ≡ true
    → s2_ipa_is_mapped t pgd ipa size ≡ true
unfolding SomeMapped
first_page t pgd ipa size w p h = (ipa_mapped_iff t pgd ipa size w).1 (
  0,
  omega arith,
  subst (λ a. page_is_mapped t pgd a ≡ true) {x = ipa} {y = u64 (ipa + 0 * 4096)} (omega arith) h,
)
