-- ===== src/Mmio/Registers.antt =====
-- What vre/device/mmio_trap.c does to the registers of the vCPUs.
use hypervisor_base.Common.{
  ℕ, Bool, ◌&&◌, List, [], ◌∷◌, ◌==◌, ltb, length, set, get_or-set, ◌≡◌, refl, ap, ◌∙◌, Bool-cases,
  Option-cases, inl, inr, if_split, Err, arith,
}
use hypervisor_base.State.{Core, vcpu_at, set_vcpu, zero_vcpu, Vcpu}
use hypervisor_base.Mmio.{
  Mmio, Region, mmio_handle, handle_in, access_region, covers, is_foreign, write_back, srt_of,
  is_write,
}

-- the address at which vCPU `k` goes on
abbrev pub elr_at : Core → ℕ → ℕ
elr_at c k = (vcpu_at c k).elr_el2

pub set_x-elr :
    (c : Core) (j k : ℕ) (x' : List ℕ)
    → elr_at (set_vcpu c j (record (vcpu_at c j) { x = x' })) k ≡ elr_at c k
set_x-elr c j k x' =
    ap (λ (v : Vcpu). v.elr_el2) (get_or-set c.pool j k (record (vcpu_at c j) { x = x' }) zero_vcpu)
    ∙ if_split (λ (v : Vcpu). v.elr_el2 ≡ elr_at c k) (j == k && ltb j (length c.pool))
        (λ e. let same : j ≡ k = ground (arith, e) in ap (elr_at c) same) λ _. refl

write_back-elr : (c : Core) (srt v k : ℕ) → elr_at (write_back c srt v) k ≡ elr_at c k
unfolding write_back
write_back-elr c srt v k =
    if_split (λ (c' : Core). elr_at c' k ≡ elr_at c k) (ltb srt 31)
      (λ _. elim (Option-cases c.current) [
        | inl e ↦ rw (e) refl
        | inr (j, e) ↦ rw (e) (set_x-elr c j k (set (vcpu_at c j).x srt v))
      ])
      λ _. refl

module _ {D : Type 0} (device : ℕ → D → ℕ → Bool → ℕ → Err × ℕ × D) where
  access_region-elr :
      (r : Region) (cur : ℕ) (c : Core) (d : D) (fa esr k : ℕ)
      → elr_at (access_region device r cur c d fa esr).2 k ≡ elr_at c k
  unfolding access_region
  access_region-elr r cur c d fa esr k =
      if_split (λ (t : Region × D × Core). elr_at t.2 k ≡ elr_at c k) (is_foreign r cur)
        (λ _.
          if_split (λ (c' : Core). elr_at c' k ≡ elr_at c k) (is_write esr) (λ _. refl)
            λ _. write_back-elr c (srt_of esr) 0 k)
        λ _. elim (Option-cases r.fn) [
          | inl e ↦ rw (e) refl
          | inr (f, e) ↦ rw (e) (
              if_split (λ (c' : Core). elr_at c' k ≡ elr_at c k) (is_write esr) (λ _. refl)
                λ _. write_back-elr c (srt_of esr) (device f d fa (is_write esr) 0).1 k)
        ]

  handle_in-elr :
      (rs : List Region) (cur : ℕ) (c : Core) (d : D) (fa esr k : ℕ)
      → elr_at (handle_in device rs cur c d fa esr).2 k ≡ elr_at c k
  unfolding handle_in
  handle_in-elr [] cur c d fa esr k = refl
  handle_in-elr (r ∷ rs) cur c d fa esr k = elim (Bool-cases (covers r fa)) [
    | inl e ↦ rw (e, handle_in) (access_region-elr r cur c d fa esr k)
    | inr e ↦ rw (e, handle_in) (handle_in-elr rs cur c d fa esr k)
  ]

  -- An emulated access leaves the address at which each vCPU goes on.
  pub mmio_handle-elr :
      (m : Mmio) (c : Core) (d : D) (fa esr k : ℕ)
      → elr_at (mmio_handle device m c d fa esr).2 k ≡ elr_at c k
  unfolding mmio_handle
  mmio_handle-elr m c d fa esr k = handle_in-elr m.regs m.current_vm_id c d fa esr k
