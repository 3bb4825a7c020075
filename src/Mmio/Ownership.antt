-- ===== src/Mmio/Ownership.antt =====
-- Who reaches which emulated device of vre/device/mmio_trap.c.
use hypervisor_base.Common.{
  ℕ, ◌+◌, ◌/◌, ◌%◌, ◌<◌, ◌≤◌, Bool, true, false, ◌==◌, List, [], ◌∷◌, some, ◌≡◌, ◌⊎◌, refl, sym,
  ◌∙◌, subst, Bool-cases, Option-cases, inl, inr, Err, arith,
}
use hypervisor_base.State.{Core}
use hypervisor_base.Mmio.{Region, Mmio, mmio_handle, handle_in, access_region, covers, is_foreign}

-- Before the first switch, when the current VM is 0, every region with an owner is foreign, to its
-- owner too.
owned_foreign : (r : Region) → 1 ≤ r.owner_vm_id → is_foreign r 0 ≡ true
unfolding is_foreign
owned_foreign r h = ground (arith, h)

not_foreign :
    (r : Region) (cur : ℕ) → is_foreign r cur ≡ false → (r.owner_vm_id ≡ 0) ⊎ (r.owner_vm_id ≡ cur)
unfolding is_foreign
not_foreign r cur e = elim (Bool-cases (r.owner_vm_id == 0)) [
  | inl z ↦ inl (ground arith)
  | inr z ↦ inr (ground arith)
]

module _ {D : Type 0} (device : ℕ → D → ℕ → Bool → ℕ → Err × ℕ × D) where
  access_foreign :
      (r : Region) (cur : ℕ) (c : Core) (d : D) (fa esr : ℕ)
      → is_foreign r cur ≡ true
      → (access_region device r cur c d fa esr).1 ≡ d
  unfolding access_region
  access_foreign r cur c d fa esr p = rw (p) refl

  access_same :
      (r : Region) (cur : ℕ) (c c' : Core) (d : D) (fa esr : ℕ)
      → (access_region device r cur c d fa esr).1 ≡ (access_region device r cur c' d fa esr).1
  unfolding access_region
  access_same r cur c c' d fa esr = elim (Bool-cases (is_foreign r cur)) [
    | inl e ↦ rw (e, access_region) refl
    | inr e ↦ elim (Option-cases r.fn) [
      | inl n ↦ rw (e, n, access_region) refl
      | inr (f, n) ↦ rw (e, n, access_region) refl
    ]
  ]

  lost_in :
      (rs : List Region) (cur : ℕ) (c c' : Core) (d : D) (fa esr : ℕ)
      → (handle_in device rs cur c d fa esr).1 ≡ (handle_in device rs cur c' d fa esr).1
  unfolding handle_in access_region
  lost_in [] cur c c' d fa esr = refl
  lost_in (r ∷ rs) cur c c' d fa esr = elim (Bool-cases (covers r fa)) [
    | inl e ↦ rw (e, handle_in) (access_same r cur c c' d fa esr)
    | inr e ↦ rw (e, handle_in) (lost_in rs cur c c' d fa esr)
  ]

  -- What an access does to the devices does not depend on the registers of the guest: the value
  -- that a guest stores never reaches a device.
  pub write_lost :
      (m : Mmio) (c c' : Core) (d : D) (fa esr : ℕ)
      → (mmio_handle device m c d fa esr).1 ≡ (mmio_handle device m c' d fa esr).1
  unfolding mmio_handle
  write_lost m c c' d fa esr = lost_in m.regs m.current_vm_id c c' d fa esr

  -- What the devices become is what the handler of the region makes of them; the region is at the
  -- address, and belongs to the VM `cur` or to none.
  pub Serves : Region → ℕ → D → ℕ → ℕ → D → Type 0
  Serves r cur d fa esr d' =
      (f : ℕ) × (r.active ≡ true)
      × (r.base ≤ fa)
      × (fa < r.base + r.sz)
      × ((r.owner_vm_id ≡ 0) ⊎ (r.owner_vm_id ≡ cur))
      × (r.fn ≡ some f)
      × (d' ≡ (device f d fa (esr / 64 % 2 == 1) 0).2)

  pub SomeServes : List Region → ℕ → D → ℕ → ℕ → D → Type 0
  unfolding Serves
  SomeServes [] cur d fa esr d' = ⊥
  SomeServes (r ∷ rs) cur d fa esr d' = Serves r cur d fa esr d' ⊎ SomeServes rs cur d fa esr d'

  access-Serves :
      (r : Region) (cur : ℕ) (c : Core) (d : D) (fa esr : ℕ)
      → covers r fa ≡ true
      → ((access_region device r cur c d fa esr).1 ≡ d)
        ⊎ Serves r cur d fa esr (access_region device r cur c d fa esr).1
  unfolding access_region Serves covers
  access-Serves r cur c d fa esr k = elim (Bool-cases (is_foreign r cur)) [
    | inl e ↦ inl (access_foreign r cur c d fa esr e)
    | inr e ↦ elim (Option-cases r.fn) [
      | inl n ↦ inl (rw (access_region, e, n) refl)
      | inr (f, n) ↦
          let q : (access_region device r cur c d fa esr).1
              ≡ (device f d fa (esr / 64 % 2 == 1) 0).2 =
            rw (access_region, e, n) refl in
          inr (f, ground arith, ground arith, ground arith, not_foreign r cur e, n, q)
    ]
  ]

  handle_in-Serves :
      (rs : List Region) (cur : ℕ) (c : Core) (d : D) (fa esr : ℕ)
      → ((handle_in device rs cur c d fa esr).1 ≡ d)
        ⊎ SomeServes rs cur d fa esr (handle_in device rs cur c d fa esr).1
  unfolding handle_in SomeServes
  handle_in-Serves [] cur c d fa esr = inl refl
  handle_in-Serves (r ∷ rs) cur c d fa esr = elim (Bool-cases (covers r fa)) [
    | inl e ↦
        let q : (handle_in device (r ∷ rs) cur c d fa esr).1
            ≡ (access_region device r cur c d fa esr).1 =
          rw (handle_in, e) refl in
        elim (access-Serves r cur c d fa esr e) [
          | inl k ↦ inl (q ∙ k)
          | inr u ↦ inr (inl (subst (Serves r cur d fa esr) (sym q) u))
        ]
    | inr e ↦
        let q : (handle_in device (r ∷ rs) cur c d fa esr).1
            ≡ (handle_in device rs cur c d fa esr).1 =
          rw (handle_in, e) refl in
        elim (handle_in-Serves rs cur c d fa esr) [
          | inl k ↦ inl (q ∙ k)
          | inr u ↦ inr (inr (subst (SomeServes rs cur d fa esr) (sym q) u))
        ]
  ]

  -- An access leaves the devices as they are, or does what the handler of one of the regions does
  -- at the address and in the direction of the access; that region is active, holds the address,
  -- and belongs to the current VM or to no VM.
  pub mmio_handle-SomeServes :
      (m : Mmio) (c : Core) (d : D) (fa esr : ℕ)
      → ((mmio_handle device m c d fa esr).1 ≡ d)
        ⊎ SomeServes m.regs m.current_vm_id d fa esr (mmio_handle device m c d fa esr).1
  unfolding mmio_handle
  mmio_handle-SomeServes m c d fa esr = handle_in-Serves m.regs m.current_vm_id c d fa esr
