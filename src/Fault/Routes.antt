-- ===== src/Fault/Routes.antt =====
-- Which faults of core/fault/fault.c reach the emulated devices, and where the guest goes on.
use hypervisor_base.Common.{
  ℕ, ◌+◌, ◌<◌, ◌≤◌, Bool, true, false, Option, none, some, ◌≡◌, refl, Err, arith,
}
use hypervisor_base.Vse.State.{Machine}
use hypervisor_base.Pcie.{ecam_base, ecam_size}
use hypervisor_base.Mmio.{Mmio}
use hypervisor_base.Mmio.Registers.{elr_at, mmio_handle-elr}
use hypervisor_base.Fault.{is_mmio, fault_dabt, report_dabt}

module _ {D : Type 0} (device : ℕ → D → ℕ → Bool → ℕ → Err × ℕ × D) where
  -- what a handled abort leaves: the same vCPUs' return addresses
  abbrev pub StaysAt : Machine → Option (Machine × Mmio × D) → Type 0
  StaysAt m none = Unit
  StaysAt m (some (m', mmio, d)) = (k : ℕ) → elr_at m'.core k ≡ elr_at m.core k

  -- what an abort that no device handles leaves: the devices and their table
  abbrev pub LeavesDevices : Mmio → D → Option (Machine × Mmio × D) → Type 0
  LeavesDevices mmio d none = Unit
  LeavesDevices mmio d (some (m', mmio', d')) = (mmio' ≡ mmio) × (d' ≡ d)

  -- An access in the window from 0x08000000 to 0x08ffffff is emulated without moving the guest on:
  -- every vCPU continues at the address that it had, which for the guest is the access itself.
  pub mmio_repeats :
      (m : Machine) (mmio : Mmio) (d : D) (far elr hpfar esr : ℕ)
      → is_mmio far ≡ true
      → StaysAt m (fault_dabt device m mmio d far elr hpfar esr)
  unfolding fault_dabt
  mmio_repeats m mmio d far elr hpfar esr e =
      rw (e, fault_dabt) (λ k. mmio_handle-elr device mmio m.core d far esr k)

  reported :
      (m : Machine) (mmio : Mmio) (d : D) (o : Option Machine)
      → LeavesDevices mmio d (elim o as (λ _. Option (Machine × Mmio × D)) [
        | none ↦ none
        | some m' ↦ some (m', mmio, d)
      ])
  reported m mmio d none = tt
  reported m mmio d (some m') = (refl, refl)

  -- An access to the configuration space of PCIe never reaches an emulated device.
  pub ecam_not_emulated :
      (m : Machine) (mmio : Mmio) (d : D) (far elr hpfar esr : ℕ)
      → ecam_base ≤ far
      → far < ecam_base + ecam_size
      → LeavesDevices mmio d (fault_dabt device m mmio d far elr hpfar esr)
  unfolding fault_dabt is_mmio
  ecam_not_emulated m mmio d far elr hpfar esr p q =
      let e : is_mmio far ≡ false = ground (arith, p, q) in
      rw (e, fault_dabt) (reported m mmio d (report_dabt m far elr hpfar esr))
