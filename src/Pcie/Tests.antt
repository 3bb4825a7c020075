-- ===== src/Pcie/Tests.antt =====
-- Runs of vre/bus/pcie.c with one device assigned.
use hypervisor_base.Common.{ℕ, ◌≡◌, refl, true, false, ◌&&◌, ◌||◌, ◌==◌, [], ◌∷◌, some}
use hypervisor_base.Pcie.{Pcie, pcie_assign_vm, pcie_vm_owns_bdf, pcie_ecam_emulate, vendor_invalid}
use hypervisor_base.Pcie.Access.{IsPoliced, ecam-IsPoliced, ecam_refused, assign_grants}

-- device 2 of bus 0 is VM 1's
abbrev owned : Pcie
owned = record { assignments = record { bus = 0; dev = 2; fn = 0; vm_id = 1 } ∷ []; written = [] }

abbrev answer : ℕ → ℕ
answer off = 0x1234

-- the command register of device 2
ecam-IsPoliced_example : IsPoliced (pcie_ecam_emulate answer owned 1 0x3f010004 true (some 7)).1
ecam-IsPoliced_example = ecam-IsPoliced answer owned 1 0x3f010004 true (some 7) tt

ecam_refused_example :
    (pcie_ecam_emulate answer owned 2 0x3f010004 false (some 7) ≡ (some vendor_invalid, owned))
    × (pcie_ecam_emulate answer owned 2 0x3f010004 true (some 7) ≡ (some 7, owned))
unfolding pcie_vm_owns_bdf
ecam_refused_example = ecam_refused answer owned 2 0x3f010004 7 refl

assign_grants_example :
    pcie_vm_owns_bdf (pcie_assign_vm owned 2 0 3 0).1.assignments 2 0 3 0
    ≡ pcie_vm_owns_bdf owned.assignments 2 0 3 0
      || 2 == 2 && (0 == 255 || 0 == 0 && 3 == 3 && 0 == 0)
unfolding pcie_assign_vm
assign_grants_example = assign_grants owned (pcie_assign_vm owned 2 0 3 0).1 2 0 3 0 2 0 3 0 refl
