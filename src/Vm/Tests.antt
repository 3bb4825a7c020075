-- ===== src/Vm/Tests.antt =====
-- Runs of the life cycle of core/vm/vm.c on a machine with two VMs.
use hypervisor_base.Common.{ℕ, zero, suc, ◌+◌, ◌<◌, ◌≡◌, refl, false, get_or, [], ◌∷◌, arith}
use hypervisor_base.State.{Core, stopped, vm_at, zero_vm}
use hypervisor_base.Samples.{core, linux_vm}
use hypervisor_base.Vm.{is_none}
use hypervisor_base.Vm.Table.{IsTable}
use hypervisor_base.Vm.Lifecycle.{
  suspend, resume, stop, start, apply, next, verdict, state_at, apply_refines, apply_other,
  apply-IsTable, requests, stopped_stays,
}

apply_refines_example :
    ((apply core 0 suspend).0, state_at (apply core 0 suspend).1 0)
    ≡ verdict (next (state_at core 0) suspend) (state_at core 0)
apply_refines_example = apply_refines core 0 suspend (omega arith)

apply_other_example : vm_at (apply core 0 stop).1 1 ≡ vm_at core 1
apply_other_example = apply_other core 0 1 stop (omega arith)

core-IsTable : IsTable core.vms core.nvm
core-IsTable = record { entries = refl; few = omega arith; ids = ids; present = present }
  where
    ids : (i : ℕ) → i < 2 → (get_or core.vms i zero_vm).id ≡ i + 1
    ids zero h = refl
    ids (suc zero) h = refl
    ids (suc (suc i)) h = absurd (omega arith)

    present : (i : ℕ) → i < 2 → is_none (get_or core.vms i zero_vm).state ≡ false
    present zero h = refl
    present (suc zero) h = refl
    present (suc (suc i)) h = absurd (omega arith)

apply-IsTable_example : IsTable (apply core 0 stop).1.vms (apply core 0 stop).1.nvm
apply-IsTable_example = apply-IsTable core 0 stop core-IsTable

-- the Linux VM stopped
abbrev halted : Core
halted = record core { vms = record linux_vm { state = stopped } ∷ [] }

stopped_stays_example : state_at (requests halted 0 (start ∷ resume ∷ [])) 0 ≡ stopped
stopped_stays_example = stopped_stays halted 0 (start ∷ resume ∷ []) (omega arith) refl
